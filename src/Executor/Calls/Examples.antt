-- ===== src/Executor/Calls/Examples.antt =====
-- Runs of the matching of calls, and its theorems at a concrete Taskfile.
use task_rs.Base.{
  ℕ, ◌≡◌, refl, ◌↔◌, Bool, true, false, ◌&&◌, none, some, List, [], ◌∷◌, Text, codes, ◌=ₜ◌, Map,
  lookup, All, ok, err,
}
use task_rs.Taskfile.Task.{Task}
use task_rs.Executor.Calls.{
  CallRest, Call, name_conflict, task_not_found, values, has_alias, aliased, find_matching_tasks,
  get_task, will_watch, split_regular_and_watch,
}
use task_rs.Executor.Calls.Found.{IsOther, get_task-not_found, split_regular_and_watch-will_watch}

abbrev task : Text → List Text → Bool → Bool → Task ℕ (CallRest ℕ)
task name aliases internal watch = record {
  task = name;
  label = [];
  full_name = [];
  namespace = [];
  setup = [];
  deps = [];
  cmds = [];
  aliases = aliases;
  sources = [];
  generates = [];
  sandbox = none;
  dirs = [];
  silent = none;
  internal = internal;
  include_vars = none;
  included_taskfile_vars = none;
  other = record { watch = watch; other = 0 };
}

abbrev file : Map (Task ℕ (CallRest ℕ))
file =
    (codes "build", task (codes "build") (codes "b" ∷ []) false false)
    ∷ (codes "serve", task (codes "serve") (codes "b" ∷ codes "s" ∷ []) false true)
    ∷ []

abbrev call : Text → Call ℕ
call name = record { task = name; vars = 0 }

conflict :
    find_matching_tasks (some file) (codes "b")
    ≡ err (name_conflict (codes "b") (codes "build" ∷ codes "serve" ∷ []))
unfolding find_matching_tasks lookup ◌=ₜ◌ values aliased has_alias
conflict = refl

alias_found :
    get_task (some file) (codes "s")
    ≡ ok (task (codes "serve") (codes "b" ∷ codes "s" ∷ []) false true)
unfolding get_task find_matching_tasks lookup ◌=ₜ◌ values aliased has_alias
alias_found = refl

split_calls :
    split_regular_and_watch (some file) false (call (codes "build") ∷ call (codes "s") ∷ [])
    ≡ ok (call (codes "build") ∷ [], call (codes "s") ∷ [])
unfolding split_regular_and_watch get_task find_matching_tasks lookup ◌=ₜ◌ values aliased has_alias
split_calls = refl

split_regular_and_watch-will_watch_example :
    true ≡ (true && will_watch (some file) false (call (codes "build") ∷ call (codes "s") ∷ []))
split_regular_and_watch-will_watch_example =
    split_regular_and_watch-will_watch (some file) false
      (call (codes "build") ∷ call (codes "s") ∷ []) (call (codes "build") ∷ [])
      (call (codes "s") ∷ []) split_calls

get_task-not_found_example :
    (get_task (some file) (codes "test") ≡ err (task_not_found (codes "test")))
    ↔ ((lookup (codes "test") file ≡ none) × All (IsOther (codes "test")) (values file))
get_task-not_found_example = get_task-not_found file (codes "test")

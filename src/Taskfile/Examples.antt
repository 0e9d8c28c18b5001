-- ===== src/Taskfile/Examples.antt =====
-- Runs of merging Taskfiles, and its theorems at a concrete include.
use task_rs.Base.{
  Bool, ends_with, ◌≡◌, refl, true, false, none, some, [], ◌∷◌, ℕ, codes, ◌=ₜ◌, insert, lookup,
  keys, ◌++◌, In, inl, inr, arith,
}
use task_rs.Taskfile.Names.{strip_prefix}
use task_rs.Taskfile.Vars
use task_rs.Taskfile.Vars.{
  Include, Vars, merge_lem, reverse_merge_lem, stamp, Var, Dialect, or_else, stamped, new_keys,
  IsIndex, reverse_merge,
}
use task_rs.Taskfile.Task.{Task, local_name}
use task_rs.Taskfile.Merge.{
  Tasks, ok, multiple, merge, merge_loop, merge_task, after_loop, alias_default, namespaced,
}
use task_rs.Taskfile.Wildcard.{
  wildcard_match, match_loop, wildcard_captures, stars, or_continue, split_star, captures_segments,
  captures_after, captures_loop, find_segment, rfind, cons_capture,
}
use task_rs.Taskfile.Wildcard.Fill.{fill}
use task_rs.Taskfile.Wildcard.Greedy.{
  MatchPost, wildcard_match-Post, wildcard_captures-one, wildcard_captures-misses,
}
use task_rs.Taskfile.File
use task_rs.Taskfile.File.Outcome.{FilePost, merge-FilePost}
use task_rs.Taskfile.Merge.Identity.{IsNamed, namespaced-IsNamed}

abbrev build : Task ℕ ℕ
build = record {
  task = codes "build";
  label = [];
  full_name = [];
  namespace = [];
  setup = [];
  deps = record { task = codes "lint"; other = 0 } ∷ [];
  cmds = [];
  aliases = codes "b" ∷ [];
  sources = [];
  generates = [];
  sandbox = none;
  dirs = [];
  silent = none;
  internal = false;
  include_vars = none;
  included_taskfile_vars = none;
  other = 0;
}

abbrev sub : Include ℕ
sub = record {
  namespace = codes "sub";
  taskfile = [];
  dir = codes "dir";
  optional = false;
  internal = false;
  aliases = codes "s" ∷ [];
  excludes = [];
  advanced_import = false;
  vars = none;
  flatten = false;
}

abbrev included : Tasks ℕ ℕ
included = (codes "build", build) ∷ []

abbrev a_var : ℕ → Var ℕ
a_var n = record {
  value = some n;
  live = none;
  sh = none;
  ref_ = [];
  dir = [];
  dialect = Dialect.jinja;
}

abbrev ab : Vars ℕ
ab = (codes "A", a_var 1) ∷ (codes "B", a_var 2) ∷ []

abbrev bc : Vars ℕ
bc = (codes "C", a_var 3) ∷ (codes "B", a_var 4) ∷ []

renames_dep :
    merge [] included sub []
    ≡ ok (
        (
          codes "sub:build",
          record build {
            task = codes "sub:build";
            namespace = codes "sub";
            deps = record { task = codes "sub:lint"; other = 0 } ∷ [];
            aliases = codes "sub:b" ∷ codes "s:build" ∷ codes "s:b" ∷ [];
          },
        )
        ∷ [])
unfolding merge after_loop merge_loop alias_default lookup insert ◌=ₜ◌ merge_task
renames_dep = refl

refuses_twice :
    merge ((codes "sub:build", build) ∷ []) included sub []
    ≡ multiple (codes "sub:build") (codes "sub")
unfolding merge after_loop merge_loop alias_default lookup insert ◌=ₜ◌ merge_task
refuses_twice = refl

build-IsNamed : IsNamed (codes "build") build
build-IsNamed = (refl, refl, unfold strip_prefix in refl)

namespaced-IsNamed_example :
    IsNamed (codes "build") (namespaced sub (codes "build") build)
    × (local_name (namespaced sub (codes "build") build) ≡ codes "build")
    × (local_name build ≡ codes "build")
namespaced-IsNamed_example =
    namespaced-IsNamed sub (codes "build") build build-IsNamed refl (unfold strip_prefix in refl)

ab-IsIndex : IsIndex ab
unfolding lookup ◌=ₜ◌
ab-IsIndex = (refl, (refl, tt))

bc-IsIndex : IsIndex bc
unfolding lookup ◌=ₜ◌
bc-IsIndex = (refl, (refl, tt))

merge_lem_example :
    (lookup (codes "B") (Vars.merge ab bc (some sub))
      ≡ or_else (stamped (some sub) (lookup (codes "B") bc)) (lookup (codes "B") ab))
    × (keys (Vars.merge ab bc (some sub)) ≡ keys ab ++ new_keys ab bc)
merge_lem_example = merge_lem ab bc (some sub) (codes "B") bc-IsIndex

abbrev rule : Task ℕ ℕ
rule = record build { task = codes "build-*-*"; aliases = codes "b-*" ∷ [] }

captures_two : wildcard_match rule (codes "build-a-b-c") ≡ (true, codes "a-b" ∷ codes "c" ∷ [])
unfolding wildcard_match match_loop wildcard_captures stars or_continue split_star captures_segments
    captures_after captures_loop find_segment rfind ends_with cons_capture strip_prefix ◌=ₜ◌
captures_two = refl

wildcard_match-Post_example :
    MatchPost
      (codes "build-*-*" ∷ codes "b-*" ∷ [])
      (codes "b-x")
      (wildcard_match rule (codes "b-x"))
wildcard_match-Post_example = wildcard_match-Post rule (codes "b-x")

wildcard_captures-one_example :
    wildcard_captures (codes "a*b") (codes "axyb") ≡ some (codes "xy" ∷ [])
wildcard_captures-one_example =
    wildcard_captures-one (codes "a") (codes "b") (codes "xy") (unfold stars in refl)
      (unfold stars in refl)

x_no_dash : In b'-' (codes "x") → ⊥
x_no_dash i = elim i [ inl e ↦ absurd (ground (arith, e)) | inr e ↦ e ]

wildcard_captures-misses_example :
    (fill (codes "*-*-x") (codes "a" ∷ codes "b" ∷ []) ≡ codes "a-b-x")
    × (wildcard_captures (codes "*-*-x") (codes "a-b-x") ≡ none)
wildcard_captures-misses_example =
    wildcard_captures-misses (codes "a") (codes "b") (codes "x") x_no_dash (unfold stars in refl)

abbrev file : Bool → Tasks ℕ ℕ → Vars ℕ → File.Taskfile ℕ ℕ ℕ
file silent tasks vars = record {
  version = some (codes "3");
  output = 0;
  dotenv = [];
  silent = silent;
  vars = vars;
  env = [];
  tasks = tasks;
}

merge-FilePost_example :
    FilePost
      (λ n. true)
      (file false [] ab)
      (file true included bc)
      sub
      (File.merge (λ n. true) (file false [] ab) (file true included bc) sub)
merge-FilePost_example = merge-FilePost (λ n. true) (file false [] ab) (file true included bc) sub

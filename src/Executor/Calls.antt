-- ===== src/Executor/Calls.antt =====
-- The matching of calls to tasks, of crates/taskcore/src/executor/run.rs, with `Tasks::all` of
-- crates/taskcore/src/ast/tasks.rs.
pub mod Found
mod Examples
use task_rs.Base.{
  ℕ, zero, suc, Bool, true, false, not, ◌&&◌, ◌||◌, Option, none, some, List, [], ◌∷◌, ◌++◌, map,
  if◌then◌else◌, Text, ◌=ₜ◌, Map, lookup, keys, any, Result, ok, err, ◌>>=◌, ◌>>◌, guard,
}
use task_rs.Taskfile.Task.{Task}
use task_rs.Taskfile.Wildcard.{wildcard_match}

-- What a call reads of its task here: whether it is watched, and what is carried along.
pub record CallRest (O : Type 0) : Type 0 where
  pub watch : Bool
  pub other : O

-- A call, with the variables that it passes on.
pub record Call (W : Type 0) : Type 0 where
  pub task : Text
  pub vars : W

pub data CallError : Type 0 where
  not_set_up : CallError
  name_conflict : Text → List Text → CallError
  task_not_found : Text → CallError
  task_internal : Text → CallError

abbrev pub put :
    {W : Type 0} → Bool → Call W → List (Call W) × List (Call W) → List (Call W) × List (Call W)
put true call (regular, watched) = (regular, call ∷ watched)
put false call (regular, watched) = (call ∷ regular, watched)

pub record MatchingTask (V O : Type 0) : Type 0 where
  pub task : Task V (CallRest O)
  pub wildcards : List Text

module _ {V O : Type 0} where
  abbrev get_each : Map (Task V (CallRest O)) → List Text → List (Task V (CallRest O))
  get_each tasks [] = []
  get_each tasks (k ∷ ks) = elim (lookup k tasks) [
    | none ↦ get_each tasks ks
    | some t ↦ t ∷ get_each tasks ks
  ]

  -- `Tasks::values` in the order of definition.
  unfoldable pub values : Map (Task V (CallRest O)) → List (Task V (CallRest O))
  unfolding lookup
  values tasks = get_each tasks (keys tasks)

  unfoldable pub has_alias : Task V (CallRest O) → Text → Bool
  unfolding ◌=ₜ◌
  has_alias t name = any (λ (a : Text). a =ₜ name) t.aliases

  unfoldable pub aliased : List (Task V (CallRest O)) → Text → List (Task V (CallRest O))
  unfolding has_alias
  aliased [] name = []
  aliased (t ∷ ts) name = let rest = aliased ts name in if has_alias t name then t ∷ rest else rest

  abbrev pub and_match :
      Task V (CallRest O) → Bool × List Text → List (MatchingTask V O) → List (MatchingTask V O)
  and_match t (false, wildcards) rest = rest
  and_match t (true, wildcards) rest = record { task = t; wildcards = wildcards } ∷ rest

  unfoldable pub wildcard_matches : List (Task V (CallRest O)) → Text → List (MatchingTask V O)
  unfolding wildcard_match
  wildcard_matches [] name = []
  wildcard_matches (t ∷ ts) name = and_match t (wildcard_match t name) (wildcard_matches ts name)

  abbrev task_names : List (Task V (CallRest O)) → List Text
  task_names [] = []
  task_names (t ∷ ts) = t.task ∷ task_names ts

  abbrev pub without_wildcards : Task V (CallRest O) → MatchingTask V O
  without_wildcards t = record { task = t; wildcards = [] }

  -- By alias, when one task has it, and by pattern, when none has.
  abbrev pub by_alias :
      Text
      → List (Task V (CallRest O))
      → List (MatchingTask V O)
      → Result CallError (List (MatchingTask V O))
  by_alias name [] matches = ok matches
  by_alias name (t ∷ []) matches = ok (without_wildcards t ∷ [])
  by_alias name (t ∷ u ∷ ts) matches = err (name_conflict name (task_names (t ∷ u ∷ ts)))

  abbrev pub by_name :
      Option (Task V (CallRest O))
      → Result CallError (List (MatchingTask V O))
      → Result CallError (List (MatchingTask V O))
  by_name (some t) others = ok (without_wildcards t ∷ [])
  by_name none others = others

  -- The tasks of the Taskfile, when there is one.
  unfoldable pub find_matching_tasks :
      Option (Map (Task V (CallRest O))) → Text → Result CallError (List (MatchingTask V O))
  unfolding values aliased wildcard_matches lookup
  find_matching_tasks none name = err not_set_up
  find_matching_tasks (some tasks) name =
      by_name (lookup name tasks)
        (by_alias name (aliased (values tasks) name) (wildcard_matches (values tasks) name))

  abbrev pub first_match :
      Text → Result CallError (List (MatchingTask V O)) → Result CallError (MatchingTask V O)
  first_match name (err e) = err e
  first_match name (ok []) = err (task_not_found name)
  first_match name (ok (m ∷ ms)) = ok m

  -- `get_task_with_match`
  unfoldable pub get_task_with_match :
      Option (Map (Task V (CallRest O))) → Text → Result CallError (MatchingTask V O)
  unfolding find_matching_tasks
  get_task_with_match tasks name = first_match name (find_matching_tasks tasks name)

  unfoldable pub get_task :
      Option (Map (Task V (CallRest O))) → Text → Result CallError (Task V (CallRest O))
  unfolding find_matching_tasks
  get_task tasks name = first_match name (find_matching_tasks tasks name) >>= λ m. ok m.task

  abbrev pub is_watched : Result CallError (Task V (CallRest O)) → Bool
  is_watched (ok t) = t.other.watch
  is_watched (err e) = false

  module _ {W : Type 0} (tasks : Option (Map (Task V (CallRest O)))) where
    -- `run_calls`: every task exists and is not internal.
    unfoldable pub check_calls : List (Call W) → Result CallError (Unit {0})
    unfolding get_task
    check_calls [] = ok tt
    check_calls (call ∷ calls) = do
      task ← get_task tasks call.task
      guard (not task.internal) (task_internal call.task)
      check_calls calls

    unfoldable pub will_watch : Bool → List (Call W) → Bool
    unfolding get_task
    will_watch watch calls =
        if watch then true else any (λ (call : Call W). is_watched (get_task tasks call.task)) calls

    unfoldable pub split_regular_and_watch :
        Bool → List (Call W) → Result CallError (List (Call W) × List (Call W))
    unfolding get_task
    split_regular_and_watch watch [] = ok ([], [])
    split_regular_and_watch watch (call ∷ calls) = do
      task ← get_task tasks call.task
      both ← split_regular_and_watch watch calls
      ok (put (watch || task.other.watch) call both)

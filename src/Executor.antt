-- ===== src/Executor.antt =====
-- The admission of a task to a run, from crates/taskcore/src/executor/run.rs: the path of the tasks
-- that run above a call, and the guards of `run_task_on` before the task is started. What compiling,
-- hashing and the sandbox make of a task is an argument.
pub mod Cycle
pub mod Count
pub mod Calls
mod Examples
use mathlib.Core.List.{reverse}
use task_rs.Base.{
  ℕ, zero, suc, Bool, true, false, not, ◌&&◌, ◌||◌, Option, none, some, List, [], ◌∷◌, ◌++◌, min,
  leb, if◌then◌else◌, Text, ◌=ₜ◌, Map, lookup, insert,
}
use task_rs.Taskfile.Task.{is_empty}

-- Which failures of a called task its caller ignores.
pub data Ignored : Type 0 where
  no callee all : Ignored

abbrev pub is_no : Ignored → Bool
is_no no = true
is_no callee = false
is_no all = false

-- `Ord::max`
abbrev pub max_ignored : Ignored → Ignored → Ignored
max_ignored no b = b
max_ignored callee all = all
max_ignored callee no = callee
max_ignored callee callee = callee
max_ignored all b = all

abbrev pub all_or_no : Ignored → Ignored
all_or_no no = no
all_or_no callee = no
all_or_no all = all

-- One task on a dependency path; `L` is the type of the sandbox layers.
pub record Level (L : Type 0) : Type 0 where
  pub key : Text
  pub name : Text
  pub layers : Option L
  pub ignored : Bool
  pub calls : Ignored

-- The levels above a call, innermost first: `CallPath` with its parents, or none.
abbrev pub Ancestors : Type 0 → Type 0
Ancestors L = List (Level L)

module _ {L : Type 0} where
  abbrev pub calls_of : Ancestors L → Ignored
  calls_of [] = no
  calls_of (level ∷ path) = level.calls

  abbrev pub layers_of : Ancestors L → Option L
  layers_of [] = none
  layers_of (level ∷ path) = level.layers

  -- `CallPath::ignored`
  abbrev pub is_ignored : Ancestors L → Bool
  is_ignored [] = false
  is_ignored (level ∷ path) = level.ignored

  -- `CallPath::extend`
  abbrev pub extend : Ancestors L → Text → Text → Ancestors L
  extend path key name =
      record {
        key = key;
        name = name;
        layers = layers_of path;
        ignored = not (is_no (calls_of path));
        calls = all_or_no (calls_of path);
      }
      ∷ path

  -- `CallPath::calling`
  abbrev pub calling : Ancestors L → Ignored → Ancestors L
  calling [] how = []
  calling (level ∷ path) how = record level { calls = max_ignored level.calls how } ∷ path

  -- `CallPath::with_layers`
  abbrev pub with_layers : Ancestors L → L → Ancestors L
  with_layers [] layers = []
  with_layers (level ∷ path) layers = record level { layers = some layers } ∷ path

  -- `CallPath::contains`
  unfoldable pub contains : Ancestors L → Text → Bool
  unfolding ◌=ₜ◌
  contains [] key = false
  contains (level ∷ path) key = level.key =ₜ key || contains path key

  -- The names that `to_path_through` collects, before it reverses them.
  unfoldable pub names_up : Ancestors L → List Text
  names_up [] = []
  names_up (level ∷ path) = level.name ∷ names_up path

  -- `CallPath::to_path_through`
  unfoldable pub to_path_through : Ancestors L → Text → List Text
  unfolding names_up
  to_path_through path task = reverse (task ∷ names_up path)

-- The names of a compiled task, and the digest of its body, if it has one.
pub record Compiled : Type 0 where
  pub task : Text
  pub full_name : Text
  pub digest : Option Text

abbrev pub run_name : Compiled → Text
run_name t = if is_empty t.full_name then t.task else t.full_name

abbrev pub keyed : Text → Option Text → Text
keyed name none = name
keyed name (some digest) = name ++ 0 ∷ digest

-- The key on the path: the name, a NUL and the digest.
abbrev pub run_key : Compiled → Text
run_key t = keyed (run_name t) t.digest

abbrev pub maximum_task_call : ℕ
maximum_task_call = 1000

abbrev pub i32_max : ℕ
i32_max = 2147483647

abbrev pub or_zero : Option ℕ → ℕ
or_zero none = 0
or_zero (some n) = n

unfoldable pub call_count : Map ℕ → Text → ℕ
unfolding lookup
call_count counts task = or_zero (lookup task counts)

pub data Admission (L : Type 0) : Type 0 where
  cyclic_dependency : List Text → Admission L
  called_too_many_times : Text → Admission L
  admitted : Ancestors L → Admission L

module _ {L : Type 0} where
  -- The call counter, unless the run watches.
  unfoldable pub count_call : Bool → Map ℕ → Text → Ancestors L → Admission L × Map ℕ
  unfolding call_count insert
  count_call true counts task path = (admitted path, counts)
  count_call false counts task path =
      let count = min (suc (call_count counts task)) i32_max in
      (
        if leb maximum_task_call count then called_too_many_times task else admitted path,
        insert task count counts,
      )

  -- `run_task_on`, from the name of the task to the start of its execution.
  unfoldable pub admit : Bool → Map ℕ → Ancestors L → Compiled → Admission L × Map ℕ
  unfolding contains to_path_through count_call
  admit watch counts ancestors t =
      if contains ancestors (run_key t)
      then (cyclic_dependency (to_path_through ancestors (run_name t)), counts)
      else count_call watch counts t.task (extend ancestors (run_key t) (run_name t))

  -- The tasks that are admitted of a sequence of calls.
  abbrev pub and_admitted : Compiled → Admission L → List Compiled → List Compiled
  and_admitted t (admitted path) rest = t ∷ rest
  and_admitted t (cyclic_dependency path) rest = rest
  and_admitted t (called_too_many_times task) rest = rest

  unfoldable pub admit_all : Bool → Map ℕ → List (Ancestors L × Compiled) → List Compiled
  unfolding admit
  admit_all watch counts [] = []
  admit_all watch counts ((ancestors, t) ∷ calls) =
      let (answer, after) = admit watch counts ancestors t in
      and_admitted t answer (admit_all watch after calls)

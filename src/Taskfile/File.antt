-- ===== src/Taskfile/File.antt =====
-- `Taskfile` of crates/taskcore/src/ast/taskfile.rs, and `Taskfile::merge`. Fields that an include
-- neither reads nor writes are left out.
pub mod Outcome
use task_rs.Base.{
  Bool, true, false, not, Option, none, some, List, [], ◌∷◌, if◌then◌else◌, Text, ◌=ₜ◌,
}
use task_rs.Taskfile.Vars
use task_rs.Taskfile.Vars.{Vars, Include}
use task_rs.Taskfile.Merge
use task_rs.Taskfile.Merge.{Tasks, Merged, ok, multiple, merge_loop, after_loop}

-- `W` is the `output` setting.
pub record Taskfile (V O W : Type 0) : Type 0 where
  pub version : Option Text
  pub output : W
  pub dotenv : List Text
  pub silent : Bool
  pub vars : Vars V
  pub env : Vars V
  pub tasks : Tasks V O

-- The messages of `Taskfile::merge` and of `Tasks::merge`.
pub data MergeError : Type 0 where
  versions_should_match : Option Text → Option Text → MergeError
  included_dotenvs : MergeError
  multiple_tasks : Text → Text → MergeError

pub data Result (A : Type 0) : Type 0 where
  done : A → Result A
  failed : MergeError → Result A

-- `==` of `Option<String>`
unfoldable pub same_version : Option Text → Option Text → Bool
unfolding ◌=ₜ◌
same_version none none = true
same_version none (some v) = false
same_version (some v) none = false
same_version (some v) (some w) = v =ₜ w

abbrev pub no_dotenvs : List Text → Bool
no_dotenvs [] = true
no_dotenvs (d ∷ ds) = false

abbrev pub or_silent : Option Bool → Option Bool
or_silent none = some true
or_silent (some b) = some b

module _ {V O : Type 0} where
  -- The tasks of a silent Taskfile that have not set `silent` inherit it.
  unfoldable pub silence : Tasks V O → Tasks V O
  silence [] = []
  silence ((name, t) ∷ tasks) = (name, record t { silent = or_silent t.silent }) ∷ silence tasks

-- The tasks that are merged: those of a silent Taskfile inherit that.
abbrev pub tasks_of : {V O W : Type 0} → Taskfile V O W → Tasks V O
tasks_of other = if other.silent then silence other.tasks else other.tasks

-- The tasks of `self`, unless they failed to merge. A failed merge
-- ends the reading, so what it has written by then is left out.
unfoldable pub with_tasks : {V O W : Type 0} → Taskfile V O W → Merged V O → Result (Taskfile V O W)
with_tasks self (ok tasks) = done (record self { tasks = tasks })
with_tasks self (multiple name namespace) = failed (multiple_tasks name namespace)

module _ {V O W : Type 0} (output_is_set : W → Bool) where
  -- What is merged once the versions match and there are no dotenvs.
  unfoldable pub merge_matching :
      Taskfile V O W → Taskfile V O W → Include V → Result (Taskfile V O W)
  unfolding silence Vars.merge Merge.merge with_tasks
  merge_matching self other include =
      let output = if output_is_set other.output then other.output else self.output in
      let vars = Vars.merge self.vars other.vars (some include) in
      let env = Vars.merge self.env other.env (some include) in
      with_tasks (record self { output = output; vars = vars; env = env })
        (Merge.merge self.tasks (tasks_of other) include vars)

  unfoldable pub merge : Taskfile V O W → Taskfile V O W → Include V → Result (Taskfile V O W)
  unfolding same_version merge_matching
  merge self other include =
      if not (same_version self.version other.version)
      then failed (versions_should_match self.version other.version)
      else if not (no_dotenvs other.dotenv)
      then failed included_dotenvs
      else merge_matching self other include

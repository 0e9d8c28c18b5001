-- ===== src/Taskfile/Task.antt =====
-- crates/taskcore/src/ast/task.rs: a task, as far as includes and names touch it. `O` stands for the
-- fields that are carried along and never read here.
use task_rs.Base.{Bool, true, false, Option, none, some, List, [], ◌∷◌, if◌then◌else◌, Text}
use task_rs.Taskfile.Names.{strip_prefix, namespace_separator}
use task_rs.Taskfile.Vars.{Vars}

-- dep.rs
pub record Dep (O : Type 0) : Type 0 where
  pub task : Text
  pub other : O

-- cmd.rs
pub record Cmd (O : Type 0) : Type 0 where
  pub task : Text
  pub other : O

-- glob.rs
pub record Glob (O : Type 0) : Type 0 where
  pub task : Text
  pub other : O

-- sandbox.rs
pub record Sandbox (O : Type 0) : Type 0 where
  pub write_tasks : List (Glob O)
  pub other : O

pub record Task (V O : Type 0) : Type 0 where
  pub task : Text
  pub label : Text
  pub full_name : Text
  pub namespace : Text
  pub setup : List (Dep O)
  pub deps : List (Dep O)
  pub cmds : List (Cmd O)
  pub aliases : List Text
  pub sources : List (Glob O)
  pub generates : List (Glob O)
  pub sandbox : Option (Sandbox O)
  pub dirs : List Text
  pub silent : Option Bool
  pub internal : Bool
  pub include_vars : Option (Vars V)
  pub included_taskfile_vars : Option (Vars V)
  pub other : O

abbrev pub is_empty : Text → Bool
is_empty [] = true
is_empty (c ∷ s) = false

abbrev pub or_self : Option Text → Text → Text
or_self none s = s
or_self (some t) s = t

module _ {V O : Type 0} where
  -- `Task::name`
  unfoldable pub name : Task V O → Text
  name t =
      if is_empty t.label then (if is_empty t.full_name then t.task else t.full_name) else t.label

  -- `Task::local_name`
  unfoldable pub local_name : Task V O → Text
  unfolding strip_prefix
  local_name t =
      let full = if is_empty t.full_name then t.task else t.full_name in
      let trimmed = or_self (strip_prefix t.namespace full) full in
      or_self (strip_prefix namespace_separator trimmed) trimmed

  unfoldable pub is_silent : Task V O → Bool
  is_silent t = elim t.silent [ none ↦ false | some s ↦ s ]

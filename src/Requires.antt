-- ===== src/Requires.antt =====
-- crates/taskcore/src/requires.rs, with ast/requires.rs: the variables that a task requires. What a
-- value is as a string is a parameter.
pub mod Outside
pub mod Checks
mod Examples
use task_rs.Base.{
  ℕ, Bool, true, false, not, ◌&&◌, ◌||◌, Option, none, some, List, [], ◌∷◌, ◌++◌, if◌then◌else◌,
  Text, codes, ◌=ₜ◌, any, lookup, is_some,
}
use task_rs.Taskfile.Vars.{Var, Vars}
use task_rs.Taskfile.Task.{is_empty}

pub record VarsWithValidation : Type 0 where
  pub name : Text
  pub enum_values : List Text

pub record MissingVar : Type 0 where
  pub name : Text
  pub allowed_values : List Text

pub record NotAllowedVar : Type 0 where
  pub name : Text
  pub value : Text
  pub enum_values : List Text

-- The parts of a compiled task that are read here; `name` is what `Task::name` gives.
pub record CompiledTask (V : Type 0) : Type 0 where
  pub name : Text
  pub requires : Option (List VarsWithValidation)
  pub vars : Option (Vars V)

pub data Checked : Type 0 where
  fine : Checked
  missing_vars : Text → List MissingVar → Checked
  not_allowed_vars : Text → List NotAllowedVar → Checked

-- `PENDING_CHECKSUM` of crates/taskcore/src/templater.rs
abbrev pub pending_checksum : Text
pending_checksum = 26 ∷ codes "CHECKSUM" ++ 26 ∷ []

-- A pending checksum has no value to check yet.
unfoldable pub unless_pending : Option Text → Option Text
unfolding ◌=ₜ◌
unless_pending none = none
unless_pending (some s) = if s =ₜ pending_checksum then none else some s

unfoldable pub is_nil : List Text → Bool
is_nil [] = true
is_nil (v ∷ vs) = false

unfoldable pub push_not_allowed :
    VarsWithValidation → Option Text → List NotAllowedVar → List NotAllowedVar
unfolding is_nil ◌=ₜ◌
push_not_allowed required none rest = rest
push_not_allowed required (some value) rest =
    if not (is_nil required.enum_values) && not (any (λ v. v =ₜ value) required.enum_values)
    then record { name = required.name; value = value; enum_values = required.enum_values } ∷ rest
    else rest

module _ {V : Type 0} where
  -- The variables that a task requires: none without `requires`.
  abbrev pub required_vars : CompiledTask V → List VarsWithValidation
  required_vars t = elim t.requires [ none ↦ [] | some vars ↦ vars ]

  unfoldable pub variable : CompiledTask V → Text → Option (Var V)
  unfolding lookup
  variable t name = elim t.vars [ none ↦ none | some vars ↦ lookup name vars ]

  unfoldable pub missing_loop : CompiledTask V → List VarsWithValidation → List MissingVar
  unfolding variable
  missing_loop t [] = []
  missing_loop t (v ∷ vars) =
      let rest = missing_loop t vars in
      if is_some (variable t v.name)
      then rest
      else record { name = v.name; allowed_values = v.enum_values } ∷ rest

  unfoldable pub missing_required_vars : CompiledTask V → List MissingVar
  unfolding missing_loop
  missing_required_vars t = missing_loop t (required_vars t)

  unfoldable pub report_missing : CompiledTask V → List MissingVar → Checked
  report_missing t [] = fine
  report_missing t (m ∷ missing) = missing_vars t.name (m ∷ missing)

  unfoldable pub check_required_vars_set : CompiledTask V → Checked
  unfolding missing_required_vars report_missing
  check_required_vars_set t = report_missing t (missing_required_vars t)

  unfoldable pub report_not_allowed : CompiledTask V → List NotAllowedVar → Checked
  report_not_allowed t [] = fine
  report_not_allowed t (n ∷ not_allowed) = not_allowed_vars t.name (n ∷ not_allowed)

  module _ (as_string : V → Option Text) where
    unfoldable pub value_of : Option V → Option Text
    unfolding unless_pending
    value_of none = none
    value_of (some v) = unless_pending (as_string v)

    unfoldable pub string_value : CompiledTask V → VarsWithValidation → Option Text
    unfolding variable value_of
    string_value t required = elim (variable t required.name) [
      | none ↦ none
      | some var ↦ value_of var.value
    ]

    unfoldable pub not_allowed_loop : CompiledTask V → List VarsWithValidation → List NotAllowedVar
    unfolding string_value push_not_allowed
    not_allowed_loop t [] = []
    not_allowed_loop t (required ∷ vars) =
        push_not_allowed required (string_value t required) (not_allowed_loop t vars)

    unfoldable pub check_allowed_values : CompiledTask V → Checked
    unfolding not_allowed_loop report_not_allowed
    check_allowed_values t = report_not_allowed t (not_allowed_loop t (required_vars t))

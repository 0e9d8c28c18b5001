-- ===== src/Requires/Examples.antt =====
-- Runs of the checks of required variables, and their theorems at a concrete task.
use task_rs.Base.{◌≡◌, refl, none, some, [], ◌∷◌, Option, Text, codes, ◌=ₜ◌, lookup}
use task_rs.Taskfile.Vars.{Var, Dialect}
use task_rs.Requires.{
  CompiledTask, missing_vars, not_allowed_vars, check_required_vars_set, check_allowed_values,
}
use task_rs.Requires.Checks.{
  SetPost, ValuesPost, check_required_vars_set-Post, check_allowed_values-Post,
}

abbrev text_value : Text → Option Text
text_value s = some s

abbrev mode : Var Text
mode = record {
  value = some (codes "fast");
  live = none;
  sh = none;
  ref_ = [];
  dir = [];
  dialect = Dialect.jinja;
}

abbrev deploy : CompiledTask Text
deploy = record {
  name = codes "deploy";
  requires = some (
      record { name = codes "MODE"; enum_values = codes "dev" ∷ codes "prod" ∷ [] }
      ∷ record { name = codes "TAG"; enum_values = [] }
      ∷ []);
  vars = some ((codes "MODE", mode) ∷ []);
}

misses_tag :
    check_required_vars_set deploy
    ≡ missing_vars (codes "deploy") (record { name = codes "TAG"; allowed_values = [] } ∷ [])
unfolding check_required_vars_set lookup ◌=ₜ◌
misses_tag = refl

refuses_mode :
    check_allowed_values text_value deploy
    ≡ not_allowed_vars (codes "deploy") (
        record {
          name = codes "MODE";
          value = codes "fast";
          enum_values = codes "dev" ∷ codes "prod" ∷ [];
        }
        ∷ [])
unfolding check_allowed_values lookup ◌=ₜ◌
refuses_mode = refl

check_required_vars_set-Post_example : SetPost deploy (check_required_vars_set deploy)
check_required_vars_set-Post_example = check_required_vars_set-Post deploy

check_allowed_values-Post_example :
    ValuesPost deploy text_value (check_allowed_values text_value deploy)
check_allowed_values-Post_example = check_allowed_values-Post deploy text_value

-- ===== src/Taskfile/Names.antt =====
-- Task names and their namespaces: `ref_with_namespace` and `task_name_with_namespace` of
-- crates/taskcore/src/ast/tasks.rs.
use task_rs.Base.{
  ◌≡◌, refl, Option, none, some, [], ◌∷◌, ◌++◌, arith, ◌==◌, if◌then◌else◌, Text, codes, is_some,
}

-- `str::strip_prefix`
unfoldable pub strip_prefix : Text → Text → Option Text
strip_prefix [] s = some s
strip_prefix (c ∷ p) [] = none
strip_prefix (c ∷ p) (d ∷ s) = let rest = strip_prefix p s in if c == d then rest else none

abbrev pub namespace_separator : Text
namespace_separator = codes ":"

abbrev pub root_prefix : Text
root_prefix = codes "::"

unfoldable pub task_name_with_namespace : Text → Text → Text
unfolding strip_prefix
task_name_with_namespace task_name namespace = elim (strip_prefix namespace_separator task_name) [
  | some after ↦ after
  | none ↦ namespace ++ (namespace_separator ++ task_name)
]

unfoldable pub ref_with_namespace : Text → Text → Text
unfolding strip_prefix task_name_with_namespace
ref_with_namespace task_name namespace =
    if is_some (strip_prefix root_prefix task_name)
    then task_name
    else task_name_with_namespace task_name namespace

pub strip_prefix-append : (p s : Text) → strip_prefix p (p ++ s) ≡ some s
unfolding strip_prefix
strip_prefix-append [] s = refl
strip_prefix-append (c ∷ p) s = ground (arith, strip_prefix-append p s)

-- A name that begins with no separator is put below the namespace.
pub task_name_with_namespace-plain :
    (name namespace : Text)
    → strip_prefix namespace_separator name ≡ none
    → task_name_with_namespace name namespace ≡ namespace ++ (namespace_separator ++ name)
task_name_with_namespace-plain name namespace h =
    unfold task_name_with_namespace in ground (arith, h)

-- ===== src/Taskfile/Merge/Identity.antt =====
-- A task keeps its local name through every include.
use task_rs.Base.{
  ◌≡◌, refl, sym, ap, ◌∙◌, false, none, [], ◌∷◌, ◌++◌, append_assoc, if◌then◌else◌, Text,
}
use task_rs.Taskfile.Names.{
  namespace_separator, strip_prefix, strip_prefix-append, task_name_with_namespace-plain,
}
use task_rs.Taskfile.Vars.{Include}
use task_rs.Taskfile.Task.{Task, is_empty, or_self, local_name}
use task_rs.Taskfile.Merge.{namespaced}

-- A local name below the path of the includes.
abbrev pub qualified : Text → Text → Text
qualified namespace local =
    if is_empty namespace then local else namespace ++ (namespace_separator ++ local)

abbrev trim : Text → Text → Text
trim namespace full =
    let trimmed = or_self (strip_prefix namespace full) full in
    or_self (strip_prefix namespace_separator trimmed) trimmed

trim-qualified :
    (namespace local : Text)
    → strip_prefix namespace_separator local ≡ none
    → trim namespace (qualified namespace local) ≡ local
trim-qualified [] local plain = unfold strip_prefix in rw plain refl
trim-qualified (c ∷ namespace) local plain =
    rw
      (
        strip_prefix-append (c ∷ namespace) (namespace_separator ++ local),
        strip_prefix-append namespace_separator local,
      )
      refl

abbrev nested : Text → Text → Text
nested outer inner = if is_empty inner then outer else outer ++ (namespace_separator ++ inner)

qualified-nested :
    (outer inner local : Text)
    → is_empty outer ≡ false
    → outer ++ (namespace_separator ++ qualified inner local) ≡ qualified (nested outer inner) local
qualified-nested [] inner local e = cc e
qualified-nested (c ∷ outer) [] local e = refl
qualified-nested (c ∷ outer) (d ∷ inner) local e =
    sym
      (append_assoc (c ∷ outer) (namespace_separator ++ (d ∷ inner)) (namespace_separator ++ local))

module _ {V O : Type 0} where
  -- The task, not yet compiled, is the one that its Taskfile calls `local`.
  abbrev pub IsNamed : Text → Task V O → Type 0
  IsNamed local t =
      (t.full_name ≡ [])
      × (t.task ≡ qualified t.namespace local)
      × (strip_prefix namespace_separator local ≡ none)

  local_name-IsNamed : (local : Text) (t : Task V O) → IsNamed local t → local_name t ≡ local
  unfolding local_name
  local_name-IsNamed local t h = rw (h.0, h.1) (trim-qualified t.namespace local h.2)

  -- A task that is not compiled yet, and whose name is `local` below its own namespace, where `local`
  -- does not begin with a colon, has `local` as its local name. Below the namespace of an include
  -- it is again such a task, where the namespace is not empty and the task's name does not begin
  -- with a colon: `local` stays its local name.
  pub namespaced-IsNamed :
      (include : Include V) (local : Text) (source : Task V O)
      → IsNamed local source
      → is_empty include.namespace ≡ false
      → strip_prefix namespace_separator source.task ≡ none
      → IsNamed local (namespaced include source.task source)
        × (local_name (namespaced include source.task source) ≡ local)
        × (local_name source ≡ local)
  namespaced-IsNamed include local source h e plain = (
    named,
    local_name-IsNamed local (namespaced include source.task source) named,
    local_name-IsNamed local source h,
  )
    where
      named : IsNamed local (namespaced include source.task source)
      named =
          unfold namespaced in
          (
            h.0,
            task_name_with_namespace-plain source.task include.namespace plain
                ∙ ap (λ (n : Text). include.namespace ++ (namespace_separator ++ n)) h.1
                ∙ qualified-nested include.namespace source.namespace local e,
            h.2,
          )

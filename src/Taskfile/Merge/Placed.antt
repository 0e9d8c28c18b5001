-- ===== src/Taskfile/Merge/Placed.antt =====
-- What an include makes of names and of references to tasks, written out by their characters.
use task_rs.Base.{
  arith, ◌≡◌, refl, ap₂, ◌∙◌, inl, inr, ◌&&◌, List, [], ◌∷◌, ◌++◌, map, ◌==◌, if◌then◌else◌, Text,
  Bool-cases,
}
use task_rs.Taskfile.Names.{strip_prefix, task_name_with_namespace, ref_with_namespace}
use task_rs.Taskfile.Task.{Dep, Cmd, Glob}
use task_rs.Taskfile.Merge.{rename_ref, rename_deps, rename_cmds, rename_globs}

-- A name below a namespace: one that begins with a colon is a name of the root, without it.
abbrev pub placed : Text → Text → Text
placed namespace [] = namespace ++ b':' ∷ []
placed namespace (c ∷ name) = if b':' == c then name else namespace ++ b':' ∷ (c ∷ name)

-- A reference below a namespace: none stays none, and one that begins with two colons stays.
abbrev pub referred : Text → Text → Text
referred namespace [] = []
referred namespace (c ∷ []) = placed namespace (c ∷ [])
referred namespace (c ∷ d ∷ name) =
    if b':' == c && b':' == d then c ∷ d ∷ name else placed namespace (c ∷ d ∷ name)

pub task_name_with_namespace-placed :
    (name namespace : Text) → task_name_with_namespace name namespace ≡ placed namespace name
unfolding task_name_with_namespace strip_prefix
task_name_with_namespace-placed [] namespace = refl
task_name_with_namespace-placed (c ∷ name) namespace = ground arith

rename_ref-referred : (namespace name : Text) → rename_ref namespace name ≡ referred namespace name
unfolding rename_ref ref_with_namespace strip_prefix
rename_ref-referred namespace [] = refl
rename_ref-referred namespace (c ∷ []) = elim (Bool-cases (b':' == c)) [
  | inl e ↦ rw e (task_name_with_namespace-placed (c ∷ []) namespace ∙ rw e refl)
  | inr e ↦ rw e (task_name_with_namespace-placed (c ∷ []) namespace ∙ rw e refl)
]
rename_ref-referred namespace (c ∷ d ∷ name) = elim (Bool-cases (b':' == c)) [
  | inr e ↦ rw e (task_name_with_namespace-placed (c ∷ d ∷ name) namespace ∙ rw e refl)
  | inl e ↦ elim (Bool-cases (b':' == d)) [
    | inl q ↦ rw (e, q) refl
    | inr q ↦ rw (e, q) (task_name_with_namespace-placed (c ∷ d ∷ name) namespace ∙ rw e refl)
  ]
]

module _ {O : Type 0} (namespace : Text) where
  pub renamed_deps :
      (ds : List (Dep O))
      → rename_deps (rename_ref namespace) ds
        ≡ map (λ (d : Dep O). record d { task = referred namespace d.task }) ds
  unfolding rename_deps
  renamed_deps [] = refl
  renamed_deps (d ∷ ds) =
      ap₂ (λ (s : Text) (l : List (Dep O)). record d { task = s } ∷ l)
        (rename_ref-referred namespace d.task) (renamed_deps ds)

  pub renamed_cmds :
      (cs : List (Cmd O))
      → rename_cmds (rename_ref namespace) cs
        ≡ map (λ (c : Cmd O). record c { task = referred namespace c.task }) cs
  unfolding rename_cmds
  renamed_cmds [] = refl
  renamed_cmds (c ∷ cs) =
      ap₂ (λ (s : Text) (l : List (Cmd O)). record c { task = s } ∷ l)
        (rename_ref-referred namespace c.task) (renamed_cmds cs)

  pub renamed_globs :
      (gs : List (Glob O))
      → rename_globs (rename_ref namespace) gs
        ≡ map (λ (g : Glob O). record g { task = referred namespace g.task }) gs
  unfolding rename_globs
  renamed_globs [] = refl
  renamed_globs (g ∷ gs) =
      ap₂ (λ (s : Text) (l : List (Glob O)). record g { task = s } ∷ l)
        (rename_ref-referred namespace g.task) (renamed_globs gs)

-- ===== src/Taskfile/Merge/Whole.antt =====
-- What `Tasks::merge` returns: the included tasks under their new names, and the default task under
-- the namespace.
use task_rs.Base.{
  ◌≡◌, refl, sym, ap, ◌∙◌, inl, inr, Bool, not, ◌&&◌, Option, none, some, ◌∷◌, ◌++◌, if◌then◌else◌,
  Text, codes, ◌=ₜ◌, =ₜ_iff, lookup, lookup-insert, is_some, Bool-cases, Option-cases,
}
use task_rs.Taskfile.Vars.{Vars, Include}
use task_rs.Taskfile.Task.{Task}
use task_rs.Taskfile.Merge.{
  Tasks, Merged, ok, multiple, alias_default, after_loop, merge_loop, merge,
}
use task_rs.Taskfile.Merge.Brought.{Brought, merge_task-Brought}
use task_rs.Taskfile.Merge.Tasks.{new_name, new_task, IsMerge, Clash, merge_loop-Post, LoopPost}

abbrev pub default_name : {V : Type 0} → Include V → Text
default_name include = include.namespace ++ codes ":default"

module _ {V O : Type 0} where
  -- The default task of the include is run by the namespace.
  unfoldable pub exposed : Include V → Tasks V O → Tasks V O → Bool
  exposed include other self =
      is_some (lookup (codes "default") other)
      && (not (is_some (lookup include.namespace self)) && not include.flatten)

  unfoldable pub with_aliases : Include V → Option (Task V O) → Option (Task V O)
  with_aliases include none = none
  with_aliases include (some t) =
      some (record t { aliases = t.aliases ++ (include.namespace ∷ include.aliases) })

  -- Only the aliases of the default task change.
  pub lookup-alias_default :
      (include : Include V) (other self : Tasks V O) (k : Text)
      → lookup k (alias_default include other self) ≡ (
          if exposed include other self && default_name include =ₜ k
          then with_aliases include (lookup k self)
          else lookup k self)
  unfolding alias_default with_aliases exposed
  lookup-alias_default include other self k = elim (Bool-cases (exposed include other self)) [
    | inr e ↦ rw e refl
    | inl e ↦ rw e (elim (Option-cases (lookup (default_name include) self)) [
      | inl missing ↦ rw missing (elim (Bool-cases (default_name include =ₜ k)) [
        | inr q ↦ rw q refl
        | inl q ↦
            rw q (
              cc
                (missing, ap (λ (j : Text). lookup j self) ((=ₜ_iff (default_name include) k).0 q)))
      ])
      | inr t ↦ rw t.1 (
          lookup-insert (default_name include) k
            (record t.0 { aliases = t.0.aliases ++ (include.namespace ∷ include.aliases) }) self
          ∙ elim (Bool-cases (default_name include =ₜ k)) [
            | inr q ↦ rw q refl
            | inl q ↦ rw q (
                sym (ap (with_aliases include) t.1)
                ∙ ap (λ (j : Text). with_aliases include (lookup j self))
                    ((=ₜ_iff (default_name include) k).0 q))
          ])
    ])
  ]

  -- The merged tasks, and those of the result by their names.
  pub record IsMerged (self other : Tasks V O) (include : Include V) (taskfile_vars : Vars V)
      (r : Tasks V O) : Type 0 where
    pub merged : Tasks V O
    pub union : IsMerge include taskfile_vars self other merged
    pub brought :
        (name : Text) (source : Task V O)
        → Brought include taskfile_vars name source
            (new_name include taskfile_vars name source)
            (new_task include taskfile_vars name source)
    pub aliased :
        (k : Text)
        → lookup k r ≡ (
            if exposed include other merged && default_name include =ₜ k
            then with_aliases include (lookup k merged)
            else lookup k merged)

  abbrev pub MergePost : Tasks V O → Tasks V O → Include V → Vars V → Merged V O → Type 0
  MergePost self other include taskfile_vars (ok r) = IsMerged self other include taskfile_vars r
  MergePost self other include taskfile_vars (multiple n namespace) =
      Clash include taskfile_vars self other n × (namespace ≡ include.namespace)

  after_loop-Post :
      (self other : Tasks V O) (include : Include V) (taskfile_vars : Vars V) (res : Merged V O)
      → LoopPost include taskfile_vars self other res
      → MergePost self other include taskfile_vars (after_loop include other res)
  unfolding after_loop
  after_loop-Post self other include taskfile_vars (ok r) m = record {
    merged = r;
    union = m;
    brought = merge_task-Brought include taskfile_vars;
    aliased = lookup-alias_default include other r;
  }
  after_loop-Post self other include taskfile_vars (multiple n namespace) c = c

  pub merge-Post :
      (self other : Tasks V O) (include : Include V) (taskfile_vars : Vars V)
      → MergePost self other include taskfile_vars (merge self other include taskfile_vars)
  merge-Post self other include taskfile_vars =
      unfold merge in
      after_loop-Post self other include taskfile_vars (merge_loop self include taskfile_vars other)
        (merge_loop-Post include taskfile_vars self other)

-- ===== src/Taskfile/Merge/Brought.antt =====
-- What becomes of a task that an include brings, field by field: its names, its references, its
-- aliases and its directories.
use task_rs.Base.{
  ◌≡◌, refl, sym, ap, inl, inr, Bool, true, false, ◌||◌, some, List, [], ◌∷◌, ◌++◌, map,
  if◌then◌else◌, Text, In, Bool-cases, subst,
}
use task_rs.Taskfile.Names.{task_name_with_namespace}
use task_rs.Taskfile.Vars.{Vars, Include}
use task_rs.Taskfile.Task.{Dep, Cmd, Glob, Task}
use task_rs.Taskfile.Merge.{
  map_refs, namespaced_aliases, namespaced, imported, merge_task, flat_map,
}
use task_rs.Taskfile.Merge.Placed.{
  placed, referred, task_name_with_namespace-placed, renamed_deps, renamed_cmds, renamed_globs,
}

In-map : (f : Text → Text) (a : Text) (l : List Text) → In a l → In (f a) (map f l)
In-map f a [] i = absurd i
In-map f a (b ∷ l) (inl e) = inl (ap f e)
In-map f a (b ∷ l) (inr i) = inr (In-map f a l i)

In-right : (a : Text) (l rest : List Text) → In a rest → In a (l ++ rest)
In-right a [] rest i = i
In-right a (b ∷ l) rest i = inr (In-right a l rest i)

In-left : (a : Text) (l rest : List Text) → In a l → In a (l ++ rest)
In-left a [] rest i = absurd i
In-left a (b ∷ l) rest (inl e) = inl e
In-left a (b ∷ l) rest (inr i) = inr (In-left a l rest i)

In-flat_map :
    (f : Text → List Text) (a n : Text) (l : List Text) → In n l → In a (f n) → In a (flat_map f l)
unfolding flat_map
In-flat_map f a n [] i j = absurd i
In-flat_map f a n (m ∷ l) (inl e) j =
    In-left a (f m) (flat_map f l) (subst (λ (x : Text). In a (f x)) e j)
In-flat_map f a n (m ∷ l) (inr i) j = In-right a (f m) (flat_map f l) (In-flat_map f a n l i j)

-- The names of the task, what of it the include leaves alone, and its references.
abbrev pub Renamed : {V O : Type 0} → Bool → Include V → Text → Task V O → Text → Task V O → Type 0
Renamed {O = O} flatten include name source k t =
    let ref = λ (s : Text). if flatten then s else referred include.namespace s in
    (k ≡ (if flatten then name else placed include.namespace name))
    × (t.task ≡ (if flatten then source.task else k))
    × (t.internal ≡ (source.internal || include.internal))
    × ((t.label ≡ source.label)
        × (t.full_name ≡ source.full_name)
        × (t.silent ≡ source.silent)
        × (t.other ≡ source.other))
    × (t.setup ≡ map (λ (d : Dep O). record d { task = ref d.task }) source.setup)
    × (t.deps ≡ map (λ (d : Dep O). record d { task = ref d.task }) source.deps)
    × (t.cmds ≡ map (λ (c : Cmd O). record c { task = ref c.task }) source.cmds)
    × (t.sources ≡ map (λ (g : Glob O). record g { task = ref g.task }) source.sources)
    × (t.generates ≡ map (λ (g : Glob O). record g { task = ref g.task }) source.generates)

-- Every alias is kept below the namespace, and the task is known below each alias of the include.
abbrev pub Aliased : {V O : Type 0} → Bool → Include V → Task V O → Task V O → Type 0
Aliased true include source t = t.aliases ≡ source.aliases
Aliased false include source t =
    ((a : Text) → In a source.aliases → In (placed include.namespace a) t.aliases)
    × ((n : Text) → In n include.aliases → In (placed n source.task) t.aliases)
    × ((n a : Text) → In n include.aliases → In a source.aliases → In (placed n a) t.aliases)

-- Only an advanced import gives the task its directory and the Taskfile's variables.
abbrev pub Located : {V O : Type 0} → Bool → Include V → Vars V → Task V O → Task V O → Type 0
Located true include vars source t =
    (t.dirs ≡ include.dir ∷ source.dirs) × (t.included_taskfile_vars ≡ some vars)
Located false include vars source t =
    (t.dirs ≡ source.dirs)
    × (t.included_taskfile_vars ≡ source.included_taskfile_vars)
    × (t.include_vars ≡ source.include_vars)

-- What becomes of a task.
abbrev pub Brought :
    {V O : Type 0} → Include V → Vars V → Text → Task V O → Text → Task V O → Type 0
Brought include vars name source k t =
    Renamed include.flatten include name source k t
    × Aliased include.flatten include source t
    × Located include.advanced_import include vars source t

module _ {V O : Type 0} (include : Include V) (vars : Vars V) (name : Text)
    (source : Task V O) where
  map-same : {A : Type 0} (l : List A) → l ≡ map (λ (a : A). a) l
  map-same [] = refl
  map-same (a ∷ l) = ap (λ (r : List _). a ∷ r) (map-same l)

  flat-Renamed :
      Renamed true include name source name
        (record source { internal = source.internal || include.internal })
  flat-Renamed = (
    refl,
    refl,
    refl,
    (refl, refl, refl, refl),
    map-same source.setup,
    map-same source.deps,
    map-same source.cmds,
    map-same source.sources,
    map-same source.generates,
  )

  abbrev task : Task V O
  task = record source { internal = source.internal || include.internal }

  namespaced-Renamed :
      Renamed false include name source
        (task_name_with_namespace name include.namespace)
        (namespaced include name task)
  unfolding namespaced map_refs
  namespaced-Renamed = (
    task_name_with_namespace-placed name include.namespace,
    refl,
    refl,
    (refl, refl, refl, refl),
    renamed_deps include.namespace source.setup,
    renamed_deps include.namespace source.deps,
    renamed_cmds include.namespace source.cmds,
    renamed_globs include.namespace source.sources,
    renamed_globs include.namespace source.generates,
  )

  -- A name of the task, below a namespace.
  In-named :
      (n a : Text)
      → In a source.aliases
      → In (placed n a) (map (λ b. task_name_with_namespace b n) source.aliases)
  In-named n a i =
      subst (λ (x : Text). In x (map (λ b. task_name_with_namespace b n) source.aliases))
        (task_name_with_namespace-placed a n)
        (In-map (λ b. task_name_with_namespace b n) a source.aliases i)

  abbrev names_below : Text → List Text
  names_below n =
      task_name_with_namespace source.task n
      ∷ map (λ a. task_name_with_namespace a n) source.aliases

  In-below :
      (a n : Text)
      → In n include.aliases
      → In a (names_below n)
      → In a (namespaced_aliases include task)
  unfolding namespaced_aliases
  In-below a n i j = In-right a _ _ (In-flat_map names_below a n include.aliases i j)

  namespaced-Aliased : Aliased false include source (namespaced include name task)
  unfolding namespaced namespaced_aliases
  namespaced-Aliased = (
    λ a i. In-left (placed include.namespace a) _ _ (In-named include.namespace a i),
    λ n i.
        In-below (placed n source.task) n i
          (inl (sym (task_name_with_namespace-placed source.task n))),
    λ n a i j. In-below (placed n a) n i (inr (In-named n a j)),
  )

  -- `merge_task` in its four branches.
  pub merge_task-Brought :
      Brought include vars name source
        (merge_task include vars name source).0
        (merge_task include vars name source).1
  unfolding merge_task imported namespaced map_refs
  merge_task-Brought = elim (Bool-cases include.flatten) [
    | inl f ↦ elim (Bool-cases include.advanced_import) [
      | inl a ↦ rw (f, a) (flat-Renamed, refl, (refl, refl))
      | inr a ↦ rw (f, a) (flat-Renamed, refl, (refl, refl, refl))
    ]
    | inr f ↦ elim (Bool-cases include.advanced_import) [
      | inl a ↦ rw (f, a) (namespaced-Renamed, namespaced-Aliased, (refl, refl))
      | inr a ↦ rw (f, a) (namespaced-Renamed, namespaced-Aliased, (refl, refl, refl))
    ]
  ]

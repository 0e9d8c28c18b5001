-- ===== src/Taskfile/Merge/Tasks.antt =====
-- What `Tasks::merge` leaves in the map, and when it fails.
use task_rs.Base.{
  any-In, subst, ◌≡◌, refl, sym, ap, ◌∙◌, ◌⊎◌, inl, inr, Bool, true, none, some, [], ◌∷◌, ◌++◌,
  if◌then◌else◌, Text, ◌=ₜ◌, =ₜ_iff, lookup, insert, lookup-insert, is_some, In, Bool-cases,
  Option-cases,
}
use mathlib.Core.Path.{subst₂}
use task_rs.Taskfile.Vars.{Vars, Include}
use task_rs.Taskfile.Task.{Task}
use task_rs.Taskfile.Merge.{Tasks, Merged, ok, multiple, merge_task, excluded, merge_loop}

module _ {V O : Type 0} (include : Include V) (taskfile_vars : Vars V) where
  abbrev pub new_name : Text → Task V O → Text
  new_name name source = (merge_task include taskfile_vars name source).0

  abbrev pub new_task : Text → Task V O → Task V O
  new_task name source = (merge_task include taskfile_vars name source).1

  -- `k` names, in the included Taskfile, a task that is not excluded and becomes `t`.
  pub record Brings (other : Tasks V O) (k : Text) (t : Task V O) : Type 0 where
    pub name : Text
    pub source : Task V O
    pub included : In (name, source) other
    pub kept : ¬ In name include.excludes
    pub renamed : new_name name source ≡ k
    pub becomes : new_task name source ≡ t

  Brings-later :
      {other : Tasks V O} {k : Text} {t : Task V O} (p : Text × Task V O)
      → Brings other k t
      → Brings (p ∷ other) k t
  Brings-later p b = record {
    name = b.name;
    source = b.source;
    included = inr b.included;
    kept = b.kept;
    renamed = b.renamed;
    becomes = b.becomes;
  }

  -- `r` is `self` and what the include brings.
  pub record IsMerge (self other r : Tasks V O) : Type 0 where
    pub old : (k : Text) (t : Task V O) → lookup k self ≡ some t → lookup k r ≡ some t
    pub new : (k : Text) (t : Task V O) → Brings other k t → lookup k r ≡ some t
    pub only :
        (k : Text) (t : Task V O)
        → lookup k r ≡ some t
        → (lookup k self ≡ some t) ⊎ Brings other k t

  IsMerge-skip :
      {self other r : Tasks V O} (name : Text) (source : Task V O)
      → excluded include name ≡ true
      → IsMerge self other r
      → IsMerge self ((name, source) ∷ other) r
  IsMerge-skip {other} {r} name source e m = record {
    old = m.old;
    new = λ k t b. elim b.included [
      | inl q ↦ absurd (
          b.kept (
            subst (λ (p : Text × Task V O). In p.0 include.excludes) (sym q)
              ((any-In name include.excludes).0 e)))
      | inr i ↦ m.new k t (record {
        name = b.name;
        source = b.source;
        included = i;
        kept = b.kept;
        renamed = b.renamed;
        becomes = b.becomes;
      })
    ];
    only = λ k t h. elim (m.only k t h) [
      | inl a ↦ inl a
      | inr b ↦ inr (Brings-later (name, source) b)
    ];
  }

  lookup-insert_fresh :
      (n k : Text) (v t : Task V O) (self : Tasks V O)
      → lookup n self ≡ none
      → lookup k self ≡ some t
      → lookup k (insert n v self) ≡ some t
  lookup-insert_fresh n k v t self free h = elim (Bool-cases (n =ₜ k)) [
    | inl q ↦ cc (h, free, ap (λ (j : Text). lookup j self) ((=ₜ_iff n k).0 q))
    | inr q ↦ lookup-insert n k v self ∙ rw q h
  ]

  lookup-insert_self :
      (n : Text) (v : Task V O) (self : Tasks V O) → lookup n (insert n v self) ≡ some v
  lookup-insert_self n v self = lookup-insert n n v self ∙ rw ((=ₜ_iff n n).1 refl) refl

  lookup-insert_inv :
      (n k : Text) (v t : Task V O) (self : Tasks V O)
      → lookup k (insert n v self) ≡ some t
      → (lookup k self ≡ some t) ⊎ ((n ≡ k) × (v ≡ t))
  lookup-insert_inv n k v t self h = elim (Bool-cases (n =ₜ k)) [
    | inl q ↦ inr (
      (=ₜ_iff n k).0 q,
      cc (h, lookup-insert n k v self, ap (λ (b : Bool). if b then some v else lookup k self) q),
    )
    | inr q ↦ inl (sym (lookup-insert n k v self ∙ rw q refl) ∙ h)
  ]

  IsMerge-add :
      {self other r : Tasks V O} (name : Text) (source : Task V O)
      → ¬ In name include.excludes
      → lookup (new_name name source) self ≡ none
      → IsMerge (insert (new_name name source) (new_task name source) self) other r
      → IsMerge self ((name, source) ∷ other) r
  IsMerge-add {self} {other} {r} name source e free m = record {
    old = λ k t h.
        m.old k t
          (lookup-insert_fresh (new_name name source) k (new_task name source) t self free h);
    new = λ k t b. elim b.included [
      | inl q ↦ m.old k t (
          subst₂
            (λ (j : Text) (u : Task V O).
              lookup j (insert (new_name name source) (new_task name source) self) ≡ some u)
            (sym (ap (λ (p : Text × Task V O). new_name p.0 p.1) q) ∙ b.renamed)
            (sym (ap (λ (p : Text × Task V O). new_task p.0 p.1) q) ∙ b.becomes)
            (lookup-insert_self (new_name name source) (new_task name source) self))
      | inr i ↦ m.new k t (record {
        name = b.name;
        source = b.source;
        included = i;
        kept = b.kept;
        renamed = b.renamed;
        becomes = b.becomes;
      })
    ];
    only = λ k t h. elim (m.only k t h) [
      | inl a ↦ elim (lookup-insert_inv (new_name name source) k (new_task name source) t self a) [
        | inl c ↦ inl c
        | inr c ↦ inr (record {
          name = name;
          source = source;
          included = inl refl;
          kept = e;
          renamed = c.0;
          becomes = c.1;
        })
      ]
      | inr b ↦ inr (Brings-later (name, source) b)
    ];
  }

  -- A clash: an included task's new name is taken, by the including Taskfile or by one before it.
  pub record Clash (self other : Tasks V O) (n : Text) : Type 0 where
    pub before : Tasks V O
    pub name : Text
    pub source : Task V O
    pub after : Tasks V O
    pub split : other ≡ before ++ (name, source) ∷ after
    pub kept : ¬ In name include.excludes
    pub renamed : new_name name source ≡ n
    pub taken : (is_some (lookup n self) ≡ true) ⊎ ((t : Task V O) × Brings before n t)

  -- What `merge_loop` promises.
  abbrev pub LoopPost : Tasks V O → Tasks V O → Merged V O → Type 0
  LoopPost self other (ok r) = IsMerge self other r
  LoopPost self other (multiple n namespace) = Clash self other n × (namespace ≡ include.namespace)

  Clash-skip :
      {self other : Tasks V O} {n : Text} (name : Text) (source : Task V O)
      → Clash self other n
      → Clash self ((name, source) ∷ other) n
  Clash-skip name source c = record {
    before = (name, source) ∷ c.before;
    name = c.name;
    source = c.source;
    after = c.after;
    split = ap (λ (l : Tasks V O). (name, source) ∷ l) c.split;
    kept = c.kept;
    renamed = c.renamed;
    taken = elim c.taken [ inl a ↦ inl a | inr b ↦ inr (b.0, Brings-later (name, source) b.1) ];
  }

  Clash-add :
      {self other : Tasks V O} {n : Text} (name : Text) (source : Task V O)
      → ¬ In name include.excludes
      → Clash (insert (new_name name source) (new_task name source) self) other n
      → Clash self ((name, source) ∷ other) n
  Clash-add {self} {n} name source e c = record {
    before = (name, source) ∷ c.before;
    name = c.name;
    source = c.source;
    after = c.after;
    split = ap (λ (l : Tasks V O). (name, source) ∷ l) c.split;
    kept = c.kept;
    renamed = c.renamed;
    taken = elim c.taken [
      | inl a ↦ elim (Bool-cases (new_name name source =ₜ n)) [
        | inl q ↦ inr (
          new_task name source,
          record {
            name = name;
            source = source;
            included = inl refl;
            kept = e;
            renamed = (=ₜ_iff _ _).0 q;
            becomes = refl;
          },
        )
        | inr q ↦
            inl (rw (lookup-insert (new_name name source) n (new_task name source) self, q) at a)
      ]
      | inr b ↦ inr (b.0, Brings-later (name, source) b.1)
    ];
  }

  LoopPost-skip :
      (self other : Tasks V O) (name : Text) (source : Task V O) (res : Merged V O)
      → excluded include name ≡ true
      → LoopPost self other res
      → LoopPost self ((name, source) ∷ other) res
  LoopPost-skip self other name source (ok r) e m = IsMerge-skip name source e m
  LoopPost-skip self other name source (multiple n namespace) e c =
      (Clash-skip name source c.0, c.1)

  LoopPost-add :
      (self other : Tasks V O) (name : Text) (source : Task V O) (res : Merged V O)
      → ¬ In name include.excludes
      → lookup (new_name name source) self ≡ none
      → LoopPost (insert (new_name name source) (new_task name source) self) other res
      → LoopPost self ((name, source) ∷ other) res
  LoopPost-add self other name source (ok r) e free m = IsMerge-add name source e free m
  LoopPost-add self other name source (multiple n namespace) e free c =
      (Clash-add name source e c.0, c.1)

  pub merge_loop-Post :
      (self other : Tasks V O) → LoopPost self other (merge_loop self include taskfile_vars other)
  unfolding merge_loop
  merge_loop-Post self [] = record {
    old = λ k t h. h;
    new = λ k t b. absurd b.included;
    only = λ k t h. inl h;
  }
  merge_loop-Post self ((name, source) ∷ other) = elim (Bool-cases (excluded include name)) [
    | inl e ↦ rw e (
        LoopPost-skip self other name source (merge_loop self include taskfile_vars other) e
          (merge_loop-Post self other))
    | inr e ↦ rw e (elim (Option-cases (lookup (new_name name source) self)) [
      | inl free ↦ rw free (
          LoopPost-add self other name source
            (merge_loop (insert (new_name name source) (new_task name source) self) include
              taskfile_vars other)
            (λ i. cc (e, (any-In name include.excludes).1 i)) free
            (merge_loop-Post (insert (new_name name source) (new_task name source) self) other))
      | inr t ↦ rw t.1 (
        record {
          before = [];
          name = name;
          source = source;
          after = other;
          split = refl;
          kept = λ i. cc (e, (any-In name include.excludes).1 i);
          renamed = refl;
          taken = inl (rw t.1 refl);
        },
        refl,
      )
    ])
  ]

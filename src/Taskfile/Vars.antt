-- ===== src/Taskfile/Vars.antt =====
-- crates/taskcore/src/ast/vars.rs and var.rs: variables in order of insertion. A YAML value is of
-- an opaque type `V`.
use task_rs.Base.{
  true, false, ◌≡◌, refl, sym, ap, ap₂, ◌∙◌, Bool, Option, none, some, List, [], ◌∷◌, ◌++◌, arith,
  if◌then◌else◌, Text, ◌=ₜ◌, =ₜ_iff, Map, lookup, insert, lookup-insert, keys, is_some, Bool-cases,
  inl, inr, append-nil, append_assoc,
}

pub data Dialect : Type 0 where
  jinja go : Dialect

pub record Var (V : Type 0) : Type 0 where
  pub value : Option V
  pub live : Option V
  pub sh : Option Text
  pub ref_ : Text
  pub dir : Text
  pub dialect : Dialect

abbrev pub Vars : Type 0 → Type 0
Vars V = Map (Var V)

-- crates/taskcore/src/ast/include.rs
pub record Include (V : Type 0) : Type 0 where
  pub namespace : Text
  pub taskfile : Text
  pub dir : Text
  pub optional : Bool
  pub internal : Bool
  pub aliases : List Text
  pub excludes : List Text
  pub advanced_import : Bool
  pub vars : Option (Vars V)
  pub flatten : Bool

-- An advanced import sets the directory of each variable that it brings.
unfoldable pub stamp : {V : Type 0} → Option (Include V) → Var V → Var V
stamp none v = v
stamp (some inc) v = if inc.advanced_import then record v { dir = inc.dir } else v

module _ {V : Type 0} where
  -- `Vars::set`: the map, and whether the key was there.
  pub set : Text → Var V → Vars V → Vars V × Bool
  set k v m = (insert k v m, is_some (lookup k m))

  pub set_dialect : Dialect → Vars V → Vars V
  set_dialect d [] = []
  set_dialect d ((k, v) ∷ m) = (k, record v { dialect = d }) ∷ set_dialect d m

  unfoldable pub merge : Vars V → Vars V → Option (Include V) → Vars V
  unfolding insert stamp
  merge self [] include = self
  merge self ((k, v) ∷ other) include = merge (insert k (stamp include v) self) other include

  -- The loop that drains `self` into the new map.
  pub drain : Vars V → Vars V → Vars V
  drain new [] = new
  drain new ((k, v) ∷ self) = drain (insert k v new) self

  unfoldable pub reverse_merge : Vars V → Vars V → Option (Include V) → Vars V
  unfolding merge drain
  reverse_merge self other include = drain (merge [] other include) self

  -- An index map holds a key once.
  abbrev pub IsIndex : Vars V → Type 0
  IsIndex [] = Unit
  IsIndex ((k, v) ∷ m) = (lookup k m ≡ none) × IsIndex m

  -- The directory of a variable that was brought in: that of an advanced import, else its own.
  pub dir_of : Option (Include V) → Var V → Text
  dir_of none v = v.dir
  dir_of (some inc) v = elim inc.advanced_import [ true ↦ inc.dir | false ↦ v.dir ]

  -- A variable that was brought in, field by field.
  pub stamped : Option (Include V) → Option (Var V) → Option (Var V)
  unfolding dir_of
  stamped include none = none
  stamped include (some v) = some (record {
    value = v.value;
    live = v.live;
    sh = v.sh;
    ref_ = v.ref_;
    dir = dir_of include v;
    dialect = v.dialect;
  })

  stamp-stamped :
      (include : Option (Include V)) (v : Var V) → some (stamp include v) ≡ stamped include (some v)
  unfolding stamp stamped
  stamp-stamped none v = refl
  stamp-stamped (some inc) v = elim (Bool-cases inc.advanced_import) [
    | inl e ↦ rw e refl
    | inr e ↦ rw e refl
  ]

  abbrev pub or_else : Option (Var V) → Option (Var V) → Option (Var V)
  or_else none o = o
  or_else (some v) o = some v

  lookup-merge :
      (self other : Vars V) (include : Option (Include V)) (k : Text)
      → IsIndex other
      → lookup k (merge self other include)
        ≡ or_else (stamped include (lookup k other)) (lookup k self)
  unfolding merge lookup stamped
  lookup-merge self [] include k h = refl
  lookup-merge self ((j, v) ∷ other) include k h =
      lookup-merge (insert j (stamp include v) self) other include k h.1
      ∙ ground
          (arith, lookup-insert j k (stamp include v) self, =ₜ_iff j k, stamp-stamped include v)

  keys-insert :
      (k : Text) (v : Var V) (m : Vars V)
      → keys (insert k v m) ≡ (if is_some (lookup k m) then keys m else keys m ++ k ∷ [])
  unfolding insert lookup
  keys-insert k v [] = refl
  keys-insert k v ((j, w) ∷ m) = elim (Bool-cases (j =ₜ k)) [
    | inl e ↦ rw e refl
    | inr e ↦ rw e (
        ap (λ (l : List Text). j ∷ l) (keys-insert k v m)
        ∙ elim (Bool-cases (is_some (lookup k m))) [ inl s ↦ rw s refl | inr n ↦ rw n refl ])
  ]

  -- The keys of `other` that are new to `self`, in order.
  pub new_keys : Vars V → Vars V → List Text
  new_keys self [] = []
  new_keys self ((k, v) ∷ other) =
      let rest = new_keys self other in if is_some (lookup k self) then rest else k ∷ rest

  new_keys-insert :
      (k : Text) (v : Var V) (self other : Vars V)
      → lookup k other ≡ none
      → new_keys (insert k v self) other ≡ new_keys self other
  unfolding new_keys lookup
  new_keys-insert k v self [] h = refl
  new_keys-insert k v self ((j, w) ∷ other) h =
      ground
        (arith, new_keys-insert k v self other, lookup-insert k j v self, =ₜ_iff j k, =ₜ_iff k j)

  keys-merge :
      (self other : Vars V) (include : Option (Include V))
      → IsIndex other
      → keys (merge self other include) ≡ keys self ++ new_keys self other
  unfolding merge new_keys
  keys-merge self [] include h = sym (append-nil (keys self))
  keys-merge self ((j, v) ∷ other) include h =
      keys-merge (insert j (stamp include v) self) other include h.1
      ∙ ap (λ (l : List Text). keys (insert j (stamp include v) self) ++ l)
          (new_keys-insert j (stamp include v) self other h.0)
      ∙ rw keys-insert (elim (Bool-cases (is_some (lookup j self))) [
        | inl s ↦ rw s refl
        | inr n ↦ rw n (append_assoc (keys self) (j ∷ []) (new_keys self other))
      ])

  drain-merge : (new self : Vars V) → drain new self ≡ merge new self none
  unfolding drain merge stamp
  drain-merge new [] = refl
  drain-merge new ((k, v) ∷ self) = drain-merge (insert k v new) self

  -- `merge` of an index map that holds no name twice: a name has the variable of the included
  -- Taskfile, with all its fields but the directory, which an advanced import sets to its own, and
  -- otherwise the variable that it had; the new names come after the old ones, in order.
  pub merge_lem :
      (self other : Vars V) (include : Option (Include V)) (k : Text)
      → IsIndex other
      → (lookup k (merge self other include)
          ≡ or_else (stamped include (lookup k other)) (lookup k self))
        × (keys (merge self other include) ≡ keys self ++ new_keys self other)
  merge_lem self other include k h =
      (lookup-merge self other include k h, keys-merge self other include h)

  new_keys-nil : (m : Vars V) → new_keys [] m ≡ keys m
  unfolding new_keys lookup
  new_keys-nil [] = refl
  new_keys-nil ((k, v) ∷ m) = ap (λ (l : List Text). k ∷ l) (new_keys-nil m)

  new_keys-congr :
      (a b m : Vars V)
      → ((k : Text) → is_some (lookup k a) ≡ is_some (lookup k b))
      → new_keys a m ≡ new_keys b m
  unfolding new_keys
  new_keys-congr a b [] h = refl
  new_keys-congr a b ((k, v) ∷ m) h = rw (h k) (rw (new_keys-congr a b m h) refl)

  -- What was merged into the empty map.
  lookup-merge_nil :
      (other : Vars V) (include : Option (Include V)) (k : Text)
      → IsIndex other
      → lookup k (merge [] other include) ≡ stamped include (lookup k other)
  lookup-merge_nil other include k h =
      lookup-merge [] other include k h ∙ or_else-none (stamped include (lookup k other))
    where
      or_else-none : (o : Option (Var V)) → or_else o (lookup k []) ≡ o
      or_else-none none = unfold lookup in refl
      or_else-none (some v) = refl

  stamped-none : (o : Option (Var V)) → stamped none o ≡ o
  unfolding stamped stamp
  stamped-none none = refl
  stamped-none (some v) = refl

  is_some-stamped :
      (include : Option (Include V)) (o : Option (Var V)) → is_some (stamped include o) ≡ is_some o
  unfolding stamped
  is_some-stamped include none = refl
  is_some-stamped include (some v) = refl

  -- `reverse_merge`: the entries of the included Taskfile come first, in order, then the names that
  -- it has not; a name that both have keeps its old value.
  pub reverse_merge_lem :
      (self other : Vars V) (include : Option (Include V)) (k : Text)
      → IsIndex self
      → IsIndex other
      → (lookup k (reverse_merge self other include)
          ≡ or_else (lookup k self) (stamped include (lookup k other)))
        × (keys (reverse_merge self other include) ≡ keys other ++ new_keys other self)
  reverse_merge_lem self other include k hs ho = (values, order)
    where
      first : Vars V
      first = merge [] other include

      drained : reverse_merge self other include ≡ merge first self none
      drained = unfold reverse_merge in drain-merge first self

      values :
          lookup k (reverse_merge self other include)
          ≡ or_else (lookup k self) (stamped include (lookup k other))
      values =
          ap (lookup k) drained
          ∙ lookup-merge first self none k hs
          ∙ ap₂ or_else (stamped-none (lookup k self)) (lookup-merge_nil other include k ho)

      order : keys (reverse_merge self other include) ≡ keys other ++ new_keys other self
      order =
          ap keys drained
          ∙ keys-merge first self none hs
          ∙ ap₂ (◌++◌ {A = Text}) (keys-merge [] other include ho ∙ new_keys-nil other) (
              new_keys-congr first other self (λ j.
                ap is_some (lookup-merge_nil other include j ho)
                ∙ is_some-stamped include (lookup j other)))

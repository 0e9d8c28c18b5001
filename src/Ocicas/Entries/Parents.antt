-- ===== src/Ocicas/Entries/Parents.antt =====
-- What the checks on a set of entries find.
use task_rs.Base.{
  ◌≡◌, ◌≢◌, refl, sym, ap, subst, ◌↔◌, ◌⊎◌, inl, inr, Bool, true, false, Option, none, some, List,
  [], ◌∷◌, ◌++◌, arith, Text, =ₜ_iff, In, tail_eq, not-nil_eq_middle, head_eq, Result, ok,
  append_assoc, Bool-cases,
}
use task_rs.Ocicas.Entries.{
  ◌=ₚ◌, EntryError, Entry, links_of, holds, linked_parent, or_linked, parents_loop,
  check_link_parents, unique_loop, check_unique,
}

pub =ₚ_iff : (s t : List Text) → ((s =ₚ t) ≡ true) ↔ (s ≡ t)
unfolding ◌=ₚ◌
=ₚ_iff [] [] = (λ _. refl, λ _. refl)
=ₚ_iff [] (b ∷ t) = (λ h. cc, λ h. cc)
=ₚ_iff (a ∷ s) [] = (λ h. cc, λ h. cc)
=ₚ_iff (a ∷ s) (b ∷ t) = ground (arith, =ₚ_iff s t, =ₜ_iff a b)

holds_iff : (set : List (List Text)) (p : List Text) → (holds set p ≡ true) ↔ In p set
unfolding holds
holds_iff [] p = (λ h. cc h, λ i. absurd i)
holds_iff (l ∷ set) p = ground (arith, =ₚ_iff l p, holds_iff set p)

In-links_of : (es : List Entry) (p : List Text) → In p (links_of es) ↔ In (p, true) es
unfolding links_of
In-links_of [] p = (λ i. i, λ i. i)
In-links_of ((q, true) ∷ es) p = (
  λ i. elim i [ inl e ↦ inl (rw e refl) | inr j ↦ inr ((In-links_of es p).0 j) ],
  λ i. elim i [ inl e ↦ inl (ap (λ (x : Entry). x.0) e) | inr j ↦ inr ((In-links_of es p).1 j) ],
)
In-links_of ((q, false) ∷ es) p = (
  λ i. inr ((In-links_of es p).0 i),
  λ i. elim i [
    | inl e ↦ absurd (let f : true ≡ false = ap (λ (x : Entry). x.1) e in cc f)
    | inr j ↦ (In-links_of es p).1 j
  ],
)

-- A link at a proper prefix of a path whose first components are `prefix`.
pub record Above (links : List (List Text)) (prefix rest : List Text) : Type 0 where
  pub first : Text
  pub others : List Text
  pub below : Text
  pub deeper : List Text
  pub path : rest ≡ first ∷ (others ++ below ∷ deeper)
  pub is_link : In (prefix ++ first ∷ others) links

Finds : List (List Text) → List Text → List Text → Option Text → Type 0
Finds links prefix rest none = ¬ Above links prefix rest
Finds links prefix rest (some part) = Above links prefix rest

-- One component further down.
Above-step :
    (links : List (List Text)) (prefix rest : List Text) (part next : Text)
    → Above links (prefix ++ part ∷ []) (next ∷ rest)
    → Above links prefix (part ∷ next ∷ rest)
Above-step links prefix rest part next a = record {
  first = part;
  others = a.first ∷ a.others;
  below = a.below;
  deeper = a.deeper;
  path = ap (λ (l : List Text). part ∷ l) a.path;
  is_link =
      subst (λ (l : List Text). In l links) (append_assoc prefix (part ∷ []) (a.first ∷ a.others))
        a.is_link;
}

Above-cases :
    (links : List (List Text)) (prefix rest : List Text) (part next : Text)
    → Above links prefix (part ∷ next ∷ rest)
    → In (prefix ++ part ∷ []) links ⊎ Above links (prefix ++ part ∷ []) (next ∷ rest)
Above-cases links prefix rest part next a =
    cases a.others (tail_eq a.path)
      (subst (λ (t : Text). In (prefix ++ t ∷ a.others) links) (sym (head_eq a.path)) a.is_link)
  where
    cases :
        (others : List Text)
        → Path (List Text) (next ∷ rest) (others ++ a.below ∷ a.deeper)
        → In (prefix ++ part ∷ others) links
        → In (prefix ++ part ∷ []) links ⊎ Above links (prefix ++ part ∷ []) (next ∷ rest)
    cases [] e i = inl i
    cases (o ∷ others) e i = inr (record {
      first = o;
      others = others;
      below = a.below;
      deeper = a.deeper;
      path = e;
      is_link =
          subst (λ (l : List Text). In l links) (sym (append_assoc prefix (part ∷ []) (o ∷ others)))
            i;
    })

linked_parent-Finds :
    (links : List (List Text)) (prefix rest : List Text)
    → Finds links prefix rest (linked_parent links prefix rest)
unfolding linked_parent Finds
linked_parent-Finds links prefix [] = λ a. cc (a.path)
linked_parent-Finds links prefix (part ∷ []) =
    λ a. not-nil_eq_middle a.others a.deeper a.below (tail_eq a.path)
linked_parent-Finds links prefix (part ∷ next ∷ rest) =
    elim (Bool-cases (holds links (prefix ++ part ∷ []))) [
      | inl e ↦ rw e (record {
        first = part;
        others = [];
        below = next;
        deeper = rest;
        path = refl;
        is_link = (holds_iff links (prefix ++ part ∷ [])).0 e;
      })
      | inr e ↦ rw e (
          pass e (linked_parent links (prefix ++ part ∷ []) (next ∷ rest))
            (linked_parent-Finds links (prefix ++ part ∷ []) (next ∷ rest)))
    ]
  where
    pass :
        holds links (prefix ++ part ∷ []) ≡ false
        → (r : Option Text) → Finds links (prefix ++ part ∷ []) (next ∷ rest) r
        → Finds links prefix (part ∷ next ∷ rest) r
    pass e (some p) a = Above-step links prefix rest part next a
    pass e none n = λ a. elim (Above-cases links prefix rest part next a) [
      | inl i ↦ cc (e, (holds_iff links (prefix ++ part ∷ [])).1 i)
      | inr b ↦ n b
    ]

-- No entry of the set lies below one of the set's symlinks.
abbrev pub NoneBelowLinks : List Entry → Type 0
NoneBelowLinks es =
    (parts : List Text) (link : Bool) (first : Text) (others : List Text) (below : Text)
    (deeper : List Text)
    → In (parts, link) es
    → In (first ∷ others, true) es
    → parts ≢ first ∷ (others ++ below ∷ deeper)

PartsOf : (links : List (List Text)) (es : List Entry) → Type 0
PartsOf links es = (parts : List Text) (link : Bool) → In (parts, link) es → ¬ Above links [] parts

or_linked-ok :
    (links : List (List Text)) (parts : List Text) (r : Option Text)
    (rest : Result EntryError (Unit {0}))
    → Finds links [] parts r
    → (or_linked parts r rest ≡ ok tt) ↔ ((¬ Above links [] parts) × (rest ≡ ok tt))
unfolding Finds
or_linked-ok links parts none rest f = (λ e. (f, e), λ h. h.1)
or_linked-ok links parts (some part) rest f = (λ e. cc e, λ h. absurd (h.0 f))

PartsOf-cons :
    (links : List (List Text)) (p : Entry) (es : List Entry)
    → ((¬ Above links [] p.0) × PartsOf links es) ↔ PartsOf links (p ∷ es)
unfolding PartsOf
PartsOf-cons links p es = (
  λ h parts link i. elim i [
    | inl e ↦ subst (λ (x : Entry). ¬ Above links [] x.0) (sym e) h.0
    | inr j ↦ h.1 parts link j
  ],
  λ h. (h p.0 p.1 (inl refl), λ parts link j. h parts link (inr j)),
)

parts_loop_iff :
    (links : List (List Text)) (es : List Entry)
    → (parents_loop links es ≡ ok tt) ↔ PartsOf links es
unfolding parents_loop
parts_loop_iff links [] = (λ _. unfold PartsOf in λ parts link i. absurd i, λ _. refl)
parts_loop_iff links ((parts, link) ∷ es) =
    let this =
      or_linked-ok links parts (linked_parent links [] parts) (parents_loop links es)
        (linked_parent-Finds links [] parts) in
    let rest = parts_loop_iff links es in
    let cons = PartsOf-cons links (parts, link) es in
    (
      λ e. cons.0 ((this.0 e).0, rest.0 ((this.0 e).1)),
      λ h. this.1 ((cons.1 h).0, rest.1 ((cons.1 h).1)),
    )

-- `check_link_parents` accepts a set of entries exactly when none of them lies below one of the
-- set's symlinks, so that none is written through a link of the set.
pub check_link_parents_iff : (es : List Entry) → (check_link_parents es ≡ ok tt) ↔ NoneBelowLinks es
unfolding check_link_parents PartsOf
check_link_parents_iff es =
    let loop = parts_loop_iff (links_of es) es in
    (
      λ e parts link first others below deeper i l same. loop.0 e parts link i (record {
        first = first;
        others = others;
        below = below;
        deeper = deeper;
        path = same;
        is_link = (In-links_of es (first ∷ others)).1 l;
      }),
      λ h. loop.1 (λ parts link i a.
          h parts link a.first a.others a.below a.deeper i
            ((In-links_of es (a.first ∷ a.others)).0 a.is_link) a.path),
    )

-- No two entries have the same components.
abbrev pub Distinct : List (List Text) → Type 0
Distinct [] = Unit
Distinct (p ∷ ps) = (¬ In p ps) × Distinct ps

unique_loop_iff :
    (seen ps : List (List Text))
    → (unique_loop seen ps ≡ ok tt) ↔ (((p : List Text) → In p ps → ¬ In p seen) × Distinct ps)
unfolding unique_loop
unique_loop_iff seen [] = (λ _. (λ p i. absurd i, tt), λ _. refl)
unique_loop_iff seen (q ∷ ps) = elim (Bool-cases (holds seen q)) [
  | inl e ↦ rw e (λ h. cc h, λ h. absurd (h.0 q (inl refl) ((holds_iff seen q).0 e)))
  | inr e ↦ rw e (
      let rest = unique_loop_iff (q ∷ seen) ps in
      (
        λ h. (
          λ p i. elim i [
            | inl same ↦
                λ s. cc (e, (holds_iff seen q).1 (subst (λ (x : List Text). In x seen) same s))
            | inr j ↦ λ s. (rest.0 h).0 p j (inr s)
          ],
          (λ j. (rest.0 h).0 q j (inl refl), (rest.0 h).1),
        ),
        λ h. rest.1 (
          λ p j s. elim s [
            | inl same ↦ h.1.0 (subst (λ (x : List Text). In x ps) same j)
            | inr old ↦ h.0 p (inr j) old
          ],
          h.1.1,
        ),
      ))
]

-- `check_unique` accepts a set of entries exactly when no two of them have the same components.
pub check_unique_iff : (ps : List (List Text)) → (check_unique ps ≡ ok tt) ↔ Distinct ps
unfolding check_unique
check_unique_iff ps =
    let loop = unique_loop_iff [] ps in (λ e. (loop.0 e).1, λ h. loop.1 (λ p i s. absurd s, h))

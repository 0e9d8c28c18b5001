-- ===== src/Ocicas/Resolve/Settled.antt =====
-- Where `resolve_link` ends, no link is left to follow.
use task_rs.Base.{
  ok-injective, All, cons_eq, prefix-snoc, some-injective, ℕ, zero, suc, ◌≡◌, ◌≢◌, refl, sym, ap,
  subst, ◌∙◌, ◌⊎◌, inl, inr, Bool, true, false, Option, none, some, List, [], ◌∷◌, ◌++◌, Text,
  Result, ok, err, append_assoc, Bool-cases,
}
use task_rs.Ocicas.Resolve.{
  Pending, dir, file, link, Resolution, inside, outside, ResolveError, Resolved, too_many_links,
  max_link_hops, expand, strip_components, path_components, has_root, from_root, PendingMap,
  Component, current, parent, named, component_kind, pop, parent_of, find_pending, has_below, node,
  OnLink, keep_first, from_above, from_node, walk, expanded, resolve_hops, directory, resolve_link,
}

-- A component that names an entry of a directory.
abbrev pub IsName : Text → Type 0
IsName comp = component_kind comp ≡ named

kind-cases : (k : Component) → (k ≡ current) ⊎ ((k ≡ parent) ⊎ (k ≡ named))
kind-cases current = inl refl
kind-cases parent = inr (inl refl)
kind-cases named = inr (inr refl)

module _ (base : Text) (pending : PendingMap)
    (on_disk : List Text → Result ResolveError (Option Pending)) where
  -- A symlink after the restore: one of the set, or one on the disk at a path that the set leaves
  -- alone.
  abbrev pub IsLink : List Text → Option Text → Type 0
  IsLink path target =
      (find_pending pending path ≡ some (link target))
      ⊎ ((find_pending pending path ≡ none)
          × ((has_below pending path ≡ false) × (on_disk path ≡ ok (some (link target)))))

  IsLink-node :
      (path : List Text) (target : Option Text)
      → IsLink path target
      → node base pending on_disk path ≡ ok (some (link target))
  unfolding node
  IsLink-node path target (inl e) = rw e refl
  IsLink-node path target (inr h) = rw h.0 (rw (h.1.0) h.1.1)

  -- No prefix of the path, itself included, is a symlink.
  abbrev pub HasNoLink : List Text → Type 0
  HasNoLink path =
      (q r : List Text) (target : Option Text) → path ≡ q ++ r → q ≢ [] → ¬ IsLink q target

  -- A path of names with no link in it.
  abbrev pub Settled : List Text → Type 0
  Settled path = HasNoLink path × All IsName path

  pub nil-Settled : Settled []
  nil-Settled = (λ q r t e n. absurd (n (empty q r e)), tt)
    where
      empty : (q r : List Text) → [] ≡ q ++ r → q ≡ []
      empty [] r e = refl
      empty (x ∷ q) r e = absurd (cc e)

  All-append : (P : Text → Type 0) (xs ys : List Text) → All P xs → All P ys → All P (xs ++ ys)
  All-append P [] ys a b = b
  All-append P (x ∷ xs) ys a b = (a.0, All-append P xs ys a.1 b)

  snoc-Settled :
      (path : List Text) (comp : Text)
      → Settled path
      → IsName comp
      → ((t : Option Text) → node base pending on_disk (path ++ comp ∷ []) ≢ ok (some (link t)))
      → Settled (path ++ comp ∷ [])
  snoc-Settled path comp h name last = (
    λ q r t e n. elim (prefix-snoc q r path comp e) [
      | inl whole ↦
          subst (λ (l : List Text). ¬ IsLink l t) (sym whole) (λ l. last t (IsLink-node _ t l))
      | inr part ↦ h.0 q part.0 t part.1 n
    ],
    All-append IsName path (comp ∷ []) h.1 (name, tt),
  )

  pop-snoc :
      (path above : List Text) → pop path ≡ some above → (comp : Text) × (path ≡ above ++ comp ∷ [])
  unfolding pop
  pop-snoc [] above e = absurd (cc e)
  pop-snoc (c ∷ []) above e = (c, cons_snoc above (some-injective e))
    where
      cons_snoc : (above : List Text) → [] ≡ above → c ∷ [] ≡ above ++ c ∷ []
      cons_snoc [] e = refl
      cons_snoc (x ∷ above) e = absurd (cc e)
  pop-snoc (c ∷ d ∷ s) above e = grown (pop (d ∷ s)) (pop-snoc (d ∷ s)) e
    where
      grown :
          (r : Option (List Text))
          → ((a : List Text) → r ≡ some a → (comp : Text) × (d ∷ s ≡ a ++ comp ∷ []))
          → keep_first c r ≡ some above
          → (comp : Text) × (c ∷ d ∷ s ≡ above ++ comp ∷ [])
      grown none f e = absurd (cc e)
      grown (some rest) f e =
          let (comp, same) = f rest refl in
          (comp, cons_eq refl same ∙ ap (λ (l : List Text). l ++ comp ∷ []) (some-injective e))

  pop-Settled : (path above : List Text) → pop path ≡ some above → Settled path → Settled above
  pop-Settled path above e h =
      let (comp, same) = pop-snoc path above e in
      (
        λ q r t f n.
            h.0 q (r ++ comp ∷ []) t
              (same ∙ ap (λ (l : List Text). l ++ comp ∷ []) f ∙ append_assoc q r (comp ∷ [])) n,
        All-first above (comp ∷ []) (subst (All IsName) same h.1),
      )
    where
      All-first : (xs ys : List Text) → All IsName (xs ++ ys) → All IsName xs
      All-first [] ys a = tt
      All-first (x ∷ xs) ys a = (a.0, All-first xs ys a.1)

  -- Where a resolution that leads inside ends.
  abbrev Lands : Result ResolveError Resolution → Type 0
  Lands (ok (inside path)) = Settled path
  Lands (ok outside) = Unit
  Lands (err e) = Unit

  from_above-Lands :
      (go : List Text → Resolved) (r : Option (List Text))
      → ((above : List Text) → r ≡ some above → Lands (go above))
      → Lands (from_above go r)
  from_above-Lands go none h = tt
  from_above-Lands go (some above) h = h above refl

  from_node-Lands :
      (go : Bool → Resolved) (follow : Option Text → Resolved)
      (r : Result ResolveError (Option Pending))
      → (((t : Option Text) → r ≢ ok (some (link t))) → (k : Bool) → Lands (go k))
      → ((t : Option Text) → Lands (follow t))
      → Lands (from_node go follow r)
  from_node-Lands go follow (err e) h f = tt
  from_node-Lands go follow (ok none) h f = h (λ t e. cc e) false
  from_node-Lands go follow (ok (some dir)) h f = h (λ t e. cc e) true
  from_node-Lands go follow (ok (some file)) h f = h (λ t e. cc e) false
  from_node-Lands go follow (ok (some (link t))) h f = f t

  parent_of-Settled :
      (known : Bool) (cur above : List Text)
      → parent_of known cur ≡ some above
      → Settled cur
      → Settled above
  parent_of-Settled true cur above e h = pop-Settled cur above e h
  parent_of-Settled false cur above e h = absurd (cc e)

  walk-Lands :
      (on_link : OnLink)
      → ((t : Option Text) (cur queue : List Text) (known : Bool)
          → Settled cur
          → Lands (on_link t cur queue known))
      → (cur queue : List Text) (known : Bool) → Settled cur
      → Lands (walk base pending on_disk on_link cur queue known)
  unfolding walk
  walk-Lands on_link follow cur [] known h = h
  walk-Lands on_link follow cur (comp ∷ queue) known h = elim (kind-cases (component_kind comp)) [
    | inl e ↦ rw (e, walk) (walk-Lands on_link follow cur queue known h)
    | inr (inl e) ↦
        rw (e, walk)
          (from_above-Lands (λ above. walk base pending on_disk on_link above queue known)
            (parent_of known cur)
            (λ above u.
              walk-Lands on_link follow above queue known (parent_of-Settled known cur above u h)))
    | inr (inr e) ↦
        rw (e, walk)
          (from_node-Lands (λ k. walk base pending on_disk on_link (cur ++ comp ∷ []) queue k)
            (λ target. on_link target cur queue known)
            (node base pending on_disk (cur ++ comp ∷ []))
            (λ no_link k.
              walk-Lands on_link follow (cur ++ comp ∷ []) queue k
                (snoc-Settled cur comp h e no_link))
            (λ t. follow t cur queue known h))
  ]

  -- The root and the place of a link stay settled.
  expanded-Lands :
      (go : List Text → List Text → Bool → Resolved) (cur queue : List Text) (known : Bool)
      (target : Option Text)
      → ((c q : List Text) (k : Bool) → Settled c → Lands (go c q k))
      → Settled cur
      → Lands (expanded go cur queue known (expand base cur target))
  unfolding expand
  expanded-Lands go cur queue known none h s = tt
  expanded-Lands go cur queue known (some target) h s = elim (Bool-cases (has_root target)) [
    | inl e ↦ rw e (elim (Bool-cases (has_root base)) [
      | inl e' ↦ rw e' (rooted (strip_components (path_components base) (path_components target)))
      | inr e' ↦ rw e' tt
    ])
    | inr e ↦ rw e (h _ _ _ s)
  ]
    where
      rooted : (r : Option (List Text)) → Lands (expanded go cur queue known (from_root r))
      rooted none = tt
      rooted (some rest) = h _ _ _ nil-Settled

  resolve_hops-Lands :
      (hops : ℕ) (cur queue : List Text) (known : Bool)
      → Settled cur
      → Lands (resolve_hops base pending on_disk hops cur queue known)
  unfolding resolve_hops
  resolve_hops-Lands zero cur queue known h =
      walk-Lands (λ t c q k. err too_many_links) (λ t c q k s. tt) cur queue known h
  resolve_hops-Lands (suc hops) cur queue known h =
      walk-Lands _
        (λ t c q k s.
          expanded-Lands (resolve_hops base pending on_disk hops) c q k t (resolve_hops-Lands hops)
            s)
        cur queue known h

  Lands-inside : (r : Resolved) (path : List Text) → Lands r → r ≡ ok (inside path) → Settled path
  Lands-inside (err e) path h eq = absurd (cc eq)
  Lands-inside (ok outside) path h eq =
      absurd (let f : outside ≡ inside path = ok-injective eq in cc f)
  Lands-inside (ok (inside p)) path h eq = subst Settled (inside-injective (ok-injective eq)) h
    where
      inside-injective : inside p ≡ inside path → p ≡ path
      inside-injective e = ap from e
        where
          from : Resolution → List Text
          from (inside q) = q
          from outside = path

  -- When no link stands above a link, and `resolve_link` finds that the link leads inside the root,
  -- then the path it returns has only names of entries as components, never `..`, and neither the
  -- path nor any directory above it is a link of the set or of the disk.
  pub resolve_link-Settled :
      (path : List Text) (target : Option Text) (end : List Text)
      → Settled (directory (pop path))
      → resolve_link base pending on_disk path target ≡ ok (inside end)
      → Settled end
  unfolding resolve_link
  resolve_link-Settled path target end h e =
      Lands-inside _ end
        (expanded-Lands (resolve_hops base pending on_disk max_link_hops) (directory (pop path)) []
          true target (resolve_hops-Lands max_link_hops) h)
        e

-- ===== src/Glob/Star.antt =====
-- `star_match` of crates/taskcore/src/fingerprint/glob.rs: matching with stars by a table of
-- suffixes, one row for each token, and the relation that it decides.
use task_rs.Base.{
  ◌≡◌, refl, ◌↔◌, ◌⊎◌, inl, inr, Bool, true, false, ◌&&◌, ◌||◌, List, [], ◌∷◌, ◌++◌, Bool-cases,
  if◌then◌else◌, &&_iff, ||_iff, tail,
}

-- The tests that a caller passes: which tokens are stars, which items a star may take, and which
-- items another token accepts.
pub record Tests {ℓ κ} (T : Type ℓ) (U : Type κ) : Type (ℓ ⊔ κ) where
  pub is_star : T → Bool
  pub star_ok : U → Bool
  pub hit : T → U → Bool

true_not_false : {b : Bool} → b ≡ true → b ≡ false → ⊥
true_not_false p q = cc

abbrev pub first : List Bool → Bool
first [] = false
first (b ∷ row) = b

module _ {ℓ κ} {T : Type ℓ} {U : Type κ} (m : Tests T U) where
  -- What a match is, with no table: a star takes any run of items that it may take.
  pub data Matches : List T → List U → Type (ℓ ⊔ κ) where
    done : Matches [] []
    one :
        {t : T} {u : U} {ts : List T} {us : List U}
        → m.is_star t ≡ false
        → m.hit t u ≡ true
        → Matches ts us
        → Matches (t ∷ ts) (u ∷ us)
    leave :
        {t : T} {ts : List T} {us : List U}
        → m.is_star t ≡ true
        → Matches ts us
        → Matches (t ∷ ts) us
    take :
        {t : T} {u : U} {ts : List T} {us : List U}
        → m.is_star t ≡ true
        → m.star_ok u ≡ true
        → Matches (t ∷ ts) us
        → Matches (t ∷ ts) (u ∷ us)

-- The row before any token: only the empty suffix is matched.
pub end_row {κ} : {U : Type κ} → List U → List Bool
end_row [] = true ∷ []
end_row (u ∷ us) = false ∷ end_row us

module _ {ℓ κ} {T : Type ℓ} {U : Type κ} (m : Tests T U) where
  -- The loop of a star, from the end: `cur[j]` needs `cur[j + 1]`.
  pub star_row : List U → List Bool → List Bool
  star_row [] next = first next ∷ []
  star_row (u ∷ us) next =
      let cur = star_row us (tail next) in (first next || (m.star_ok u && first cur)) ∷ cur

  -- The loop of any other token; `cur` starts as false everywhere.
  pub hit_row : T → List U → List Bool → List Bool
  hit_row t [] next = false ∷ []
  hit_row t (u ∷ us) next = (first (tail next) && m.hit t u) ∷ hit_row t us (tail next)

  pub token_row : T → List U → List Bool → List Bool
  token_row t us next = if m.is_star t then star_row us next else hit_row t us next

  -- The rows after the last tokens, one by one from the end.
  pub rows : List T → List U → List Bool
  rows [] us = end_row us
  rows (t ∷ ts) us = token_row t us (rows ts us)

  unfoldable pub star_match : List T → List U → Bool
  unfolding end_row star_row hit_row token_row rows
  star_match ts us = first (rows ts us)

  -- What a match starts with, read off the first token.
  pub end_inv :
      {t : T} {ts : List T} → Matches m (t ∷ ts) [] → (m.is_star t ≡ true) × Matches m ts []
  end_inv (leave s d) = (s, d)

  pub one_inv :
      {t : T} {u : U} {ts : List T} {us : List U}
      → Matches m (t ∷ ts) (u ∷ us)
      → m.is_star t ≡ false
      → (m.hit t u ≡ true) × Matches m ts us
  one_inv (one _ h d) ns = (h, d)
  one_inv (leave s d) ns = absurd (true_not_false s ns)
  one_inv (take s o d) ns = absurd (true_not_false s ns)

  pub star_inv :
      {t : T} {u : U} {ts : List T} {us : List U}
      → Matches m (t ∷ ts) (u ∷ us)
      → m.is_star t ≡ true
      → Matches m ts (u ∷ us) ⊎ ((m.star_ok u ≡ true) × Matches m (t ∷ ts) us)
  star_inv (one ns h d) s = absurd (true_not_false s ns)
  star_inv (leave _ d) s = inl d
  star_inv (take _ o d) s = inr (o, d)

  -- `row[j]` tells whether the tokens match the items from `j` on.
  abbrev IsRow : List T → List U → List Bool → Type (ℓ ⊔ κ)
  IsRow ts [] row = (first row ≡ true) ↔ Matches m ts []
  IsRow ts (u ∷ us) row = ((first row ≡ true) ↔ Matches m ts (u ∷ us)) × IsRow ts us (tail row)

  IsRow-first :
      (ts : List T) (us : List U) (row : List Bool)
      → IsRow ts us row
      → (first row ≡ true) ↔ Matches m ts us
  IsRow-first ts [] row h = h
  IsRow-first ts (u ∷ us) row h = h.0

  end_row-IsRow : (us : List U) → IsRow [] us (end_row us)
  unfolding end_row
  end_row-IsRow [] = (λ _. done, λ _. refl)
  end_row-IsRow (u ∷ us) = ((λ h. cc, λ d. elim d [ ]), end_row-IsRow us)

  hit_row-IsRow :
      (t : T) (ts : List T) (us : List U) (next : List Bool)
      → m.is_star t ≡ false
      → IsRow ts us next
      → IsRow (t ∷ ts) us (hit_row t us next)
  unfolding hit_row
  hit_row-IsRow t ts [] next ns h = (λ e. cc, λ d. absurd (true_not_false (end_inv d).0 ns))
  hit_row-IsRow t ts (u ∷ us) next ns h =
      let e = IsRow-first ts us (tail next) h.1 in
      (
        (
          λ p. let q = (&&_iff _ _).0 p in one ns q.1 (e.0 q.0),
          λ d. let q = one_inv d ns in (&&_iff _ _).1 (e.1 q.1, q.0),
        ),
        hit_row-IsRow t ts us (tail next) ns h.1,
      )

  star_row-IsRow :
      (t : T) (ts : List T) (us : List U) (next : List Bool)
      → m.is_star t ≡ true
      → IsRow ts us next
      → IsRow (t ∷ ts) us (star_row us next)
  unfolding star_row
  star_row-IsRow t ts [] next s h = (λ e. leave s (h.0 e), λ d. h.1 (end_inv d).1)
  star_row-IsRow t ts (u ∷ us) next s h =
      let rest = star_row-IsRow t ts us (tail next) s h.1 in
      let e = IsRow-first (t ∷ ts) us _ rest in
      (
        (
          λ p. elim ((||_iff _ _).0 p) [
            | inl a ↦ leave s (h.0.0 a)
            | inr b ↦ let q = (&&_iff _ _).0 b in take s q.0 (e.0 q.1)
          ],
          λ d. elim (star_inv d s) [
            | inl a ↦ (||_iff _ _).1 (inl (h.0.1 a))
            | inr (o, a) ↦ (||_iff _ _).1 (inr ((&&_iff _ _).1 (o, e.1 a)))
          ],
        ),
        rest,
      )

  token_row-IsRow :
      (t : T) (ts : List T) (us : List U) (next : List Bool)
      → IsRow ts us next
      → IsRow (t ∷ ts) us (token_row t us next)
  unfolding token_row
  token_row-IsRow t ts us next h = elim (Bool-cases (m.is_star t)) [
    | inl s ↦ rw s (star_row-IsRow t ts us next s h)
    | inr ns ↦ rw ns (hit_row-IsRow t ts us next ns h)
  ]

  rows-IsRow : (ts : List T) (us : List U) → IsRow ts us (rows ts us)
  unfolding rows
  rows-IsRow [] us = end_row-IsRow us
  rows-IsRow (t ∷ ts) us = token_row-IsRow t ts us (rows ts us) (rows-IsRow ts us)

  -- The table answers true exactly when the tokens match all of the items: whatever the stars,
  -- the answer is that of the relation, which has no order of search in it.
  pub star_match_iff : (ts : List T) (us : List U) → (star_match ts us ≡ true) ↔ Matches m ts us
  unfolding star_match
  star_match_iff ts us = IsRow-first ts us (rows ts us) (rows-IsRow ts us)

  -- A match of one list of tokens and then of another.
  pub Matches-append :
      {ts : List T} {us : List U} (ts' : List T) (us' : List U)
      → Matches m ts us
      → Matches m ts' us'
      → Matches m (ts ++ ts') (us ++ us')
  Matches-append ts' us' done e = e
  Matches-append ts' us' (one ns h d) e = one ns h (Matches-append ts' us' d e)
  Matches-append ts' us' (leave s d) e = leave s (Matches-append ts' us' d e)
  Matches-append ts' us' (take s o d) e = take s o (Matches-append ts' us' d e)

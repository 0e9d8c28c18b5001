-- ===== src/Glob/Pruner.antt =====
-- `Pruner` of crates/taskcore/src/fingerprint/glob.rs: the directories that a walk need not enter,
-- because a negated whole-tree pattern excludes all that is below them.
pub mod Below
pub mod Excluded
use task_rs.Base.{
  ℕ, zero, suc, ◌+◌, ◌≡◌, refl, sym, ap, ap₂, ◌∙◌, Bool, true, false, not, Option, none, some, List,
  [], ◌∷◌, ◌++◌, arith, if◌then◌else◌, ltb, ◌==◌, Text, ◌=ₜ◌, codes, keep, length, tail,
  append_assoc, append-nil, Bool-cases, inl, inr, Option-cases, =ₜ_iff,
}
use task_rs.Glob.Path.{split, normalized, double_star, match_segments, ends_with_slash}

pub record Pruner : Type 0 where
  pub prefix : List Text

-- `slice::split_last`
abbrev pub init_last : Text → List Text → List Text × Text
init_last w [] = ([], w)
init_last w (v ∷ ws) = let (ys, y) = init_last v ws in (w ∷ ys, y)

unfoldable pub split_last : List Text → Option (List Text × Text)
split_last [] = none
split_last (w ∷ ws) = some (init_last w ws)

abbrev pub lone_star : Text
lone_star = b'*' ∷ []

-- The last segment goes if it is `*`.
unfoldable pub drop_star : List Text → List Text
drop_star prefix = elim (split_last prefix) [
  | none ↦ prefix
  | some (rest, s) ↦ if s =ₜ lone_star then rest else prefix
]

-- `while let Some((&"**", rest)) = prefix.split_last()`, on fuel, counting the rounds.
unfoldable pub drop_double_stars : ℕ → List Text → ℕ → List Text × ℕ
drop_double_stars zero prefix stars = (prefix, stars)
drop_double_stars (suc f) prefix stars = elim (split_last prefix) [
  | none ↦ (prefix, stars)
  | some (rest, s) ↦
      let next = drop_double_stars f rest (stars + 1) in
      if s =ₜ double_star then next else (prefix, stars)
]

unfoldable pub min_depth : List Text → ℕ
min_depth prefix = length (keep (λ s. not (s =ₜ double_star)) prefix)

unfoldable pub new : Text → Option Pruner
new pattern =
    let segments = drop_star (normalized pattern) in
    let (prefix, stars) = drop_double_stars (length segments) segments 0 in
    if ends_with_slash pattern
    then none
    else if stars == 0
    then none
    else if ltb (min_depth prefix) 2
    then none
    else some (record { prefix = prefix })

unfoldable pub covers : Pruner → Text → Bool
covers p dir = match_segments p.prefix (split dir) true

init_last-append :
    (w : Text) (ws : List Text) → (init_last w ws).0 ++ (init_last w ws).1 ∷ [] ≡ w ∷ ws
init_last-append w [] = refl
init_last-append w (v ∷ ws) = ap (λ (l : List Text). w ∷ l) (init_last-append v ws)

split_last-append :
    (ws ys : List Text) (y : Text) → split_last ws ≡ some (ys, y) → ws ≡ ys ++ y ∷ []
unfolding split_last
split_last-append [] ys y h = cc
split_last-append (w ∷ ws) ys y h = cc (init_last-append w ws)

-- `k` times `**`.
unfoldable pub stars_of : ℕ → List Text
stars_of zero = []
stars_of (suc k) = double_star ∷ stars_of k

stars_of-snoc : (k : ℕ) → stars_of k ++ double_star ∷ [] ≡ stars_of (suc k)
unfolding stars_of
stars_of-snoc zero = refl
stars_of-snoc (suc k) = ap (λ (l : List Text). double_star ∷ l) (stars_of-snoc k)

-- `r` is `ws` and a count with a run of `**` taken off the end of the one and added to the other.
abbrev Drops : List Text → ℕ → List Text × ℕ → Type 0
Drops ws stars r = (k : ℕ) × (r.0 ++ stars_of k ≡ ws) × (r.1 ≡ stars + k)

Drops-none : (ws : List Text) (stars : ℕ) → Drops ws stars (ws, stars)
unfolding stars_of
Drops-none ws stars = (0, append-nil ws, omega arith)

Drops-more :
    (ws rest : List Text) (s : Text) (stars : ℕ) (r : List Text × ℕ)
    → split_last ws ≡ some (rest, s)
    → (s =ₜ double_star) ≡ true
    → Drops rest (stars + 1) r
    → Drops ws stars r
Drops-more ws rest s stars r e q (k, a, b) = (
  suc k,
  ap (λ (l : List Text). r.0 ++ l) (sym (stars_of-snoc k))
      ∙ sym (append_assoc r.0 (stars_of k) (double_star ∷ []))
      ∙ ap₂ (λ (l : List Text) (w : Text). l ++ w ∷ []) a (sym ((=ₜ_iff s double_star).0 q))
      ∙ sym (split_last-append ws rest s e),
  omega arith,
)

drop_double_stars-Drops :
    (f : ℕ) (ws : List Text) (stars : ℕ) → Drops ws stars (drop_double_stars f ws stars)
unfolding drop_double_stars
drop_double_stars-Drops zero ws stars = Drops-none ws stars
drop_double_stars-Drops (suc f) ws stars = elim (Option-cases (split_last ws)) [
  | inl e ↦ rw (e, drop_double_stars) (Drops-none ws stars)
  | inr ((rest, s), e) ↦ elim (Bool-cases (s =ₜ double_star)) [
    | inl q ↦
        rw (e, drop_double_stars, q)
          (Drops-more ws rest s stars _ e q (drop_double_stars-Drops f rest (stars + 1)))
    | inr q ↦ rw (e, drop_double_stars, q) (Drops-none ws stars)
  ]
]

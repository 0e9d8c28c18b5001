-- ===== src/Base/Lists.antt =====
-- Lists measured and indexed by native numbers, Boolean searches, and predicates by recursion.
use Prim.Native.Nat.{ℕ, zero, suc, ◌+◌}
use Prim.Native.Nat.add
use mathlib.Core.Path.{◌≡◌, refl, sym, ap, ap₂}
use mathlib.Core.Logic.{◌⊎◌, inl, inr}
use mathlib.Core.Bool.{Bool, true, false, ◌&&◌, ◌||◌}
use mathlib.Core.List.{List, [], ◌∷◌, ◌++◌}
use native.Mathlib.Omega.{arith}
use task_rs.Base.Tests.{if◌then◌else◌}

module _ {ℓ} {A : Type ℓ} where
  abbrev pub length : List A → ℕ
  length [] = 0
  length (x ∷ xs) = suc (length xs)

  abbrev pub get_or : List A → ℕ → A → A
  get_or [] i d = d
  get_or (x ∷ xs) zero d = x
  get_or (x ∷ xs) (suc i) d = get_or xs i d

  abbrev pub take : ℕ → List A → List A
  take zero xs = []
  take (suc n) [] = []
  take (suc n) (x ∷ xs) = x ∷ take n xs

  abbrev pub drop : ℕ → List A → List A
  drop zero xs = xs
  drop (suc n) [] = []
  drop (suc n) (x ∷ xs) = drop n xs

  abbrev pub any : (A → Bool) → List A → Bool
  any p [] = false
  any p (x ∷ xs) = p x || any p xs

  abbrev pub all : (A → Bool) → List A → Bool
  all p [] = true
  all p (x ∷ xs) = p x && all p xs

  -- `Iterator::filter`
  abbrev pub keep : (A → Bool) → List A → List A
  keep p [] = []
  keep p (x ∷ xs) = let rest = keep p xs in if p x then x ∷ rest else rest

  abbrev pub tail : List A → List A
  tail [] = []
  tail (x ∷ xs) = xs

  abbrev pub All {κ} : (A → Type κ) → List A → Type κ
  All P [] = Unit
  All P (x ∷ xs) = P x × All P xs

  pub length-append : (xs ys : List A) → length (xs ++ ys) ≡ length xs + length ys
  length-append [] ys = omega arith
  length-append (x ∷ xs) ys = omega (arith, length-append xs ys)

  pub take-length : (a b : List A) → take (length a) (a ++ b) ≡ a
  take-length [] b = refl
  take-length (c ∷ a) b = ap (λ (l : List A). c ∷ l) (take-length a b)

  pub drop-length : (a b : List A) → drop (length a) (a ++ b) ≡ b
  drop-length [] b = refl
  drop-length (c ∷ a) b = drop-length a b

-- `x` is an element of the list.
abbrev pub In : {A : Type 0} → A → List A → Type 0
In a [] = ⊥
In a (x ∷ xs) = (a ≡ x) ⊎ In a xs

pub drop-add {ℓ} : {A : Type ℓ} (k n : ℕ) (xs : List A) → drop (k + n) xs ≡ drop n (drop k xs)
drop-add zero n xs = rw (add.zero n)
drop-add (suc k) n [] = rw add.suc (sym (drop-nil n))
  where
    drop-nil : {A : Type ℓ} (m : ℕ) → drop {A = A} m [] ≡ []
    drop-nil zero = refl
    drop-nil (suc m) = refl
drop-add (suc k) n (x ∷ xs) = rw add.suc (drop-add k n xs)

module _ {ℓ} {A : Type ℓ} where
  pub tail_eq : {a b : A} {s t : List A} → a ∷ s ≡ b ∷ t → s ≡ t
  tail_eq e = ap tail e

  pub head_eq : {a b : A} {s t : List A} → a ∷ s ≡ b ∷ t → a ≡ b
  head_eq {a} e = ap (λ (l : List A). get_or l 0 a) e

  pub cons_eq : {a b : A} {s t : List A} → a ≡ b → s ≡ t → a ∷ s ≡ b ∷ t
  cons_eq e f = ap₂ (λ (a : A) (s : List A). a ∷ s) e f

  pub not-nil_eq_middle : (q r : List A) (x : A) → ¬ ([] ≡ q ++ x ∷ r)
  not-nil_eq_middle [] r x e = cc e
  not-nil_eq_middle (y ∷ q) r x e = cc e

  -- A list with one element more has the prefixes of the list, and itself.
  pub prefix-snoc :
      (q r s : List A) (x : A)
      → s ++ x ∷ [] ≡ q ++ r
      → (q ≡ s ++ x ∷ []) ⊎ ((r' : List A) × (s ≡ q ++ r'))
  prefix-snoc [] r s x e = inr (s, refl)
  prefix-snoc (y ∷ []) r [] x e = inl (cons_eq (sym (head_eq e)) refl)
  prefix-snoc (y ∷ z ∷ q) r [] x e = absurd (cc (tail_eq e))
  prefix-snoc (y ∷ q) r (z ∷ s) x e = elim (prefix-snoc q r s x (tail_eq e)) [
    | inl f ↦ inl (cons_eq (sym (head_eq e)) f)
    | inr g ↦ inr (g.0, cons_eq (head_eq e) g.1)
  ]

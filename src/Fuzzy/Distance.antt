-- ===== src/Fuzzy/Distance.antt =====
-- The edit distance: the fewest insertions, deletions and substitutions from one text to another.
use task_rs.Base.{
  ℕ, suc, ◌+◌, ◌≤◌, ◌≡◌, refl, sym, subst, ◌⊎◌, inl, inr, [], ◌∷◌, ◌++◌, arith, ◌==◌, if◌then◌else◌,
  Text, length, min, append-nil,
}
use mathlib.Core.Path.{subst₂}
use mathlib.Core.List.{reverse, reverse-cons}

abbrev pub cost : ℕ → ℕ → ℕ
cost x y = if x == y then 0 else 1

-- A way to edit the one text into the other, with what it costs.
pub data Edits : Text → Text → ℕ → Type 0 where
  done : Edits [] [] 0
  delete : {x n : ℕ} {a b : Text} → Edits a b n → Edits (x ∷ a) b (suc n)
  insert : {y n : ℕ} {a b : Text} → Edits a b n → Edits a (y ∷ b) (suc n)
  replace : {x y n m : ℕ} {a b : Text} → Edits a b n → m ≡ n + cost x y → Edits (x ∷ a) (y ∷ b) m

-- The distance by recursion.
unfoldable pub dist : Text → Text → ℕ
dist [] b = length b
dist (x ∷ a) [] = suc (length a)
dist (x ∷ a) (y ∷ b) = min (min (suc (dist a (y ∷ b))) (suc (dist (x ∷ a) b))) (dist a b + cost x y)

pub dist-nil_right : (a : Text) → dist a [] ≡ length a
unfolding dist
dist-nil_right [] = refl
dist-nil_right (x ∷ a) = refl

pub dist-delete : (x : ℕ) (a b : Text) → dist (x ∷ a) b ≤ suc (dist a b)
unfolding dist
dist-delete x a [] = omega (arith, dist-nil_right a)
dist-delete x a (y ∷ b) = omega arith

dist-insert : (y : ℕ) (a b : Text) → dist a (y ∷ b) ≤ suc (dist a b)
unfolding dist
dist-insert y [] b = omega arith
dist-insert y (x ∷ a) b = omega arith

dist-replace : (x y : ℕ) (a b : Text) → dist (x ∷ a) (y ∷ b) ≤ dist a b + cost x y
unfolding dist
dist-replace x y a b = omega arith

-- No way is cheaper.
pub dist-le : {a b : Text} {n : ℕ} → Edits a b n → dist a b ≤ n
dist-le done = unfold dist in omega arith
dist-le (delete {x} {a} {b} e) = omega (arith, dist-delete x a b, dist-le e)
dist-le (insert {y} {a} {b} e) = omega (arith, dist-insert y a b, dist-le e)
dist-le (replace {x} {y} {a} {b} e c) = omega (arith, dist-replace x y a b, dist-le e)

Edits-insert_all : (b : Text) → Edits [] b (length b)
Edits-insert_all [] = done
Edits-insert_all (y ∷ b) = insert (Edits-insert_all b)

Edits-delete_all : (a : Text) → Edits a [] (length a)
Edits-delete_all [] = done
Edits-delete_all (x ∷ a) = delete (Edits-delete_all a)

-- One of two is the smaller.
min-elim : (P : ℕ → Type 0) (p q : ℕ) → P p → P q → P (min p q)
min-elim P p q hp hq = elim (leb_cases p q) [
  | inl h ↦ subst P (sym (omega arith)) hp
  | inr h ↦ subst P (sym (omega arith)) hq
]
  where
    leb_cases : (a b : ℕ) → (min a b ≡ a) ⊎ (min a b ≡ b)
    leb_cases a b = omega arith

-- And one costs as much.
pub dist-Edits : (a b : Text) → Edits a b (dist a b)
unfolding dist
dist-Edits [] b = Edits-insert_all b
dist-Edits (x ∷ a) [] = delete (Edits-delete_all a)
dist-Edits (x ∷ a) (y ∷ b) =
    min-elim (Edits (x ∷ a) (y ∷ b)) _ _
      (min-elim (Edits (x ∷ a) (y ∷ b)) _ _ (delete (dist-Edits a (y ∷ b)))
        (insert (dist-Edits (x ∷ a) b)))
      (replace (dist-Edits a b) refl)

Edits-append :
    {a b : Text} {n m : ℕ} {c d : Text}
    → Edits a b n
    → Edits c d m
    → Edits (a ++ c) (b ++ d) (n + m)
Edits-append {c} {d} done f = subst (Edits c d) (omega arith) f
Edits-append {c = u} {d} (delete {x} {n} {a} {b} e) f =
    subst (Edits (x ∷ a ++ u) (b ++ d)) (omega arith) (delete (Edits-append e f))
Edits-append {c = u} {d} (insert {y} {n} {a} {b} e) f =
    subst (Edits (a ++ u) (y ∷ b ++ d)) (omega arith) (insert (Edits-append e f))
Edits-append (replace e c) f = replace (Edits-append e f) (omega arith)

-- Read from the end, an edit costs the same.
pub Edits-reverse : {a b : Text} {n : ℕ} → Edits a b n → Edits (reverse a) (reverse b) n
Edits-reverse done = done
Edits-reverse (delete {x} {n} {a} {b} e) = rw reverse-cons (
    subst₂ (Edits (reverse a ++ x ∷ [])) (append-nil (reverse b)) (omega arith)
      (Edits-append (Edits-reverse e) (delete done)))
Edits-reverse (insert {y} {n} {a} {b} e) = rw reverse-cons (
    subst₂ (λ (t : Text). Edits t (reverse b ++ y ∷ [])) (append-nil (reverse a)) (omega arith)
      (Edits-append (Edits-reverse e) (insert done)))
Edits-reverse (replace {x} {y} {n} {m} {a} {b} e c) = rw (reverse-cons x a) (
    rw (reverse-cons y b) (
      subst (Edits (reverse a ++ x ∷ []) (reverse b ++ y ∷ [])) (omega arith)
        (Edits-append (Edits-reverse e) (replace done refl))))

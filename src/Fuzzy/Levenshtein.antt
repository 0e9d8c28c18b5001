-- ===== src/Fuzzy/Levenshtein.antt =====
-- `levenshtein` computes the edit distance.
use mathlib.Core.Path.{subst₂}
use mathlib.Core.List.{reverse, reverse-cons, reverse-reverse}
use task_rs.Base.{
  ℕ, suc, ◌+◌, ◌≤◌, ◌≡◌, refl, sym, ap, ap₂, ◌∙◌, List, [], ◌∷◌, ◌++◌, arith, Text, length, min,
  append_assoc, append-nil, get_or, length-append,
}
use task_rs.Fuzzy.{
  usize_max, saturating_add, inner_loop, outer_loop, upto, last_or_zero, levenshtein,
}
use task_rs.Fuzzy.Distance.{
  cost, Edits, dist, dist-nil_right, dist-delete, dist-le, dist-Edits, Edits-reverse,
}

saturating_add-eq : (a b : ℕ) → a + b ≤ usize_max → saturating_add a b ≡ a + b
unfolding saturating_add
saturating_add-eq a b h = omega arith

dist-le-length : (a b : Text) → dist a b ≤ length a + length b
unfolding dist
dist-le-length [] b = omega arith
dist-le-length (x ∷ a) b = omega (arith, dist-delete x a b, dist-le-length a b)

-- The row of the table for the prefix whose characters, last first, are `p`; `q` is the prefix of
-- the other text before the row starts.
row : Text → Text → Text → List ℕ
row p q [] = dist p q ∷ []
row p q (y ∷ b) = dist p q ∷ row p (y ∷ q) b

get_or-row : (p q b : Text) → get_or (row p q b) 0 usize_max ≡ dist p q
unfolding row
get_or-row p q [] = refl
get_or-row p q (y ∷ b) = refl

upto-row : (q b : Text) (start : ℕ) → start ≡ length q → upto start (length b) ≡ row [] q b
unfolding upto row dist
upto-row q [] start e = rw e refl
upto-row q (y ∷ b) start e = ap₂ ◌∷◌ e (upto-row (y ∷ q) b (start + 1) (omega arith))

cost-le : (x y : ℕ) → cost x y ≤ 1
cost-le x y = ground arith

dist-cons :
    (x y : ℕ) (p q : Text)
    → dist (x ∷ p) (y ∷ q)
      ≡ min (min (suc (dist p (y ∷ q))) (suc (dist (x ∷ p) q))) (dist p q + cost x y)
unfolding dist
dist-cons x y p q = refl

-- One entry of the row: no addition saturates.
best_lem :
    (x y : ℕ) (p q : Text) (left deletion substitution : ℕ)
    → deletion ≡ dist p (y ∷ q)
    → left ≡ dist (x ∷ p) q
    → substitution ≡ dist p q
    → length p + length q + 3 ≤ usize_max
    → min
        (min (saturating_add deletion 1) (saturating_add left 1))
        (saturating_add substitution (cost x y))
      ≡ dist (x ∷ p) (y ∷ q)
unfolding saturating_add
best_lem x y p q left deletion substitution d l s h = omega (
  arith,
  dist-cons x y p q,
  cost-le x y,
  dist-le-length p (y ∷ q),
  dist-le-length (x ∷ p) q,
  dist-le-length p q,
)

inner_loop-row :
    (x : ℕ) (p q b : Text) (left : ℕ)
    → left ≡ dist (x ∷ p) q
    → length p + length q + length b + 2 ≤ usize_max
    → left ∷ inner_loop x left (row p q b) b ≡ row (x ∷ p) q b
unfolding inner_loop row
inner_loop-row x p q [] left e h = rw e refl
inner_loop-row x p q (y ∷ b) left e h = ap₂ ◌∷◌ e (
    inner_loop-row x p (y ∷ q) b _
      (best_lem x y p q left _ _ (get_or-row p (y ∷ q) b) e refl (omega arith)) (omega arith))

-- After the rounds over `a`, the row is that of the whole of `a`.
outer_loop-row :
    (p a b : Text) (i : ℕ)
    → i ≡ length p
    → length p + length a + length b + 2 ≤ usize_max
    → outer_loop i (row p [] b) a b ≡ row (reverse a ++ p) [] b
unfolding outer_loop
outer_loop-row p [] b i e h = refl
outer_loop-row p (x ∷ a) b i e h =
    ap (λ (r : List ℕ). outer_loop (i + 1) r a b) (inner_loop-row x p [] b _ start (omega arith))
    ∙ outer_loop-row (x ∷ p) a b (i + 1) (omega arith) (omega arith)
    ∙ ap (λ (t : Text). row t [] b)
        (sym (append_assoc (reverse a) (x ∷ []) p)
          ∙ ap (λ (t : Text). t ++ p) (sym (reverse-cons x a)))
  where
    start : saturating_add i 1 ≡ dist (x ∷ p) []
    start = unfold saturating_add in omega (arith, dist-nil_right (x ∷ p))

last_or_zero-cons : (d : ℕ) (p q b : Text) → last_or_zero (d ∷ row p q b) ≡ last_or_zero (row p q b)
unfolding row last_or_zero
last_or_zero-cons d p q [] = refl
last_or_zero-cons d p q (y ∷ b) = refl

last_or_zero-row : (p q b : Text) → last_or_zero (row p q b) ≡ dist p (reverse b ++ q)
unfolding row last_or_zero
last_or_zero-row p q [] = refl
last_or_zero-row p q (y ∷ b) =
    last_or_zero-cons (dist p q) p (y ∷ q) b
    ∙ last_or_zero-row p (y ∷ q) b
    ∙ ap (dist p) (
        sym (append_assoc (reverse b) (y ∷ []) q)
        ∙ ap (λ (t : Text). t ++ q) (sym (reverse-cons y b)))

length-reverse : (a : Text) → length (reverse a) ≡ length a
length-reverse [] = refl
length-reverse (x ∷ a) =
    rw reverse-cons (omega (arith, length-append (reverse a) (x ∷ []), length-reverse a))

levenshtein-eq-dist :
    (a b : Text)
    → length a + length b + 2 ≤ usize_max
    → levenshtein a b ≡ dist (reverse a) (reverse b)
unfolding levenshtein
levenshtein-eq-dist [] b h = unfold dist in sym (length-reverse b)
levenshtein-eq-dist (x ∷ a) [] h =
    sym (length-reverse (x ∷ a)) ∙ sym (dist-nil_right (reverse (x ∷ a)))
levenshtein-eq-dist (x ∷ a) (y ∷ b) h =
    ap (λ (r : List ℕ). last_or_zero (outer_loop 0 r (x ∷ a) (y ∷ b))) (upto-row [] (y ∷ b) 0 refl)
    ∙ ap last_or_zero (outer_loop-row [] (x ∷ a) (y ∷ b) 0 refl (omega arith))
    ∙ last_or_zero-row (reverse (x ∷ a) ++ []) [] (y ∷ b)
    ∙ ap₂ dist (append-nil (reverse (x ∷ a))) (append-nil (reverse (y ∷ b)))

-- `levenshtein` is the edit distance: some sequence of edits costs as much, and none costs less,
-- where the lengths fit a machine word.
pub levenshtein-Edits :
    (a b : Text)
    → length a + length b + 2 ≤ usize_max
    → Edits a b (levenshtein a b) × ((n : ℕ) → Edits a b n → levenshtein a b ≤ n)
levenshtein-Edits a b h = rw (levenshtein-eq-dist a b h) (
  subst₂ (λ (s t : Text). Edits s t (dist (reverse a) (reverse b))) (reverse-reverse a)
      (reverse-reverse b) (Edits-reverse (dist-Edits (reverse a) (reverse b))),
  λ n e. dist-le (Edits-reverse e),
)

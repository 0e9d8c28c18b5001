-- ===== src/Glob/Exclusion/Joins.antt =====
-- What the text of a path shows of its segments: a prefix, a name within it, the last name.
use task_rs.Base.{
  ◌≡◌, refl, sym, subst, ap, ◌∙◌, true, false, List, [], ◌∷◌, ◌++◌, arith, Text, ◌=ₜ◌, =ₜ_iff,
  append_assoc, append-nil, inl, inr, ◌⊎◌, take, length, take-length, length-append, ends_with,
  ends_with-append, ||_iff, any, ◌-◌, ==_iff, ℕ,
}
use task_rs.Glob.Path.{is_slash, join, starts_with, contains}
use task_rs.Glob.Path.Clean.{IsCons}
use task_rs.Glob.Exclusion.{has_needle, after_last}

pub join-append : (a b : List Text) → IsCons a → IsCons b → join (a ++ b) ≡ join a ++ b'/' ∷ join b
unfolding join
join-append [] b ha hb = elim ha [ ]
join-append (w ∷ []) [] ha hb = elim hb [ ]
join-append (w ∷ []) (v ∷ b) ha hb = refl
join-append (w ∷ x ∷ a) b ha hb =
    ap (λ (l : Text). w ++ b'/' ∷ l) (join-append (x ∷ a) b tt hb)
    ∙ sym (append_assoc w (b'/' ∷ join (x ∷ a)) (b'/' ∷ join b))

starts_with-append : (p s : Text) → starts_with p (p ++ s) ≡ true
unfolding starts_with
starts_with-append [] s = refl
starts_with-append (c ∷ p) s = rw ((==_iff c c).1 refl) (starts_with-append p s)

starts_with-contains : (p s : Text) → starts_with p s ≡ true → contains p s ≡ true
unfolding contains
starts_with-contains p [] h = h
starts_with-contains p (c ∷ s) h = rw h refl

contains-append : (n x y : Text) → contains n (x ++ (n ++ y)) ≡ true
unfolding contains
contains-append n [] y = starts_with-contains n (n ++ y) (starts_with-append n y)
contains-append n (c ∷ x) y =
    (||_iff (starts_with n (c ∷ (x ++ (n ++ y)))) (contains n (x ++ (n ++ y)))).1
      (inr (contains-append n x y))

-- A path starts with its first segments and `/`, or it is they.
pub join-starts :
    (a b : List Text)
    → IsCons a
    → (starts_with (join a ++ b'/' ∷ []) (join (a ++ b)) ≡ true)
      ⊎ ((join (a ++ b) =ₜ join a) ≡ true)
join-starts a [] h = inr ((=ₜ_iff (join (a ++ [])) (join a)).1 (ap join (append-nil a)))
join-starts a (v ∷ b) h = inl (
    rw (join-append a (v ∷ b) h tt) (
      subst (λ (l : Text). starts_with (join a ++ b'/' ∷ []) l ≡ true)
        (append_assoc (join a) (b'/' ∷ []) (join (v ∷ b)))
        (starts_with-append (join a ++ b'/' ∷ []) (join (v ∷ b)))))

abbrev pub slashed : Text → Text
slashed s = b'/' ∷ (s ++ b'/' ∷ [])

take-slashed : (s : Text) → take (length (slashed s) - 1) (slashed s) ≡ b'/' ∷ s
take-slashed s =
    ap (λ (n : ℕ). take n (slashed s)) {y = length (b'/' ∷ s)}
      (omega (arith, length-append s (b'/' ∷ [])))
    ∙ take-length (b'/' ∷ s) (b'/' ∷ [])

pub join-ends_with :
    (a : List Text) (s : Text) → IsCons a → ends_with (b'/' ∷ s) (join (a ++ s ∷ [])) ≡ true
join-ends_with a s h =
    ap (ends_with (b'/' ∷ s)) (join-append a (s ∷ []) h tt)
    ∙ unfold join in ends_with-append (join a) (b'/' ∷ s)

-- A path has each of its segments but the first, as `/name/` or at its end.
pub join-has_needle :
    (a : List Text) (s : Text) (b : List Text)
    → IsCons a
    → has_needle (join (a ++ s ∷ b)) (slashed s) ≡ true
unfolding has_needle
join-has_needle a s [] h =
    (||_iff (contains (slashed s) (join (a ++ s ∷ []))) _).1
      (inr (rw (take-slashed s) (join-ends_with a s h)))
join-has_needle a s (v ∷ b) h = (||_iff (contains (slashed s) (join (a ++ s ∷ v ∷ b))) _).1 (
    inl (
      rw (join-append a (s ∷ v ∷ b) h tt) (
        subst (λ (l : Text). contains (slashed s) (join a ++ b'/' ∷ l) ≡ true)
          (append_assoc s (b'/' ∷ []) (join (v ∷ b)) ∙ unfold join in refl)
          (contains-append (slashed s) (join a) (join (v ∷ b))))))

any-slash : (x s : Text) → any is_slash (x ++ b'/' ∷ s) ≡ true
any-slash [] s = refl
any-slash (c ∷ x) s = (||_iff (is_slash c) (any is_slash (x ++ b'/' ∷ s))).1 (inr (any-slash x s))

after_last-append : (x s : Text) → any is_slash s ≡ false → after_last is_slash (x ++ b'/' ∷ s) ≡ s
unfolding after_last
after_last-append [] s n = rw n refl
after_last-append (c ∷ x) s n = rw (any-slash x s) (after_last-append x s n)

-- The last name of a path.
pub after_last-join :
    (a : List Text) (s : Text)
    → any is_slash s ≡ false
    → IsCons a
    → after_last is_slash (join (a ++ s ∷ [])) ≡ s
after_last-join a s n h =
    ap (after_last is_slash) (join-append a (s ∷ []) h tt)
    ∙ unfold join in after_last-append (join a) s n

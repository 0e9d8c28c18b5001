-- ===== src/Hash/Code/Combined.antt =====
-- Encodings made of encodings: pairs, options, lists, and views of a value.
use task_rs.Base.{
  ◌≤◌, ◌<◌, ◌≡◌, refl, sym, ap, ap₂, subst, ◌∙◌, Option, none, some, List, [], ◌∷◌, ◌++◌, arith,
  length, length-append, append_assoc, tail_eq, head_eq, cons_eq, All,
}
use task_rs.Hash.Bytes.{Bytes, u64, optional, items, sequence}
use task_rs.Hash.Code.{Code, Always, u64_bound, length-u64, regroup, sized-apart}

-- A pair without its parentheses.
infixr 3 ◌&◌
abbrev pub ◌&◌ : {A B : Type 0} → A → B → A × B
a & b = (a, b)

-- One encoding after another.
infixr 4 ◌⊗◌
pub ◌⊗◌ :
    {A B : Type 0} {P : A → Type 0} {Q : B → Type 0} {f : A → Bytes} {g : B → Bytes}
    → Code P f
    → Code Q g
    → Code (λ (p : A × B). P p.0 × Q p.1) (λ (p : A × B). f p.0 ++ g p.1)
◌⊗◌ {f} {g} c d = record {
  apart = λ a b r s p q l e.
      let (first, rest) =
        c.apart a.0 b.0 (g a.1 ++ r) (g b.1 ++ s) p.0 q.0
          (omega (
            arith,
            l,
            length-append (f a.0) (g a.1),
            length-append (f a.0 ++ g a.1) r,
            length-append (f a.0) (g a.1 ++ r),
            length-append (g a.1) r,
          ))
          (regroup (f a.0) (g a.1) r (f b.0) (g b.1) s e) in
      let (second, after) =
        d.apart a.1 b.1 r s p.1 q.1
          (omega (
            arith,
            l,
            length-append (f a.0) (g a.1),
            length-append (f a.0 ++ g a.1) r,
            length-append (g a.1) r,
          ))
          rest in
      (ap₂ (λ x y. (x, y)) first second, after);
  some_bytes = λ a. omega (arith, c.some_bytes a.0, length-append (f a.0) (g a.1));
}

-- The encoding of a view that determines the value.
pub via :
    {A B : Type 0} {P : A → Type 0} {f : A → Bytes}
    → Code P f
    → (to : B → A) (from : A → B) → ((b : B) → from (to b) ≡ b)
    → Code (λ b. P (to b)) (λ b. f (to b))
via c to from back = record {
  apart = λ a b r s p q l e.
      let (same, rest) = c.apart (to a) (to b) r s p q l e in
      (sym (back a) ∙ ap from same ∙ back b, rest);
  some_bytes = λ a. c.some_bytes (to a);
}

abbrev pub OfOption : {A : Type 0} → (A → Type 0) → Option A → Type 0
OfOption P none = Unit
OfOption P (some a) = P a

module _ {A : Type 0} {P : A → Type 0} {f : A → Bytes} (c : Code P f) where
  optional-apart :
      (a b : Option A) (r s : Bytes)
      → OfOption P a
      → OfOption P b
      → length (optional f a ++ r) < u64_bound
      → optional f a ++ r ≡ optional f b ++ s
      → (a ≡ b) × (r ≡ s)
  unfolding optional
  optional-apart none none r s p q l e = (refl, tail_eq e)
  optional-apart none (some b) r s p q l e = absurd (let h : 0 ≡ 1 = head_eq e in omega (arith, h))
  optional-apart (some a) none r s p q l e = absurd (let h : 1 ≡ 0 = head_eq e in omega (arith, h))
  optional-apart (some a) (some b) r s p q l e =
      let (same, rest) = c.apart a b r s p q (omega (arith, l)) (tail_eq e) in (ap some same, rest)

  pub optional-Code : Code (OfOption P) (optional f)
  unfolding optional
  optional-Code = record { apart = optional-apart; some_bytes = some_bytes }
    where
      some_bytes : (a : Option A) → 0 < length (optional f a)
      some_bytes none = omega arith
      some_bytes (some a) = omega arith

  items-apart :
      (xs ys : List A) (r s : Bytes)
      → length xs ≡ length ys
      → All P xs
      → All P ys
      → length (items f xs ++ r) < u64_bound
      → items f xs ++ r ≡ items f ys ++ s
      → (xs ≡ ys) × (r ≡ s)
  unfolding items
  items-apart [] [] r s h p q l e = (refl, e)
  items-apart [] (y ∷ b) r s h p q l e = absurd (omega (arith, h))
  items-apart (x ∷ a) [] r s h p q l e = absurd (omega (arith, h))
  items-apart (x ∷ a) (y ∷ b) r s h p q l e =
      let (first, rest) =
        c.apart x y (items f a ++ r) (items f b ++ s) p.0 q.0
          (subst (λ (t : Bytes). length t < u64_bound) (append_assoc (f x) (items f a) r) l)
          (regroup (f x) (items f a) r (f y) (items f b) s e) in
      let (others, after) =
        items-apart a b r s (omega (arith, h)) p.1 q.1
          (omega (
            arith,
            l,
            length-append (f x ++ items f a) r,
            length-append (f x) (items f a),
            length-append (items f a) r,
          ))
          rest in
      (cons_eq first others, after)

  -- Each item takes a byte at least.
  length-items : (xs : List A) → length xs ≤ length (items f xs)
  unfolding items
  length-items [] = omega arith
  length-items (x ∷ a) =
      omega (arith, length-items a, c.some_bytes x, length-append (f x) (items f a))

  pub sequence-Code : Code (All P) (sequence f)
  unfolding sequence
  sequence-Code = record {
    apart = λ a b r s p q l e.
        let (size, (fits, rest)) =
          sized-apart (length a) (length b) (items f a) (items f b) r s (length-items a)
            (length-items b) l e in
        items-apart a b r s size p q fits rest;
    some_bytes =
        λ a. omega (arith, length-append (u64 (length a)) (items f a), length-u64 (length a));
  }

-- A stronger condition.
pub weaken :
    {A : Type 0} {P Q : A → Type 0} {f : A → Bytes} → Code P f → ((a : A) → Q a → P a) → Code Q f
weaken c implies = record {
  apart = λ a b r s p q l e. c.apart a b r s (implies a p) (implies b q) l e;
  some_bytes = c.some_bytes;
}

All-Always : {A : Type 0} (xs : List A) → All Always xs
All-Always [] = tt
All-Always (x ∷ xs) = (tt, All-Always xs)

OfOption-Always : {A : Type 0} (o : Option A) → OfOption Always o
OfOption-Always none = tt
OfOption-Always (some a) = tt

-- The same for encodings without a condition.
module _ {A : Type 0} {f : A → Bytes} (c : Code Always f) where
  pub optional-Free : Code Always (optional f)
  optional-Free = weaken (optional-Code c) (λ o _. OfOption-Always o)

  pub sequence-Free : Code Always (sequence f)
  sequence-Free = weaken (sequence-Code c) (λ xs _. All-Always xs)

infixr 4 ◌⊕◌
pub ◌⊕◌ :
    {A B : Type 0} {f : A → Bytes} {g : B → Bytes}
    → Code Always f
    → Code Always g
    → Code Always (λ (p : A × B). f p.0 ++ g p.1)
c ⊕ d = weaken (c ⊗ d) (λ p _. (tt, tt))

-- An encoding that gives the same bytes.
pub recode :
    {A : Type 0} {P : A → Type 0} {f g : A → Bytes} → Code P f → ((a : A) → f a ≡ g a) → Code P g
recode c h = record {
  apart = λ a b r s p q l e.
      c.apart a b r s p q (subst (λ (t : Bytes). length (t ++ r) < u64_bound) (sym (h a)) l)
        (ap (λ (t : Bytes). t ++ r) (h a) ∙ e ∙ sym (ap (λ (t : Bytes). t ++ s) (h b)));
  some_bytes = λ a. subst (λ (t : Bytes). 0 < length t) (h a) (c.some_bytes a);
}

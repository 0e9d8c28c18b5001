-- ===== src/Hash/Code.antt =====
-- Encodings that can be read back: a value and what follows it are determined by the bytes.
pub mod Combined
use Prim.Native.Nat.{◌/◌, ◌%◌}
use task_rs.Base.{
  ℕ, zero, suc, ◌*◌, ◌≤◌, ◌<◌, ◌≡◌, refl, sym, ap, ap₂, subst, ◌∙◌, Bool, true, false, Option, none,
  some, List, [], ◌∷◌, ◌++◌, arith, length, length-append, append_assoc, tail_eq, head_eq, cons_eq,
  All,
}
use task_rs.Hash.Bytes.{Bytes, le_bytes, u64, str, bool, optional, items, sequence}

-- The bound of a `u64`.
abbrev pub u64_bound : ℕ
u64_bound = 18446744073709551616

-- From the bytes of a value that meets `P`, with anything behind them, the value and the rest are
-- determined, as long as the lengths fit 64 bits.
pub record Code {A : Type 0} (P : A → Type 0) (encode : A → Bytes) : Type 0 where
  pub apart :
      (a b : A) (r s : Bytes)
      → P a
      → P b
      → length (encode a ++ r) < u64_bound
      → encode a ++ r ≡ encode b ++ s
      → (a ≡ b) × (r ≡ s)
  pub some_bytes : (a : A) → 0 < length (encode a)

abbrev pub Always : {A : Type 0} → A → Type 0
Always a = Unit

-- The values of so many bytes.
top : ℕ → ℕ
top zero = 1
top (suc k) = 256 * top k

le_bytes-apart :
    (k n m : ℕ) (r s : Bytes)
    → n < top k
    → m < top k
    → le_bytes k n ++ r ≡ le_bytes k m ++ s
    → (n ≡ m) × (r ≡ s)
unfolding le_bytes top
le_bytes-apart zero n m r s hn hm e = (omega (arith, hn, hm), e)
le_bytes-apart (suc k) n m r s hn hm e =
    let low : n % 256 ≡ m % 256 = head_eq e in
    let (high, rest) =
      le_bytes-apart k (n / 256) (m / 256) r s (omega (arith, hn)) (omega (arith, hm))
        (tail_eq e) in
    (omega (arith, low, high), rest)

pub u64-apart :
    (n m : ℕ) (r s : Bytes)
    → n < u64_bound
    → m < u64_bound
    → u64 n ++ r ≡ u64 m ++ s
    → (n ≡ m) × (r ≡ s)
unfolding u64 top
u64-apart n m r s hn hm e = le_bytes-apart 8 n m r s hn hm e

pub length-u64 : (n : ℕ) → length (u64 n) ≡ 8
unfolding u64 le_bytes
length-u64 n = refl

-- Lists of one length with something behind them.
append-apart : (a b r s : Bytes) → length a ≡ length b → a ++ r ≡ b ++ s → (a ≡ b) × (r ≡ s)
append-apart [] [] r s h e = (refl, e)
append-apart [] (y ∷ b) r s h e = absurd (omega (arith, h))
append-apart (x ∷ a) [] r s h e = absurd (omega (arith, h))
append-apart (x ∷ a) (y ∷ b) r s h e =
    let (front, back) = append-apart a b r s (omega (arith, h)) (tail_eq e) in
    (cons_eq (head_eq e) front, back)

pub regroup : (a b c d e f : Bytes) → (a ++ b) ++ c ≡ (d ++ e) ++ f → a ++ (b ++ c) ≡ d ++ (e ++ f)
regroup a b c d e f h = sym (append_assoc a b c) ∙ h ∙ append_assoc d e f

-- A length that is no more than what follows it.
pub sized-apart :
    (n m : ℕ) (a b r s : Bytes)
    → n ≤ length a
    → m ≤ length b
    → length ((u64 n ++ a) ++ r) < u64_bound
    → (u64 n ++ a) ++ r ≡ (u64 m ++ b) ++ s
    → (n ≡ m) × ((length (a ++ r) < u64_bound) × (a ++ r ≡ b ++ s))
sized-apart n m a b r s small small' l e =
    let both : length ((u64 n ++ a) ++ r) ≡ length ((u64 m ++ b) ++ s) =
      ap (λ (x : Bytes). length x) e in
    let fits : length (a ++ r) < u64_bound =
      omega (arith, l, length-append (u64 n ++ a) r, length-append (u64 n) a, length-append a r) in
    let (size, rest) =
      u64-apart n m (a ++ r) (b ++ s)
        (omega (arith, small, l, length-append (u64 n ++ a) r, length-append (u64 n) a))
        (omega (arith, small', l, both, length-append (u64 m ++ b) s, length-append (u64 m) b))
        (regroup (u64 n) a r (u64 m) b s e) in
    (size, (fits, rest))

pub u64-Code : Code (λ n. n < u64_bound) u64
u64-Code = record {
  apart = λ n m r s hn hm l e. u64-apart n m r s hn hm e;
  some_bytes = λ n. omega (arith, length-u64 n);
}

pub str-Code : Code Always str
unfolding str
str-Code = record {
  apart = λ a b r s _ _ l e.
      let (size, (fits, rest)) =
        sized-apart (length a) (length b) a b r s (omega arith) (omega arith) l e in
      append-apart a b r s size rest;
  some_bytes = λ a. omega (arith, length-append (u64 (length a)) a, length-u64 (length a));
}

pub bool-Code : Code Always bool
bool-Code = record { apart = apart; some_bytes = some_bytes }
  where
    apart :
        (a b : Bool) (r s : Bytes)
        → Always a
        → Always b
        → length (bool a ++ r) < u64_bound
        → bool a ++ r ≡ bool b ++ s
        → (a ≡ b) × (r ≡ s)
    apart true true r s _ _ l e = (refl, tail_eq e)
    apart false false r s _ _ l e = (refl, tail_eq e)
    apart true false r s _ _ l e = absurd (let h : 1 ≡ 0 = head_eq e in omega (arith, h))
    apart false true r s _ _ l e = absurd (let h : 0 ≡ 1 = head_eq e in omega (arith, h))

    some_bytes : (a : Bool) → 0 < length (bool a)
    some_bytes true = omega arith
    some_bytes false = omega arith

-- ===== src/Base/Results.antt =====
-- Rust's `Result<A, E>`.
use mathlib.Core.Path.{◌≡◌, refl, ap}
use mathlib.Core.Logic.{◌⊎◌, inl, inr}
use mathlib.Core.Bool.{Bool, true, false}

pub data Result (E A : Type 0) : Type 0 where
  ok : A → Result E A
  err : E → Result E A

-- The `?` operator.
infixl 5 ◌>>=◌ ◌>>◌
abbrev pub ◌>>=◌ : {E A B : Type 0} → Result E A → (A → Result E B) → Result E B
ok a >>= f = f a
err e >>= f = err e

abbrev pub ◌>>◌ : {E B : Type 0} → Result E (Unit {0}) → Result E B → Result E B
m >> k = m >>= λ _. k

-- `if !b { return Err(e) }`
abbrev pub guard : {E : Type 0} → Bool → E → Result E (Unit {0})
guard true e = ok tt
guard false e = err e

pub ok-injective : {E A : Type 0} {a b : A} → Path (Result E A) (ok a) (ok b) → a ≡ b
ok-injective {E} {A} {a} e = ap from e
  where
    from : Result E A → A
    from (ok x) = x
    from (err _) = a

pub Result-cases :
    {E A : Type 0} (r : Result E A) → ((a : A) × (r ≡ ok a)) ⊎ ((e : E) × (r ≡ err e))
Result-cases (ok a) = inl (a, refl)
Result-cases (err e) = inr (e, refl)

-- A chain that succeeds has a first step that does.
pub >>=-ok :
    {E A B : Type 0} (m : Result E A) (f : A → Result E B) (b : B)
    → Path (Result E B) (m >>= f) (ok b)
    → (a : A) × (Path (Result E A) m (ok a) × Path (Result E B) (f a) (ok b))
>>=-ok (ok a) f b e = (a, (refl, e))
>>=-ok (err x) f b e = absurd (cc e)

pub guard-ok :
    {E A : Type 0} (b : Bool) (x : E) (m : Result E A) (a : A)
    → Path (Result E A) (guard b x >> m) (ok a)
    → (b ≡ true) × Path (Result E A) m (ok a)
guard-ok true x m a e = (refl, e)
guard-ok false x m a e = absurd (cc e)

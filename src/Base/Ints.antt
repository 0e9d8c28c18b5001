-- ===== src/Base/Ints.antt =====
-- Signed integers over the native numbers, and those of 64 bits.
use Prim.Native.Nat.{ℕ, suc, ◌+◌, ◌-◌}
use mathlib.Core.Bool.{Bool, true, false}
use mathlib.Core.Option.{Option, none, some}
use task_rs.Base.Tests.{ltb, leb, ◌==◌, if◌then◌else◌}

pub data ℤ : Type 0 where
  pos : ℕ → ℤ
  negsuc : ℕ → ℤ

-- The difference of two numbers.
abbrev difference : ℕ → ℕ → ℤ
difference a b = if leb b a then pos (a - b) else negsuc (b - suc a)

infixl 60 ◌+ℤ◌
abbrev pub ◌+ℤ◌ : ℤ → ℤ → ℤ
pos a +ℤ pos b = pos (a + b)
pos a +ℤ negsuc b = difference a (suc b)
negsuc a +ℤ pos b = difference b (suc a)
negsuc a +ℤ negsuc b = negsuc (suc (a + b))

abbrev pub is_negative : ℤ → Bool
is_negative (pos n) = false
is_negative (negsuc n) = true

-- Whether the integer is above a number.
abbrev pub exceeds : ℤ → ℕ → Bool
exceeds (pos n) m = ltb m n
exceeds (negsuc n) m = false

infix 50 ◌=ℤ◌
abbrev pub ◌=ℤ◌ : ℤ → ℤ → Bool
pos a =ℤ pos b = a == b
negsuc a =ℤ negsuc b = a == b
pos a =ℤ negsuc b = false
negsuc a =ℤ pos b = false

abbrev pub i64_half : ℕ
i64_half = 9223372036854775808

abbrev in_i64 : ℤ → Option ℤ
in_i64 (pos n) = if ltb n i64_half then some (pos n) else none
in_i64 (negsuc n) = if ltb n i64_half then some (negsuc n) else none

-- `i64::checked_add`
abbrev pub checked_add : ℤ → ℤ → Option ℤ
checked_add a b = in_i64 (a +ℤ b)

-- ===== src/Base/Int.antt =====
-- Integers of any size, as `math/big` has them.
use Prim.Native.Nat.{ℕ, zero, suc, ◌+◌, ◌-◌}
use mathlib.Core.Bool.{Bool, true, false}
use curio_core.Base.Tests.{leb, if◌then◌else◌}

-- `negsuc n` is -(n + 1)
pub data ℤ : Type 0 where
  pos : ℕ → ℤ
  negsuc : ℕ → ℤ

-- Abs
abbrev pub magnitude : ℤ → ℕ
magnitude (pos n) = n
magnitude (negsuc n) = suc n

-- Sign() < 0
abbrev pub is_negative : ℤ → Bool
is_negative (pos n) = false
is_negative (negsuc n) = true

-- Sign() == 0
abbrev pub is_zero : ℤ → Bool
is_zero (pos zero) = true
is_zero (pos (suc n)) = false
is_zero (negsuc n) = false

-- Sign() > 0
abbrev pub is_positive : ℤ → Bool
is_positive (pos zero) = false
is_positive (pos (suc n)) = true
is_positive (negsuc n) = false

abbrev pub neg_ℕ : ℕ → ℤ
neg_ℕ zero = pos 0
neg_ℕ (suc n) = negsuc n

-- Neg
abbrev pub negate : ℤ → ℤ
negate (pos n) = neg_ℕ n
negate (negsuc n) = pos (suc n)

abbrev pub difference : ℕ → ℕ → ℤ
difference m n = if leb n m then pos (m - n) else neg_ℕ (n - m)

-- Add
abbrev pub add_ℤ : ℤ → ℤ → ℤ
add_ℤ (pos a) (pos b) = pos (a + b)
add_ℤ (pos a) (negsuc b) = difference a (suc b)
add_ℤ (negsuc a) (pos b) = difference b (suc a)
add_ℤ (negsuc a) (negsuc b) = negsuc (suc (a + b))

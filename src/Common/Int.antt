-- ===== src/Common/Int.antt =====
-- Python's int where the program meets negative values: `negsuc n` is -(n + 1).
use Prim.Native.Nat.{ℕ, zero, suc, max}
use mathlib.Core.Bool.{Bool, true, false}
use survey_controller.Common.Tests.{leb, ltb}

pub data ℤ : Type 0 where
  pos : ℕ → ℤ
  negsuc : ℕ → ℤ

-- `max(0, int(x or 0))`
abbrev pub clamp_0 : ℤ → ℕ
clamp_0 (pos n) = n
clamp_0 (negsuc n) = 0

-- `max(1, int(x or 1))`
abbrev pub clamp_1 : ℤ → ℕ
clamp_1 (pos n) = max 1 n
clamp_1 (negsuc n) = 1

-- `x <= 0`
abbrev pub is_nonpositive : ℤ → Bool
is_nonpositive (pos zero) = true
is_nonpositive (pos (suc n)) = false
is_nonpositive (negsuc n) = true

-- `n < x` and `n >= x`, for a count `n` that is never negative
abbrev pub below_ℤ : ℕ → ℤ → Bool
below_ℤ n (pos m) = ltb n m
below_ℤ n (negsuc m) = false

abbrev pub reaches_ℤ : ℕ → ℤ → Bool
reaches_ℤ n (pos m) = leb m n
reaches_ℤ n (negsuc m) = true

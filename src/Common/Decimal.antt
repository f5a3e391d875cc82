-- ===== src/Common/Decimal.antt =====
-- Python's `str` of a number that is not negative: its decimal digits.
use Prim.Native.Nat.{ℕ, zero, suc, ◌+◌, ◌/◌, ◌%◌, ◌<◌, ◌≤◌}
use mathlib.Core.Path.{◌≡◌, refl}
use mathlib.Core.Bool.{true, false}
use mathlib.Core.Logic.{inl, inr}
use mathlib.Core.List.{[], ◌∷◌, ◌++◌}
use native.Mathlib.Omega.{arith}
use survey_controller.Common.Tests.{ltb, if◌then◌else◌, Bool-cases}
use survey_controller.Common.Keys.{Text}

-- `fuel` bounds the number of digits: more than the number itself is enough (`digits_fuel`).
unfoldable pub digits : ℕ → ℕ → Text
digits zero n = []
digits (suc fuel) n =
    let rest = digits fuel (n / 10) in
    if ltb n 10 then (48 + n) ∷ [] else rest ++ ((48 + n % 10) ∷ [])

unfoldable pub decimal : ℕ → Text
unfolding digits
decimal n = digits (suc n) n

digits_fuel : (f g n : ℕ) → n < f → n < g → digits f n ≡ digits g n
unfolding digits
digits_fuel zero g n h k = absurd (omega arith)
digits_fuel (suc f) zero n h k = absurd (omega arith)
digits_fuel (suc f) (suc g) n h k = elim (Bool-cases (ltb n 10)) [
  | inl e ↦ rw e refl
  | inr e ↦ rw (e, digits_fuel f g (n / 10) (ground arith) (ground arith)) refl
]

-- The last digit, and those before it.
pub decimal_step : (n : ℕ) → 10 ≤ n → decimal n ≡ decimal (n / 10) ++ ((48 + n % 10) ∷ [])
unfolding decimal digits
decimal_step n h =
    let small : ltb n 10 ≡ false = ground arith in
    rw (small, digits_fuel n (suc (n / 10)) (n / 10) (omega arith) (omega arith)) refl

pub decimal_digit : (n : ℕ) → n < 10 → decimal n ≡ (48 + n) ∷ []
unfolding decimal digits
decimal_digit n h = let small : ltb n 10 ≡ true = ground arith in rw small refl

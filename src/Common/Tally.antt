-- ===== src/Common/Tally.antt =====
-- Counting the entries of a list that are below a bound: a list of distinct numbers below `n` has at
-- most `n` entries.
use Prim.Native.Nat.{ℕ, zero, suc, ◌+◌, ◌≤◌, ◌<◌}
use mathlib.Core.Path.{◌≡◌, refl}
use mathlib.Core.List.{List, [], ◌∷◌}
use native.Mathlib.Omega.{arith}
use survey_controller.Common.Keys.{count, nat_eq, nat_beq_iff}
use survey_controller.Common.Lists.{length}

-- How many entries are below `n`.
abbrev pub tally : ℕ → List ℕ → ℕ
tally zero xs = 0
tally (suc n) xs = count n xs + tally n xs

pub tally-nil : (n : ℕ) → tally n [] ≡ 0
tally-nil zero = refl
tally-nil (suc n) = omega (arith, tally-nil n)

pub tally-cons_above : (n x : ℕ) (xs : List ℕ) → n ≤ x → tally n (x ∷ xs) ≡ tally n xs
tally-cons_above zero x xs h = refl
tally-cons_above (suc n) x xs h = ground (arith, tally-cons_above n x xs)

pub tally-cons_below : (n x : ℕ) (xs : List ℕ) → x < n → tally n (x ∷ xs) ≡ suc (tally n xs)
tally-cons_below zero x xs h = absurd (omega arith)
tally-cons_below (suc n) x xs h =
    ground (arith, tally-cons_below n x xs, tally-cons_above n x xs, nat_beq_iff x n)

pub tally-length :
    (n : ℕ) (xs : List ℕ) → ((i : ℕ) → n ≤ i → count i xs ≡ 0) → tally n xs ≡ length xs
tally-length n [] h = tally-nil n
tally-length n (x ∷ xs) h = ground (
  arith,
  tally-cons_below n x xs,
  h x,
  nat_beq_iff x x,
  tally-length n xs (λ i le. ground (arith, h i le)),
)

pub tally-le : (n : ℕ) (xs : List ℕ) → ((i : ℕ) → count i xs ≤ 1) → tally n xs ≤ n
tally-le zero xs h = omega arith
tally-le (suc n) xs h = omega (arith, h n, tally-le n xs h)

pub tally-lt :
    (n j : ℕ) (xs : List ℕ) → ((i : ℕ) → count i xs ≤ 1) → j < n → count j xs ≡ 0 → tally n xs < n
tally-lt zero j xs h lt z = absurd (omega arith)
tally-lt (suc n) j xs h lt z = ground (arith, h n, tally-lt n j xs h, tally-le n xs h)

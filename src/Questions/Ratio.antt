-- ===== src/Questions/Ratio.antt =====
-- software/core/questions/strict_ratio.py: drawing options in a strict ratio. A weight is a natural
-- number of some unit, 0 where the value is not finite, negative or no number; `random.random()` times
-- the total is an argument, one number below the total for each draw. A drawn number that is too
-- large counts for the last entry, as in the source.

pub mod Sampled
mod Examples
use survey_controller.Common.{
  ℕ, zero, suc, ◌+◌, ◌-◌, ◌<◌, Bool, true, false, Option, none, some, List, [], ◌∷◌, ◌++◌, length,
  ltb, leb, if◌then◌else◌, min, sum, replicate, nat_eq, ◌==◌, contains, get_elem?,
}

-- The entries with a positive weight, with their indices.
unfoldable pub positive_pool : List ℕ → List ℕ → List (ℕ × ℕ)
positive_pool (idx ∷ indices) (weight ∷ weights) =
    let pool = positive_pool indices weights in if leb weight 0 then pool else (idx, weight) ∷ pool
positive_pool _ _ = []

unfoldable pub pool_total : List (ℕ × ℕ) → ℕ
pool_total [] = 0
pool_total ((idx, weight) ∷ pool) = weight + pool_total pool

-- The place of the first entry whose running sum is above the pivot, else the last place.
unfoldable pub chosen_place : ℕ → ℕ → List (ℕ × ℕ) → ℕ
chosen_place pivot running [] = 0
chosen_place pivot running (entry ∷ []) = 0
chosen_place pivot running ((idx, weight) ∷ next ∷ pool) =
    let place = chosen_place pivot (running + weight) (next ∷ pool) in
    if ltb pivot (running + weight) then 0 else suc place

-- `pool.pop(place)`
unfoldable pub pop_place {ℓ} : {A : Type ℓ} → ℕ → List A → Option A × List A
pop_place place [] = (none, [])
pop_place zero (x ∷ xs) = (some x, xs)
pop_place (suc place) (x ∷ xs) = let (got, rest) = pop_place place xs in (got, x ∷ rest)

-- The place that a pass draws.
unfoldable pub drawn_place : ℕ → (ℕ → ℕ → ℕ) → List (ℕ × ℕ) → ℕ
unfolding chosen_place pool_total
drawn_place n pivots pool = chosen_place (pivots n (pool_total pool)) 0 pool

-- The loop ends where no weight is left; else the index drawn stands before what is drawn after it.
unfoldable pub put_drawn : Bool → Option (ℕ × ℕ) → List ℕ → List ℕ
put_drawn true drawn selected = []
put_drawn false none selected = []
put_drawn false (some (idx, weight)) selected = idx ∷ selected

-- The loop: `n` is how many indices are still missing, and `pivots` gives the number that each pass
-- draws from the total weight of the pool.
unfoldable pub draw_loop : ℕ → (ℕ → ℕ → ℕ) → List (ℕ × ℕ) → List ℕ
unfolding pop_place drawn_place pool_total put_drawn
draw_loop zero pivots pool = []
draw_loop (suc n) pivots pool =
    let (drawn, rest) = pop_place (drawn_place n pivots pool) pool in
    put_drawn (leb (pool_total pool) 0) drawn (draw_loop n pivots rest)

unfoldable pub weighted_sample_without_replacement : List ℕ → List ℕ → ℕ → (ℕ → ℕ → ℕ) → List ℕ
unfolding draw_loop positive_pool
weighted_sample_without_replacement indices weights count pivots =
    let pool = positive_pool indices weights in draw_loop (min count (length pool)) pivots pool

-- ===== src/Questions/Ratio/Sampled.antt =====
-- Drawing without replacement: which entry a number hits, and that the draw is complete.
use survey_controller.Common.{
  ℕ, zero, suc, ◌+◌, ◌≤◌, ◌<◌, ◌≡◌, refl, inl, inr, false, some, List, [], ◌∷◌, length, take, count,
  ltb, leb, min, nat_eq, arith, Bool-cases, ap, ◌∙◌,
}
use survey_controller.Common.Dict.{keys}
use survey_controller.Questions.Ratio.{
  positive_pool, pool_total, chosen_place, pop_place, drawn_place, put_drawn, draw_loop,
  weighted_sample_without_replacement,
}

abbrev pub HasPositiveWeights : List (ℕ × ℕ) → Type 0
HasPositiveWeights [] = Unit
HasPositiveWeights ((idx, weight) ∷ pool) = (0 < weight) × HasPositiveWeights pool

positive_pool-HasPositiveWeights :
    (indices weights : List ℕ) → HasPositiveWeights (positive_pool indices weights)
unfolding positive_pool
positive_pool-HasPositiveWeights [] weights = tt
positive_pool-HasPositiveWeights (i ∷ is) [] = tt
positive_pool-HasPositiveWeights (i ∷ is) (w ∷ ws) =
    ground (arith, positive_pool-HasPositiveWeights is ws)

chosen_place_from :
    (pivot running : ℕ) (pool : List (ℕ × ℕ))
    → running ≤ pivot
    → pivot < running + pool_total pool
    → (running + pool_total (take (chosen_place pivot running pool) pool) ≤ pivot)
      × (pivot < running + pool_total (take (suc (chosen_place pivot running pool)) pool))
unfolding chosen_place pool_total
chosen_place_from pivot running [] h k = absurd (omega arith)
chosen_place_from pivot running ((i, w) ∷ []) h k = (omega arith, omega arith)
chosen_place_from pivot running ((i, w) ∷ (j, v) ∷ pool) h k =
    elim (Bool-cases (ltb pivot (running + w))) [
      | inl e ↦ rw e (ground arith, ground arith)
      | inr e ↦
          let rest =
            chosen_place_from pivot (running + w) ((j, v) ∷ pool) (ground arith) (omega arith) in
          rw e (omega (arith, rest.0), omega (arith, rest.1))
    ]

chosen_place_below :
    (pivot running i w : ℕ) (pool : List (ℕ × ℕ))
    → chosen_place pivot running ((i, w) ∷ pool) < suc (length pool)
unfolding chosen_place
chosen_place_below pivot running i w [] = omega arith
chosen_place_below pivot running i w ((j, v) ∷ pool) =
    ground (arith, chosen_place_below pivot (running + w) j v pool)

-- What taking an entry out does.
pop_place_parts :
    (place : ℕ) (pool : List (ℕ × ℕ))
    → place < length pool
    → HasPositiveWeights pool
    → (idx : ℕ) × (weight : ℕ) × ((pop_place place pool).0 ≡ some (idx, weight))
      × (suc (length (pop_place place pool).1) ≡ length pool)
      × HasPositiveWeights (pop_place place pool).1
      × ((a : ℕ) → count a (idx ∷ keys (pop_place place pool).1) ≡ count a (keys pool))
unfolding pop_place
pop_place_parts place [] h p = absurd (omega arith)
pop_place_parts zero ((i, w) ∷ pool) h p = (i, w, refl, refl, p.1, λ a. refl)
pop_place_parts (suc place) ((i, w) ∷ pool) h p =
    let (idx, weight, got, len, pos, cnt) = pop_place_parts place pool (omega arith) p.1 in
    (idx, weight, got, omega (arith, len), (p.0, pos), λ a. ground (arith, cnt a))

length-keys : (pool : List (ℕ × ℕ)) → 0 + length (keys pool) ≡ length pool
length-keys [] = omega arith
length-keys ((i, w) ∷ pool) = omega (arith, length-keys pool)

total_positive :
    (i w : ℕ) (pool : List (ℕ × ℕ)) → 0 < w → leb (pool_total ((i, w) ∷ pool)) 0 ≡ false
unfolding pool_total
total_positive i w pool h = ground arith

counted :
    (idx a : ℕ) (drawn rest left all : List ℕ)
    → count a drawn + count a rest ≡ count a left
    → count a (idx ∷ left) ≡ count a all
    → count a (idx ∷ drawn) + count a rest ≡ count a all
counted idx a drawn rest left all h k = ground arith

draw_step :
    (n : ℕ) (pivots : ℕ → ℕ → ℕ) (pool : List (ℕ × ℕ)) (idx weight : ℕ)
    → (pop_place (drawn_place n pivots pool) pool).0 ≡ some (idx, weight)
    → leb (pool_total pool) 0 ≡ false
    → draw_loop (suc n) pivots pool
      ≡ idx ∷ draw_loop n pivots (pop_place (drawn_place n pivots pool) pool).1
unfolding draw_loop put_drawn
draw_step n pivots pool idx weight got total = rw (got, total) refl

drawn_place_below :
    (n : ℕ) (pivots : ℕ → ℕ → ℕ) (i w : ℕ) (pool : List (ℕ × ℕ))
    → drawn_place n pivots ((i, w) ∷ pool) < suc (length pool)
unfolding drawn_place
drawn_place_below n pivots i w pool =
    chosen_place_below (pivots n (pool_total ((i, w) ∷ pool))) 0 i w pool

draw_loop_splits :
    (n : ℕ) (pivots : ℕ → ℕ → ℕ) (pool : List (ℕ × ℕ))
    → n ≤ length pool
    → HasPositiveWeights pool
    → (rest : List ℕ) × (length (draw_loop n pivots pool) ≡ n)
      × (n + length rest ≡ length pool)
      × ((a : ℕ) → count a (draw_loop n pivots pool) + count a rest ≡ count a (keys pool))
unfolding draw_loop
draw_loop_splits zero pivots pool h p = (keys pool, refl, length-keys pool, λ a. omega arith)
draw_loop_splits (suc n) pivots [] h p = absurd (omega arith)
draw_loop_splits (suc n) pivots ((i, w) ∷ pool) h p =
    let all = (i, w) ∷ pool in
    let (idx, weight, got, len, pos, cnt) =
      pop_place_parts (drawn_place n pivots all) all (drawn_place_below n pivots i w pool) p in
    let left = (pop_place (drawn_place n pivots all) all).1 in
    let (rest, full, size, split) = draw_loop_splits n pivots left (omega arith) pos in
    let step : draw_loop (suc n) pivots all ≡ idx ∷ draw_loop n pivots left =
      draw_step n pivots all idx weight got (total_positive i w pool p.0) in
    (
      rest,
      ap length step ∙ ap suc full,
      omega (arith, size, len),
      λ a.
          ap (λ selected. count a selected + count a rest) step
          ∙ counted idx a (draw_loop n pivots left) rest (keys left) (keys all) (split a) (cnt a),
    )

-- Drawing gives as many indices as were asked for, or as there are entries with a positive weight if
-- these are fewer. What it gives and what is left make up those entries, each as often as it was there:
-- nothing is drawn twice, and an index without a positive weight is never drawn.
pub sample_splits :
    (indices weights : List ℕ) (wanted : ℕ) (pivots : ℕ → ℕ → ℕ)
    → (rest : List ℕ) × (length (weighted_sample_without_replacement indices weights wanted pivots)
        ≡ min wanted (length (positive_pool indices weights)))
      × (min wanted (length (positive_pool indices weights)) + length rest
          ≡ length (positive_pool indices weights))
      × ((a : ℕ)
          → count a (weighted_sample_without_replacement indices weights wanted pivots)
              + count a rest
            ≡ count a (keys (positive_pool indices weights)))
unfolding weighted_sample_without_replacement
sample_splits indices weights wanted pivots =
    draw_loop_splits (min wanted (length (positive_pool indices weights))) pivots
      (positive_pool indices weights) (omega arith)
      (positive_pool-HasPositiveWeights indices weights)

-- A number below the total of the pool hits the entry in whose stretch of the running sums it lies: of
-- the numbers below the total, as many hit an entry as its weight says.
pub chosen_place_hits :
    (pivot : ℕ) (pool : List (ℕ × ℕ))
    → pivot < pool_total pool
    → (pool_total (take (chosen_place pivot 0 pool) pool) ≤ pivot)
      × (pivot < pool_total (take (suc (chosen_place pivot 0 pool)) pool))
chosen_place_hits pivot pool h =
    let hit = chosen_place_from pivot 0 pool (omega arith) (omega arith) in
    (omega (arith, hit.0), omega (arith, hit.1))

-- ===== src/Questions/Ratio/Examples.antt =====
-- Draws from four options.
use survey_controller.Common.{
  ℕ, ◌+◌, ◌/◌, ◌≤◌, ◌<◌, ◌≡◌, refl, arith, [], ◌∷◌, List, length, take, count, min, nat_eq,
}
use survey_controller.Common.Dict.{keys}
use survey_controller.Questions.Ratio.{
  positive_pool, pool_total, chosen_place, weighted_sample_without_replacement,
}
use survey_controller.Questions.Ratio.Sampled.{sample_splits, chosen_place_hits}

-- Every pass draws the middle of what is left.
abbrev middle : ℕ → ℕ → ℕ
middle n total = total / 2

sampled_test :
    weighted_sample_without_replacement (0 ∷ 1 ∷ 2 ∷ 3 ∷ []) (5 ∷ 0 ∷ 1 ∷ 2 ∷ []) 2 middle
    ≡ 0 ∷ 3 ∷ []
unfolding weighted_sample_without_replacement
sampled_test = refl

sample_splits_example :
    (rest : List ℕ) × (length
        (weighted_sample_without_replacement (0 ∷ 1 ∷ 2 ∷ 3 ∷ []) (5 ∷ 0 ∷ 1 ∷ 2 ∷ []) 2 middle)
      ≡ min 2 (length (positive_pool (0 ∷ 1 ∷ 2 ∷ 3 ∷ []) (5 ∷ 0 ∷ 1 ∷ 2 ∷ []))))
    × (min 2 (length (positive_pool (0 ∷ 1 ∷ 2 ∷ 3 ∷ []) (5 ∷ 0 ∷ 1 ∷ 2 ∷ []))) + length rest
        ≡ length (positive_pool (0 ∷ 1 ∷ 2 ∷ 3 ∷ []) (5 ∷ 0 ∷ 1 ∷ 2 ∷ [])))
    × ((a : ℕ)
        → count a (
              weighted_sample_without_replacement
                (0 ∷ 1 ∷ 2 ∷ 3 ∷ [])
                (5 ∷ 0 ∷ 1 ∷ 2 ∷ [])
                2
                middle)
            + count a rest
          ≡ count a (keys (positive_pool (0 ∷ 1 ∷ 2 ∷ 3 ∷ []) (5 ∷ 0 ∷ 1 ∷ 2 ∷ []))))
sample_splits_example = sample_splits (0 ∷ 1 ∷ 2 ∷ 3 ∷ []) (5 ∷ 0 ∷ 1 ∷ 2 ∷ []) 2 middle

chosen_place_hits_example :
    (pool_total (take (chosen_place 5 0 ((0, 5) ∷ (2, 1) ∷ [])) ((0, 5) ∷ (2, 1) ∷ [])) ≤ 5)
    × (5 < pool_total (take (1 + chosen_place 5 0 ((0, 5) ∷ (2, 1) ∷ [])) ((0, 5) ∷ (2, 1) ∷ [])))
unfolding pool_total chosen_place
chosen_place_hits_example = chosen_place_hits 5 ((0, 5) ∷ (2, 1) ∷ []) (omega arith)

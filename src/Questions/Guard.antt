-- ===== src/Questions/Guard.antt =====
-- software/core/questions/tendency.py: the guard that keeps an answer off the options of weight 0.
-- A weight is a natural number of some unit; a given weight that is not finite, negative or no number
-- is 0. `none` for the weights is a value that is not a list; a ValueError is `none`.

pub mod Nearest
mod Examples
use survey_controller.Common.{
  ℕ, zero, suc, ◌+◌, ◌-◌, ◌<◌, ℤ, clamp_0, Bool, true, false, not, ◌&&◌, ◌||◌, Option, none, some,
  List, [], ◌∷◌, length, contains, ltb, leb, nat_beq, if◌then◌else◌, min, nat_eq,
}
use survey_controller.Common.Dict.{keys}
use survey_controller.Questions.Consistency.Applied.{to_weight}

unfoldable pub normalize_from : ℕ → List (Option ℤ) → List ℕ
normalize_from zero values = []
normalize_from (suc n) [] = 0 ∷ normalize_from n []
normalize_from (suc n) (value ∷ values) = to_weight value ∷ normalize_from n values

unfoldable pub normalize_probabilities_for_zero_guard :
    ℕ → Option (List (Option ℤ)) → Option (List ℕ)
unfolding normalize_from
normalize_probabilities_for_zero_guard option_count none = none
normalize_probabilities_for_zero_guard zero (some values) = none
normalize_probabilities_for_zero_guard (suc n) (some values) = some (normalize_from (suc n) values)

-- The options with a positive weight, each with its weight; `idx` is the place of the first.
unfoldable pub positive_indices : ℕ → List ℕ → List (ℕ × ℕ)
positive_indices idx [] = []
positive_indices idx (weight ∷ weights) =
    let rest = positive_indices (suc idx) weights in
    if ltb 0 weight then (idx, weight) ∷ rest else rest

-- `abs(idx - target)`
unfoldable pub distance : ℕ → ℕ → ℕ
distance idx target = (idx - target) + (target - idx)

unfoldable pub is_better : ℕ → ℕ × ℕ → ℕ × ℕ → Bool
unfolding distance
is_better target (idx, weight) (best, best_weight) =
    ltb (distance idx target) (distance best target)
    || (nat_beq (distance idx target) (distance best target) && ltb best_weight weight)
    || (nat_beq (distance idx target) (distance best target)
        && nat_beq weight best_weight
        && ltb idx best)

unfoldable pub best_from : ℕ → ℕ × ℕ → List (ℕ × ℕ) → ℕ × ℕ
unfolding is_better
best_from target best [] = best
best_from target best (entry ∷ entries) =
    best_from target (if is_better target entry best then entry else best) entries

-- `max(0, min(option_count - 1, index))`
unfoldable pub clamp_index : ℕ → ℤ → ℕ
clamp_index option_count index = min (option_count - 1) (clamp_0 index)

-- The nearest option to the target, where there is one with a positive weight.
unfoldable pub nearest : ℕ → ℕ → List (ℕ × ℕ) → Option ℕ
unfolding best_from
nearest selected target [] = none
nearest selected target (entry ∷ entries) =
    if contains selected (keys (entry ∷ entries))
    then some selected
    else some (best_from target entry entries).0

abbrev pub anchored : ℕ → ℕ → Option ℤ → ℕ
anchored option_count selected none = selected
anchored option_count selected (some anchor_index) = clamp_index option_count anchor_index

abbrev pub guarded : ℕ → ℕ → Option (List ℕ) → Option ℕ
guarded selected target none = some selected
guarded selected target (some normalized) = nearest selected target (positive_indices 0 normalized)

unfoldable pub enforce_zero_weight_guard : ℤ → ℕ → Option (List (Option ℤ)) → Option ℤ → Option ℕ
unfolding clamp_index nearest positive_indices normalize_probabilities_for_zero_guard
enforce_zero_weight_guard selected_index zero probabilities anchor_index = some 0
enforce_zero_weight_guard selected_index (suc n) probabilities anchor_index =
    let selected = clamp_index (suc n) selected_index in
    guarded selected (anchored (suc n) selected anchor_index)
      (normalize_probabilities_for_zero_guard (suc n) probabilities)

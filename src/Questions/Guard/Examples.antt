-- ===== src/Questions/Guard/Examples.antt =====
-- A choice among four options, of which the second has weight 0.
use survey_controller.Common.{
  ℕ, ◌<◌, ◌≡◌, refl, arith, ℤ, pos, false, none, some, [], ◌∷◌, List, Option, All, get_elem?,
}
use survey_controller.Questions.Guard.{
  enforce_zero_weight_guard, normalize_from, positive_indices, is_better, anchored, clamp_index,
}
use survey_controller.Questions.Guard.Nearest.{guard_nearest}

abbrev given : List (Option ℤ)
given = some (pos 1) ∷ some (pos 0) ∷ some (pos 3) ∷ none ∷ []

-- Options 0 and 2 are as near to option 1; option 2 weighs more.
guarded_test : enforce_zero_weight_guard (pos 1) 4 (some given) none ≡ some 2
unfolding enforce_zero_weight_guard
guarded_test = refl

guard_nearest_example :
    (r : ℕ) × (w : ℕ) × (enforce_zero_weight_guard (pos 1) 4 (some given) none ≡ some r)
    × (get_elem? (normalize_from 4 given) r ≡ some w)
    × (0 < w)
    × All
        (λ entry. is_better (anchored 4 (clamp_index 4 (pos 1)) none) entry (r, w) ≡ false)
        (positive_indices 0 (normalize_from 4 given))
unfolding normalize_from clamp_index
guard_nearest_example = guard_nearest (pos 1) 3 given none 0 1 refl refl (omega arith)

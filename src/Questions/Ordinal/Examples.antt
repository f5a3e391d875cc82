-- ===== src/Questions/Ordinal/Examples.antt =====
-- A scale of three numbers, highest first.
use survey_controller.Common.{
  ℕ, ◌≤◌, ◌≡◌, refl, none, some, [], ◌∷◌, ◌-◌, List, Option, Text, text, length, count, ltb,
  if◌then◌else◌, filterb, map, nat_eq,
}
use survey_controller.Questions.Ordinal.{OptionReader, infer_ordinal_option_mapping, has_text}
use survey_controller.Questions.Rules.{insert_sorted}
use survey_controller.Questions.Ordinal.Scale.{inferred_scale}

-- One digit.
abbrev digit_of : Text → Option ℕ
digit_of (c ∷ []) = some (c - 48)
digit_of _ = none

abbrev digits_only : OptionReader
digits_only = record {
  normalize_option_text = λ s. s;
  numeric_value = digit_of;
  chinese_value = λ s. none;
  score_attitude_option = λ s. none;
  ordinal_groups = [];
}

abbrev scores : List ℕ
scores = 0 ∷ 1 ∷ 2 ∷ []

inferred :
    infer_ordinal_option_mapping digits_only (text "3" ∷ text "2" ∷ [] ∷ text "1" ∷ [])
    ≡ some scores
unfolding infer_ordinal_option_mapping insert_sorted
inferred = refl

inferred_scale_example :
    (2 ≤ length scores)
    × (length scores
        ≡ length (
            filterb has_text
              (map digits_only.normalize_option_text (text "3" ∷ text "2" ∷ [] ∷ text "1" ∷ []))))
    × ((score : ℕ) → count score scores ≡ (if ltb score (length scores) then 1 else 0))
inferred_scale_example =
    inferred_scale digits_only (text "3" ∷ text "2" ∷ [] ∷ text "1" ∷ []) scores inferred

-- ===== src/Questions/Weights/Examples.antt =====
-- Nested weights.
use survey_controller.Common.{◌≡◌, arith, pos, some, none}
use survey_controller.Questions.Weights.{
  Values, items, number, other, nil, cons, has_positive_weight_values,
}
use survey_controller.Questions.Weights.Ending.{has_positive, search_finds_positive, passes}

-- `[0, [None, [2]]]`
abbrev nested : Values
nested =
    cons (number (some (pos 0)))
      (cons (items (cons (other none) (cons (items (cons (number (some (pos 2))) nil)) nil))) nil)

search_finds_positive_example :
    has_positive_weight_values 9 (items nested) ≡ some (has_positive (items nested))
unfolding passes
search_finds_positive_example = search_finds_positive 9 nested (omega arith)

-- ===== src/Questions/Consistency/Examples.antt =====
-- The rules of a small survey.
use survey_controller.Common.{
  ◌<◌, ◌≡◌, refl, arith, false, true, not, ◌&&◌, if◌then◌else◌, text_eq, none, some, [], ◌∷◌,
  contains, length, get_elem?, sum, nat_eq, reverse, strip,
}
use survey_controller.Questions.Rules.{insert_sorted}
use survey_controller.Questions.Consistency.{sanitize_answer_rules, reset_consistency_context}
use survey_controller.Questions.Consistency.Samples.{
  raw_rule, broken_rule, questions, rule, given, weights,
}
use survey_controller.Questions.Consistency.Kept.{reset-sanitize}
use survey_controller.Questions.Consistency.Picked.{
  pick_latest_triggered_rule, decides, find, pick_latest-find,
}
use survey_controller.Questions.Consistency.Applied.{
  apply_single_like_consistency, apply_matrix_row_consistency, sanitize_probabilities,
  get_multiple_rule_constraint,
}
use survey_controller.Questions.Consistency.Applied.Obeyed.{
  allows, leaves_some, consistency_leaves_choice, single_like_obeys, multiple_constraint_consistent,
}

reset-sanitize_example :
    reset_consistency_context (some raw_rule ∷ some broken_rule ∷ none ∷ []) questions
    ≡ (sanitize_answer_rules (some raw_rule ∷ some broken_rule ∷ none ∷ []) questions).0
reset-sanitize_example = reset-sanitize (some raw_rule ∷ some broken_rule ∷ none ∷ []) questions

-- One rule is kept, with its indices sorted and its id trimmed.
kept_test :
    (sanitize_answer_rules (some raw_rule ∷ some broken_rule ∷ none ∷ []) questions).0 ≡ rule ∷ []
unfolding sanitize_answer_rules strip insert_sorted
kept_test = refl

pick_latest-find_example :
    pick_latest_triggered_rule (rule ∷ []) given 3 none
    ≡ find (decides given 3 none) (reverse (rule ∷ []))
pick_latest-find_example = pick_latest-find (rule ∷ []) given 3 none

picked : pick_latest_triggered_rule (rule ∷ []) given 3 none ≡ some rule
unfolding pick_latest_triggered_rule insert_sorted
picked = refl

consistency_leaves_choice_example :
    ((length (apply_single_like_consistency (rule ∷ []) given weights 3)
        ≡ length (sanitize_probabilities weights))
      × (0 < sum (apply_single_like_consistency (rule ∷ []) given weights 3)))
    × ((length (apply_matrix_row_consistency (rule ∷ []) given weights 3 0)
          ≡ length (sanitize_probabilities weights))
        × (0 < sum (apply_matrix_row_consistency (rule ∷ []) given weights 3 0)))
unfolding sanitize_probabilities
consistency_leaves_choice_example =
    consistency_leaves_choice (rule ∷ []) given weights 3 0 (omega arith)

-- Option 0 is not allowed by the rule, and another option that is has a positive weight.
single_like_obeys_example :
    get_elem? (apply_single_like_consistency (rule ∷ []) given weights 3) 0
    ≡ some (
        if leaves_some rule 0 (sanitize_probabilities weights) && not (allows rule 0) then 0 else 5)
unfolding sanitize_probabilities
single_like_obeys_example = single_like_obeys (rule ∷ []) given weights 3 rule 0 5 picked refl

taken_away : (leaves_some rule 0 (sanitize_probabilities weights) && not (allows rule 0)) ≡ true
unfolding sanitize_probabilities
taken_away = refl

multiple_constraint_consistent_example :
    (2 < 4)
    × ((contains 2 (get_multiple_rule_constraint (rule ∷ []) given 3 4).0
          && contains 2 (get_multiple_rule_constraint (rule ∷ []) given 3 4).1)
        ≡ false)
unfolding get_multiple_rule_constraint insert_sorted
multiple_constraint_consistent_example = multiple_constraint_consistent (rule ∷ []) given 3 4 2 refl

-- ===== src/Questions/Consistency/Applied.antt =====
-- What the deciding rule does to the weights of a question's options.
pub mod Obeyed
use survey_controller.Common.{
  ℕ, zero, suc, ◌+◌, ◌≤◌, ◌<◌, ◌≡◌, refl, ap, ◌∙◌, inl, inr, ◌⊎◌, ℤ, clamp_0, Bool, true, false,
  not, ◌&&◌, Option, none, some, List, [], ◌∷◌, contains, length, get_elem?, filterb, ltb, leb,
  if◌then◌else◌, arith, Bool-cases, nat_eq, text_eq, nat_beq_iff, ◌==◌, sum, Text, text,
}
use survey_controller.Common.Dict.{Dict}
use survey_controller.Questions.Rules.{AnswerRule, has_none}
use survey_controller.Questions.Consistency.{AnsweredQuestion}
use survey_controller.Questions.Consistency.Picked.{pick_latest_triggered_rule}

-- A given weight that `float()` refuses, or that is negative, is 0.
abbrev pub to_weight : Option ℤ → ℕ
to_weight none = 0
to_weight (some value) = clamp_0 value

unfoldable pub sanitize_probabilities : List (Option ℤ) → List ℕ
sanitize_probabilities [] = []
sanitize_probabilities (value ∷ values) = to_weight value ∷ sanitize_probabilities values

unfoldable pub resolve_valid_rule_indices : AnswerRule → ℕ → List ℕ
resolve_valid_rule_indices rule option_count =
    filterb (λ idx. ltb idx option_count) rule.target_option_indices

abbrev pub must_select : AnswerRule → Bool
must_select rule = rule.action_mode == text "must_select"

-- Whether the rule leaves an option its weight.
unfoldable pub is_left : Bool → List ℕ → ℕ → Bool
is_left must valid_indices idx =
    if must then contains idx valid_indices else not (contains idx valid_indices)

unfoldable pub adjusted_from : Bool → List ℕ → ℕ → List ℕ → List ℕ
unfolding is_left
adjusted_from must valid_indices idx [] = []
adjusted_from must valid_indices idx (weight ∷ weights) =
    (if is_left must valid_indices idx then weight else 0)
    ∷ adjusted_from must valid_indices (suc idx) weights

unfoldable pub apply_rule : List ℕ → AnswerRule → List ℕ
unfolding adjusted_from resolve_valid_rule_indices
apply_rule [] rule = []
apply_rule (base ∷ weights) rule =
    let valid_indices = resolve_valid_rule_indices rule (length (base ∷ weights)) in
    let adjusted = adjusted_from (must_select rule) valid_indices 0 (base ∷ weights) in
    if has_none valid_indices
    then base ∷ weights
    else if leb (sum adjusted) 0
    then base ∷ weights
    else adjusted

unfoldable pub apply_picked : List ℕ → Option AnswerRule → List ℕ
unfolding apply_rule
apply_picked base_probabilities none = base_probabilities
apply_picked base_probabilities (some rule) = apply_rule base_probabilities rule

unfoldable pub apply_single_like_consistency :
    List AnswerRule → Dict ℕ AnsweredQuestion → List (Option ℤ) → ℕ → List ℕ
unfolding apply_picked pick_latest_triggered_rule sanitize_probabilities
apply_single_like_consistency rules answered probabilities question_number =
    apply_picked (sanitize_probabilities probabilities)
      (pick_latest_triggered_rule rules answered question_number none)

unfoldable pub apply_matrix_row_consistency :
    List AnswerRule → Dict ℕ AnsweredQuestion → List (Option ℤ) → ℕ → ℕ → List ℕ
unfolding apply_picked pick_latest_triggered_rule sanitize_probabilities
apply_matrix_row_consistency rules answered probabilities question_number row_index =
    apply_picked (sanitize_probabilities probabilities)
      (pick_latest_triggered_rule rules answered question_number (some row_index))

-- The options that must be chosen, those that must not, and the id of the rule.
unfoldable pub constraint_with : Bool → Bool → List ℕ → Text → List ℕ × List ℕ × Option Text
constraint_with true must valid_indices id = ([], [], some id)
constraint_with false true valid_indices id = (valid_indices, [], some id)
constraint_with false false valid_indices id = ([], valid_indices, some id)

unfoldable pub constraint_of : Option AnswerRule → ℕ → List ℕ × List ℕ × Option Text
unfolding resolve_valid_rule_indices constraint_with
constraint_of none option_count = ([], [], none)
constraint_of (some rule) option_count =
    let valid_indices = resolve_valid_rule_indices rule option_count in
    constraint_with (has_none valid_indices) (must_select rule) valid_indices rule.id

unfoldable pub get_multiple_rule_constraint :
    List AnswerRule → Dict ℕ AnsweredQuestion → ℕ → ℕ → List ℕ × List ℕ × Option Text
unfolding constraint_of pick_latest_triggered_rule
get_multiple_rule_constraint rules answered question_number option_count =
    constraint_of (pick_latest_triggered_rule rules answered question_number none) option_count

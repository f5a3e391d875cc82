-- ===== src/Questions/Consistency.antt =====
-- software/core/questions/consistency.py: which rules a run keeps, which of them are triggered by the
-- answers that were given (software/core/persona/context.py), and what a triggered rule does to the
-- weights of a question's options. A weight is a natural number of some unit; a given weight that is
-- negative, or that `float()` refuses, is 0. The thread's record is passed along.

mod Samples
pub mod Kept
pub mod Picked
pub mod Applied
mod Examples
use survey_controller.Common.{
  ℕ, zero, suc, ◌<◌, ℤ, pos, negsuc, Bool, true, false, not, ◌&&◌, ◌||◌, Option, none, some, List,
  [], ◌∷◌, ◌++◌, Text, text, length, contains, ltb, leb, if◌then◌else◌, is_empty, is_some, nat_eq,
  text_eq, nat_beq, ◌==◌, strip, sum, clamp_0, filterb,
}
use survey_controller.Common.Dict.{Dict, lookup, insert}
use survey_controller.Questions.Rules.{
  AnswerRule, RawRule, normalize_rule_dict, as_raw, as_values, to_int_list, to_question_num,
  has_none,
}

pub record SurveyQuestionMeta : Type 0 where
  pub num : ℤ
  pub type_code : Text

unfoldable pub supported_rule_type_codes : List Text
supported_rule_type_codes = text "3" ∷ text "4" ∷ text "5" ∷ text "6" ∷ []

unfoldable pub question_supports_answer_rule : SurveyQuestionMeta → Bool
unfolding supported_rule_type_codes
question_supports_answer_rule question =
    contains (strip question.type_code) supported_rule_type_codes

-- An item that is neither a dict nor a `SurveyQuestionMeta` is `none`.
unfoldable pub build_question_info_map :
    List (Option SurveyQuestionMeta) → Dict ℕ SurveyQuestionMeta → Dict ℕ SurveyQuestionMeta
unfolding to_question_num insert
build_question_info_map [] question_map = question_map
build_question_info_map (none ∷ items) question_map = build_question_info_map items question_map
build_question_info_map (some question ∷ items) question_map =
    build_question_info_map items (elim (to_question_num (some question.num)) [
      | none ↦ question_map
      | some q_num ↦ insert q_num question question_map
    ])

abbrev pub supports : Option SurveyQuestionMeta → Bool
supports none = false
supports (some question) = question_supports_answer_rule question

-- A rule about a question that the survey does not have, or that no rule may be about.
unfoldable pub is_unsupported : Dict ℕ SurveyQuestionMeta → AnswerRule → Bool
unfolding lookup question_supports_answer_rule
is_unsupported [] rule = false
is_unsupported (entry ∷ question_map) rule =
    not (supports (lookup rule.condition_question_num (entry ∷ question_map)))
    || not (supports (lookup rule.target_question_num (entry ∷ question_map)))

pub record SanitizeStats : Type 0 where
  pub invalid : ℕ
  pub unsupported : ℕ

unfoldable pub sanitize_rules :
    Dict ℕ SurveyQuestionMeta → List (Option RawRule) → List AnswerRule × SanitizeStats
unfolding normalize_rule_dict is_unsupported
sanitize_rules question_map [] = ([], record { invalid = 0; unsupported = 0 })
sanitize_rules question_map (item ∷ items) =
    let (rules, stats) = sanitize_rules question_map items in
    elim (normalize_rule_dict item) [
      | none ↦ (rules, record stats { invalid = suc stats.invalid })
      | some rule ↦
          if is_unsupported question_map rule
          then (rules, record stats { unsupported = suc stats.unsupported })
          else (rule ∷ rules, stats)
    ]

unfoldable pub sanitize_answer_rules :
    List (Option RawRule) → List (Option SurveyQuestionMeta) → List AnswerRule × SanitizeStats
unfolding sanitize_rules build_question_info_map
sanitize_answer_rules answer_rules questions_info =
    sanitize_rules (build_question_info_map questions_info []) answer_rules

-- The sanitized rules, normalised once more.
unfoldable pub parsed_rules : List AnswerRule → List AnswerRule
unfolding normalize_rule_dict as_raw
parsed_rules [] = []
parsed_rules (item ∷ items) = elim (normalize_rule_dict (some (as_raw item))) [
  | none ↦ parsed_rules items
  | some rule ↦ rule ∷ parsed_rules items
]

-- The rules that the thread goes by from here on.
unfoldable pub reset_consistency_context :
    List (Option RawRule) → List (Option SurveyQuestionMeta) → List AnswerRule
unfolding parsed_rules sanitize_answer_rules
reset_consistency_context answer_rules questions_info =
    parsed_rules ((sanitize_answer_rules answer_rules questions_info).0)

pub record AnsweredQuestion : Type 0 where
  pub question_num : ℕ
  pub question_type : Text
  pub selected_indices : List ℕ
  pub selected_texts : List Text
  pub text_answer : Text
  pub row_answers : Dict ℕ (List ℕ)

unfoldable pub new_answer : ℕ → Text → AnsweredQuestion
new_answer question_num question_type = record {
  question_num = question_num;
  question_type = question_type;
  selected_indices = [];
  selected_texts = [];
  text_answer = [];
  row_answers = [];
}

unfoldable pub record_answer :
    ℕ
    → Text
    → List ℕ
    → List Text
    → Text
    → Option ℕ
    → Dict ℕ AnsweredQuestion
    → Dict ℕ AnsweredQuestion
unfolding new_answer lookup insert
record_answer question_num question_type selected_indices selected_texts text_answer row_index
      answered =
    let fresh = new_answer question_num question_type in
    elim row_index [
      | none ↦
          insert question_num
            (record fresh {
              selected_indices = selected_indices;
              selected_texts = selected_texts;
              text_answer = text_answer;
            })
            answered
      | some row ↦ elim (lookup question_num answered) [
        | none ↦
            insert question_num (record fresh { row_answers = insert row selected_indices [] })
              answered
        | some given ↦
            insert question_num
              (record given { row_answers = insert row selected_indices given.row_answers })
              answered
      ]
    ]

abbrev pub or_nil : Option (List ℕ) → List ℕ
or_nil none = []
or_nil (some xs) = xs

-- The options that were chosen for the question, or for one of its rows.
unfoldable pub chosen_indices : Option ℕ → AnsweredQuestion → List ℕ
unfolding lookup to_int_list as_values
chosen_indices none given = to_int_list (some (as_values given.selected_indices))
chosen_indices (some row) given =
    to_int_list (some (as_values (or_nil (lookup row given.row_answers))))

-- Whether two sets of indices meet.
unfoldable pub intersects : List ℕ → List ℕ → Bool
intersects [] ys = false
intersects (x ∷ xs) ys = contains x ys || intersects xs ys

unfoldable pub condition_holds : AnswerRule → AnsweredQuestion → Bool
unfolding chosen_indices intersects
condition_holds rule given =
    let meets =
      intersects (chosen_indices rule.condition_row_index given) rule.condition_option_indices in
    if has_none rule.condition_option_indices
    then false
    else if rule.condition_mode == text "selected"
    then meets
    else if rule.condition_mode == text "not_selected"
    then not meets
    else false

unfoldable pub is_rule_triggered : Dict ℕ AnsweredQuestion → AnswerRule → Bool
unfolding condition_holds lookup
is_rule_triggered answered rule =
    if leb rule.target_question_num rule.condition_question_num
    then false
    else elim (lookup rule.condition_question_num answered) [
      | none ↦ false
      | some given ↦ condition_holds rule given
    ]

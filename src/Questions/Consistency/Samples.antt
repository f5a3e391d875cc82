-- ===== src/Questions/Consistency/Samples.antt =====
-- A survey of three questions, and the rules of the examples.
use survey_controller.Common.{ℤ, pos, none, some, [], ◌∷◌, List, Option, text, ℕ}
use survey_controller.Common.Dict.{Dict}
use survey_controller.Questions.Rules.{RawRule, AnswerRule}
use survey_controller.Questions.Consistency.{SurveyQuestionMeta, AnsweredQuestion}

-- Who chose the first option of question 1 must choose the second or the third of question 3.
abbrev pub raw_rule : RawRule
raw_rule = record {
  id = text "  r1 ";
  condition_question_num = some (pos 1);
  condition_mode = text "selected";
  condition_option_indices = some (some (pos 0) ∷ []);
  target_question_num = some (pos 3);
  action_mode = text " must_select";
  target_option_indices = some (some (pos 2) ∷ none ∷ some (pos 1) ∷ some (pos 2) ∷ []);
  condition_row_index = none;
  target_row_index = none;
}

abbrev pub broken_rule : RawRule
broken_rule = record raw_rule { target_question_num = none }

abbrev pub questions : List (Option SurveyQuestionMeta)
questions =
    some (record { num = pos 1; type_code = text "3" })
    ∷ none
    ∷ some (record { num = pos 3; type_code = text "4" })
    ∷ []

abbrev pub rule : AnswerRule
rule = record {
  id = text "r1";
  condition_question_num = 1;
  condition_mode = text "selected";
  condition_option_indices = 0 ∷ [];
  target_question_num = 3;
  action_mode = text "must_select";
  target_option_indices = 1 ∷ 2 ∷ [];
  condition_row_index = none;
  target_row_index = none;
}

abbrev pub given : Dict ℕ AnsweredQuestion
given =
    (
      1,
      record {
        question_num = 1;
        question_type = text "single";
        selected_indices = 0 ∷ [];
        selected_texts = [];
        text_answer = [];
        row_answers = [];
      },
    )
    ∷ []

-- Three options, of which the first has the most weight.
abbrev pub weights : List (Option ℤ)
weights = some (pos 5) ∷ some (pos 0) ∷ some (pos 2) ∷ []

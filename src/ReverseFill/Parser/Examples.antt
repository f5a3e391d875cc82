-- ===== src/ReverseFill/Parser/Examples.antt =====
-- Cells that are texts, with a reader that takes a digit for a number and a text for its own label.
use survey_controller.Common.{
  ℕ, ◌-◌, ◌≡◌, ◌&&◌, Option, none, some, List, [], ◌∷◌, Text, text, leb, if◌then◌else◌, refl,
  text_eq,
}
use survey_controller.Common.Dict.{lookup, insert}
use survey_controller.Task.Defs.{ReverseFillAnswer}
use survey_controller.ReverseFill.Parser.{
  Reader, returns, choice_answer, parse_choice_answer, parse_sequence, parse_label, parse_number,
  first_in, set_defaults, option_text_index_map, unsupported_choice_value, is_reverse_fill_blank,
  parse_matrix_answer, row_indexes,
}
use survey_controller.ReverseFill.Parser.InRange.{ChosenInOrder, parse_matrix_answer_in_range}

abbrev digit : Text → Option ℕ
digit [] = none
digit (c ∷ s) = if leb b'1' c && leb c b'9' then some (c - b'0') else none

abbrev plain : Reader Text
plain = record {
  normalize_text = λ value. value;
  label_variants = λ value. value ∷ [];
  parse_one_based_index = digit;
}

abbrev options : List Text
options = text "yes" ∷ text "no" ∷ []

second :
    parse_choice_answer plain 4 (text "2") (text "wjx_sequence") options
    ≡ returns (some (choice_answer 4 1))
unfolding parse_choice_answer parse_sequence unsupported_choice_value is_reverse_fill_blank
second = refl

abbrev two_answers : ReverseFillAnswer
two_answers = record (choice_answer 5 0) {
  kind = text "matrix";
  choice_index = none;
  matrix_choice_indexes = 1 ∷ 0 ∷ [];
}

abbrev cells : List Text
cells = text "no" ∷ text "1" ∷ []

both_rows : parse_matrix_answer plain 5 cells (text "wjx_text") options ≡ returns (some two_answers)
unfolding parse_matrix_answer row_indexes parse_choice_answer parse_label parse_number first_in
    set_defaults option_text_index_map unsupported_choice_value is_reverse_fill_blank lookup insert
both_rows = refl

parse_matrix_answer_in_range_example :
    ChosenInOrder plain 5 (text "wjx_text") options cells two_answers.matrix_choice_indexes
parse_matrix_answer_in_range_example =
    parse_matrix_answer_in_range plain 5 cells (text "wjx_text") options two_answers both_rows

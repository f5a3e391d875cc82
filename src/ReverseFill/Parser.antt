-- ===== src/ReverseFill/Parser.antt =====
-- software/core/reverse_fill/parser.py: the answer that a row of the spreadsheet gives to a question.
-- An exception is an error value. How a cell reads as text, which keys its label may stand under and
-- which number it is are a `Reader`: these functions go by regular expressions.

pub mod InRange
mod Examples
use survey_controller.Common.{
  ℕ, zero, suc, ◌-◌, Bool, true, false, not, ◌&&◌, ◌||◌, Option, none, some, List, [], ◌∷◌, ◌++◌,
  Text, text, length, contains, ltb, if◌then◌else◌, is_empty, is_some, nat_eq, text_eq, ◌==◌,
}
use survey_controller.Common.Dict.{Dict, lookup, insert}
use survey_controller.Task.Defs.{ReverseFillAnswer}

pub data ParseError : Type 0 where
  multiple_choice : ParseError
  order_string : ParseError
  choice_with_text : ParseError
  not_a_number : (value : Text) → ParseError
  out_of_range : (one_based : ℕ) → ParseError
  no_such_option : (value : Text) → ParseError
  partial_rows : ParseError
  unreadable_row : ParseError

-- What a parser returns: an exception, or an answer, or `None`.
pub data Parsed (A : Type 0) : Type 0 where
  raises : (error : ParseError) → Parsed A
  returns : (value : A) → Parsed A

pub record Reader (Value : Type 0) : Type 0 where
  pub normalize_text : Value → Text
  pub label_variants : Value → List Text
  pub parse_one_based_index : Value → Option ℕ

-- The marks ┋, →, 〖 and 〗.
unfoldable pub unsupported_choice_value : Text → Option ParseError
unsupported_choice_value value =
    if contains 9483 value
    then some multiple_choice
    else if contains 8594 value
    then some order_string
    else if contains 12310 value && contains 12311 value
    then some choice_with_text
    else none

abbrev pub choice_answer : ℕ → ℕ → ReverseFillAnswer
choice_answer question_num index = record {
  question_num = question_num;
  kind = text "choice";
  choice_index = some index;
  text_value = [];
  text_values = [];
  matrix_choice_indexes = [];
}

-- `mapping.setdefault(variant, index)` for each variant
unfoldable pub set_defaults : List Text → ℕ → Dict Text ℕ → Dict Text ℕ
set_defaults [] index m = m
set_defaults (variant ∷ variants) index m =
    set_defaults variants index (if is_some (lookup variant m) then m else insert variant index m)

-- `for variant in variants: if variant in mapping`
unfoldable pub first_in : List Text → Dict Text ℕ → Option ℕ
first_in [] m = none
first_in (variant ∷ variants) m =
    let later = first_in variants m in
    elim (lookup variant m) [ none ↦ later | some index ↦ some index ]

-- The index of one row of a matrix.
abbrev pub row_index : Parsed (Option ReverseFillAnswer) → Parsed ℕ
row_index (raises error) = raises error
row_index (returns none) = raises unreadable_row
row_index (returns (some answer)) = elim answer.choice_index [
  | none ↦ raises unreadable_row
  | some index ↦ returns index
]

abbrev pub with_rest : Parsed ℕ → Parsed (List ℕ) → Parsed (List ℕ)
with_rest (raises error) rest = raises error
with_rest (returns index) (raises error) = raises error
with_rest (returns index) (returns indexes) = returns (index ∷ indexes)

abbrev pub matrix_answer : ℕ → Parsed (List ℕ) → Parsed (Option ReverseFillAnswer)
matrix_answer question_num (raises error) = raises error
matrix_answer question_num (returns indexes) = returns (
    some (record {
      question_num = question_num;
      kind = text "matrix";
      choice_index = none;
      text_value = [];
      text_values = [];
      matrix_choice_indexes = indexes;
    }))

-- `export_format in {"wjx_score", "wjx_text"}`
abbrev reads_numbers : Text → Bool
reads_numbers export_format = export_format == text "wjx_score" || export_format == text "wjx_text"

module _ {Value : Type 0} (reader : Reader Value) where
  unfoldable pub is_reverse_fill_blank : Value → Bool
  is_reverse_fill_blank value = is_empty (reader.normalize_text value)

  -- `_option_text_index_map`, from option `index` on
  unfoldable pub option_text_index_map : ℕ → List Value → Dict Text ℕ → Dict Text ℕ
  option_text_index_map index [] m = m
  option_text_index_map index (option ∷ options) m =
      option_text_index_map (suc index) options
        (set_defaults (reader.label_variants option) index m)

  -- The branch for the format `wjx_sequence`.
  unfoldable pub parse_sequence : ℕ → Value → ℕ → Parsed (Option ReverseFillAnswer)
  parse_sequence question_num raw_value option_total =
      elim (reader.parse_one_based_index raw_value) [
        | none ↦ raises (not_a_number (reader.normalize_text raw_value))
        | some one_based ↦
            if ltb (one_based - 1) option_total
            then returns (some (choice_answer question_num (one_based - 1)))
            else raises (out_of_range one_based)
      ]

  -- The attempt to read a number in the formats `wjx_score` and `wjx_text`.
  unfoldable pub parse_number : ℕ → Value → Bool → ℕ → Parsed (Option ReverseFillAnswer)
  parse_number question_num raw_value allowed option_total =
      let fails = raises (no_such_option (reader.normalize_text raw_value)) in
      elim (if allowed then reader.parse_one_based_index raw_value else none) [
        | none ↦ fails
        | some one_based ↦
            if ltb (one_based - 1) option_total
            then returns (some (choice_answer question_num (one_based - 1)))
            else fails
      ]

  -- The rest of `parse_choice_answer`: by label, and by number if no label fits.
  unfoldable pub parse_label : ℕ → Value → Text → List Value → Parsed (Option ReverseFillAnswer)
  parse_label question_num raw_value export_format option_texts =
      elim (first_in (reader.label_variants raw_value) (option_text_index_map 0 option_texts [])) [
        | some index ↦ returns (some (choice_answer question_num index))
        | none ↦
            parse_number question_num raw_value (reads_numbers export_format) (length option_texts)
      ]

  unfoldable pub parse_choice_answer :
      ℕ → Value → Text → List Value → Parsed (Option ReverseFillAnswer)
  parse_choice_answer question_num raw_value export_format option_texts =
      if is_reverse_fill_blank raw_value
      then returns none
      else elim (unsupported_choice_value (reader.normalize_text raw_value)) [
        | some error ↦ raises error
        | none ↦
            if export_format == text "wjx_sequence"
            then parse_sequence question_num raw_value (length option_texts)
            else parse_label question_num raw_value export_format option_texts
      ]

  unfoldable pub parse_text_answer : ℕ → Value → Option ReverseFillAnswer
  parse_text_answer question_num raw_value =
      if is_reverse_fill_blank raw_value
      then none
      else some (record {
        question_num = question_num;
        kind = text "text";
        choice_index = none;
        text_value = reader.normalize_text raw_value;
        text_values = [];
        matrix_choice_indexes = [];
      })

  unfoldable pub texts_of : List Value → List Text
  texts_of [] = []
  texts_of (value ∷ values) = reader.normalize_text value ∷ texts_of values

  abbrev pub all_blank : List Value → Bool
  all_blank [] = true
  all_blank (value ∷ values) = is_reverse_fill_blank value && all_blank values

  abbrev pub any_blank : List Value → Bool
  any_blank [] = false
  any_blank (value ∷ values) = is_reverse_fill_blank value || any_blank values

  -- The values are those of the question's columns, in order.
  unfoldable pub parse_multi_text_answer : ℕ → List Value → Option ReverseFillAnswer
  parse_multi_text_answer question_num values =
      if all_blank values
      then none
      else some (record {
        question_num = question_num;
        kind = text "multi_text";
        choice_index = none;
        text_value = [];
        text_values = texts_of values;
        matrix_choice_indexes = [];
      })

  unfoldable pub row_indexes : ℕ → List Value → Text → List Value → Parsed (List ℕ)
  row_indexes question_num [] export_format option_texts = returns []
  row_indexes question_num (value ∷ values) export_format option_texts =
      with_rest (row_index (parse_choice_answer question_num value export_format option_texts))
        (row_indexes question_num values export_format option_texts)

  unfoldable pub parse_matrix_answer :
      ℕ → List Value → Text → List Value → Parsed (Option ReverseFillAnswer)
  parse_matrix_answer question_num values export_format option_texts =
      if all_blank values
      then returns none
      else if any_blank values
      then raises partial_rows
      else matrix_answer question_num (row_indexes question_num values export_format option_texts)

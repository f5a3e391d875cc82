-- ===== src/ReverseFill/Sources.antt =====
-- software/core/reverse_fill/schema.py, parser.py and runtime.py: where an answer comes from: the
-- cells of a question's columns, the entry of the settings that a question has, and the row that a
-- thread holds.
use survey_controller.Common.{
  ℕ, Bool, false, not, ◌&&◌, Option, none, some, List, [], ◌∷◌, Text, text, strip, length, is_empty,
  if◌then◌else◌, nat_beq, nat_eq, text_eq, ◌==◌, ◌≡◌, refl,
}
use survey_controller.Common.Dict.{Dict, lookup}
use survey_controller.Task.Defs.{ReverseFillAnswer, ReverseFillIssue, ExecutionState}
use survey_controller.Task.ReverseFill.{get_reverse_fill_answer}

pub record ReverseFillColumn : Type 0 where
  pub column_index : ℕ
  pub header : Text
  pub question_num : ℕ
  pub suffix : Text

pub record ReverseFillRawRow (Value : Type 0) : Type 0 where
  pub data_row_number : ℕ
  pub worksheet_row_number : ℕ
  pub values_by_column : Dict ℕ Value

-- The cells of the columns; `missing` is Python's `None`.
unfoldable pub values_of :
    {Value : Type 0} → Value → List ReverseFillColumn → ReverseFillRawRow Value → List Value
values_of missing [] row = []
values_of missing (column ∷ columns) row =
    let rest = values_of missing columns row in
    elim (lookup column.column_index row.values_by_column) [
      | none ↦ missing ∷ rest
      | some value ↦ value ∷ rest
    ]

-- What `resolve_question_entry` reads of an entry: its number, if it has one, and its title as a key.
pub record EntryKey : Type 0 where
  pub question_num : Option ℕ
  pub title_key : Text

abbrev same_number : Option ℕ → Option ℕ → Bool
same_number (some a) (some b) = nat_beq a b
same_number _ _ = false

abbrev or_entry : Option EntryKey → Bool → EntryKey → Option EntryKey
or_entry (some matched) same entry = some matched
or_entry none same entry = if same then some entry else none

-- The loop: the first entry with the number, or the first with the title.
unfoldable pub resolve_question_entry :
    Option ℕ → Text → List EntryKey → Option EntryKey → Option EntryKey
resolve_question_entry question_num title_key [] matched_by_title = matched_by_title
resolve_question_entry question_num title_key (entry ∷ entries) matched_by_title =
    let later = resolve_question_entry question_num title_key entries (
      or_entry matched_by_title (not (is_empty title_key) && entry.title_key == title_key) entry) in
    if same_number entry.question_num question_num then some entry else later

-- `lower` is `str.lower`.
unfoldable pub blocking_issues : (Text → Text) → List ReverseFillIssue → List ReverseFillIssue
blocking_issues lower [] = []
blocking_issues lower (issue ∷ issues) =
    let rest = blocking_issues lower issues in
    if lower (strip issue.severity) == text "block" then issue ∷ rest else rest

unfoldable pub blocking_issue_count : (Text → Text) → List ReverseFillIssue → ℕ
blocking_issue_count lower issues = length (blocking_issues lower issues)

-- `task_ctx` is the state, if there is one.
unfoldable pub resolve_current_reverse_fill_answer :
    Option ExecutionState → ℕ → Text → Text → Option ReverseFillAnswer
resolve_current_reverse_fill_answer none question_num thread_name current_name = none
resolve_current_reverse_fill_answer (some s) question_num thread_name current_name =
    get_reverse_fill_answer question_num
      (record {
        thread_name = if is_empty thread_name then none else some thread_name;
        current_name = current_name;
      })
      s

abbrev by_title : EntryKey
by_title = record { question_num = some 7; title_key = text "age" }

abbrev by_number : EntryKey
by_number = record { question_num = some 3; title_key = text "name" }

number_wins :
    resolve_question_entry (some 3) (text "age") (by_title ∷ by_number ∷ []) none ≡ some by_number
unfolding resolve_question_entry
number_wins = refl

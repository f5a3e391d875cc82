-- ===== src/Task/Prefill.antt =====
-- software/core/task/task_context.py: answers that an AI has written for a thread before it fills the
-- survey, by question and by option.
pub mod Lookups
mod Examples
use survey_controller.Common.{
  ℕ, ℤ, pos, negsuc, clamp_0, Bool, true, false, not, ◌&&◌, ◌||◌, Option, none, some, List, [], ◌∷◌,
  Text, text, strip, or_else, is_empty, is_nonpositive, if◌then◌else◌, nat_eq, text_eq, pair_eq,
}
use survey_controller.Common.Dict.{Dict, lookup, insert, erase}
use survey_controller.Task.Defs.{ExecutionState}

-- `str(thread_name or "").strip() or "__default__"`
unfoldable pub free_ai_thread_key : Text → Text
free_ai_thread_key thread_name = or_else (strip thread_name) (text "__default__")

-- The answers that are not blank, stripped.
unfoldable pub stripped_answers : List Text → List Text
stripped_answers [] = []
stripped_answers (item ∷ items) =
    let rest = stripped_answers items in if is_empty (strip item) then rest else strip item ∷ rest

abbrev pub no_answers : List Text → Bool
no_answers [] = true
no_answers (item ∷ items) = false

-- The loop of `set_free_ai_prefill_answers`.
unfoldable pub normalized_prefill : List (ℤ × List Text) → Dict ℕ (List Text) → Dict ℕ (List Text)
normalized_prefill [] m = m
normalized_prefill ((question_num, answers) ∷ rest) m =
    let kept = stripped_answers answers in
    normalized_prefill rest (
      if not (is_nonpositive question_num) && not (no_answers kept)
      then insert (clamp_0 question_num) kept m
      else m)

abbrev store_or_drop {ℓ} : {V : Type ℓ} → Text → List V → Dict Text (List V) → Dict Text (List V)
store_or_drop key [] m = erase key m
store_or_drop key (v ∷ vs) m = insert key (v ∷ vs) m

unfoldable pub set_free_ai_prefill_answers :
    Text → List (ℤ × List Text) → ExecutionState → ExecutionState
set_free_ai_prefill_answers thread_name answers_by_question_num s = record s {
  free_ai_prefill_by_thread =
      store_or_drop (free_ai_thread_key thread_name) (normalized_prefill answers_by_question_num [])
        s.free_ai_prefill_by_thread;
}

-- `m.get(key) or {}`
abbrev pub entries_of {ℓ} : {V : Type ℓ} → Text → Dict Text (List V) → List V
entries_of key m = elim (lookup key m) [ none ↦ [] | some entries ↦ entries ]

-- `tuple(result) if result else None`
abbrev pub unless_empty : Option (List Text) → Option (List Text)
unless_empty none = none
unless_empty (some []) = none
unless_empty (some (item ∷ items)) = some (item ∷ items)

unfoldable pub get_free_ai_prefill_answer : Text → ℤ → ExecutionState → Option (List Text)
get_free_ai_prefill_answer thread_name question_num s =
    if is_nonpositive question_num
    then none
    else unless_empty (
        lookup (clamp_0 question_num)
          (entries_of (free_ai_thread_key thread_name) s.free_ai_prefill_by_thread))

unfoldable pub clear_free_ai_prefill_answers : Text → ExecutionState → ExecutionState
clear_free_ai_prefill_answers thread_name s = record s {
  free_ai_prefill_by_thread = erase (free_ai_thread_key thread_name) s.free_ai_prefill_by_thread;
  free_ai_option_fill_prefill_by_thread =
      erase (free_ai_thread_key thread_name) s.free_ai_option_fill_prefill_by_thread;
}

abbrev is_negative : ℤ → Bool
is_negative (pos n) = false
is_negative (negsuc n) = true

-- The loop of `set_free_ai_option_fill_prefill_answers`.
unfoldable pub normalized_option_fill :
    List ((ℤ × ℤ) × Text) → Dict (ℕ × ℕ) Text → Dict (ℕ × ℕ) Text
normalized_option_fill [] m = m
normalized_option_fill (((question_num, option_index), value) ∷ rest) m =
    normalized_option_fill rest (
      if is_nonpositive question_num || is_negative option_index || is_empty (strip value)
      then m
      else insert (clamp_0 question_num, clamp_0 option_index) (strip value) m)

unfoldable pub set_free_ai_option_fill_prefill_answers :
    Text → List ((ℤ × ℤ) × Text) → ExecutionState → ExecutionState
set_free_ai_option_fill_prefill_answers thread_name answers_by_option s = record s {
  free_ai_option_fill_prefill_by_thread =
      store_or_drop (free_ai_thread_key thread_name) (normalized_option_fill answers_by_option [])
        s.free_ai_option_fill_prefill_by_thread;
}

-- `str(result or "").strip() or None`
abbrev unless_blank : Option Text → Option Text
unless_blank none = none
unless_blank (some value) = if is_empty (strip value) then none else some (strip value)

unfoldable pub get_free_ai_option_fill_prefill_answer : Text → ℤ → ℤ → ExecutionState → Option Text
get_free_ai_option_fill_prefill_answer thread_name question_num option_index s =
    if is_nonpositive question_num || is_negative option_index
    then none
    else unless_blank (
        lookup (clamp_0 question_num, clamp_0 option_index)
          (entries_of (free_ai_thread_key thread_name) s.free_ai_option_fill_prefill_by_thread))

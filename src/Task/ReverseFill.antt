-- ===== src/Task/ReverseFill.antt =====
-- software/core/task/reverse_fill_state.py and software/core/reverse_fill/runtime.py: the rows of
-- a spreadsheet are handed to threads, one row to one thread, and come back committed, queued
-- again or discarded. A `…_locked` function is what a method does to the runtime under the lock.
pub mod Places
pub mod Steps
pub mod Retries
pub mod Totals
pub mod Standing
pub mod Moves
pub mod LifeCycle
mod Examples
use survey_controller.Common.{
  ℕ, zero, suc, ◌+◌, ◌≤◌, ◌≡◌, ℤ, clamp_0, Bool, true, false, not, ◌&&◌, Option, none, some, List,
  [], ◌∷◌, ◌++◌, Text, text, length, contains, ltb, leb, if◌then◌else◌, or_zero, is_empty, nat_eq,
  text_eq,
}
use survey_controller.Common.Dict.{Dict, lookup, insert, erase}
use survey_controller.Common.PySet.{add}
use survey_controller.Task.Defs.{
  ReverseFillSpec, ReverseFillRuntimeState, ReverseFillSampleRow, ReverseFillAnswer,
  ReverseFillAcquireResult, AcquireStatus, disabled, acquired, exhausted, waiting, ExecutionState,
  Caller, thread_key, notify_runtime_change,
}

-- The loop of `create_reverse_fill_runtime_state`.
unfoldable pub load_samples :
    List ReverseFillSampleRow → ReverseFillRuntimeState → ReverseFillRuntimeState
load_samples [] r = r
load_samples (sample ∷ samples) r = load_samples samples (record r {
  samples_by_row_number = insert sample.data_row_number sample r.samples_by_row_number;
  queued_row_numbers = r.queued_row_numbers ++ sample.data_row_number ∷ [];
})

abbrev pub empty_runtime : ReverseFillSpec → ReverseFillRuntimeState
empty_runtime spec = record {
  spec = spec;
  queued_row_numbers = [];
  samples_by_row_number = [];
  reserved_row_by_thread = [];
  failure_count_by_row = [];
  committed_row_numbers = [];
  discarded_row_numbers = [];
}

unfoldable pub create_reverse_fill_runtime_state :
    Option ReverseFillSpec → Option ReverseFillRuntimeState
create_reverse_fill_runtime_state none = none
create_reverse_fill_runtime_state (some spec) =
    some (load_samples spec.samples (empty_runtime spec))

unfoldable pub initialize_reverse_fill_runtime : ExecutionState → ExecutionState
initialize_reverse_fill_runtime s = notify_runtime_change (record s {
  reverse_fill_runtime = create_reverse_fill_runtime_state s.config.reverse_fill_spec;
})

unfoldable pub possible_total : ℕ → ReverseFillRuntimeState → ℕ
possible_total cur_num r = cur_num + length r.queued_row_numbers + length r.reserved_row_by_thread

-- `_reverse_fill_possible_total_locked`
unfoldable pub reverse_fill_possible_total : ExecutionState → ℕ
unfolding possible_total
reverse_fill_possible_total s = elim s.reverse_fill_runtime [
  | none ↦ s.cur_num
  | some r ↦ possible_total s.cur_num r
]

-- The `while` loop: rows without a sample are dropped.
unfoldable pub next_queued :
    Dict ℕ ReverseFillSampleRow → List ℕ → Option (ℕ × ReverseFillSampleRow) × List ℕ
next_queued samples [] = (none, [])
next_queued samples (row ∷ rest) = elim (lookup row samples) [
  | some sample ↦ (some (row, sample), rest)
  | none ↦ next_queued samples rest
]

abbrev pub acquired_with : ReverseFillSampleRow → Text → ReverseFillAcquireResult
acquired_with sample message = record { status = acquired; sample = some sample; message = message }

-- The answer when no row is free: `possible` is what the run can still reach.
unfoldable pub no_row_left : ℤ → ℕ → ReverseFillAcquireResult
no_row_left target_num possible =
    if ltb 0 (clamp_0 target_num) && ltb possible (clamp_0 target_num)
    then record {
      status = exhausted;
      sample = none;
      message = text "reverse_fill_target_unreachable";
    }
    else record { status = waiting; sample = none; message = text "reverse_fill_waiting" }

unfoldable pub reserve_next :
    ℤ → ℕ → Text → ReverseFillRuntimeState → ReverseFillRuntimeState × ReverseFillAcquireResult
reserve_next target_num cur_num key r =
    let (found, rest) = next_queued r.samples_by_row_number r.queued_row_numbers in
    let popped = record r { queued_row_numbers = rest } in
    elim found [
      | some (row, sample) ↦ (
        record popped { reserved_row_by_thread = insert key row r.reserved_row_by_thread },
        acquired_with sample (text "reserved"),
      )
      | none ↦ (popped, no_row_left target_num (possible_total cur_num popped))
    ]

unfoldable pub acquire_locked :
    ℤ → ℕ → Text → ReverseFillRuntimeState → ReverseFillRuntimeState × ReverseFillAcquireResult
acquire_locked target_num cur_num key r = elim (lookup key r.reserved_row_by_thread) [
  | none ↦ reserve_next target_num cur_num key r
  | some row ↦ elim (lookup row r.samples_by_row_number) [
    | some sample ↦ (r, acquired_with sample (text "already_reserved"))
    | none ↦
        reserve_next target_num cur_num key
          (record r { reserved_row_by_thread = erase key r.reserved_row_by_thread })
  ]
]

unfoldable pub acquire_reverse_fill_sample :
    Caller → ExecutionState → ExecutionState × ReverseFillAcquireResult
acquire_reverse_fill_sample c s = elim s.reverse_fill_runtime [
  | none ↦ (s, record { status = disabled; sample = none; message = text "reverse_fill_disabled" })
  | some r ↦
      let (r', result) = acquire_locked s.config.target_num s.cur_num (thread_key c) r in
      (record s { reverse_fill_runtime = some r' }, result)
]

unfoldable pub release_locked :
    Text → Bool → ReverseFillRuntimeState → ReverseFillRuntimeState × Option ℕ
release_locked key requeue r = elim (lookup key r.reserved_row_by_thread) [
  | none ↦ (r, none)
  | some row ↦
      let popped = record r { reserved_row_by_thread = erase key r.reserved_row_by_thread } in
      let returns =
        requeue
        && not (contains row r.committed_row_numbers)
        && not (contains row r.discarded_row_numbers) in
      (
        if returns
            then record popped { queued_row_numbers = row ∷ r.queued_row_numbers }
            else popped,
        some row,
      )
]

unfoldable pub commit_locked : Text → ReverseFillRuntimeState → ReverseFillRuntimeState × Option ℕ
commit_locked key r = elim (lookup key r.reserved_row_by_thread) [
  | none ↦ (r, none)
  | some row ↦ (
    record r {
      reserved_row_by_thread = erase key r.reserved_row_by_thread;
      committed_row_numbers = add row r.committed_row_numbers;
      failure_count_by_row = erase row r.failure_count_by_row;
    },
    some row,
  )
]

unfoldable pub failed_locked :
    Text → ℤ → ReverseFillRuntimeState → ReverseFillRuntimeState × Option ℕ × Bool
failed_locked key max_retries r = elim (lookup key r.reserved_row_by_thread) [
  | none ↦ (r, none, false)
  | some row ↦
      let next_count = suc (or_zero (lookup row r.failure_count_by_row)) in
      let counted = record r {
        reserved_row_by_thread = erase key r.reserved_row_by_thread;
        failure_count_by_row = insert row next_count r.failure_count_by_row;
      } in
      if leb next_count (clamp_0 max_retries)
      then (record counted { queued_row_numbers = row ∷ r.queued_row_numbers }, some row, false)
      else (
        record counted { discarded_row_numbers = add row r.discarded_row_numbers },
        some row,
        true,
      )
]

unfoldable pub release_reverse_fill_sample :
    Caller → Bool → ExecutionState → ExecutionState × Option ℕ
release_reverse_fill_sample c requeue s = elim s.reverse_fill_runtime [
  | none ↦ (s, none)
  | some r ↦
      let (r', row) = release_locked (thread_key c) requeue r in
      let t = record s { reverse_fill_runtime = some r' } in
      (elim row [ none ↦ t | some _ ↦ notify_runtime_change t ], row)
]

unfoldable pub commit_reverse_fill_sample : Caller → ExecutionState → ExecutionState × Option ℕ
commit_reverse_fill_sample c s = elim s.reverse_fill_runtime [
  | none ↦ (s, none)
  | some r ↦
      let (r', row) = commit_locked (thread_key c) r in
      let t = record s { reverse_fill_runtime = some r' } in
      (elim row [ none ↦ t | some _ ↦ notify_runtime_change t ], row)
]

unfoldable pub mark_reverse_fill_submission_failed :
    Caller → ℤ → ExecutionState → ExecutionState × Option ℕ × Bool
mark_reverse_fill_submission_failed c max_retries s = elim s.reverse_fill_runtime [
  | none ↦ (s, none, false)
  | some r ↦
      let (r', row, discarded) = failed_locked (thread_key c) max_retries r in
      let t = record s { reverse_fill_runtime = some r' } in
      (elim row [ none ↦ t | some _ ↦ notify_runtime_change t ], row, discarded)
]

unfoldable pub get_reverse_fill_answer : ℕ → Caller → ExecutionState → Option ReverseFillAnswer
get_reverse_fill_answer question_num c s = elim s.reverse_fill_runtime [
  | none ↦ none
  | some r ↦ elim (lookup (thread_key c) r.reserved_row_by_thread) [
    | none ↦ none
    | some row ↦ elim (lookup row r.samples_by_row_number) [
      | none ↦ none
      | some sample ↦ lookup question_num sample.answers
    ]
  ]
]

unfoldable pub is_reverse_fill_target_unreachable : ExecutionState → Bool
unfolding reverse_fill_possible_total
is_reverse_fill_target_unreachable s = elim s.reverse_fill_runtime [
  | none ↦ false
  | some r ↦
      ltb 0 (clamp_0 s.config.target_num)
      && ltb (reverse_fill_possible_total s) (clamp_0 s.config.target_num)
]

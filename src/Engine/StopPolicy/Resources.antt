-- ===== src/Engine/StopPolicy/Resources.antt =====
-- What a thread holds after its success or its failure.
use survey_controller.Common.{
  ℕ, ◌≡◌, ℤ, Bool, true, false, Option, none, some, List, Text, contains, refl, arith, nat_eq,
  text_eq, Option-cases, inl, inr, nat_beq_iff,
}
use survey_controller.Common.Dict.{Dict, lookup, HasUniqueKeys, lookup-erase_self}
use survey_controller.Common.PySet.{contains-add}
use survey_controller.Task.Defs.{
  ExecutionState, Caller, thread_key, notify_runtime_change, ReverseFillRuntimeState,
}
use survey_controller.Task.ReverseFill.{
  release_locked, commit_locked, failed_locked, release_reverse_fill_sample,
  commit_reverse_fill_sample, mark_reverse_fill_submission_failed,
}
use survey_controller.Task.Joint.{release_joint_sample, commit_joint_sample, drop_reservation}
use survey_controller.Task.Distribution.{commit_pending_distribution}
use survey_controller.Task.Progress.{increment_thread_success, increment_thread_fail, change_thread}
use survey_controller.Task.Terminal.{mark_terminal_stop}
use survey_controller.Engine.StopPolicy.{Failure, decide_failure}

-- The row and the joint sample that a thread holds.
abbrev pub row_in : Text → Option ReverseFillRuntimeState → Option ℕ
row_in key none = none
row_in key (some r) = lookup key r.reserved_row_by_thread

abbrev pub held_row : Text → ExecutionState → Option ℕ
held_row key s = row_in key s.reverse_fill_runtime

abbrev pub held_sample : Text → ExecutionState → Option ℕ
held_sample key s = lookup key s.joint_reserved_sample_by_thread

abbrev pub committed_in : ℕ → Option ReverseFillRuntimeState → Bool
committed_in row none = false
committed_in row (some r) = contains row r.committed_row_numbers

abbrev pub is_row_committed : ℕ → ExecutionState → Bool
is_row_committed row s = committed_in row s.reverse_fill_runtime

-- Nothing, or a row that is committed.
abbrev pub is_row_done : Option ℕ → ExecutionState → Bool
is_row_done none s = true
is_row_done (some row) s = is_row_committed row s

-- Nothing, or a joint sample that is committed.
abbrev pub is_sample_done : Option ℕ → ExecutionState → Bool
is_sample_done none s = true
is_sample_done (some i) s = contains i s.joint_committed_sample_indexes

abbrev pub RowsAreUnique : Option ReverseFillRuntimeState → Type 0
RowsAreUnique none = Unit {0}
RowsAreUnique (some r) = HasUniqueKeys r.reserved_row_by_thread

-- A thread name stands once in each table of reservations.
pub record HasUniqueHolders (s : ExecutionState) : Type 0 where
  pub samples : HasUniqueKeys s.joint_reserved_sample_by_thread
  pub rows : RowsAreUnique s.reverse_fill_runtime

-- The tables themselves.
pub record Tables : Type 0 where
  pub samples : Dict Text ℕ
  pub committed : List ℕ
  pub runtime : Option ReverseFillRuntimeState

abbrev pub tables : ExecutionState → Tables
tables s = record {
  samples = s.joint_reserved_sample_by_thread;
  committed = s.joint_committed_sample_indexes;
  runtime = s.reverse_fill_runtime;
}

pub tables-decide_failure :
    (f : Failure) (n : ℕ) (stop : Option Bool) (s : ExecutionState)
    → tables (decide_failure f n stop s).0 ≡ tables s
unfolding decide_failure mark_terminal_stop notify_runtime_change
tables-decide_failure f n stop s = ground arith

pub tables-fail :
    (name status : Text) (now : ℕ) (s : ExecutionState)
    → tables (increment_thread_fail name status now s) ≡ tables s
unfolding increment_thread_fail change_thread notify_runtime_change
tables-fail name status now s = refl

pub tables-success :
    (name status : Text) (now : ℕ) (s : ExecutionState)
    → tables (increment_thread_success name status now s) ≡ tables s
unfolding increment_thread_success change_thread notify_runtime_change
tables-success name status now s = refl

pub tables-commit_pending :
    (c : Caller) (s : ExecutionState) → tables (commit_pending_distribution c s).0 ≡ tables s
unfolding commit_pending_distribution
tables-commit_pending c s = refl

-- Each way to give a reservation back leaves the thread without one.
pub release_sample_frees :
    (c : Caller) (s : ExecutionState)
    → HasUniqueKeys s.joint_reserved_sample_by_thread
    → (held_sample (thread_key c) (release_joint_sample c s).0 ≡ none)
      × ((release_joint_sample c s).0.reverse_fill_runtime ≡ s.reverse_fill_runtime)
unfolding release_joint_sample drop_reservation notify_runtime_change
release_sample_frees c s u =
    ground (arith, lookup-erase_self (thread_key c) s.joint_reserved_sample_by_thread u)

pub release_locked_frees :
    (key : Text) (requeue : Bool) (r : ReverseFillRuntimeState)
    → HasUniqueKeys r.reserved_row_by_thread
    → lookup key (release_locked key requeue r).0.reserved_row_by_thread ≡ none
unfolding release_locked
release_locked_frees key requeue r u =
    ground (arith, lookup-erase_self key r.reserved_row_by_thread u)

pub failed_locked_frees :
    (key : Text) (m : ℤ) (r : ReverseFillRuntimeState)
    → HasUniqueKeys r.reserved_row_by_thread
    → lookup key (failed_locked key m r).0.reserved_row_by_thread ≡ none
unfolding failed_locked
failed_locked_frees key m r u = ground (arith, lookup-erase_self key r.reserved_row_by_thread u)

-- A commit also puts the row that was held among the committed ones.
pub commit_locked_frees :
    (key : Text) (r : ReverseFillRuntimeState)
    → HasUniqueKeys r.reserved_row_by_thread
    → (lookup key (commit_locked key r).0.reserved_row_by_thread ≡ none)
      × ((row : ℕ)
          → lookup key r.reserved_row_by_thread ≡ some row
          → contains row (commit_locked key r).0.committed_row_numbers ≡ true)
unfolding commit_locked
commit_locked_frees key r u = (
  ground (arith, lookup-erase_self key r.reserved_row_by_thread u),
  λ row h. ground (arith, contains-add row row r.committed_row_numbers, nat_beq_iff row row),
)

pub release_row_frees :
    (c : Caller) (requeue : Bool) (s : ExecutionState)
    → RowsAreUnique s.reverse_fill_runtime
    → held_row (thread_key c) (release_reverse_fill_sample c requeue s).0 ≡ none
unfolding release_reverse_fill_sample notify_runtime_change
release_row_frees c requeue s u = elim (Option-cases s.reverse_fill_runtime) [
  | inl e ↦ ground arith
  | inr (r, e) ↦ ground (arith, release_locked_frees (thread_key c) requeue r (rw e at u))
]

pub fail_row_frees :
    (c : Caller) (m : ℤ) (s : ExecutionState)
    → RowsAreUnique s.reverse_fill_runtime
    → held_row (thread_key c) (mark_reverse_fill_submission_failed c m s).0 ≡ none
unfolding mark_reverse_fill_submission_failed notify_runtime_change
fail_row_frees c m s u = elim (Option-cases s.reverse_fill_runtime) [
  | inl e ↦ ground arith
  | inr (r, e) ↦ ground (arith, failed_locked_frees (thread_key c) m r (rw e at u))
]

pub commit_row_frees :
    (c : Caller) (s : ExecutionState)
    → RowsAreUnique s.reverse_fill_runtime
    → (held_row (thread_key c) (commit_reverse_fill_sample c s).0 ≡ none)
      × ((row : ℕ)
          → held_row (thread_key c) s ≡ some row
          → is_row_committed row (commit_reverse_fill_sample c s).0 ≡ true)
unfolding commit_reverse_fill_sample notify_runtime_change
commit_row_frees c s u = elim (Option-cases s.reverse_fill_runtime) [
  | inl e ↦ (ground arith, λ row h. ground arith)
  | inr (r, e) ↦
      let (freed, done) = commit_locked_frees (thread_key c) r (rw e at u) in
      (ground (arith, freed), λ row h. ground (arith, done row))
]

pub commit_sample_frees :
    (c : Caller) (s : ExecutionState)
    → HasUniqueKeys s.joint_reserved_sample_by_thread
    → (held_sample (thread_key c) (commit_joint_sample c s).0 ≡ none)
      × ((i : ℕ)
          → held_sample (thread_key c) s ≡ some i
          → contains i (commit_joint_sample c s).0.joint_committed_sample_indexes ≡ true)
      × ((commit_joint_sample c s).0.reverse_fill_runtime ≡ s.reverse_fill_runtime)
unfolding commit_joint_sample drop_reservation notify_runtime_change
commit_sample_frees c s u = (
  ground (arith, lookup-erase_self (thread_key c) s.joint_reserved_sample_by_thread u),
  λ i h. ground (arith, contains-add i i s.joint_committed_sample_indexes, nat_beq_iff i i),
  ground arith,
)

pub samples-release_row :
    (c : Caller) (requeue : Bool) (s : ExecutionState)
    → ((release_reverse_fill_sample c requeue s).0.joint_reserved_sample_by_thread
        ≡ s.joint_reserved_sample_by_thread)
unfolding release_reverse_fill_sample notify_runtime_change
samples-release_row c requeue s = ground arith

pub samples-fail_row :
    (c : Caller) (m : ℤ) (s : ExecutionState)
    → ((mark_reverse_fill_submission_failed c m s).0.joint_reserved_sample_by_thread
        ≡ s.joint_reserved_sample_by_thread)
unfolding mark_reverse_fill_submission_failed notify_runtime_change
samples-fail_row c m s = ground arith

pub samples-commit_row :
    (c : Caller) (s : ExecutionState)
    → ((commit_reverse_fill_sample c s).0.joint_reserved_sample_by_thread
        ≡ s.joint_reserved_sample_by_thread)
      × ((commit_reverse_fill_sample c s).0.joint_committed_sample_indexes
          ≡ s.joint_committed_sample_indexes)
unfolding commit_reverse_fill_sample notify_runtime_change
samples-commit_row c s = ground arith

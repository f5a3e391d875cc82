-- ===== src/Engine/Session/Unique.antt =====
-- No failure, success or release puts a name into a table of reservations twice.
pub mod Passes
use survey_controller.Common.{
  ℕ, zero, suc, ◌≡◌, ◌∙◌, refl, arith, ap, ℤ, pos, clamp_0, Bool, true, false, not, ◌&&◌, Option,
  none, some, Text, text, is_some, if◌then◌else◌, is_empty, nat_beq, text_eq, Bool-cases,
  Option-cases, inl, inr, List,
}
use survey_controller.Common.Dict.{
  lookup, erase, HasUniqueKeys, erase-HasUniqueKeys, insert-HasUniqueKeys,
}
use survey_controller.Task.Defs.{
  ExecutionState, Caller, named, thread_key, notify_runtime_change, ReverseFillRuntimeState,
  AcquireStatus, acquired, disabled, exhausted,
}
use survey_controller.Task.Defs as Defs
use survey_controller.Task.ReverseFill.{
  release_reverse_fill_sample, commit_reverse_fill_sample, commit_locked,
  mark_reverse_fill_submission_failed, failed_locked, acquire_reverse_fill_sample,
}
use survey_controller.Task.Joint.{
  reserve_joint_sample, release_joint_sample, commit_joint_sample, drop_reservation,
  mark_joint_sample_answering, expire_stale_joint_sample_reservations, peek_reserved_joint_sample,
}
use survey_controller.Task.Joint.Assigned.{
  Reserves, reserve-Reserves, no_quota, existing, taken, full,
}
use survey_controller.Task.Distribution.{commit_pending_distribution, reset_pending_distribution}
use survey_controller.Engine.StopPolicy.{
  Failure, give_back, count_failure, decide_failure, record_failure, commit_resources,
  count_success, record_success, trigger_target_reached_stop, is_target_reached, is_wanted,
}
use survey_controller.Engine.StopPolicy.Resources.{
  tables, HasUniqueHolders, RowsAreUnique, tables-fail, tables-success, tables-decide_failure,
  tables-commit_pending, samples-fail_row, samples-commit_row,
}
use survey_controller.Engine.StopPolicy.Settling.{tables-trigger}
use survey_controller.Engine.Round.{
  Prepared, leaves, lease, prepare_pass, reserve_resources, should_stop_loop, without_sample,
  with_sample, give_row_back, give_sample_back, release_round_resources, after_pre_answer_step,
  begin_round,
}
use survey_controller.Engine.Round.Holding.{
  holders_of, release_row_unique, expire_unique, acquire_holds,
}
use survey_controller.Engine.Round.Passes.{tables-status, tables-mark, tables-without_sample}

release_sample_tables :
    (c : Caller) (s : ExecutionState)
    → ((release_joint_sample c s).0.joint_reserved_sample_by_thread
        ≡ erase (thread_key c) s.joint_reserved_sample_by_thread)
      × ((release_joint_sample c s).0.reverse_fill_runtime ≡ s.reverse_fill_runtime)
unfolding release_joint_sample drop_reservation notify_runtime_change
release_sample_tables c s = (ground arith, ground arith)

pub release_sample_unique :
    (c : Caller) (s : ExecutionState)
    → HasUniqueHolders s
    → HasUniqueHolders (release_joint_sample c s).0
release_sample_unique c s u =
    let (samples, same) = release_sample_tables c s in
    record {
      samples =
          rw samples
            (erase-HasUniqueKeys (thread_key c) s.joint_reserved_sample_by_thread u.samples);
      rows = rw same u.rows;
    }

commit_sample_tables :
    (c : Caller) (s : ExecutionState)
    → ((commit_joint_sample c s).0.joint_reserved_sample_by_thread
        ≡ erase (thread_key c) s.joint_reserved_sample_by_thread)
      × ((commit_joint_sample c s).0.reverse_fill_runtime ≡ s.reverse_fill_runtime)
unfolding commit_joint_sample drop_reservation notify_runtime_change
commit_sample_tables c s = (ground arith, ground arith)

commit_sample_unique :
    (c : Caller) (s : ExecutionState)
    → HasUniqueHolders s
    → HasUniqueHolders (commit_joint_sample c s).0
commit_sample_unique c s u =
    let (samples, same) = commit_sample_tables c s in
    record {
      samples =
          rw samples
            (erase-HasUniqueKeys (thread_key c) s.joint_reserved_sample_by_thread u.samples);
      rows = rw same u.rows;
    }

pub release_round_unique :
    (slot : Text) (s : ExecutionState)
    → HasUniqueHolders s
    → HasUniqueHolders (release_round_resources slot true s)
unfolding release_round_resources
release_round_unique slot s u =
    release_row_unique (named slot) true (release_joint_sample (named slot) s).0
      (release_sample_unique (named slot) s u)

failed_locked_unique :
    (key : Text) (m : ℤ) (r : ReverseFillRuntimeState)
    → HasUniqueKeys r.reserved_row_by_thread
    → HasUniqueKeys (failed_locked key m r).0.reserved_row_by_thread
unfolding failed_locked
failed_locked_unique key m r u = ground (arith, erase-HasUniqueKeys key r.reserved_row_by_thread u)

commit_locked_unique :
    (key : Text) (r : ReverseFillRuntimeState)
    → HasUniqueKeys r.reserved_row_by_thread
    → HasUniqueKeys (commit_locked key r).0.reserved_row_by_thread
unfolding commit_locked
commit_locked_unique key r u = ground (arith, erase-HasUniqueKeys key r.reserved_row_by_thread u)

runtime-fail :
    (c : Caller) (m : ℤ) (s : ExecutionState) (r : ReverseFillRuntimeState)
    → s.reverse_fill_runtime ≡ some r
    → (mark_reverse_fill_submission_failed c m s).0.reverse_fill_runtime
      ≡ some (failed_locked (thread_key c) m r).0
unfolding mark_reverse_fill_submission_failed notify_runtime_change
runtime-fail c m s r e = ground arith

runtime-fail_none :
    (c : Caller) (m : ℤ) (s : ExecutionState)
    → s.reverse_fill_runtime ≡ none
    → (mark_reverse_fill_submission_failed c m s).0.reverse_fill_runtime ≡ none
unfolding mark_reverse_fill_submission_failed
runtime-fail_none c m s e = ground arith

runtime-commit :
    (c : Caller) (s : ExecutionState) (r : ReverseFillRuntimeState)
    → s.reverse_fill_runtime ≡ some r
    → (commit_reverse_fill_sample c s).0.reverse_fill_runtime
      ≡ some (commit_locked (thread_key c) r).0
unfolding commit_reverse_fill_sample notify_runtime_change
runtime-commit c s r e = ground arith

runtime-commit_none :
    (c : Caller) (s : ExecutionState)
    → s.reverse_fill_runtime ≡ none
    → (commit_reverse_fill_sample c s).0.reverse_fill_runtime ≡ none
unfolding commit_reverse_fill_sample
runtime-commit_none c s e = ground arith

fail_row_unique :
    (c : Caller) (m : ℤ) (s : ExecutionState)
    → HasUniqueHolders s
    → HasUniqueHolders (mark_reverse_fill_submission_failed c m s).0
fail_row_unique c m s u = record {
  samples = rw (samples-fail_row c m s) u.samples;
  rows = elim (Option-cases s.reverse_fill_runtime) [
    | inl e ↦ rw (runtime-fail_none c m s e) tt
    | inr (r, e) ↦
        rw (runtime-fail c m s r e) (failed_locked_unique (thread_key c) m r (rw e at u.rows))
  ];
}

commit_row_unique :
    (c : Caller) (s : ExecutionState)
    → HasUniqueHolders s
    → HasUniqueHolders (commit_reverse_fill_sample c s).0
commit_row_unique c s u = record {
  samples = rw ((samples-commit_row c s).0) u.samples;
  rows = elim (Option-cases s.reverse_fill_runtime) [
    | inl e ↦ rw (runtime-commit_none c s e) tt
    | inr (r, e) ↦
        rw (runtime-commit c s r e) (commit_locked_unique (thread_key c) r (rw e at u.rows))
  ];
}

give_back_unique :
    (f : Failure) (now : ℕ) (s : ExecutionState)
    → HasUniqueHolders s
    → HasUniqueHolders (give_back f now s)
unfolding give_back
give_back_unique f now s u =
    let c = named f.thread_name in
    let unjoined = (release_joint_sample c s).0 in
    let v = release_sample_unique c s u in
    let m = pos (clamp_0 f.reverse_fill_max_retries) in
    let failed = (mark_reverse_fill_submission_failed c m unjoined).0 in
    let released = (release_reverse_fill_sample c true unjoined).0 in
    elim (Bool-cases (is_empty f.thread_name)) [
      | inl e ↦ rw (give_back, e) u
      | inr e ↦ elim (Bool-cases f.consume_reverse_fill_attempt) [
        | inl k ↦
            rw (give_back, e, k)
              (holders_of failed _ (tables-fail f.thread_name f.status_text now failed)
                (fail_row_unique c m unjoined v))
        | inr k ↦
            rw (give_back, e, k)
              (holders_of released _ (tables-fail f.thread_name f.status_text now released)
                (release_row_unique c true unjoined v))
      ]
    ]

pub record_failure_unique :
    (f : Failure) (now : ℕ) (stop : Option Bool) (s : ExecutionState)
    → HasUniqueHolders s
    → HasUniqueHolders (record_failure f now stop s).0
unfolding record_failure count_failure
record_failure_unique f now stop s u =
    let counted = count_failure f.failure_reason s in
    let unique : HasUniqueHolders counted = record { samples = u.samples; rows = u.rows } in
    holders_of (give_back f now counted) _
      (tables-decide_failure f _ stop (give_back f now counted))
      (give_back_unique f now counted unique)

commit_resources_unique :
    (name status : Text) (now : ℕ) (s : ExecutionState)
    → HasUniqueHolders s
    → HasUniqueHolders (commit_resources name status now s)
unfolding commit_resources
commit_resources_unique name status now s u =
    let c = named name in
    let joined = (commit_joint_sample c s).0 in
    let filled = (commit_reverse_fill_sample c joined).0 in
    let counted = (commit_pending_distribution c filled).0 in
    elim (Bool-cases (is_empty name)) [
      | inl e ↦ rw (commit_resources, e) u
      | inr e ↦
          rw (commit_resources, e)
            (holders_of filled _
              (tables-success name status now counted ∙ tables-commit_pending c filled)
              (commit_row_unique c joined (commit_sample_unique c s u)))
    ]

pub record_success_unique :
    (name status message : Text) (now : ℕ) (stop : Bool) (s : ExecutionState)
    → HasUniqueHolders s
    → HasUniqueHolders (record_success name status message now stop s).state
unfolding record_success count_success
record_success_unique name status message now stop s u =
    let counted = count_success s in
    let unique : HasUniqueHolders counted = record { samples = u.samples; rows = u.rows } in
    let committed = commit_resources name status now counted in
    let v = commit_resources_unique name status now counted unique in
    elim (Bool-cases (is_wanted s)) [
      | inr e ↦ rw (record_success, e) u
      | inl e ↦ elim (Bool-cases (is_target_reached counted)) [
        | inl t ↦
            rw (record_success, e, t)
              (holders_of committed _ (tables-trigger message (some stop) committed) v)
        | inr t ↦ rw (record_success, e, t) v
      ]
    ]

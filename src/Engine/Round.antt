-- ===== src/Engine/Round.antt =====
-- software/core/engine/async_round_resources.py: what a session reserves before it answers. A round
-- is prepared in passes; after one that reserves nothing the session sleeps and tries again.
-- Logging is left out; the stop signal of the run is a flag; times are in milliseconds.
pub mod Holding
pub mod Passes
pub mod Outcomes
mod Examples
use survey_controller.Common.{
  ℕ, zero, suc, ℤ, pos, clamp_0, Bool, true, false, not, ◌&&◌, Option, none, some, List, [], Text,
  text, nat_beq, if◌then◌else◌, is_some,
}
use survey_controller.Task.Defs.{
  ExecutionConfig, ExecutionState, named, AcquireStatus, acquired, disabled, exhausted,
  ReverseFillAcquireResult,
}
use survey_controller.Task.Defs as Defs
use survey_controller.Task.ReverseFill.{acquire_reverse_fill_sample, release_reverse_fill_sample}
use survey_controller.Task.Joint.{
  peek_reserved_joint_sample, reserve_joint_sample, release_joint_sample,
  is_joint_sample_quota_exhausted, expire_stale_joint_sample_reservations,
}
use survey_controller.Task.Distribution.{reset_pending_distribution}
use survey_controller.Task.Progress.{update_thread_status}
use survey_controller.Task.Terminal.{mark_terminal_stop}
use survey_controller.Engine.StopPolicy.{
  is_target_reached, trigger_target_reached_stop, signal, fill_failed, reason_value,
}

-- `plan_count` is the `sample_count` of the plan that the settings yield, if they yield one.
unfoldable pub sample_count : Option ℤ → ExecutionConfig → ℤ
sample_count none config = pos 0
sample_count (some (pos zero)) config = config.target_num
sample_count (some n) config = n

unfoldable pub requires_joint_sample : Option ℤ → ExecutionConfig → Bool
requires_joint_sample plan_count config = not (nat_beq (clamp_0 (sample_count plan_count config)) 0)

-- `_should_stop_loop` of software/core/engine/async_runtime_loop.py, after the pause.
unfoldable pub should_stop_loop : Bool → ExecutionState → ExecutionState × Bool × Bool
should_stop_loop stop s =
    if stop
    then (s, stop, true)
    else if is_target_reached s
    then (let (t, stop') = trigger_target_reached_stop (text "目标份数已达成") (some stop) s in
        (t, signal stop', true))
    else (s, stop, false)

-- 45 seconds
abbrev pub lease : ℤ
lease = pos 45000

-- How a pass ends: the round can start, the session leaves its loop, or it tries again later.
pub data Pass : Type 0 where
  ready leaves again : Pass

pub record Prepared : Type 0 where
  pub state : ExecutionState
  pub stop : Bool
  pub pass : Pass

-- `if status == "acquired": release_reverse_fill_sample(slot, requeue=True)`
unfoldable pub give_row_back : Text → AcquireStatus → ExecutionState → ExecutionState
give_row_back slot acquired s = (release_reverse_fill_sample (named slot) true s).0
give_row_back slot _ s = s

-- No joint sample was free: the row goes back.
unfoldable pub without_sample : Text → ℤ → AcquireStatus → ℕ → Bool → ExecutionState → Prepared
without_sample slot n status now stop s =
    let returned = give_row_back slot status s in
    if is_joint_sample_quota_exhausted n returned
    then record {
      state =
          update_thread_status slot (text "信效度配额已完成") (some false) now
            (mark_terminal_stop (text "target_reached") [] (text "联合信效度样本槽位已全部完成") false returned);
      stop = true;
      pass = leaves;
    }
    else record {
      state = update_thread_status slot (text "等待信效度配额槽位") (some true) now returned;
      stop = stop;
      pass = again;
    }

-- `if reserved_sample_index is not None: release_joint_sample(slot)`
unfoldable pub give_sample_back : Text → Option ℕ → ExecutionState → ExecutionState
give_sample_back slot none s = s
give_sample_back slot (some i) s = (release_joint_sample (named slot) s).0

unfoldable pub with_sample : Text → Option ℕ → AcquireStatus → ℕ → Bool → ExecutionState → Prepared
with_sample slot sample Defs.waiting now stop s = record {
  state =
      update_thread_status slot (text "等待反填样本") (some true) now (give_sample_back slot sample s);
  stop = stop;
  pass = again;
}
with_sample slot sample exhausted now stop s = record {
  state = update_thread_status slot (text "反填样本不足") (some false) now (
      mark_terminal_stop (text "reverse_fill_exhausted") (reason_value fill_failed)
        (text "反填样本已耗尽，剩余样本不足以完成目标份数") false (give_sample_back slot sample s));
  stop = true;
  pass = leaves;
}
with_sample slot sample acquired now stop s = record { state = s; stop = stop; pass = ready }
with_sample slot sample disabled now stop s = record { state = s; stop = stop; pass = ready }

-- The part of a pass after the checks for a stop.
unfoldable pub reserve_resources : Text → ℤ → ℕ → Bool → ExecutionState → Prepared
reserve_resources slot n now stop s =
    let expired = (expire_stale_joint_sample_reservations lease now s).0 in
    let wanted = not (nat_beq (clamp_0 n) 0) in
    let (joined, sample) =
      if wanted then reserve_joint_sample n (named slot) now expired else (expired, none) in
    let (filled, result) = acquire_reverse_fill_sample (named slot) joined in
    if wanted && not (is_some sample)
    then without_sample slot n result.status now stop filled
    else with_sample slot sample result.status now stop filled

-- One pass of the loop in `prepare_round_context`.
unfoldable pub prepare_pass : Text → ℤ → ℕ → Bool → ExecutionState → Prepared
prepare_pass slot n now stop s =
    let (checked, stop', stops) = should_stop_loop stop s in
    if stops
    then record { state = checked; stop = stop'; pass = leaves }
    else reserve_resources slot n now stop checked

-- What comes before the loop.
unfoldable pub begin_round : Text → ExecutionState → ExecutionState
begin_round slot s = reset_pending_distribution (named slot) s

unfoldable pub release_round_resources : Text → Bool → ExecutionState → ExecutionState
release_round_resources slot requeue_reverse_fill s =
    (release_reverse_fill_sample (named slot) requeue_reverse_fill
      (release_joint_sample (named slot) s).0).0

-- `run_pre_answer_step_with_joint_lease`, for a step that is over in time, or not and given up.
unfoldable pub after_pre_answer_step : Text → Bool → ExecutionState → ExecutionState × Bool
after_pre_answer_step slot in_time s = elim (peek_reserved_joint_sample (named slot) s) [
  | none ↦ (s, true)
  | some i ↦ if in_time then (s, true) else (release_round_resources slot true s, false)
]

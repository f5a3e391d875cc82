-- ===== src/Engine/StopPolicy.antt =====
-- software/core/engine/run_stop_policy.py: what a success and a failure do to the state, and when
-- they stop the run. Logging is left out. The stop signal is a flag; `none` where the caller passes
-- no signal. Time is an argument.
pub mod Frames
pub mod Target
pub mod Failures
pub mod Histories
pub mod Resources
pub mod Settling
mod Examples
use survey_controller.Common.{
  ℕ, zero, suc, ◌+◌, ◌-◌, ◌/◌, max, ℤ, pos, negsuc, clamp_0, clamp_1, Bool, true, false, not, ◌&&◌,
  ◌||◌, Option, none, some, List, [], ◌∷◌, Text, text, strip, or_else, leb, ltb, if◌then◌else◌,
  is_empty, is_nonpositive, below_ℤ, reaches_ℤ,
}
use survey_controller.Task.Defs.{ExecutionConfig, ExecutionState, Caller, named}
use survey_controller.Task.ReverseFill.{
  release_reverse_fill_sample, commit_reverse_fill_sample, mark_reverse_fill_submission_failed,
  is_reverse_fill_target_unreachable,
}
use survey_controller.Task.Joint.{release_joint_sample, commit_joint_sample}
use survey_controller.Task.Distribution.{commit_pending_distribution}
use survey_controller.Task.Progress.{increment_thread_success, increment_thread_fail}
use survey_controller.Task.Terminal.{mark_terminal_stop}

pub data FailureReason : Type 0 where
  proxy_unavailable page_load_failed fill_failed : FailureReason
  submission_verification_required survey_provider_unavailable : FailureReason
  device_quota_limit user_stopped : FailureReason

abbrev pub reason_value : FailureReason → Text
reason_value proxy_unavailable = text "proxy_unavailable"
reason_value page_load_failed = text "page_load_failed"
reason_value fill_failed = text "fill_failed"
reason_value submission_verification_required = text "submission_verification_required"
reason_value survey_provider_unavailable = text "survey_provider_unavailable"
reason_value device_quota_limit = text "device_quota_limit"
reason_value user_stopped = text "user_stopped"

-- `if stop_signal: stop_signal.set()`
abbrev pub set_stop : Option Bool → Option Bool
set_stop none = none
set_stop (some stopped) = some true

unfoldable pub failure_threshold : ExecutionConfig → ℕ
failure_threshold config =
    if ltb 10 (clamp_1 config.num_threads)
    then max (clamp_1 config.fail_threshold) ((clamp_1 config.num_threads + 1) / 2)
    else clamp_1 config.fail_threshold

unfoldable pub proxy_unavailable_threshold : ExecutionConfig → ℕ
proxy_unavailable_threshold config =
    if config.random_proxy_ip_enabled
    then max (failure_threshold config) (clamp_1 config.num_threads)
    else failure_threshold config

-- `max(1, int(threshold_override or self.failure_threshold()))`
unfoldable pub stop_threshold : Option ℤ → ExecutionConfig → ℕ
stop_threshold none config = max 1 (failure_threshold config)
stop_threshold (some (pos zero)) config = max 1 (failure_threshold config)
stop_threshold (some (pos (suc n))) config = suc n
stop_threshold (some (negsuc n)) config = 1

-- The arguments of `record_failure`; `thread_name` is empty where none is given.
pub record Failure : Type 0 where
  pub thread_name : Text
  pub failure_reason : FailureReason
  pub status_text : Text
  pub log_message : Text
  pub threshold_override : Option ℤ
  pub terminal_stop_category : Text
  pub force_stop_when_threshold_reached : Bool
  pub consume_reverse_fill_attempt : Bool
  pub reverse_fill_max_retries : ℤ

abbrev pub is_proxy_unavailable : FailureReason → Bool
is_proxy_unavailable proxy_unavailable = true
is_proxy_unavailable _ = false

abbrev pub is_device_quota : FailureReason → Bool
is_device_quota device_quota_limit = true
is_device_quota _ = false

-- The first section under the lock.
unfoldable pub count_failure : FailureReason → ExecutionState → ExecutionState
count_failure reason s =
    let proxy = is_proxy_unavailable reason in
    record s {
      proxy_unavailable_fail_count =
          if proxy then suc s.proxy_unavailable_fail_count else s.proxy_unavailable_fail_count;
      cur_fail = if proxy then s.cur_fail else suc s.cur_fail;
      device_quota_fail_count =
          if is_device_quota reason
          then suc s.device_quota_fail_count
          else s.device_quota_fail_count;
    }

abbrev pub consecutive_failures : FailureReason → ExecutionState → ℕ
consecutive_failures reason counted =
    if is_proxy_unavailable reason then counted.proxy_unavailable_fail_count else counted.cur_fail

-- What the failed thread gives back.
unfoldable pub give_back : Failure → ℕ → ExecutionState → ExecutionState
give_back f now s =
    if is_empty f.thread_name
    then s
    else (let caller = named f.thread_name in
        let unjoined = (release_joint_sample caller s).0 in
        let returned =
          if f.consume_reverse_fill_attempt
          then (mark_reverse_fill_submission_failed caller
              (pos (clamp_0 f.reverse_fill_max_retries)) unjoined).0
          else (release_reverse_fill_sample caller true unjoined).0 in
        increment_thread_fail f.thread_name f.status_text now returned)

abbrev pub threshold_enabled : Failure → ExecutionState → Bool
threshold_enabled f s = s.config.stop_on_fail_enabled || f.force_stop_when_threshold_reached

-- The decision after a failure: the state, the stop signal and the result.
unfoldable pub decide_failure :
    Failure → ℕ → Option Bool → ExecutionState → ExecutionState × Option Bool × Bool
decide_failure f consecutive stop s =
    if is_reverse_fill_target_unreachable s
    then (
      mark_terminal_stop (text "reverse_fill_exhausted") (reason_value fill_failed)
          (text "反填样本已耗尽，剩余样本不足以完成目标份数") false s,
      set_stop stop,
      true,
    )
    else if threshold_enabled f s && leb (stop_threshold f.threshold_override s.config) consecutive
    then (
      mark_terminal_stop f.terminal_stop_category (reason_value f.failure_reason)
          (or_else (strip f.log_message) f.status_text) false s,
      set_stop stop,
      true,
    )
    else (s, stop, false)

unfoldable pub record_failure :
    Failure → ℕ → Option Bool → ExecutionState → ExecutionState × Option Bool × Bool
record_failure f now stop s =
    let counted = count_failure f.failure_reason s in
    decide_failure f (consecutive_failures f.failure_reason counted) stop (give_back f now counted)

unfoldable pub trigger_target_reached_stop :
    Text → Option Bool → ExecutionState → ExecutionState × Option Bool
trigger_target_reached_stop message stop s =
    if s.target_reached_stop_triggered then (s, set_stop stop) else (
      mark_terminal_stop (text "target_reached") [] message false
          (record s { target_reached_stop_triggered = true }),
      set_stop stop,
    )

-- `target_num <= 0 or cur_num < target_num`: the success counts.
unfoldable pub is_wanted : ExecutionState → Bool
is_wanted s = is_nonpositive s.config.target_num || below_ℤ s.cur_num s.config.target_num

-- `target_num > 0 and cur_num >= target_num`
unfoldable pub is_target_reached : ExecutionState → Bool
is_target_reached s =
    not (is_nonpositive s.config.target_num) && reaches_ℤ s.cur_num s.config.target_num

unfoldable pub count_success : ExecutionState → ExecutionState
count_success s = record s {
  cur_num = suc s.cur_num;
  cur_fail = 0;
  proxy_unavailable_fail_count = 0;
}

-- What the successful thread commits.
unfoldable pub commit_resources : Text → Text → ℕ → ExecutionState → ExecutionState
commit_resources thread_name status now s =
    if is_empty thread_name
    then s
    else (let caller = named thread_name in
        let joined = (commit_joint_sample caller s).0 in
        let filled = (commit_reverse_fill_sample caller joined).0 in
        let counted = (commit_pending_distribution caller filled).0 in
        increment_thread_success thread_name status now counted)

-- The result: the state, the stop signal, whether the session should stop, and whether the bridge
-- is told to fetch a new proxy.
pub record Success : Type 0 where
  pub state : ExecutionState
  pub stop : Bool
  pub stopped : Bool
  pub refresh_proxy : Bool

abbrev pub signal : Option Bool → Bool
signal none = false
signal (some stopped) = stopped

unfoldable pub record_success : Text → Text → Text → ℕ → Bool → ExecutionState → Success
record_success thread_name status terminal_message now stop s =
    if is_wanted s
    then (let counted = count_success s in
        let committed = commit_resources thread_name status now counted in
        if is_target_reached counted
        then (let (triggered, stop') =
              trigger_target_reached_stop terminal_message (some stop) committed in
            record {
              state = triggered;
              stop = signal stop';
              stopped = true;
              refresh_proxy = s.config.random_proxy_ip_enabled;
            })
        else record {
          state = committed;
          stop = stop;
          stopped = false;
          refresh_proxy = s.config.random_proxy_ip_enabled;
        })
    else record { state = s; stop = true; stopped = true; refresh_proxy = false }

-- ===== src/Engine/Errors.antt =====
-- software/core/engine/runtime_error_handlers.py: what the errors of a round do to the state. Logging
-- is left out; the stop signal is a flag; time is an argument.
pub mod Settled
mod Examples
use survey_controller.Common.{
  ℕ, ℤ, pos, Bool, true, false, Option, none, some, List, [], ◌++◌, Text, text, strip, or_else,
  if◌then◌else◌, is_empty,
}
use survey_controller.Task.Defs.{ExecutionConfig, ExecutionState, named}
use survey_controller.Task.ReverseFill.{release_reverse_fill_sample}
use survey_controller.Task.Joint.{release_joint_sample}
use survey_controller.Task.Progress.{increment_thread_fail}
use survey_controller.Task.Terminal.{mark_terminal_stop}
use survey_controller.Engine.StopPolicy.{
  Failure, FailureReason, fill_failed, proxy_unavailable, submission_verification_required,
  survey_provider_unavailable, reason_value, record_failure, signal,
}

-- What an outcome of a handler is: the state, the stop signal, and whether the session stops.
pub record Handled : Type 0 where
  pub state : ExecutionState
  pub stop : Bool
  pub stopped : Bool

abbrev pub ai_fill_fail_threshold : ℤ
ai_fill_fail_threshold = pos 5

-- An error of the AI: what `is_ai_timeout_runtime_error` says of it, and its text.
pub record AiRuntimeError : Type 0 where
  pub is_timeout : Bool
  pub message : Text

abbrev pub ai_failure : AiRuntimeError → Text → Failure
ai_failure exc thread_name = record {
  thread_name = thread_name;
  failure_reason = fill_failed;
  status_text = if exc.is_timeout then text "AI超时" else text "AI失败";
  log_message =
      (if exc.is_timeout
        then text "AI调用超时，本轮按失败处理；连续达到 5 次才停止："
        else text "AI填空失败，本轮按失败处理；连续达到 5 次才停止：")
      ++ exc.message;
  threshold_override = some ai_fill_fail_threshold;
  terminal_stop_category = text "free_ai_unstable";
  force_stop_when_threshold_reached = true;
  consume_reverse_fill_attempt = false;
  reverse_fill_max_retries = pos 1;
}

abbrev of_result : ExecutionState × Option Bool × Bool → Handled
of_result (s, stop, stopped) = record { state = s; stop = signal stop; stopped = stopped }

unfoldable pub handle_ai_runtime_error : AiRuntimeError → Text → ℕ → Bool → ExecutionState → Handled
handle_ai_runtime_error exc thread_name now stop s =
    of_result (record_failure (ai_failure exc thread_name) now (some stop) s)

abbrev proxy_failure : Text → Failure
proxy_failure thread_name = record {
  thread_name = thread_name;
  failure_reason = proxy_unavailable;
  status_text = text "失败重试";
  log_message = [];
  threshold_override = none;
  terminal_stop_category = text "fail_threshold";
  force_stop_when_threshold_reached = false;
  consume_reverse_fill_attempt = false;
  reverse_fill_max_retries = pos 1;
}

-- The callbacks of `handle_proxy_connection_error`.
pub record ProxyCallbacks : Type 0 where
  pub update_thread_status : Text → Text → ExecutionState → ExecutionState
  pub handle_proxy_unavailable : Bool → Text → Text → Text → ExecutionState → Handled
  pub mark_proxy_temporarily_bad : ExecutionState → Text → ExecutionState

abbrev mark_bad : ProxyCallbacks → Option Text → ExecutionState → ExecutionState
mark_bad k none s = s
mark_bad k (some address) s = if is_empty address then s else k.mark_proxy_temporarily_bad s address

-- `proxy_address` is the session's, `none` without a session.
unfoldable pub handle_proxy_connection_error :
    ProxyCallbacks → Option Text → Text → ℕ → Bool → ExecutionState → Handled
handle_proxy_connection_error k proxy_address thread_name now stop s =
    if stop
    then record { state = s; stop = stop; stopped = true }
    else (let marked = mark_bad k proxy_address s in
        if s.config.random_proxy_ip_enabled
        then k.handle_proxy_unavailable stop thread_name (text "代理不可用") (text "代理连接失败，本轮按失败处理")
            (k.update_thread_status thread_name (text "代理失效，切换中") marked)
        else of_result (record_failure (proxy_failure thread_name) now (some stop) marked))

-- What the last two handlers share: the thread gives back what it holds, and the run stops.
unfoldable pub stop_for : Text → FailureReason → Text → Text → Text → ℕ → ExecutionState → Handled
stop_for category reason message status thread_name now s =
    let unjoined = (release_joint_sample (named thread_name) s).0 in
    let released = (release_reverse_fill_sample (named thread_name) true unjoined).0 in
    record {
      state =
          mark_terminal_stop category (reason_value reason) message false
            (increment_thread_fail thread_name status now released);
      stop = true;
      stopped = true;
    }

unfoldable pub handle_submission_verification_error : Text → Text → ℕ → ExecutionState → Handled
handle_submission_verification_error exc =
    stop_for (text "submission_verification") submission_verification_required
      (or_else (strip exc) (text "提交触发智能验证，请启用随机 IP 后再试")) (text "触发智能验证")

unfoldable pub handle_survey_provider_unavailable_error : Text → Text → ℕ → ExecutionState → Handled
handle_survey_provider_unavailable_error exc =
    stop_for (text "survey_provider_unavailable") survey_provider_unavailable
      (or_else (strip exc) (text "问卷当前不可填写")) (text "问卷不可填写")

-- ===== src/Engine/Session/Failing.antt =====
-- How a session goes on after its submission (software/core/engine/async_runtime_loop.py): a success is
-- counted, and each exception has its handler. The pool of proxies is that of
-- software/network/session_policy.py.
use survey_controller.Common.{
  ℕ, ℤ, pos, Bool, true, false, not, ◌&&◌, ◌||◌, Option, none, some, Text, text, text_eq, ◌==◌,
  contains, filterb, strip, is_nonpositive, if◌then◌else◌, is_empty, ◌++◌,
}
use survey_controller.Task.Defs.{ExecutionState, notify_runtime_change}
use survey_controller.Task.Proxy.{mark_proxy_in_cooldown}
use survey_controller.Task.Progress.{update_thread_step, update_thread_status}
use survey_controller.Task.Terminal.{mark_terminal_stop}
use survey_controller.Engine.StopPolicy.{
  Failure, FailureReason, fill_failed, proxy_unavailable, submission_verification_required,
  reason_value, record_failure, record_success, proxy_unavailable_threshold, signal,
}
use survey_controller.Engine.Errors.{
  Handled, handle_ai_runtime_error, handle_submission_verification_error,
  handle_survey_provider_unavailable_error,
}
use survey_controller.Engine.Round.{release_round_resources}
use survey_controller.Engine.Session.{
  World, Turn, stays, breaks, on_state, RoundError, SubmitOutcome, submitted, raised,
  submit_proxy_unavailable, ai_error, verification_required, provider_unavailable, transport_error,
  other_error, finish,
}

-- The arguments that every call of `record_failure` in the loop shares.
abbrev pub failure_of : Text → FailureReason → Text → Text → Failure
failure_of slot reason status message = record {
  thread_name = slot;
  failure_reason = reason;
  status_text = status;
  log_message = message;
  threshold_override = none;
  terminal_stop_category = text "fail_threshold";
  force_stop_when_threshold_reached = false;
  consume_reverse_fill_attempt = false;
  reverse_fill_max_retries = pos 1;
}

-- `_handle_proxy_unavailable`; `_record_bad_proxy_and_maybe_pause` never pauses.
abbrev pub no_proxy_failure : Text → Text → Text → ExecutionState → Failure
no_proxy_failure slot status message s = record (failure_of slot proxy_unavailable status message) {
  threshold_override = some (pos (proxy_unavailable_threshold s.config));
  terminal_stop_category = text "proxy_unavailable_threshold";
}

-- The state, the scheduled signal and the result of `record_failure` in the world.
abbrev pub fail_round : Failure → ℕ → World → World × Bool
fail_round f now w =
    let (s, scheduled, stopped) = record_failure f now (some w.scheduled) w.state in
    (record w { state = s; scheduled = signal scheduled }, stopped)

-- `if stopped: self.run_context.stop_event.set()`
abbrev pub fail_at_once : Failure → ℕ → World → World × Bool
fail_at_once f now w =
    let (failed, stopped) = fail_round f now w in
    (record failed { stop = w.stop || stopped }, stopped)

-- `if handler(): break`, and the resources go back otherwise
unfoldable pub unless_stopped : Text → World × Bool → Turn
unless_stopped slot (w, true) = breaks w
unless_stopped slot (w, false) = stays (pos 0) (on_state (release_round_resources slot true) w)

abbrev pub of_handled : World → Handled → World × Bool
of_handled w h = (record w { state = h.state; scheduled = h.stop }, h.stopped)

-- `_discard_unresponsive_proxy`: the listeners hear of it when an address was in the pool.
unfoldable pub discard_unresponsive_proxy : Text → World → World
discard_unresponsive_proxy proxy_address w =
    let address = strip proxy_address in
    if is_empty proxy_address then w else record w {
      state = if contains address w.proxy_ip_pool then notify_runtime_change w.state else w.state;
      proxy_ip_pool = filterb (λ lease. not (lease == address)) w.proxy_ip_pool;
    }

-- `_mark_proxy_temporarily_bad`, for 180 seconds
unfoldable pub mark_proxy_temporarily_bad : Text → ℕ → World → World
unfolding discard_unresponsive_proxy
mark_proxy_temporarily_bad proxy_address now w =
    let address = strip proxy_address in
    if is_empty address
    then w
    else discard_unresponsive_proxy address
        (on_state (mark_proxy_in_cooldown address (pos 180000) now) w)

abbrev pub with_address : (Text → World → World) → Option Text → World → World
with_address f none w = w
with_address f (some address) w = if is_empty address then w else f address w

abbrev pub verification_failure : Text → Text → Failure
verification_failure slot exc =
    record (failure_of slot submission_verification_required (text "触发验证，换IP")
      (text "当前随机 IP 触发问卷星智能验证，本轮丢弃并更换 IP：" ++ exc)) {
        terminal_stop_category = text "submission_verification_threshold";
        force_stop_when_threshold_reached = true;
      }

abbrev pub has_address : Option Text → Bool
has_address none = false
has_address (some address) = not (is_empty address)

-- `_handle_submission_verification_error`
unfoldable pub verification_error : Text → Text → ℕ → World → World × Bool
unfolding mark_proxy_temporarily_bad
verification_error slot exc now w =
    if w.state.config.random_proxy_ip_enabled && has_address w.proxy_address
    then fail_at_once (verification_failure slot exc) now
        (with_address (λ address v. mark_proxy_temporarily_bad address now v) w.proxy_address w)
    else of_handled w (handle_submission_verification_error exc slot now w.state)

-- `_handle_http_transport_error`
unfoldable pub http_transport_error : Text → Text → ℕ → World → World × Bool
unfolding discard_unresponsive_proxy
http_transport_error slot exc now w =
    let left = with_address discard_unresponsive_proxy w.proxy_address w in
    fail_at_once
      (no_proxy_failure slot (if has_address w.proxy_address then text "代理连接失败" else text "网络请求失败")
        (text "HTTP 请求失败，本轮按失败处理：" ++ exc) left.state)
      now left

-- `_mark_http_submit_success` with what follows it
unfoldable pub after_success : Text → ℕ → ℤ → World → Turn
unfolding record_success
after_success slot now dispatch_delay w =
    let success = record_success slot (text "提交成功") (text "目标份数已达成") now w.scheduled w.state in
    let after = record w { state = success.state; scheduled = success.stop } in
    if success.stopped
    then breaks after
    else if is_nonpositive dispatch_delay
    then stays dispatch_delay after
    else stays dispatch_delay (
        on_state
          (λ s. update_thread_step slot (pos 0) (pos 0) (some (text "等待提交间隔")) (some true) now s)
          after)

unfoldable pub after_other_error : Text → Text → ℕ → World → Turn
unfolding unless_stopped
after_other_error slot exc now w =
    if w.stop
    then breaks w
    else unless_stopped slot (
        fail_round (failure_of slot fill_failed (text "失败重试") (text "HTTP 提交失败，本轮按失败处理：" ++ exc))
          now w)

-- The handlers of the exceptions, wherever in the round they were raised.
unfoldable pub after_error : Text → RoundError → ℕ → World → Turn
unfolding unless_stopped verification_error http_transport_error after_other_error
after_error slot (submit_proxy_unavailable exc) now w =
    let released = on_state (release_round_resources slot true) w in
    let (after, stopped) =
      fail_at_once
        (no_proxy_failure slot (text "代理获取失败") (text "提交前未获取到随机 IP，本轮跳过提交：" ++ exc) released.state)
        now released in
    if stopped then breaks after else stays (pos 0) after
after_error slot (ai_error exc) now w =
    unless_stopped slot (of_handled w (handle_ai_runtime_error exc slot now w.scheduled w.state))
after_error slot (verification_required exc) now w =
    unless_stopped slot (verification_error slot exc now w)
after_error slot (provider_unavailable exc) now w =
    unless_stopped slot
      (of_handled w (handle_survey_provider_unavailable_error exc slot now w.state))
after_error slot (transport_error exc) now w =
    unless_stopped slot (http_transport_error slot exc now w)
after_error slot (other_error exc) now w = after_other_error slot exc now w

-- `dispatch_delay` is what `_resolve_dispatch_delay_seconds` draws.
unfoldable pub after_submit : Text → SubmitOutcome → ℕ → ℤ → World → Turn
unfolding after_success after_error
after_submit slot (submitted finished) now dispatch_delay w =
    let released = on_state (release_round_resources slot true) w in
    if w.stop
    then breaks released
    else if not finished
    then stays (pos 0) released
    else after_success slot now dispatch_delay w
after_submit slot (raised error) now dispatch_delay w = after_error slot error now w

-- `_block_http_runtime`, with what `_run_http_runtime` does after it
unfoldable pub block_http_runtime : Text → Text → ℕ → World → World
unfolding finish
block_http_runtime slot reason now w =
    let message = if is_empty (strip reason) then text "当前问卷不支持纯 HTTP 提交" else strip reason in
    let told = on_state (update_thread_status slot (text "纯 HTTP 不支持") (some false) now) w in
    let failure = record (failure_of slot fill_failed (text "纯 HTTP 不支持") message) {
      terminal_stop_category = text "http_runtime_only";
      force_stop_when_threshold_reached = true;
    } in
    let (failed, stopped) = fail_round failure now told in
    let marked =
      on_state
        (mark_terminal_stop (text "http_runtime_only") (reason_value fill_failed) message false)
        failed in
    finish slot now (record marked { stop = true })

-- ===== src/Engine/StopPolicy/Failures.antt =====
-- Failures in a row, and when they stop the run.
use survey_controller.Common.{
  ℕ, suc, ◌*◌, ◌≤◌, ◌≡◌, ◌∙◌, ◌⊎◌, ◌↔◌, ap, clamp_1, Bool, true, false, ◌||◌, Option, text, or_else,
  strip, arith, if◌then◌else◌, ltb, max,
}
use survey_controller.Task.Defs.{ExecutionConfig, ExecutionState}
use survey_controller.Task.ReverseFill.{is_reverse_fill_target_unreachable}
use survey_controller.Engine.StopPolicy.{
  Failure, FailureReason, record_failure, give_back, count_failure, decide_failure,
  consecutive_failures, is_proxy_unavailable, stop_threshold, set_stop, fill_failed, reason_value,
  failure_threshold, proxy_unavailable_threshold,
}
use survey_controller.Engine.StopPolicy.Frames.{
  counters, counters-give_back, counters-mark_terminal_stop,
}

-- The threshold for failures is at least 1 and the one that is set. With more than 10 threads it is
-- also at least half of them, and otherwise no more than the one that is set. The threshold for
-- proxies is no lower; with random proxies on it is at least the number of threads.
pub threshold_bounds :
    (config : ExecutionConfig)
    → (1 ≤ failure_threshold config)
      × (clamp_1 config.fail_threshold ≤ failure_threshold config)
      × (clamp_1 config.num_threads ≤ max 10 (2 * failure_threshold config))
      × (failure_threshold config
          ≤ max
              (clamp_1 config.fail_threshold)
              (if ltb 10 (clamp_1 config.num_threads) then clamp_1 config.num_threads else 0))
      × (failure_threshold config ≤ proxy_unavailable_threshold config)
      × ((if config.random_proxy_ip_enabled then clamp_1 config.num_threads else 1)
          ≤ proxy_unavailable_threshold config)
unfolding failure_threshold proxy_unavailable_threshold
threshold_bounds config = ground arith

decide_failure_cases :
    (f : Failure) (consecutive : ℕ) (stop : Option Bool) (s : ExecutionState)
    (config : ExecutionConfig)
    → s.config ≡ config
    → let after = decide_failure f consecutive stop s in
      (counters after.0 ≡ counters s)
      × ((after.2 ≡ true) ↔ (
          (is_reverse_fill_target_unreachable s ≡ true)
          ⊎ (((config.stop_on_fail_enabled || f.force_stop_when_threshold_reached) ≡ true)
              × (stop_threshold f.threshold_override config ≤ consecutive))))
      × (after.1 ≡ (if after.2 then set_stop stop else stop))
unfolding decide_failure
decide_failure_cases f consecutive stop s config h = (
  ground (
    arith,
    counters-mark_terminal_stop (text "reverse_fill_exhausted") (reason_value fill_failed)
        (text "反填样本已耗尽，剩余样本不足以完成目标份数") false s,
    counters-mark_terminal_stop f.terminal_stop_category (reason_value f.failure_reason)
        (or_else (strip f.log_message) f.status_text) false s,
  ),
  (λ e. ground arith, λ e. ground arith),
  ground arith,
)

-- How often the run has failed in a row, this failure included.
abbrev pub streak : FailureReason → ExecutionState → ℕ
streak reason s =
    if is_proxy_unavailable reason then suc s.proxy_unavailable_fail_count else suc s.cur_fail

consecutive-streak :
    (reason : FailureReason) (s : ExecutionState)
    → consecutive_failures reason (count_failure reason s) ≡ streak reason s
unfolding count_failure
consecutive-streak reason s = ground arith

record_failure-decide :
    (f : Failure) (now : ℕ) (stop : Option Bool) (s : ExecutionState)
    → record_failure f now stop s
      ≡ decide_failure f
          (streak f.failure_reason s)
          stop
          (give_back f now (count_failure f.failure_reason s))
unfolding record_failure
record_failure-decide f now stop s =
    ap (λ n. decide_failure f n stop (give_back f now (count_failure f.failure_reason s)))
      (consecutive-streak f.failure_reason s)

-- A failure adds one to its streak and leaves the other streak, the number of copies and the
-- settings as they are. It stops the run exactly if the rows left, after the thread gave back its
-- own, cannot reach the target, or the stop on failures is enabled or forced and the streak has
-- reached the threshold; then, and only then, it sets the stop signal.
pub record_failure_cases :
    (f : Failure) (now : ℕ) (stop : Option Bool) (s : ExecutionState)
    → let after = record_failure f now stop s in
      let returned = give_back f now (count_failure f.failure_reason s) in
      let proxy = is_proxy_unavailable f.failure_reason in
      (counters after.0 ≡ record {
        config = s.config;
        cur_num = s.cur_num;
        cur_fail = if proxy then s.cur_fail else suc s.cur_fail;
        proxy_unavailable_fail_count =
            if proxy then suc s.proxy_unavailable_fail_count else s.proxy_unavailable_fail_count;
      })
      × ((after.2 ≡ true) ↔ (
          (is_reverse_fill_target_unreachable returned ≡ true)
          ⊎ ((s.config.stop_on_fail_enabled || f.force_stop_when_threshold_reached) ≡ true)
            × (stop_threshold f.threshold_override s.config ≤ streak f.failure_reason s)))
      × (after.1 ≡ (if after.2 then set_stop stop else stop))
unfolding count_failure
record_failure_cases f now stop s =
    let counted = count_failure f.failure_reason s in
    let returned = give_back f now counted in
    let same = counters-give_back f now counted in
    let (c, d, e) =
      decide_failure_cases f (streak f.failure_reason s) stop returned s.config
        (ap (λ k. k.config) same) in
    rw (record_failure-decide f now stop s) (c ∙ same, d, e)

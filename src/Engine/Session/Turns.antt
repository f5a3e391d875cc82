-- ===== src/Engine/Session/Turns.antt =====
-- Every turn of a session settles: it rests with nothing in its hands, or the run is stopped.
use survey_controller.Common.{
  ℕ, ℤ, pos, ◌≡◌, ◌∙◌, inl, inr, refl, ap, arith, Bool, true, false, not, ◌&&◌, ◌||◌, Option, none,
  some, Text, text, is_empty, if◌then◌else◌, is_nonpositive, Bool-cases, text_eq, strip, ◌++◌,
}
use survey_controller.Task.Defs.{ExecutionState, named, notify_runtime_change}
use survey_controller.Task.ReverseFill.{release_reverse_fill_sample}
use survey_controller.Task.Joint.{release_joint_sample}
use survey_controller.Task.Progress.{update_thread_step, increment_thread_fail}
use survey_controller.Task.Proxy.{mark_proxy_in_cooldown}
use survey_controller.Engine.StopPolicy.{
  submission_verification_required, survey_provider_unavailable, record_success, is_wanted,
  trigger_target_reached_stop, reason_value, FailureReason,
}
use survey_controller.Engine.StopPolicy.Resources.{tables, tables-fail, HasUniqueHolders}
use survey_controller.Engine.StopPolicy.Settling.{record_failure_frees, record_success_commits}
use survey_controller.Engine.Errors.{
  Handled, AiRuntimeError, handle_ai_runtime_error, stop_for, handle_submission_verification_error,
  handle_survey_provider_unavailable_error, ai_failure,
}
use survey_controller.Engine.Errors.Settled.{ai_error_stops_at_five}
use survey_controller.Engine.Round.{release_round_resources}
use survey_controller.Engine.Round.Holding.{holders_of, release_row_unique}
use survey_controller.Engine.Round.Passes.{tables-mark}
use survey_controller.Engine.Session.{
  World, Turn, stays, breaks, on_state, RoundError, SubmitOutcome, submitted, raised,
  submit_proxy_unavailable, ai_error, verification_required, provider_unavailable, transport_error,
  other_error,
}
use survey_controller.Engine.Session.Failing.{
  unless_stopped, of_handled, after_success, after_submit, after_error, fail_at_once,
  after_other_error, verification_error, http_transport_error, discard_unresponsive_proxy,
  mark_proxy_temporarily_bad, with_address, has_address, verification_failure, no_proxy_failure,
}
use survey_controller.Engine.Session.Unique.{
  release_round_unique, release_sample_unique, record_failure_unique, record_success_unique,
}
use survey_controller.Engine.Session.Empty.{
  HoldsNothing, nothing_of, release_round_empties, Settles, rests, parts, unless_stopped-Settles,
  fail_round-Settles, fail_at_once-Settles, at_once_stops, tables-step, or_right,
}

stop_for_unique :
    (category : Text) (reason : FailureReason) (message status name : Text) (now : ℕ)
    (s : ExecutionState)
    → HasUniqueHolders s
    → HasUniqueHolders (stop_for category reason message status name now s).state
unfolding stop_for
stop_for_unique category reason message status name now s u =
    let c = named name in
    let released = (release_reverse_fill_sample c true (release_joint_sample c s).0).0 in
    holders_of released _
      (tables-mark category (reason_value reason) message
          (increment_thread_fail name status now released)
        ∙ tables-fail name status now released)
      (release_row_unique c true (release_joint_sample c s).0 (release_sample_unique c s u))

tables-discard :
    (address : Text) (w : World)
    → tables (discard_unresponsive_proxy address w).state ≡ tables w.state
unfolding discard_unresponsive_proxy notify_runtime_change
tables-discard address w = ground arith

tables-cooldown :
    (address : Text) (seconds : ℤ) (now : ℕ) (s : ExecutionState)
    → tables (mark_proxy_in_cooldown address seconds now s) ≡ tables s
unfolding mark_proxy_in_cooldown notify_runtime_change
tables-cooldown address seconds now s = ground arith

tables-bad :
    (address : Text) (now : ℕ) (w : World)
    → tables (mark_proxy_temporarily_bad address now w).state ≡ tables w.state
unfolding mark_proxy_temporarily_bad
tables-bad address now w = ground (
  arith,
  tables-discard (strip address)
      (on_state (mark_proxy_in_cooldown (strip address) (pos 180000) now) w),
  tables-cooldown (strip address) (pos 180000) now w.state,
)

with_address_unique :
    (f : Text → World → World) (address : Option Text) (w : World)
    → ((a : Text) → tables (f a w).state ≡ tables w.state)
    → HasUniqueHolders w.state
    → HasUniqueHolders (with_address f address w).state
with_address_unique f none w same u = u
with_address_unique f (some a) w same u = elim (Bool-cases (is_empty a)) [
  | inl e ↦ rw e u
  | inr e ↦ rw e (holders_of w.state _ (same a) u)
]

handled-Settles :
    (slot : Text) (w : World) (h : Handled)
    → HasUniqueHolders h.state
    → (h.stopped ≡ true → h.stop ≡ true)
    → Settles slot (unless_stopped slot (of_handled w h))
handled-Settles slot w h u k =
    unless_stopped-Settles slot (record w { state = h.state; scheduled = h.stop }) h.stopped u
      (λ e. or_right w.stop h.stop (k e))

ai_error-Settles :
    (slot : Text) (exc : AiRuntimeError) (now : ℕ) (w : World)
    → HasUniqueHolders w.state
    → Settles slot (
        unless_stopped slot
          (of_handled w (handle_ai_runtime_error exc slot now w.scheduled w.state)))
unfolding handle_ai_runtime_error
ai_error-Settles slot exc now w u =
    let sets = (ai_error_stops_at_five exc slot now w.scheduled w.state).2 in
    handled-Settles slot w (handle_ai_runtime_error exc slot now w.scheduled w.state)
      (record_failure_unique (ai_failure exc slot) now (some w.scheduled) w.state u)
      (λ h. sets ∙ ap (λ b. if b then true else w.scheduled) h)

pub or_left : (a b : Bool) → a ≡ true → (a || b) ≡ true
or_left a b h = ground arith

either_turn :
    (slot : Text) (b : Bool) (p q : Turn)
    → (b ≡ true → Settles slot p)
    → (b ≡ false → Settles slot q)
    → Settles slot (if b then p else q)
either_turn slot true p q h k = h refl
either_turn slot false p q h k = k refl

either_pair :
    (slot : Text) (b : Bool) (p q : World × Bool)
    → Settles slot (unless_stopped slot p)
    → Settles slot (unless_stopped slot q)
    → Settles slot (unless_stopped slot (if b then p else q))
either_pair slot true p q h k = h
either_pair slot false p q h k = k

not_verified :
    (slot exc : Text) (now : ℕ) (w : World)
    → HasUniqueHolders w.state
    → Settles slot (
        unless_stopped slot
          (of_handled w (handle_submission_verification_error exc slot now w.state)))
unfolding handle_submission_verification_error stop_for
not_verified slot exc now w u =
    handled-Settles slot w (handle_submission_verification_error exc slot now w.state)
      (stop_for_unique _ submission_verification_required _ _ slot now w.state u) (λ h. refl)

unavailable :
    (slot exc : Text) (now : ℕ) (w : World)
    → HasUniqueHolders w.state
    → Settles slot (
        unless_stopped slot
          (of_handled w (handle_survey_provider_unavailable_error exc slot now w.state)))
unfolding handle_survey_provider_unavailable_error stop_for
unavailable slot exc now w u =
    handled-Settles slot w (handle_survey_provider_unavailable_error exc slot now w.state)
      (stop_for_unique _ survey_provider_unavailable _ _ slot now w.state u) (λ h. refl)

verification_error-Settles :
    (slot exc : Text) (now : ℕ) (w : World)
    → HasUniqueHolders w.state
    → Settles slot (unless_stopped slot (verification_error slot exc now w))
unfolding verification_error
verification_error-Settles slot exc now w u =
    let marked =
      with_address (λ address v. mark_proxy_temporarily_bad address now v) w.proxy_address w in
    either_pair slot (w.state.config.random_proxy_ip_enabled && has_address w.proxy_address)
      (fail_at_once (verification_failure slot exc) now marked)
      (of_handled w (handle_submission_verification_error exc slot now w.state))
      (fail_at_once-Settles slot (verification_failure slot exc) now marked
        (with_address_unique _ w.proxy_address w (λ a. tables-bad a now w) u))
      (not_verified slot exc now w u)

transport_error-Settles :
    (slot exc : Text) (now : ℕ) (w : World)
    → HasUniqueHolders w.state
    → Settles slot (unless_stopped slot (http_transport_error slot exc now w))
unfolding http_transport_error
transport_error-Settles slot exc now w u =
    let left = with_address discard_unresponsive_proxy w.proxy_address w in
    fail_at_once-Settles slot _ now left
      (with_address_unique discard_unresponsive_proxy w.proxy_address w (λ a. tables-discard a w) u)

other_error-Settles :
    (slot exc : Text) (now : ℕ) (w : World)
    → HasUniqueHolders w.state
    → Settles slot (after_other_error slot exc now w)
unfolding after_other_error
other_error-Settles slot exc now w u =
    either_turn slot w.stop _ _ (λ e. parts w u (or_left w.stop w.scheduled e))
      (λ e. fail_round-Settles slot _ now w u)

success_stops :
    (slot : Text) (now : ℕ) (w : World)
    → (record_success slot (text "提交成功") (text "目标份数已达成") now w.scheduled w.state).stopped ≡ true
    → (record_success slot (text "提交成功") (text "目标份数已达成") now w.scheduled w.state).stop ≡ true
unfolding record_success trigger_target_reached_stop
success_stops slot now w h = ground arith

success_counts :
    (slot : Text) (now : ℕ) (w : World)
    → (record_success slot (text "提交成功") (text "目标份数已达成") now w.scheduled w.state).stopped ≡ false
    → is_wanted w.state ≡ true
unfolding record_success
success_counts slot now w h = ground arith

success_empties :
    (slot : Text) (now : ℕ) (w : World)
    → HasUniqueHolders w.state
    → is_empty slot ≡ false
    → (record_success slot (text "提交成功") (text "目标份数已达成") now w.scheduled w.state).stopped ≡ false
    → HoldsNothing slot
        (record_success slot (text "提交成功") (text "目标份数已达成") now w.scheduled w.state).state
success_empties slot now w u named_slot h =
    let (sample, row, _, _) =
      record_success_commits slot (text "提交成功") (text "目标份数已达成") now w.scheduled w.state u
        named_slot (success_counts slot now w h) in
    (sample, row)

no_proxy-Settles :
    (slot exc : Text) (now : ℕ) (w : World)
    → HasUniqueHolders w.state
    → is_empty slot ≡ false
    → Settles slot (after_error slot (submit_proxy_unavailable exc) now w)
unfolding after_error
no_proxy-Settles slot exc now w u named_slot =
    let released = on_state (release_round_resources slot true) w in
    let f =
      no_proxy_failure slot (text "代理获取失败") (text "提交前未获取到随机 IP，本轮跳过提交：" ++ exc) released.state in
    let v = release_round_unique slot w.state u in
    let after = fail_at_once f now released in
    let after_unique = record_failure_unique f now (some w.scheduled) released.state v in
    either_turn slot after.1 (breaks after.0) (stays (pos 0) after.0)
      (λ e. parts after.0 after_unique (at_once_stops w.stop after.1 _ e))
      (λ e.
        rests after.0 (pos 0) after_unique
          (record_failure_frees f now (some w.scheduled) released.state v named_slot))

success-Settles :
    (slot : Text) (now : ℕ) (dispatch_delay : ℤ) (w : World)
    → HasUniqueHolders w.state
    → is_empty slot ≡ false
    → Settles slot (after_success slot now dispatch_delay w)
unfolding after_success
success-Settles slot now dispatch_delay w u named_slot =
    let success = record_success slot (text "提交成功") (text "目标份数已达成") now w.scheduled w.state in
    let after = record w { state = success.state; scheduled = success.stop } in
    let v = record_success_unique slot (text "提交成功") (text "目标份数已达成") now w.scheduled w.state u in
    let told =
      on_state
        (λ s. update_thread_step slot (pos 0) (pos 0) (some (text "等待提交间隔")) (some true) now s)
        after in
    let same =
      tables-step slot (pos 0) (pos 0) (some (text "等待提交间隔")) (some true) now success.state in
    either_turn slot success.stopped (breaks after) _
      (λ e. parts after v (or_right w.stop _ (success_stops slot now w e)))
      (λ e.
        let empty = success_empties slot now w u named_slot e in
        either_turn slot (is_nonpositive dispatch_delay) (stays dispatch_delay after)
          (stays dispatch_delay told) (λ _. rests after dispatch_delay v empty)
          (λ _.
            rests told dispatch_delay (holders_of success.state told.state same v)
              (nothing_of slot success.state told.state same empty)))

-- The turn of an exception settles, wherever in the round it was raised.
pub after_error-Settles :
    (slot : Text) (error : RoundError) (now : ℕ) (w : World)
    → HasUniqueHolders w.state
    → is_empty slot ≡ false
    → Settles slot (after_error slot error now w)
unfolding after_error
after_error-Settles slot (submit_proxy_unavailable exc) now w u named_slot =
    no_proxy-Settles slot exc now w u named_slot
after_error-Settles slot (ai_error exc) now w u named_slot = ai_error-Settles slot exc now w u
after_error-Settles slot (verification_required exc) now w u named_slot =
    verification_error-Settles slot exc now w u
after_error-Settles slot (provider_unavailable exc) now w u named_slot =
    unavailable slot exc now w u
after_error-Settles slot (transport_error exc) now w u named_slot =
    transport_error-Settles slot exc now w u
after_error-Settles slot (other_error exc) now w u named_slot = other_error-Settles slot exc now w u

-- The submission's turn settles, whatever its outcome.
pub after_submit-Settles :
    (slot : Text) (outcome : SubmitOutcome) (now : ℕ) (dispatch_delay : ℤ) (w : World)
    → HasUniqueHolders w.state
    → is_empty slot ≡ false
    → Settles slot (after_submit slot outcome now dispatch_delay w)
unfolding after_submit
after_submit-Settles slot (submitted finished) now delay w u named_slot =
    let released = on_state (release_round_resources slot true) w in
    let v = release_round_unique slot w.state u in
    either_turn slot w.stop (breaks released) _
      (λ e. parts released v (or_left w.stop w.scheduled e))
      (λ e.
        either_turn slot (not finished) (stays (pos 0) released) _
          (λ _. rests released (pos 0) v (release_round_empties slot w.state u))
          (λ _. success-Settles slot now delay w u named_slot))
after_submit-Settles slot (raised error) now delay w u named_slot =
    after_error-Settles slot error now w u named_slot

-- ===== src/Engine/Session.antt =====
-- software/core/engine/async_runtime_loop.py: the loop of one session (`AsyncSlotRunner`), cut at the
-- points where it waits. What it waits for (the submission, the choice of a user agent) is an outcome
-- that the step is given; the loop's own code between two waits is a function on the session's world.
-- A call of `set()` on the session's `stop_proxy` (software/core/engine/async_events.py) only schedules
-- the stop signal: the code that runs before the event loop has its turn still finds it unset.
-- Logging and the report of results to the service are left out; times are in milliseconds.

pub mod Failing
pub mod Unique
pub mod Steps
pub mod Empty
pub mod Turns
pub mod Sound
pub mod Ends
mod Examples
use survey_controller.Common.{
  ℕ, zero, suc, ℤ, pos, max, Bool, true, false, not, ◌&&◌, ◌||◌, Option, none, some, List, [], ◌∷◌,
  Text, text, text_eq, ◌==◌, contains, is_some, filterb, strip, or_else, if◌then◌else◌, is_empty,
  ◌++◌,
}
use survey_controller.Common.Decimal.{decimal}
use survey_controller.Task.Defs.{ExecutionState, named, notify_runtime_change}
use survey_controller.Task.Joint.{release_joint_sample, mark_joint_sample_answering}
use survey_controller.Task.ReverseFill.{release_reverse_fill_sample}
use survey_controller.Task.Progress.{update_thread_step, mark_thread_finished}
use survey_controller.Task.Terminal.{get_terminal_stop_snapshot}
use survey_controller.Task.Proxy.{mark_proxy_in_cooldown, release_proxy_in_use}
use survey_controller.Engine.StopPolicy.{is_target_reached, trigger_target_reached_stop, signal}
use survey_controller.Engine.Scheduler.{AsyncScheduler, release}
use survey_controller.Engine.Errors.{AiRuntimeError}
use survey_controller.Engine.Round.{
  requires_joint_sample, release_round_resources, after_pre_answer_step,
}

-- The name of a session's thread.
unfoldable pub slot_label : ℕ → Text
slot_label slot_id = text "Slot-" ++ decimal (max 1 slot_id)

-- What a session works on: the state and the stop signal of the run, whether the event loop still has to
-- set that signal, the scheduler, the addresses in the run's proxy pool (`config.proxy_ip_pool`), and
-- the address that the session submits by.
pub record World : Type 0 where
  pub state : ExecutionState
  pub stop : Bool
  pub scheduled : Bool
  pub scheduler : AsyncScheduler
  pub proxy_ip_pool : List Text
  pub proxy_address : Option Text

-- How the code after a wait goes on: the world, whether the session leaves its loop, and the delay after
-- which its token is ready again.
pub record Turn : Type 0 where
  pub world : World
  pub leaves : Bool
  pub delay : ℤ

abbrev pub stays : ℤ → World → Turn
stays delay w = record { world = w; leaves = false; delay = delay }

abbrev pub breaks : World → Turn
breaks w = record { world = w; leaves = true; delay = pos 0 }

abbrev pub on_state : (ExecutionState → ExecutionState) → World → World
on_state f w = record w { state = f w.state }

-- The event loop sets the signal that `stop_proxy` has scheduled.
unfoldable pub land : World → World
land w = record w { stop = w.stop || w.scheduled; scheduled = false }

-- `_should_stop_loop`, after the pause: the world, and whether the session leaves its loop.
unfoldable pub stop_check : World → World × Bool
stop_check w =
    if w.stop
    then (w, true)
    else if is_target_reached w.state
    then (let (t, scheduled) =
          trigger_target_reached_stop (text "目标份数已达成") (some w.scheduled) w.state in
        (record w { state = t; scheduled = signal scheduled }, true))
    else (w, false)

-- `JOINT_PRE_ANSWER_ATTEMPT_REQUEUE_DELAY_SECONDS`
abbrev pub requeue_delay : ℤ
requeue_delay = pos 200

-- `_resolve_finished_status_text`
unfoldable pub finished_status_text : Bool → ExecutionState → Text
unfolding get_terminal_stop_snapshot
finished_status_text stop s =
    if stop && strip ((get_terminal_stop_snapshot s).0) == text "target_reached"
    then text "已完成"
    else text "已停止"

-- What stands after the loop.
unfoldable pub finish : Text → ℕ → World → World
unfolding finished_status_text
finish slot now w =
    on_state
      (λ s.
        let unjoined = (release_joint_sample (named slot) s).0 in
        let released = (release_reverse_fill_sample (named slot) true unjoined).0 in
        mark_thread_finished slot (finished_status_text w.stop released) now released)
      w

-- The `finally` of a round: the proxy goes back, and the token to the scheduler.
unfoldable pub close_round : Text → ℕ → ℕ → Turn → World
close_round slot token_id now turn =
    let w = turn.world in
    record w {
      state = elim w.proxy_address [
        | none ↦ w.state
        | some address ↦ if is_empty slot then w.state else (release_proxy_in_use slot w.state).0
      ];
      proxy_address = none;
      scheduler = release token_id (not turn.leaves && not w.stop) turn.delay now w.scheduler;
    }

-- After the session has chosen its user agent, in time or not: it goes on to the submission (`none`),
-- or its turn is over.
unfoldable pub after_selection : Text → Option ℤ → Bool → World → World × Option Turn
after_selection slot plan_count in_time w =
    let (leased, goes_on) = after_pre_answer_step slot in_time w.state in
    let (marked, answering) = mark_joint_sample_answering (named slot) leased in
    if not goes_on
    then (w, some (stays requeue_delay (record w { state = leased })))
    else if w.stop
    then (w, some (breaks (record w { state = leased })))
    else if requires_joint_sample plan_count w.state.config && not answering
    then (
      w,
      some (stays requeue_delay (record w { state = release_round_resources slot true marked })),
    )
    else (record w { state = marked }, none)

-- The exceptions that a round may end with: one for each handler of the loop.
pub data RoundError : Type 0 where
  submit_proxy_unavailable : (exc : Text) → RoundError
  ai_error : (exc : AiRuntimeError) → RoundError
  verification_required : (exc : Text) → RoundError
  provider_unavailable : (exc : Text) → RoundError
  transport_error : (exc : Text) → RoundError
  other_error : (exc : Text) → RoundError

-- How the submission ends: with its result, or with an exception.
pub data SubmitOutcome : Type 0 where
  submitted : (finished : Bool) → SubmitOutcome
  raised : (error : RoundError) → SubmitOutcome

-- ===== src/Engine/Session/Steps.antt =====
-- The session as a machine (software/core/engine/async_runtime_loop.py): where it waits, and what each
-- thing that it waits for makes it do. What the other sessions of the run do to the same state and
-- scheduler while it waits is not part of a step: a step starts from any world.
use survey_controller.Common.{
  ℕ, ℤ, pos, Bool, true, Option, none, some, Text, text, strip, is_empty, if◌then◌else◌, text_eq,
}
use survey_controller.Task.Progress.{update_thread_step}
use survey_controller.Engine.Scheduler.{Acquired, refused, token, waits, acquire}
use survey_controller.Engine.Round.{
  Pass, ready, leaves, again, sample_count, reserve_resources, begin_round,
}
use survey_controller.Engine.Session.{
  World, Turn, breaks, on_state, land, stop_check, RoundError, SubmitOutcome, finish, close_round,
  after_selection,
}
use survey_controller.Engine.Session.Failing.{after_submit, after_error}

-- Between two rounds; waiting for a token; with a token in a round: while the resources are reserved,
-- while the user agent is chosen, and while the answers are submitted; before the code after the loop;
-- and at the end.
pub data Point : Type 0 where
  resting : Point
  dispatching : Point
  preparing : (token_id : ℕ) → Point
  selecting : (token_id : ℕ) → Point
  submitting : (token_id : ℕ) → Point
  ending : Point
  finished : Point

-- What the session waits for. The event loop may set a scheduled stop signal at every wait (`lands`).
pub data SessionEvent : Type 0 where
  lands : SessionEvent
  loops : (now : ℕ) → SessionEvent
  dispatched : (now : ℕ) → SessionEvent
  passes : (now : ℕ) → SessionEvent
  selected : (in_time : Bool) (now : ℕ) → SessionEvent
  fails : (error : RoundError) (now : ℕ) → SessionEvent
  submits : (outcome : SubmitOutcome) (proxy : Text) (now : ℕ) (dispatch_delay : ℤ) → SessionEvent
  ends : (now : ℕ) → SessionEvent

pub record Session : Type 0 where
  pub point : Point
  pub world : World

abbrev pub at : Point → World → Session
at point w = record { point = point; world = w }

-- The end of a turn: the `finally`, and then the next round or the code after the loop.
unfoldable pub end_turn : Text → ℕ → ℕ → Turn → Session
unfolding close_round
end_turn slot token_id now turn =
    let closed = close_round slot token_id now turn in
    if turn.leaves then at ending closed else at resting closed

-- `_should_stop_loop` at the head of the loop
unfoldable pub loop_head : World → Session
unfolding stop_check
loop_head w =
    let (checked, stops) = stop_check w in
    if stops then at ending checked else at dispatching checked

unfoldable pub on_token : Text → ℕ → Acquired → World → Session
on_token slot now refused w = at ending w
on_token slot now waits w = at dispatching w
on_token slot now (token token_id) w = at (preparing token_id) (
    on_state
      (λ s.
        begin_round slot
          (update_thread_step slot (pos 1) (pos 4) (some (text "准备请求")) (some true) now s))
      w)

unfoldable pub on_pass : Text → ℕ → ℕ → Pass → World → Session
unfolding end_turn
on_pass slot token_id now ready w = at (selecting token_id) w
on_pass slot token_id now leaves w = end_turn slot token_id now (breaks w)
on_pass slot token_id now again w = at (preparing token_id) w

-- A pass over the resources of the round; it sets the stop signal itself, at once.
unfoldable pub make_pass : Text → ℤ → ℕ → ℕ → World → Session
unfolding stop_check on_pass
make_pass slot n token_id now w =
    let (checked, stops) = stop_check w in
    let pass = reserve_resources slot n now checked.stop checked.state in
    if stops
    then on_pass slot token_id now leaves checked
    else on_pass slot token_id now pass.pass
        (record checked { state = pass.state; stop = pass.stop })

unfoldable pub on_selection : Text → ℕ → ℕ → World × Option Turn → Session
unfolding end_turn
on_selection slot token_id now (w, none) = at (submitting token_id) w
on_selection slot token_id now (w, some turn) = end_turn slot token_id now turn

-- `set_current_submit_proxy`
abbrev pub proxy_of : Text → Option Text
proxy_of proxy = if is_empty (strip proxy) then none else some (strip proxy)

-- What an event makes of the session; one that it does not wait for is nothing to it. With the event of a
-- submission comes the address that the session got for it. An exception (`fails`) may come while the
-- resources are reserved and while the user agent is chosen.
unfoldable pub react : Text → Option ℤ → SessionEvent → Point → World → Session
unfolding land loop_head on_token make_pass on_selection end_turn after_selection after_submit
    after_error finish
react slot plan_count lands point w = at point (land w)
react slot plan_count (loops now) resting w = loop_head w
react slot plan_count (dispatched now) dispatching w =
    let (scheduler, got) = acquire w.scheduler in
    on_token slot now got (record w { scheduler = scheduler })
react slot plan_count (passes now) (preparing token_id) w =
    make_pass slot (sample_count plan_count w.state.config) token_id now w
react slot plan_count (fails error now) (preparing token_id) w =
    end_turn slot token_id now (after_error slot error now w)
react slot plan_count (selected in_time now) (selecting token_id) w =
    on_selection slot token_id now (after_selection slot plan_count in_time w)
react slot plan_count (fails error now) (selecting token_id) w =
    end_turn slot token_id now (after_error slot error now w)
react slot plan_count (submits outcome proxy now dispatch_delay) (submitting token_id) w =
    end_turn slot token_id now
      (after_submit slot outcome now dispatch_delay (record w { proxy_address = proxy_of proxy }))
react slot plan_count (ends now) ending w = at finished (finish slot now w)
react slot plan_count _ point w = at point w

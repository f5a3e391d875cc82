-- ===== src/Engine/Session/Ends.antt =====
-- A session holds nothing between its rounds, and ends with nothing and only in a run that is over: every
-- step of its loop (software/core/engine/async_runtime_loop.py) keeps this.
use survey_controller.Common.{
  ℕ, ℤ, ◌≡◌, inl, inr, refl, arith, Bool, true, false, not, ◌&&◌, ◌||◌, Option, Text, is_empty,
  if◌then◌else◌, Bool-cases, Option-cases, text_eq,
}
use survey_controller.Task.Defs.{ExecutionState, named}
use survey_controller.Task.Joint.{mark_joint_sample_answering, peek_reserved_joint_sample}
use survey_controller.Engine.StopPolicy.Resources.{HasUniqueHolders}
use survey_controller.Engine.Scheduler.{acquire}
use survey_controller.Engine.Round.{
  sample_count, requires_joint_sample, after_pre_answer_step, release_round_resources,
}
use survey_controller.Engine.Round.Holding.{holders_of}
use survey_controller.Engine.Session.{
  slot_label, World, Turn, stays, breaks, after_selection, requeue_delay, land,
}
use survey_controller.Engine.Session.Failing.{after_submit, after_error}
use survey_controller.Engine.Session.Unique.{release_round_unique}
use survey_controller.Engine.Session.Unique.Passes.{after_pre_answer_unique, tables-answering}
use survey_controller.Engine.Session.Empty.{HoldsNothing, release_round_empties, rests, parts}
use survey_controller.Engine.Session.Turns.{after_submit-Settles, after_error-Settles, or_left}
use survey_controller.Engine.Session.Steps.{
  Point, resting, dispatching, preparing, selecting, submitting, ending, finished, SessionEvent,
  lands, loops, dispatched, passes, selected, fails, submits, ends, at, on_selection, proxy_of,
  react,
}
use survey_controller.Engine.Session.Sound.{
  AtRest, Sound, is_over, finish-Sound, end_turn-Sound, loop_head-Sound, on_token-Sound,
  make_pass-Sound, acquire_refused,
}

landed-over :
    (w : World)
    → is_over w ≡ true
    → (((w.stop || w.scheduled) || false) || w.scheduler.closed) ≡ true
landed-over w h = ground arith

either_selection :
    (slot : Text) (i now : ℕ) (b : Bool) (p q : World × Option Turn)
    → (b ≡ true → Sound slot (on_selection slot i now p))
    → (b ≡ false → Sound slot (on_selection slot i now q))
    → Sound slot (on_selection slot i now (if b then p else q))
either_selection slot i now true p q h k = h refl
either_selection slot i now false p q h k = k refl

-- A step that was not over in time gives everything back.
given_up :
    (slot : Text) (in_time : Bool) (s : ExecutionState)
    → HasUniqueHolders s
    → not (after_pre_answer_step slot in_time s).1 ≡ true
    → HoldsNothing slot (after_pre_answer_step slot in_time s).0
unfolding after_pre_answer_step
given_up slot in_time s u h = elim (Option-cases (peek_reserved_joint_sample (named slot) s)) [
  | inl e ↦ absurd (ground arith)
  | inr (i, e) ↦ elim (Bool-cases in_time) [
    | inl t ↦ absurd (ground arith)
    | inr t ↦ rw (after_pre_answer_step, e, t) (release_round_empties slot s u)
  ]
]

selection-Sound :
    (slot : Text) (plan_count : Option ℤ) (i now : ℕ) (in_time : Bool) (w : World)
    → HasUniqueHolders w.state
    → Sound slot (on_selection slot i now (after_selection slot plan_count in_time w))
unfolding after_selection on_selection
selection-Sound slot plan_count i now in_time w u =
    let (leased, goes_on) = after_pre_answer_step slot in_time w.state in
    let v = after_pre_answer_unique slot in_time w.state u in
    let (marked, answering) = mark_joint_sample_answering (named slot) leased in
    let same = tables-answering (named slot) leased in
    let m = holders_of leased marked same v in
    let on_leased = record w { state = leased } in
    let returned = record w { state = release_round_resources slot true marked } in
    either_selection slot i now (not goes_on) _ _
      (λ e.
        end_turn-Sound slot i now (stays requeue_delay on_leased)
          (rests on_leased requeue_delay v (given_up slot in_time w.state u e)))
      (λ _.
        either_selection slot i now w.stop _ _
          (λ e.
            end_turn-Sound slot i now (breaks on_leased)
              (parts on_leased v (or_left w.stop w.scheduled e)))
          (λ _.
            either_selection slot i now
              (requires_joint_sample plan_count w.state.config && not answering) _ _
              (λ _. end_turn-Sound slot i now (stays requeue_delay returned) (
                rests returned requeue_delay (release_round_unique slot marked m)
                  (release_round_empties slot marked m)))
              (λ _. record { unique = m; rest = tt })))

lands-Sound :
    (slot : Text) (point : Point) (w : World)
    → Sound slot (at point w)
    → Sound slot (at point (land w))
unfolding land
lands-Sound slot resting w sound = record { unique = sound.unique; rest = sound.rest }
lands-Sound slot dispatching w sound = record { unique = sound.unique; rest = sound.rest }
lands-Sound slot ending w sound = record { unique = sound.unique; rest = landed-over w sound.rest }
lands-Sound slot finished w sound = record {
  unique = sound.unique;
  rest = (sound.rest.0, landed-over w sound.rest.1);
}
lands-Sound slot (preparing i) w sound = record { unique = sound.unique; rest = tt }
lands-Sound slot (selecting i) w sound = record { unique = sound.unique; rest = tt }
lands-Sound slot (submitting i) w sound = record { unique = sound.unique; rest = tt }

react-Sound :
    (slot : Text) (plan_count : Option ℤ) (event : SessionEvent) (point : Point) (w : World)
    → is_empty slot ≡ false
    → Sound slot (at point w)
    → Sound slot (react slot plan_count event point w)
unfolding react
react-Sound slot plan_count lands point w named_slot sound = lands-Sound slot point w sound
react-Sound slot plan_count (loops now) resting w named_slot sound =
    loop_head-Sound slot w sound.unique sound.rest
react-Sound slot plan_count (dispatched now) dispatching w named_slot sound =
    let (scheduler, got) = acquire w.scheduler in
    on_token-Sound slot now got (record w { scheduler = scheduler }) sound.unique sound.rest
      (acquire_refused w.scheduler)
react-Sound slot plan_count (passes now) (preparing i) w named_slot sound =
    make_pass-Sound slot (sample_count plan_count w.state.config) i now w sound.unique
react-Sound slot plan_count (fails error now) (preparing i) w named_slot sound =
    end_turn-Sound slot i now (after_error slot error now w)
      (after_error-Settles slot error now w sound.unique named_slot)
react-Sound slot plan_count (selected in_time now) (selecting i) w named_slot sound =
    selection-Sound slot plan_count i now in_time w sound.unique
react-Sound slot plan_count (fails error now) (selecting i) w named_slot sound =
    end_turn-Sound slot i now (after_error slot error now w)
      (after_error-Settles slot error now w sound.unique named_slot)
react-Sound slot plan_count (submits outcome proxy now delay) (submitting i) w named_slot sound =
    let submitting_by = record w { proxy_address = proxy_of proxy } in
    end_turn-Sound slot i now (after_submit slot outcome now delay submitting_by)
      (after_submit-Settles slot outcome now delay submitting_by sound.unique named_slot)
react-Sound slot plan_count (ends now) ending w named_slot sound =
    finish-Sound slot now w sound.unique sound.rest
react-Sound slot plan_count _ point w named_slot sound = sound

-- A step of a session: from wherever it waits, whatever it waits for turns out to be (exceptions
-- included), and whatever the world is then, as long as no thread name stands twice in a table, the
-- session holds neither a joint sample nor a row if it is between two rounds, waits for a token or has
-- ended, and the run is over for it if it has left its loop: all of this holds again after the step. The
-- run is over for a session when the stop signal is set or scheduled, or the scheduler is closed.
pub session-AtRest :
    (slot_id : ℕ) (plan_count : Option ℤ) (event : SessionEvent) (point : Point) (w : World)
    → HasUniqueHolders w.state
    → AtRest (slot_label slot_id) point w
    → let after = react (slot_label slot_id) plan_count event point w in
      HasUniqueHolders after.world.state × AtRest (slot_label slot_id) after.point after.world
unfolding slot_label
session-AtRest slot_id plan_count event point w u rest =
    let sound =
      react-Sound (slot_label slot_id) plan_count event point w refl
        (record { unique = u; rest = rest }) in
    (sound.unique, sound.rest)

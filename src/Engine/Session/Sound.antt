-- ===== src/Engine/Session/Sound.antt =====
-- A session that is at rest holds nothing: the parts of its loop that keep it so.
use survey_controller.Common.{
  ℕ, ℤ, pos, ◌≡◌, refl, arith, Bool, true, false, not, ◌&&◌, ◌||◌, Option, none, some, Text, text,
  if◌then◌else◌, text_eq, is_some, nat_beq, clamp_0,
}
use survey_controller.Task.Defs.{
  ExecutionState, named, thread_key, notify_runtime_change, AcquireStatus, acquired, disabled,
  exhausted,
}
use survey_controller.Task.Defs as Defs
use survey_controller.Task.Joint.{reserve_joint_sample, expire_stale_joint_sample_reservations}
use survey_controller.Task.ReverseFill.{acquire_reverse_fill_sample}
use survey_controller.Task.Progress.{update_thread_step}
use survey_controller.Task.Distribution.{reset_pending_distribution}
use survey_controller.Task.Proxy.{release_proxy_in_use}
use survey_controller.Engine.StopPolicy.{trigger_target_reached_stop}
use survey_controller.Engine.StopPolicy.Resources.{tables, HasUniqueHolders}
use survey_controller.Engine.StopPolicy.Settling.{tables-trigger}
use survey_controller.Engine.Scheduler.{AsyncScheduler, Acquired, refused, token, waits, acquire}
use survey_controller.Engine.Round.{
  Pass, ready, leaves, again, Prepared, lease, reserve_resources, without_sample, with_sample,
  begin_round,
}
use survey_controller.Engine.Round.Holding.{holders_of}
use survey_controller.Engine.Session.{World, Turn, stays, breaks, finish, close_round, stop_check}
use survey_controller.Engine.Session.Unique.Passes.{reserve_resources_unique}
use survey_controller.Engine.Session.Empty.{
  HoldsNothing, nothing_of, Settles, rests, parts, is_stopping, finish_empties, tables-step,
}
use survey_controller.Engine.Session.Steps.{
  Point, resting, dispatching, preparing, selecting, submitting, ending, finished, Session, at,
  end_turn, make_pass, loop_head, on_token, on_pass,
}

-- The run is over for a session: the stop signal is set or about to be, or the scheduler is closed.
abbrev pub is_over : World → Bool
is_over w = is_stopping w || w.scheduler.closed

-- Between two rounds, waiting for a token and at the end the session holds neither a joint sample nor a
-- row; from the end of its loop on the run is over for it.
abbrev pub AtRest : Text → Point → World → Type 0
AtRest slot resting w = HoldsNothing slot w.state
AtRest slot dispatching w = HoldsNothing slot w.state
AtRest slot ending w = is_over w ≡ true
AtRest slot finished w = HoldsNothing slot w.state × (is_over w ≡ true)
AtRest slot (preparing i) w = Unit
AtRest slot (selecting i) w = Unit
AtRest slot (submitting i) w = Unit

pub record Sound (slot : Text) (session : Session) : Type 0 where
  pub unique : HasUniqueHolders session.world.state
  pub rest : AtRest slot session.point session.world

pub finish-Sound :
    (slot : Text) (now : ℕ) (w : World)
    → HasUniqueHolders w.state
    → is_over w ≡ true
    → Sound slot (at finished (finish slot now w))
unfolding finish
finish-Sound slot now w u over =
    let (v, empty) = finish_empties slot now w u in record { unique = v; rest = (empty, over) }

stopping-over : (w : World) → is_stopping w ≡ true → is_over w ≡ true
stopping-over w h = ground arith

tables-proxy :
    (slot : Text) (s : ExecutionState) → tables (release_proxy_in_use slot s).0 ≡ tables s
unfolding release_proxy_in_use notify_runtime_change
tables-proxy slot s = ground arith

tables-close :
    (slot : Text) (i now : ℕ) (turn : Turn)
    → tables (close_round slot i now turn).state ≡ tables turn.world.state
unfolding close_round
tables-close slot i now turn = ground (arith, tables-proxy slot turn.world.state)

stop_kept :
    (slot : Text) (i now : ℕ) (w : World)
    → is_stopping w ≡ true
    → is_stopping (close_round slot i now (breaks w)) ≡ true
unfolding close_round
stop_kept slot i now w h = h

pub end_turn-Sound :
    (slot : Text) (i now : ℕ) (turn : Turn)
    → Settles slot turn
    → Sound slot (end_turn slot i now turn)
unfolding end_turn
end_turn-Sound slot i now turn (rests w delay u empty) =
    let e = tables-close slot i now (stays delay w) in
    let after = (close_round slot i now (stays delay w)).state in
    record { unique = holders_of w.state after e u; rest = nothing_of slot w.state after e empty }
end_turn-Sound slot i now turn (parts w u stop) = record {
  unique = holders_of w.state _ (tables-close slot i now (breaks w)) u;
  rest = stopping-over (close_round slot i now (breaks w)) (stop_kept slot i now w stop);
}

tables-check : (w : World) → tables (stop_check w).0.state ≡ tables w.state
unfolding stop_check
tables-check w = ground (arith, tables-trigger (text "目标份数已达成") (some w.scheduled) w.state)

check_stops : (w : World) → (stop_check w).1 ≡ true → is_stopping (stop_check w).0 ≡ true
unfolding stop_check trigger_target_reached_stop
check_stops w h = ground arith

-- What a reservation or a pass says of the signal when the session leaves.
without_sample_leaves :
    (slot : Text) (n : ℤ) (status : AcquireStatus) (now : ℕ) (stop : Bool) (s : ExecutionState)
    → (without_sample slot n status now stop s).pass ≡ leaves
    → (without_sample slot n status now stop s).stop ≡ true
unfolding without_sample
without_sample_leaves slot n status now stop s h = ground arith

with_sample_leaves :
    (slot : Text) (sample : Option ℕ) (status : AcquireStatus) (now : ℕ) (stop : Bool)
    (s : ExecutionState)
    → (with_sample slot sample status now stop s).pass ≡ leaves
    → (with_sample slot sample status now stop s).stop ≡ true
unfolding with_sample
with_sample_leaves slot sample acquired now stop s h = ground arith
with_sample_leaves slot sample disabled now stop s h = ground arith
with_sample_leaves slot sample exhausted now stop s h = refl
with_sample_leaves slot sample Defs.waiting now stop s h = ground arith

either_leaves :
    (b : Bool) (p q : Prepared)
    → (b ≡ true → p.pass ≡ leaves → p.stop ≡ true)
    → (q.pass ≡ leaves → q.stop ≡ true)
    → (if b then p else q).pass ≡ leaves
    → (if b then p else q).stop ≡ true
either_leaves true p q h k = h refl
either_leaves false p q h k = k

reserve_leaves :
    (slot : Text) (n : ℤ) (now : ℕ) (stop : Bool) (s : ExecutionState)
    → (reserve_resources slot n now stop s).pass ≡ leaves
    → (reserve_resources slot n now stop s).stop ≡ true
unfolding reserve_resources
reserve_leaves slot n now stop s =
    let c = named slot in
    let expired = (expire_stale_joint_sample_reservations lease now s).0 in
    let wanted = not (nat_beq (clamp_0 n) 0) in
    let joined = if wanted then reserve_joint_sample n c now expired else (expired, none) in
    let filled = acquire_reverse_fill_sample c joined.0 in
    either_leaves (wanted && not (is_some joined.1))
      (without_sample slot n filled.1.status now stop filled.0)
      (with_sample slot joined.1 filled.1.status now stop filled.0)
      (λ _. without_sample_leaves slot n filled.1.status now stop filled.0)
      (with_sample_leaves slot joined.1 filled.1.status now stop filled.0)

either-Sound :
    (slot : Text) (b : Bool) (p q : Session)
    → (b ≡ true → Sound slot p)
    → (b ≡ false → Sound slot q)
    → Sound slot (if b then p else q)
either-Sound slot true p q h k = h refl
either-Sound slot false p q h k = k refl

pub loop_head-Sound :
    (slot : Text) (w : World)
    → HasUniqueHolders w.state
    → HoldsNothing slot w.state
    → Sound slot (loop_head w)
unfolding loop_head
loop_head-Sound slot w u empty =
    let (checked, stops) = stop_check w in
    let v = holders_of w.state checked.state (tables-check w) u in
    either-Sound slot stops (at ending checked) (at dispatching checked)
      (λ e. record { unique = v; rest = stopping-over checked (check_stops w e) })
      (λ e. record {
        unique = v;
        rest = nothing_of slot w.state checked.state (tables-check w) empty;
      })

closed-over : (w : World) → w.scheduler.closed ≡ true → is_over w ≡ true
closed-over w h = ground arith

pub acquire_refused : (s : AsyncScheduler) → (acquire s).1 ≡ refused → (acquire s).0.closed ≡ true
unfolding acquire
acquire_refused s h = ground arith

tables-begin :
    (slot : Text) (now : ℕ) (s : ExecutionState)
    → tables (
        begin_round slot
          (update_thread_step slot (pos 1) (pos 4) (some (text "准备请求")) (some true) now s))
      ≡ tables s
unfolding begin_round reset_pending_distribution
tables-begin slot now s = tables-step slot (pos 1) (pos 4) (some (text "准备请求")) (some true) now s

pub on_token-Sound :
    (slot : Text) (now : ℕ) (got : Acquired) (w : World)
    → HasUniqueHolders w.state
    → HoldsNothing slot w.state
    → (got ≡ refused → w.scheduler.closed ≡ true)
    → Sound slot (on_token slot now got w)
unfolding on_token
on_token-Sound slot now refused w u empty h = record { unique = u; rest = closed-over w (h refl) }
on_token-Sound slot now waits w u empty h = record { unique = u; rest = empty }
on_token-Sound slot now (token i) w u empty h = record {
  unique = holders_of w.state _ (tables-begin slot now w.state) u;
  rest = tt;
}

pub on_pass-Sound :
    (slot : Text) (i now : ℕ) (pass : Pass) (w : World)
    → HasUniqueHolders w.state
    → (pass ≡ leaves → is_stopping w ≡ true)
    → Sound slot (on_pass slot i now pass w)
unfolding on_pass
on_pass-Sound slot i now ready w u h = record { unique = u; rest = tt }
on_pass-Sound slot i now leaves w u h = end_turn-Sound slot i now (breaks w) (parts w u (h refl))
on_pass-Sound slot i now again w u h = record { unique = u; rest = tt }

reserved_stops :
    (slot : Text) (n : ℤ) (now : ℕ) (w : World)
    → let pass = reserve_resources slot n now w.stop w.state in
      pass.pass ≡ leaves → is_stopping (record w { state = pass.state; stop = pass.stop }) ≡ true
reserved_stops slot n now w h = ground (arith, reserve_leaves slot n now w.stop w.state h)

pub make_pass-Sound :
    (slot : Text) (n : ℤ) (i now : ℕ) (w : World)
    → HasUniqueHolders w.state
    → Sound slot (make_pass slot n i now w)
unfolding make_pass
make_pass-Sound slot n i now w u =
    let (checked, stops) = stop_check w in
    let v = holders_of w.state checked.state (tables-check w) u in
    let pass = reserve_resources slot n now checked.stop checked.state in
    either-Sound slot stops _ _
      (λ e. on_pass-Sound slot i now leaves checked v (λ _. check_stops w e))
      (λ e.
        on_pass-Sound slot i now pass.pass (record checked { state = pass.state; stop = pass.stop })
          (reserve_resources_unique slot n now checked.stop checked.state v)
          (reserved_stops slot n now checked))

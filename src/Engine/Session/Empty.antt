-- ===== src/Engine/Session/Empty.antt =====
-- What a session holds between its rounds and at its end: nothing.
use survey_controller.Common.{
  ℕ, ℤ, pos, ◌≡◌, ◌∙◌, refl, ap, arith, Bool, true, false, ◌||◌, Option, none, some, Text, text_eq,
}
use survey_controller.Common.Dict.{lookup}
use survey_controller.Task.Defs.{ExecutionState, named, thread_key, notify_runtime_change}
use survey_controller.Task.Joint.{release_joint_sample}
use survey_controller.Task.Progress.{update_thread_step, mark_thread_finished, change_thread}
use survey_controller.Engine.StopPolicy.{Failure, record_failure, decide_failure, signal}
use survey_controller.Engine.StopPolicy.Resources.{
  tables, HasUniqueHolders, held_row, held_sample, row_in, release_sample_frees, release_row_frees,
  samples-release_row,
}
use survey_controller.Engine.Round.{release_round_resources}
use survey_controller.Engine.Round.Holding.{holders_of}
use survey_controller.Engine.Session.{
  World, Turn, stays, breaks, on_state, finish, finished_status_text,
}
use survey_controller.Engine.Session.Failing.{unless_stopped, fail_round, fail_at_once}
use survey_controller.Engine.Session.Unique.{
  release_round_unique, release_sample_unique, record_failure_unique,
}

-- The thread holds neither a joint sample nor a row of the spreadsheet.
abbrev pub HoldsNothing : Text → ExecutionState → Type 0
HoldsNothing slot s =
    (held_sample (thread_key (named slot)) s ≡ none) × (held_row (thread_key (named slot)) s ≡ none)

pub nothing_of :
    (slot : Text) (s t : ExecutionState)
    → tables t ≡ tables s
    → HoldsNothing slot s
    → HoldsNothing slot t
nothing_of slot s t e (sample, row) =
    let key = thread_key (named slot) in
    (ap (λ x. lookup key x.samples) e ∙ sample, ap (λ x. row_in key x.runtime) e ∙ row)

pub release_round_empties :
    (slot : Text) (s : ExecutionState)
    → HasUniqueHolders s
    → HoldsNothing slot (release_round_resources slot true s)
unfolding release_round_resources
release_round_empties slot s u =
    let c = named slot in
    let unjoined = (release_joint_sample c s).0 in
    let (freed, same) = release_sample_frees c s u.samples in
    (
      ap (lookup (thread_key c)) (samples-release_row c true unjoined) ∙ freed,
      release_row_frees c true unjoined ((release_sample_unique c s u).rows),
    )

-- The stop signal is set, or the event loop is about to set it.
abbrev pub is_stopping : World → Bool
is_stopping w = w.stop || w.scheduled

-- A turn after which the session holds nothing if it stays, and the run is stopping if it leaves.
pub data Settles (slot : Text) : Turn → Type 0 where
  rests :
      (w : World) (delay : ℤ)
      → HasUniqueHolders w.state
      → HoldsNothing slot w.state
      → Settles slot (stays delay w)
  parts : (w : World) → HasUniqueHolders w.state → is_stopping w ≡ true → Settles slot (breaks w)

pub unless_stopped-Settles :
    (slot : Text) (w : World) (stopped : Bool)
    → HasUniqueHolders w.state
    → (stopped ≡ true → is_stopping w ≡ true)
    → Settles slot (unless_stopped slot (w, stopped))
unfolding unless_stopped
unless_stopped-Settles slot w true u h = parts w u (h refl)
unless_stopped-Settles slot w false u h =
    rests (on_state (release_round_resources slot true) w) (pos 0)
      (release_round_unique slot w.state u) (release_round_empties slot w.state u)

pub or_right : (a b : Bool) → b ≡ true → (a || b) ≡ true
or_right a b h = ground arith

failure_schedules :
    (f : Failure) (now : ℕ) (scheduled : Bool) (s : ExecutionState)
    → (record_failure f now (some scheduled) s).2 ≡ true
    → signal (record_failure f now (some scheduled) s).1 ≡ true
unfolding record_failure decide_failure
failure_schedules f now scheduled s h = ground arith

pub fail_round-Settles :
    (slot : Text) (f : Failure) (now : ℕ) (w : World)
    → HasUniqueHolders w.state
    → Settles slot (unless_stopped slot (fail_round f now w))
fail_round-Settles slot f now w u =
    let after = record_failure f now (some w.scheduled) w.state in
    unless_stopped-Settles slot ((fail_round f now w).0) after.2
      (record_failure_unique f now (some w.scheduled) w.state u)
      (λ e. or_right w.stop _ (failure_schedules f now w.scheduled w.state e))

pub at_once_stops : (a b c : Bool) → b ≡ true → ((a || b) || c) ≡ true
at_once_stops a b c h = ground arith

pub fail_at_once-Settles :
    (slot : Text) (f : Failure) (now : ℕ) (w : World)
    → HasUniqueHolders w.state
    → Settles slot (unless_stopped slot (fail_at_once f now w))
fail_at_once-Settles slot f now w u =
    let after = record_failure f now (some w.scheduled) w.state in
    unless_stopped-Settles slot ((fail_at_once f now w).0) after.2
      (record_failure_unique f now (some w.scheduled) w.state u)
      (at_once_stops w.stop after.2 (signal after.1))

pub tables-step :
    (slot : Text) (i n : ℤ) (status : Option Text) (running : Option Bool) (now : ℕ)
    (s : ExecutionState)
    → tables (update_thread_step slot i n status running now s) ≡ tables s
unfolding update_thread_step change_thread notify_runtime_change
tables-step slot i n status running now s = refl

tables-finished :
    (slot status : Text) (now : ℕ) (s : ExecutionState)
    → tables (mark_thread_finished slot status now s) ≡ tables s
unfolding mark_thread_finished change_thread notify_runtime_change
tables-finished slot status now s = refl

-- The code after the loop empties the session.
pub finish_empties :
    (slot : Text) (now : ℕ) (w : World)
    → HasUniqueHolders w.state
    → HasUniqueHolders (finish slot now w).state × HoldsNothing slot (finish slot now w).state
unfolding finish release_round_resources
finish_empties slot now w u =
    let released = release_round_resources slot true w.state in
    let e = tables-finished slot (finished_status_text w.stop released) now released in
    (
      holders_of released (finish slot now w).state e (release_round_unique slot w.state u),
      nothing_of slot released (finish slot now w).state e (release_round_empties slot w.state u),
    )

-- ===== src/Engine/Round/Passes.antt =====
-- What a session holds after a pass.
use survey_controller.Common.{
  ℕ, ◌<◌, ◌≡◌, ◌∙◌, ap, refl, arith, ℤ, clamp_0, Bool, true, false, not, Option, none, some, [],
  Text, text, is_some, Bool-cases, inl, inr, text_eq, ==_self,
}
use survey_controller.Common.Dict.{lookup, insert-HasUniqueKeys, lookup-insert}
use survey_controller.Task.Defs.{
  ExecutionState, named, thread_key, notify_runtime_change, AcquireStatus, acquired, disabled,
  exhausted,
}
use survey_controller.Task.Defs as Defs
use survey_controller.Task.Joint.Assigned.{Reserves, no_quota, existing, taken, full}
use survey_controller.Task.Progress.{update_thread_status, change_thread}
use survey_controller.Task.Terminal.{mark_terminal_stop}
use survey_controller.Engine.StopPolicy.Resources.{
  tables, HasUniqueHolders, held_row, held_sample, row_in, release_sample_frees, release_row_frees,
  samples-release_row,
}
use survey_controller.Engine.Round.{
  Pass, ready, Prepared, give_row_back, without_sample, give_sample_back, with_sample,
}
use survey_controller.Task.Joint.{is_joint_sample_quota_exhausted}
use survey_controller.Engine.Round.Holding.{is_acquired, is_disabled}

pub tables-status :
    (name status : Text) (running : Option Bool) (now : ℕ) (s : ExecutionState)
    → tables (update_thread_status name status running now s) ≡ tables s
unfolding update_thread_status change_thread notify_runtime_change
tables-status name status running now s = refl

pub tables-mark :
    (category reason message : Text) (s : ExecutionState)
    → tables (mark_terminal_stop category reason message false s) ≡ tables s
unfolding mark_terminal_stop notify_runtime_change
tables-mark category reason message s = ground arith

abbrev pub is_ready : Pass → Bool
is_ready ready = true
is_ready _ = false

pub tables-without_sample :
    (slot : Text) (n : ℤ) (status : AcquireStatus) (now : ℕ) (stop : Bool) (s : ExecutionState)
    → (tables (without_sample slot n status now stop s).state
        ≡ tables (give_row_back slot status s))
      × (is_ready (without_sample slot n status now stop s).pass ≡ false)
unfolding without_sample
tables-without_sample slot n status now stop s =
    let returned = give_row_back slot status s in
    elim (Bool-cases (is_joint_sample_quota_exhausted n returned)) [
      | inl e ↦
          rw (e, without_sample)
            (tables-status slot _ (some false) now _ ∙ tables-mark _ [] _ returned, refl)
      | inr e ↦ rw (e, without_sample) (tables-status slot _ (some true) now returned, refl)
    ]

-- How a pass leaves the thread: with all that the round needs, a joint sample only where one is
-- `wanted`, or with nothing.
pub data Outcome (key : Text) (wanted : Bool) (p : Prepared) : Type 0 where
  prepared :
      p.pass ≡ ready
      → is_some (held_sample key p.state) ≡ wanted
      → is_some (held_row key p.state) ≡ is_some p.state.reverse_fill_runtime
      → Outcome key wanted p
  unprepared :
      is_ready p.pass ≡ false
      → held_sample key p.state ≡ none
      → held_row key p.state ≡ none
      → Outcome key wanted p

give_row_back_frees :
    (slot : Text) (status : AcquireStatus) (s : ExecutionState)
    → HasUniqueHolders s
    → is_some (held_row (thread_key (named slot)) s) ≡ is_acquired status
    → (held_row (thread_key (named slot)) (give_row_back slot status s) ≡ none)
      × ((give_row_back slot status s).joint_reserved_sample_by_thread
          ≡ s.joint_reserved_sample_by_thread)
unfolding give_row_back
give_row_back_frees slot acquired s u h =
    (release_row_frees (named slot) true s u.rows, samples-release_row (named slot) true s)
give_row_back_frees slot disabled s u h = (ground arith, refl)
give_row_back_frees slot exhausted s u h = (ground arith, refl)
give_row_back_frees slot Defs.waiting s u h = (ground arith, refl)

pub without_sample-Outcome :
    (slot : Text) (n : ℤ) (status : AcquireStatus) (now : ℕ) (stop : Bool) (s : ExecutionState)
    → HasUniqueHolders s
    → held_sample (thread_key (named slot)) s ≡ none
    → is_some (held_row (thread_key (named slot)) s) ≡ is_acquired status
    → Outcome (thread_key (named slot)) true (without_sample slot n status now stop s)
without_sample-Outcome slot n status now stop s u free h =
    let key = thread_key (named slot) in
    let (e, unready) = tables-without_sample slot n status now stop s in
    let (row, same) = give_row_back_frees slot status s u h in
    unprepared unready (ap (λ t. lookup key t.samples) e ∙ ap (lookup key) same ∙ free)
      (ap (λ t. row_in key t.runtime) e ∙ row)

given_back :
    (slot : Text) (sample : Option ℕ) (s : ExecutionState)
    → HasUniqueHolders s
    → held_sample (thread_key (named slot)) s ≡ sample
    → is_some (held_row (thread_key (named slot)) s) ≡ false
    → (held_sample (thread_key (named slot)) (give_sample_back slot sample s) ≡ none)
      × (held_row (thread_key (named slot)) (give_sample_back slot sample s) ≡ none)
unfolding give_sample_back
given_back slot none s u held h = (held, ground arith)
given_back slot (some i) s u held h =
    let key = thread_key (named slot) in
    let (freed, same) = release_sample_frees (named slot) s u.samples in
    let none_held : held_row key s ≡ none = ground arith in
    (freed, ap (row_in key) same ∙ none_held)

pub with_sample-Outcome :
    (slot : Text) (sample : Option ℕ) (status : AcquireStatus) (now : ℕ) (stop : Bool)
    (s : ExecutionState)
    → HasUniqueHolders s
    → held_sample (thread_key (named slot)) s ≡ sample
    → is_some (held_row (thread_key (named slot)) s) ≡ is_acquired status
    → is_disabled status ≡ not (is_some s.reverse_fill_runtime)
    → Outcome (thread_key (named slot)) (is_some sample) (with_sample slot sample status now stop s)
unfolding with_sample
with_sample-Outcome slot i Defs.waiting now stop s u held h d =
    let key = thread_key (named slot) in
    let (sample, row) = given_back slot i s u held h in
    let e = tables-status slot (text "等待反填样本") (some true) now (give_sample_back slot i s) in
    unprepared refl (ap (λ t. lookup key t.samples) e ∙ sample)
      (ap (λ t. row_in key t.runtime) e ∙ row)
with_sample-Outcome slot i exhausted now stop s u held h d =
    let key = thread_key (named slot) in
    let (sample, row) = given_back slot i s u held h in
    let e =
      tables-status slot (text "反填样本不足") (some false) now _
      ∙ tables-mark (text "reverse_fill_exhausted") _ _ (give_sample_back slot i s) in
    unprepared refl (ap (λ t. lookup key t.samples) e ∙ sample)
      (ap (λ t. row_in key t.runtime) e ∙ row)
with_sample-Outcome slot i acquired now stop s u held h d =
    prepared refl (ap is_some held) (ground arith)
with_sample-Outcome slot i disabled now stop s u held h d =
    prepared refl (ap is_some held) (ground arith)

pub Reserves-holds :
    (n : ℤ) (key : Text) (now : ℕ) (s : ExecutionState) (after : ExecutionState × Option ℕ)
    → 0 < clamp_0 n
    → HasUniqueHolders s
    → Reserves n key now s after
    → HasUniqueHolders after.0 × (held_sample key after.0 ≡ after.1)
Reserves-holds n key now s after q u (no_quota z e) = absurd (omega arith)
Reserves-holds n key now s after q u (existing i z h e) = rw e (u, h)
Reserves-holds n key now s after q u (taken i h f e) = rw e (
  record {
    samples = insert-HasUniqueKeys key i s.joint_reserved_sample_by_thread u.samples;
    rows = u.rows;
  },
  rw (lookup-insert key key i s.joint_reserved_sample_by_thread, ==_self key) refl,
)
Reserves-holds n key now s after q u (full h f e) = rw e (u, h)

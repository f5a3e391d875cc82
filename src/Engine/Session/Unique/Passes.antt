-- ===== src/Engine/Session/Unique/Passes.antt =====
-- No pass of a session puts its name into a table of reservations twice.
use survey_controller.Common.{
  ℕ, ◌≡◌, ◌∙◌, arith, ℤ, clamp_0, Bool, true, false, not, ◌&&◌, Option, none, some, Text, text,
  is_some, if◌then◌else◌, nat_beq, text_eq, Bool-cases, Option-cases, inl, inr,
}
use survey_controller.Common.Dict.{insert-HasUniqueKeys}
use survey_controller.Task.Defs.{
  ExecutionState, Caller, named, thread_key, notify_runtime_change, ReverseFillRuntimeState,
  AcquireStatus, acquired, disabled, exhausted,
}
use survey_controller.Task.Defs as Defs
use survey_controller.Task.ReverseFill.{acquire_reverse_fill_sample}
use survey_controller.Task.Joint.{
  reserve_joint_sample, mark_joint_sample_answering, expire_stale_joint_sample_reservations,
  peek_reserved_joint_sample,
}
use survey_controller.Task.Joint.Assigned.{
  Reserves, reserve-Reserves, no_quota, existing, taken, full,
}
use survey_controller.Engine.StopPolicy.Resources.{tables, HasUniqueHolders}
use survey_controller.Engine.Round.{
  lease, reserve_resources, without_sample, with_sample, give_row_back, give_sample_back,
  after_pre_answer_step,
}
use survey_controller.Engine.Round.Holding.{
  holders_of, release_row_unique, expire_unique, acquire_holds,
}
use survey_controller.Engine.Round.Passes.{tables-status, tables-mark, tables-without_sample}
use survey_controller.Engine.Session.Unique.{release_sample_unique, release_round_unique}

reserve_unique :
    (n : ℤ) (key : Text) (now : ℕ) (s : ExecutionState) (after : ExecutionState × Option ℕ)
    → HasUniqueHolders s
    → Reserves n key now s after
    → HasUniqueHolders after.0
reserve_unique n key now s after u (no_quota z e) = rw e u
reserve_unique n key now s after u (existing i z h e) = rw e u
reserve_unique n key now s after u (taken i h f e) = rw e (record {
  samples = insert-HasUniqueKeys key i s.joint_reserved_sample_by_thread u.samples;
  rows = u.rows;
})
reserve_unique n key now s after u (full h f e) = rw e u

give_row_back_unique :
    (slot : Text) (status : AcquireStatus) (s : ExecutionState)
    → HasUniqueHolders s
    → HasUniqueHolders (give_row_back slot status s)
unfolding give_row_back
give_row_back_unique slot acquired s u = release_row_unique (named slot) true s u
give_row_back_unique slot disabled s u = u
give_row_back_unique slot exhausted s u = u
give_row_back_unique slot Defs.waiting s u = u

give_sample_back_unique :
    (slot : Text) (sample : Option ℕ) (s : ExecutionState)
    → HasUniqueHolders s
    → HasUniqueHolders (give_sample_back slot sample s)
unfolding give_sample_back
give_sample_back_unique slot none s u = u
give_sample_back_unique slot (some i) s u = release_sample_unique (named slot) s u

with_sample_unique :
    (slot : Text) (sample : Option ℕ) (status : AcquireStatus) (now : ℕ) (stop : Bool)
    (s : ExecutionState)
    → HasUniqueHolders s
    → HasUniqueHolders (with_sample slot sample status now stop s).state
unfolding with_sample
with_sample_unique slot sample Defs.waiting now stop s u =
    holders_of (give_sample_back slot sample s) _
      (tables-status slot (text "等待反填样本") (some true) now (give_sample_back slot sample s))
      (give_sample_back_unique slot sample s u)
with_sample_unique slot sample exhausted now stop s u =
    holders_of (give_sample_back slot sample s) _
      (tables-status slot (text "反填样本不足") (some false) now _
        ∙ tables-mark (text "reverse_fill_exhausted") _ _ (give_sample_back slot sample s))
      (give_sample_back_unique slot sample s u)
with_sample_unique slot sample acquired now stop s u = u
with_sample_unique slot sample disabled now stop s u = u

either {ℓ} :
    {A : Type ℓ} (state_of : A → ExecutionState) (b : Bool) (p q : A)
    → HasUniqueHolders (state_of p)
    → HasUniqueHolders (state_of q)
    → HasUniqueHolders (state_of (if b then p else q))
either state_of true p q u v = u
either state_of false p q u v = v

without_sample_unique :
    (slot : Text) (n : ℤ) (status : AcquireStatus) (now : ℕ) (stop : Bool) (s : ExecutionState)
    → HasUniqueHolders s
    → HasUniqueHolders (without_sample slot n status now stop s).state
without_sample_unique slot n status now stop s u =
    holders_of (give_row_back slot status s) _ ((tables-without_sample slot n status now stop s).0)
      (give_row_back_unique slot status s u)

pub reserve_resources_unique :
    (slot : Text) (n : ℤ) (now : ℕ) (stop : Bool) (s : ExecutionState)
    → HasUniqueHolders s
    → HasUniqueHolders (reserve_resources slot n now stop s).state
unfolding reserve_resources
reserve_resources_unique slot n now stop s u =
    let c = named slot in
    let expired = (expire_stale_joint_sample_reservations lease now s).0 in
    let v = expire_unique lease now s u in
    let wanted = not (nat_beq (clamp_0 n) 0) in
    let reserved = reserve_joint_sample n c now expired in
    let joined = if wanted then reserved else (expired, none) in
    let j =
      either (λ r. r.0) wanted reserved (expired, none)
        (reserve_unique n (thread_key c) now expired reserved v (reserve-Reserves n c now expired))
        v in
    let filled = acquire_reverse_fill_sample c joined.0 in
    let k = (acquire_holds c joined.0 j).0 in
    either (λ p. p.state) (wanted && not (is_some joined.1))
      (without_sample slot n filled.1.status now stop filled.0)
      (with_sample slot joined.1 filled.1.status now stop filled.0)
      (without_sample_unique slot n filled.1.status now stop filled.0 k)
      (with_sample_unique slot joined.1 filled.1.status now stop filled.0 k)

pub after_pre_answer_unique :
    (slot : Text) (in_time : Bool) (s : ExecutionState)
    → HasUniqueHolders s
    → HasUniqueHolders (after_pre_answer_step slot in_time s).0
unfolding after_pre_answer_step
after_pre_answer_unique slot in_time s u =
    elim (Option-cases (peek_reserved_joint_sample (named slot) s)) [
      | inl e ↦ rw (after_pre_answer_step, e) u
      | inr (i, e) ↦ elim (Bool-cases in_time) [
        | inl t ↦ rw (after_pre_answer_step, e, t) u
        | inr t ↦ rw (after_pre_answer_step, e, t) (release_round_unique slot s u)
      ]
    ]

pub tables-answering :
    (c : Caller) (s : ExecutionState) → tables (mark_joint_sample_answering c s).0 ≡ tables s
unfolding mark_joint_sample_answering
tables-answering c s = ground arith

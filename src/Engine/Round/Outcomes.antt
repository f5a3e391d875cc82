-- ===== src/Engine/Round/Outcomes.antt =====
-- A session that waits holds nothing, and one that starts holds all that it needs.
use survey_controller.Common.{
  ℕ, ◌≡◌, ◌∙◌, ◌⊎◌, ap, arith, ℤ, clamp_0, Bool, true, false, none, some, Text, ltb, is_some,
  Option-cases, Bool-cases, inl, inr, text_eq, nat_beq,
}
use survey_controller.Common.Dict.{lookup}
use survey_controller.Task.Defs.{ExecutionState, named, thread_key}
use survey_controller.Task.ReverseFill.{acquire_reverse_fill_sample}
use survey_controller.Task.Joint.{reserve_joint_sample, expire_stale_joint_sample_reservations}
use survey_controller.Task.Joint.Assigned.{reserve-Reserves}
use survey_controller.Engine.StopPolicy.Resources.{HasUniqueHolders, held_row, held_sample}
use survey_controller.Engine.StopPolicy.{is_target_reached}
use survey_controller.Engine.Round.{
  ready, leaves, again, lease, should_stop_loop, reserve_resources, prepare_pass,
}
use survey_controller.Engine.Round.Holding.{expire_unique, expire_absent, acquire_holds}
use survey_controller.Engine.Round.Passes.{
  Outcome, prepared, unprepared, without_sample-Outcome, with_sample-Outcome, Reserves-holds,
}

-- Whether the run has a plan of joint samples.
abbrev pub plans_samples : ℤ → Bool
plans_samples n = ltb 0 (clamp_0 n)

module _ (slot : Text) (n : ℤ) (now : ℕ) (stop : Bool) where
  with_plan :
      (s : ExecutionState)
      → HasUniqueHolders s
      → plans_samples n ≡ true
      → Outcome (thread_key (named slot)) true (reserve_resources slot n now stop s)
  unfolding reserve_resources
  with_plan s u q =
      let c = named slot in
      let key = thread_key c in
      let expired = (expire_stale_joint_sample_reservations lease now s).0 in
      let taken_sample = reserve_joint_sample n c now expired in
      let wanted : nat_beq (clamp_0 n) 0 ≡ false = ground arith in
      let (u', held) =
        Reserves-holds n key now expired taken_sample (ground arith) (expire_unique lease now s u)
          (reserve-Reserves n c now expired) in
      let (v, row, off, same) = acquire_holds c taken_sample.0 u' in
      let filled = (acquire_reverse_fill_sample c taken_sample.0).0 in
      let sample : held_sample key filled ≡ taken_sample.1 = ap (lookup key) same ∙ held in
      elim (Option-cases taken_sample.1) [
        | inl e ↦
            rw (wanted, reserve_resources, e)
              (without_sample-Outcome slot n _ now stop filled v (sample ∙ e) row)
        | inr (i, e) ↦
            rw (wanted, reserve_resources, e)
              (with_sample-Outcome slot (some i) _ now stop filled v (sample ∙ e) row off)
      ]

  without_plan :
      (s : ExecutionState)
      → HasUniqueHolders s
      → plans_samples n ≡ false
      → held_sample (thread_key (named slot)) s ≡ none
      → Outcome (thread_key (named slot)) false (reserve_resources slot n now stop s)
  unfolding reserve_resources
  without_plan s u q free =
      let c = named slot in
      let key = thread_key c in
      let expired = (expire_stale_joint_sample_reservations lease now s).0 in
      let wanted : nat_beq (clamp_0 n) 0 ≡ true = ground arith in
      let (v, row, off, same) = acquire_holds c expired (expire_unique lease now s u) in
      let filled = (acquire_reverse_fill_sample c expired).0 in
      rw (wanted, reserve_resources)
        (with_sample-Outcome slot none _ now stop filled v
          (ap (lookup key) same ∙ expire_absent lease now key s free) row off)

  reserve_resources-Outcome :
      (s : ExecutionState)
      → HasUniqueHolders s
      → (plans_samples n ≡ false → held_sample (thread_key (named slot)) s ≡ none)
      → Outcome (thread_key (named slot)) (plans_samples n) (reserve_resources slot n now stop s)
  reserve_resources-Outcome s u free = elim (Bool-cases (plans_samples n)) [
    | inl e ↦ rw e (with_plan s u e)
    | inr e ↦ rw e (without_plan s u e (free e))
  ]

  pass-split :
      (s : ExecutionState)
      → ((prepare_pass slot n now stop s).pass ≡ leaves)
        ⊎ (prepare_pass slot n now stop s ≡ reserve_resources slot n now stop s)
  unfolding prepare_pass should_stop_loop
  pass-split s = elim (Bool-cases stop) [
    | inl e ↦ inl (ground arith)
    | inr e ↦ elim (Bool-cases (is_target_reached s)) [
      | inl t ↦ inl (ground arith)
      | inr t ↦ inr (ground arith)
    ]
  ]

-- A session that has to try again, whether it waits for a joint sample or for a row of the spreadsheet,
-- and whether or not the run has a plan of joint samples, holds neither of the two while it waits.
-- Before the pass no thread name stands twice in a table, and without a plan the session holds no joint
-- sample.
pub waits_empty_handed :
    (slot : Text) (n : ℤ) (now : ℕ) (stop : Bool) (s : ExecutionState)
    → HasUniqueHolders s
    → (plans_samples n ≡ false → held_sample (thread_key (named slot)) s ≡ none)
    → (prepare_pass slot n now stop s).pass ≡ again
    → (held_sample (thread_key (named slot)) (prepare_pass slot n now stop s).state ≡ none)
      × (held_row (thread_key (named slot)) (prepare_pass slot n now stop s).state ≡ none)
waits_empty_handed slot n now stop s u free h = elim (pass-split slot n now stop s) [
  | inl left ↦ absurd (cc)
  | inr e ↦ elim (reserve_resources-Outcome slot n now stop s u free) [
    | prepared r sample row ↦ absurd (ground arith)
    | unprepared r sample row ↦ rw e (sample, row)
  ]
]

-- A session that may start its round holds a joint sample exactly if the run has a plan of them, and a
-- row exactly if the run has a spreadsheet. Before the pass no thread name stands twice in a table, and
-- without a plan the session holds no joint sample.
pub starts_with_resources :
    (slot : Text) (n : ℤ) (now : ℕ) (stop : Bool) (s : ExecutionState)
    → HasUniqueHolders s
    → (plans_samples n ≡ false → held_sample (thread_key (named slot)) s ≡ none)
    → (prepare_pass slot n now stop s).pass ≡ ready
    → let after = (prepare_pass slot n now stop s).state in
      (is_some (held_sample (thread_key (named slot)) after) ≡ plans_samples n)
      × (is_some (held_row (thread_key (named slot)) after) ≡ is_some after.reverse_fill_runtime)
starts_with_resources slot n now stop s u free h = elim (pass-split slot n now stop s) [
  | inl left ↦ absurd (ground arith)
  | inr e ↦ elim (reserve_resources-Outcome slot n now stop s u free) [
    | prepared r sample row ↦ rw e (sample, row)
    | unprepared r sample row ↦ absurd (ground arith)
  ]
]

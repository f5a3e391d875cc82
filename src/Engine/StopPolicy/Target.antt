-- ===== src/Engine/StopPolicy/Target.antt =====
-- Successes and the target.
use survey_controller.Common.{
  ℕ, suc, ◌≤◌, ◌<◌, ◌≡◌, ◌∙◌, ◌⊎◌, ◌↔◌, clamp_0, Bool, true, some, Text, arith, if◌then◌else◌,
  nat_beq, ltb, ◌||◌,
}
use survey_controller.Task.Defs.{ExecutionState}
use survey_controller.Engine.StopPolicy.{
  record_success, is_wanted, is_target_reached, count_success, commit_resources,
  trigger_target_reached_stop, signal,
}
use survey_controller.Engine.StopPolicy.Frames.{
  counters, counters-commit_resources, counters-trigger_target_reached_stop,
}

-- The target, if there is one, is not passed.
abbrev pub IsWithinTarget : ExecutionState → Type 0
IsWithinTarget s = (clamp_0 s.config.target_num ≡ 0) ⊎ (s.cur_num ≤ clamp_0 s.config.target_num)

trigger_stops :
    (message : Text) (stop : Bool) (s : ExecutionState)
    → signal (trigger_target_reached_stop message (some stop) s).1 ≡ true
unfolding trigger_target_reached_stop
trigger_stops message stop s = ground arith

-- There is no target, or it is not reached.
abbrev pub is_open : ExecutionState → Bool
is_open s = nat_beq (clamp_0 s.config.target_num) 0 || ltb s.cur_num (clamp_0 s.config.target_num)

-- A success counts once while the target is open or there is none, and clears both failure counts;
-- at the target it changes neither. It stops the session exactly if there is a target and it is
-- reached with this success, and then the stop signal is set; otherwise the signal is as it was.
-- The settings stay.
pub record_success_cases :
    (name status message : Text) (now : ℕ) (stop : Bool) (s : ExecutionState)
    → let after = record_success name status message now stop s in
      let target = clamp_0 s.config.target_num in
      (counters after.state ≡ (
        if is_open s
        then record {
          config = s.config;
          cur_num = suc s.cur_num;
          cur_fail = 0;
          proxy_unavailable_fail_count = 0;
        }
        else counters s))
      × ((after.stopped ≡ true) ↔ ((0 < target) × (target ≤ suc s.cur_num)))
      × (after.stop ≡ (if after.stopped then true else stop))
unfolding record_success is_wanted is_target_reached count_success
record_success_cases name status message now stop s =
    let counted = count_success s in
    let committed = commit_resources name status now counted in
    let w = counters-commit_resources name status now counted in
    let t = counters-trigger_target_reached_stop message (some stop) committed in
    let u = trigger_stops message stop committed in
    (ground (arith, w, t, t ∙ w), (λ q. ground arith, λ q. ground arith), ground (arith, u))

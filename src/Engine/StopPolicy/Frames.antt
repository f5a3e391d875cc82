-- ===== src/Engine/StopPolicy/Frames.antt =====
-- What the steps of a success or a failure leave alone.
use survey_controller.Common.{
  ℕ, ◌≡◌, ◌∙◌, ℤ, Bool, true, Option, Text, refl, arith, is_empty, Bool-cases, inl, inr,
}
use survey_controller.Task.Defs.{
  ExecutionConfig, ExecutionState, Caller, named, notify_runtime_change,
}
use survey_controller.Task.ReverseFill.{
  release_reverse_fill_sample, commit_reverse_fill_sample, mark_reverse_fill_submission_failed,
}
use survey_controller.Task.Joint.{release_joint_sample, commit_joint_sample, drop_reservation}
use survey_controller.Task.Distribution.{commit_pending_distribution}
use survey_controller.Task.Progress.{increment_thread_success, increment_thread_fail, change_thread}
use survey_controller.Task.Terminal.{mark_terminal_stop}
use survey_controller.Engine.StopPolicy.{
  Failure, give_back, commit_resources, trigger_target_reached_stop,
}

-- The settings and the counters that the policy itself keeps.
pub record Counters : Type 0 where
  pub config : ExecutionConfig
  pub cur_num : ℕ
  pub cur_fail : ℕ
  pub proxy_unavailable_fail_count : ℕ

abbrev pub counters : ExecutionState → Counters
counters s = record {
  config = s.config;
  cur_num = s.cur_num;
  cur_fail = s.cur_fail;
  proxy_unavailable_fail_count = s.proxy_unavailable_fail_count;
}

counters-release_joint :
    (c : Caller) (s : ExecutionState) → counters (release_joint_sample c s).0 ≡ counters s
unfolding release_joint_sample drop_reservation notify_runtime_change
counters-release_joint c s = ground arith

counters-commit_joint :
    (c : Caller) (s : ExecutionState) → counters (commit_joint_sample c s).0 ≡ counters s
unfolding commit_joint_sample drop_reservation notify_runtime_change
counters-commit_joint c s = ground arith

counters-release_row :
    (c : Caller) (b : Bool) (s : ExecutionState)
    → counters (release_reverse_fill_sample c b s).0 ≡ counters s
unfolding release_reverse_fill_sample notify_runtime_change
counters-release_row c b s = ground arith

counters-commit_row :
    (c : Caller) (s : ExecutionState) → counters (commit_reverse_fill_sample c s).0 ≡ counters s
unfolding commit_reverse_fill_sample notify_runtime_change
counters-commit_row c s = ground arith

counters-fail_row :
    (c : Caller) (m : ℤ) (s : ExecutionState)
    → counters (mark_reverse_fill_submission_failed c m s).0 ≡ counters s
unfolding mark_reverse_fill_submission_failed notify_runtime_change
counters-fail_row c m s = ground arith

counters-commit_pending :
    (c : Caller) (s : ExecutionState) → counters (commit_pending_distribution c s).0 ≡ counters s
unfolding commit_pending_distribution
counters-commit_pending c s = refl

counters-success :
    (name status : Text) (now : ℕ) (s : ExecutionState)
    → counters (increment_thread_success name status now s) ≡ counters s
unfolding increment_thread_success change_thread notify_runtime_change
counters-success name status now s = refl

counters-fail :
    (name status : Text) (now : ℕ) (s : ExecutionState)
    → counters (increment_thread_fail name status now s) ≡ counters s
unfolding increment_thread_fail change_thread notify_runtime_change
counters-fail name status now s = refl

pub counters-mark_terminal_stop :
    (category reason message : Text) (overwrite : Bool) (s : ExecutionState)
    → counters (mark_terminal_stop category reason message overwrite s) ≡ counters s
unfolding mark_terminal_stop notify_runtime_change
counters-mark_terminal_stop category reason message overwrite s = ground arith

pub counters-give_back :
    (f : Failure) (now : ℕ) (s : ExecutionState) → counters (give_back f now s) ≡ counters s
unfolding give_back
counters-give_back f now s = elim (Bool-cases (is_empty f.thread_name)) [
  | inl e ↦ rw e refl
  | inr e ↦ elim (Bool-cases f.consume_reverse_fill_attempt) [
    | inl used ↦
        rw (e, used)
          (counters-fail f.thread_name f.status_text now _
            ∙ counters-fail_row (named f.thread_name) _ _
            ∙ counters-release_joint (named f.thread_name) s)
    | inr kept ↦
        rw (e, kept)
          (counters-fail f.thread_name f.status_text now _
            ∙ counters-release_row (named f.thread_name) true _
            ∙ counters-release_joint (named f.thread_name) s)
  ]
]

pub counters-commit_resources :
    (name status : Text) (now : ℕ) (s : ExecutionState)
    → counters (commit_resources name status now s) ≡ counters s
unfolding commit_resources
counters-commit_resources name status now s = elim (Bool-cases (is_empty name)) [
  | inl e ↦ rw e refl
  | inr e ↦ rw e (
      counters-success name status now _
      ∙ counters-commit_pending (named name) _
      ∙ counters-commit_row (named name) _
      ∙ counters-commit_joint (named name) s)
]

pub counters-trigger_target_reached_stop :
    (message : Text) (stop : Option Bool) (s : ExecutionState)
    → counters (trigger_target_reached_stop message stop s).0 ≡ counters s
unfolding trigger_target_reached_stop mark_terminal_stop notify_runtime_change
counters-trigger_target_reached_stop message stop s = ground arith

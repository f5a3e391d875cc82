-- ===== src/Engine/Errors/Settled.antt =====
-- What the handlers leave behind.
use survey_controller.Common.{
  ℕ, suc, ◌≤◌, ◌≡◌, ◌∙◌, ◌⊎◌, ◌↔◌, ap, refl, arith, Bool, true, false, ◌||◌, none, some, Text,
  if◌then◌else◌, inl, inr, text_eq,
}
use survey_controller.Common.Dict.{lookup}
use survey_controller.Task.Defs.{ExecutionState, named, thread_key, notify_runtime_change}
use survey_controller.Task.ReverseFill.{
  release_reverse_fill_sample, is_reverse_fill_target_unreachable,
}
use survey_controller.Task.Joint.{release_joint_sample}
use survey_controller.Task.Progress.{increment_thread_fail}
use survey_controller.Task.Terminal.{mark_terminal_stop}
use survey_controller.Engine.StopPolicy.{
  FailureReason, fill_failed, reason_value, give_back, count_failure, stop_threshold,
}
use survey_controller.Engine.StopPolicy.Resources.{
  tables, tables-fail, HasUniqueHolders, RowsAreUnique, held_row, held_sample, row_in,
  release_sample_frees, release_row_frees, samples-release_row,
}
use survey_controller.Engine.StopPolicy.Failures.{record_failure_cases}
use survey_controller.Engine.Errors.{
  AiRuntimeError, ai_failure, handle_ai_runtime_error, stop_for,
  handle_submission_verification_error, handle_survey_provider_unavailable_error, Handled,
}

-- The thread holds nothing, and the run is stopped.
pub record IsSettled (thread_name : Text) (h : Handled) : Type 0 where
  pub sample : held_sample (thread_key (named thread_name)) h.state ≡ none
  pub row : held_row (thread_key (named thread_name)) h.state ≡ none
  pub stop : h.stop ≡ true
  pub stopped : h.stopped ≡ true

tables-mark :
    (category reason message : Text) (s : ExecutionState)
    → tables (mark_terminal_stop category reason message false s) ≡ tables s
unfolding mark_terminal_stop notify_runtime_change
tables-mark category reason message s = ground arith

stop_for-IsSettled :
    (category : Text) (reason : FailureReason) (message status name : Text) (now : ℕ)
    (s : ExecutionState)
    → HasUniqueHolders s
    → IsSettled name (stop_for category reason message status name now s)
unfolding stop_for
stop_for-IsSettled category reason message status name now s u =
    let c = named name in
    let key = thread_key c in
    let unjoined = (release_joint_sample c s).0 in
    let released = (release_reverse_fill_sample c true unjoined).0 in
    let (freed, same) = release_sample_frees c s u.samples in
    let unique : RowsAreUnique unjoined.reverse_fill_runtime = rw same u.rows in
    let e =
      tables-mark category (reason_value reason) message
        (increment_thread_fail name status now released)
      ∙ tables-fail name status now released in
    record {
      sample =
          ap (λ t. lookup key t.samples) e
          ∙ ap (lookup key) (samples-release_row c true unjoined)
          ∙ freed;
      row = ap (λ t. row_in key t.runtime) e ∙ release_row_frees c true unjoined unique;
      stop = refl;
      stopped = refl;
    }

-- After a submission that needs verification, and after the survey has become unavailable, the
-- thread holds neither a joint sample nor a row, the stop signal is set and the session stops. No
-- thread name stands twice in a table before.
pub stop_errors-IsSettled :
    (exc thread_name : Text) (now : ℕ) (s : ExecutionState)
    → HasUniqueHolders s
    → IsSettled thread_name (handle_submission_verification_error exc thread_name now s)
      × IsSettled thread_name (handle_survey_provider_unavailable_error exc thread_name now s)
unfolding handle_submission_verification_error handle_survey_provider_unavailable_error
stop_errors-IsSettled exc thread_name now s u =
    (stop_for-IsSettled _ _ _ _ thread_name now s u, stop_for-IsSettled _ _ _ _ thread_name now s u)

of_threshold :
    (exc : AiRuntimeError) (name : Text) (s : ExecutionState)
    → stop_threshold (ai_failure exc name).threshold_override s.config ≡ 5
unfolding stop_threshold
of_threshold exc name s = refl

or_true : (b : Bool) → (b || true) ≡ true
or_true b = ground arith

enough :
    (exc : AiRuntimeError) (name : Text) (s : ExecutionState) (unreachable : Bool)
    → (unreachable ≡ true) ⊎ (5 ≤ suc s.cur_fail)
    → (unreachable ≡ true)
      ⊎ ((s.config.stop_on_fail_enabled || true) ≡ true)
        × (stop_threshold (ai_failure exc name).threshold_override s.config ≤ suc s.cur_fail)
enough exc name s unreachable (inl e) = inl e
enough exc name s unreachable (inr e) =
    inr (or_true s.config.stop_on_fail_enabled, omega (arith, of_threshold exc name s))

-- An error of the AI adds one to the failures in a row. It stops the session exactly if that makes
-- five or more, whatever the settings for failures say, or if the rows left, after the thread gave
-- back its own, cannot reach the target; it sets the stop signal then and otherwise leaves it.
pub ai_error_stops_at_five :
    (exc : AiRuntimeError) (thread_name : Text) (now : ℕ) (stop : Bool) (s : ExecutionState)
    → let after = handle_ai_runtime_error exc thread_name now stop s in
      let returned = give_back (ai_failure exc thread_name) now (count_failure fill_failed s) in
      (after.state.cur_fail ≡ suc s.cur_fail)
      × ((after.stopped ≡ true)
          ↔ ((is_reverse_fill_target_unreachable returned ≡ true) ⊎ (5 ≤ suc s.cur_fail)))
      × (after.stop ≡ (if after.stopped then true else stop))
unfolding handle_ai_runtime_error
ai_error_stops_at_five exc thread_name now stop s =
    let (same, stops, sets) = record_failure_cases (ai_failure exc thread_name) now (some stop) s in
    let five = of_threshold exc thread_name s in
    (
      ap (λ k. k.cur_fail) same,
      (λ e. ground (arith, stops.0 e, five), λ e. stops.1 (enough exc thread_name s _ e)),
      ground (arith, sets),
    )

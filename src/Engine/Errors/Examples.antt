-- ===== src/Engine/Errors/Examples.antt =====
-- Errors in a run of two threads.
use survey_controller.Common.{◌≤◌, ◌≡◌, ◌⊎◌, ◌↔◌, true, false, text, if◌then◌else◌}
use survey_controller.Task.ReverseFill.{is_reverse_fill_target_unreachable}
use survey_controller.Engine.Samples.{started, started-HasUniqueHolders}
use survey_controller.Engine.StopPolicy.{fill_failed, give_back, count_failure}
use survey_controller.Engine.Errors.{
  AiRuntimeError, ai_failure, handle_ai_runtime_error, handle_submission_verification_error,
  handle_survey_provider_unavailable_error,
}
use survey_controller.Engine.Errors.Settled.{
  IsSettled, stop_errors-IsSettled, ai_error_stops_at_five,
}

stop_errors-IsSettled_example :
    IsSettled
      (text "Slot-1")
      (handle_submission_verification_error (text "captcha") (text "Slot-1") 7 started)
    × IsSettled
        (text "Slot-1")
        (handle_survey_provider_unavailable_error (text "captcha") (text "Slot-1") 7 started)
stop_errors-IsSettled_example =
    stop_errors-IsSettled (text "captcha") (text "Slot-1") 7 started started-HasUniqueHolders

abbrev slow : AiRuntimeError
slow = record { is_timeout = true; message = text "timed out" }

ai_error_stops_at_five_example :
    ((handle_ai_runtime_error slow (text "Slot-1") 7 false started).state.cur_fail ≡ 1)
    × (((handle_ai_runtime_error slow (text "Slot-1") 7 false started).stopped ≡ true) ↔ (
        (is_reverse_fill_target_unreachable
            (give_back (ai_failure slow (text "Slot-1")) 7 (count_failure fill_failed started))
          ≡ true)
        ⊎ (5 ≤ 1)))
    × ((handle_ai_runtime_error slow (text "Slot-1") 7 false started).stop ≡ (
        if (handle_ai_runtime_error slow (text "Slot-1") 7 false started).stopped
        then true
        else false))
ai_error_stops_at_five_example = ai_error_stops_at_five slow (text "Slot-1") 7 false started

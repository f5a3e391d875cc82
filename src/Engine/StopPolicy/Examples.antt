-- ===== src/Engine/StopPolicy/Examples.antt =====
-- A run of two threads with two rows.
use survey_controller.Common.{
  ◌≤◌, ◌<◌, ◌≡◌, ◌⊎◌, ◌↔◌, inr, pos, clamp_0, true, false, ◌||◌, none, some, List, [], ◌∷◌, text,
  if◌then◌else◌, refl, arith, text_eq,
}
use survey_controller.Task.Defs.{named, thread_key}
use survey_controller.Task.Samples.{two_threads}
use survey_controller.Task.ReverseFill.{is_reverse_fill_target_unreachable}
use survey_controller.Engine.StopPolicy.{
  Failure, fill_failed, record_failure, record_success, give_back, count_failure, stop_threshold,
  set_stop, failure_threshold, is_wanted,
}
use survey_controller.Engine.StopPolicy.Frames.{counters}
use survey_controller.Engine.StopPolicy.Target.{IsWithinTarget, is_open, record_success_cases}
use survey_controller.Engine.StopPolicy.Failures.{streak, record_failure_cases}
use survey_controller.Engine.StopPolicy.Histories.{
  Event, success, failure, IsOrdinary, as_events, run-IsWithinTarget, run_stops_at_threshold,
}
use survey_controller.Engine.StopPolicy.Histories as Histories
use survey_controller.Engine.StopPolicy.Resources.{
  held_sample, held_row, is_sample_done, is_row_done,
}
use survey_controller.Engine.Samples.{started, started-HasUniqueHolders}
use survey_controller.Engine.StopPolicy.Settling.{record_failure_frees, record_success_commits}

abbrev submit_failed : Failure
submit_failed = record {
  thread_name = text "Slot-1";
  failure_reason = fill_failed;
  status_text = text "failed";
  log_message = [];
  threshold_override = none;
  terminal_stop_category = text "fail_threshold";
  force_stop_when_threshold_reached = false;
  consume_reverse_fill_attempt = true;
  reverse_fill_max_retries = pos 1;
}

wanted : is_wanted started ≡ true
unfolding is_wanted
wanted = refl

record_success_cases_example :
    (counters (record_success (text "Slot-1") [] [] 7 false started).state ≡ (
      if is_open started
      then record {
        config = two_threads;
        cur_num = 1;
        cur_fail = 0;
        proxy_unavailable_fail_count = 0;
      }
      else counters started))
    × (((record_success (text "Slot-1") [] [] 7 false started).stopped ≡ true)
        ↔ ((0 < clamp_0 (pos 2)) × (clamp_0 (pos 2) ≤ 1)))
    × ((record_success (text "Slot-1") [] [] 7 false started).stop
        ≡ (if (record_success (text "Slot-1") [] [] 7 false started).stopped then true else false))
record_success_cases_example = record_success_cases (text "Slot-1") [] [] 7 false started

record_failure_cases_example :
    (counters (record_failure submit_failed 7 (some false) started).0 ≡ record {
      config = two_threads;
      cur_num = 0;
      cur_fail = 1;
      proxy_unavailable_fail_count = 0;
    })
    × (((record_failure submit_failed 7 (some false) started).2 ≡ true) ↔ (
        (is_reverse_fill_target_unreachable
            (give_back submit_failed 7 (count_failure fill_failed started))
          ≡ true)
        ⊎ ((true || false) ≡ true)
          × (stop_threshold none two_threads ≤ streak fill_failed started)))
    × ((record_failure submit_failed 7 (some false) started).1 ≡ (
        if (record_failure submit_failed 7 (some false) started).2
        then set_stop (some false)
        else some false))
record_failure_cases_example = record_failure_cases submit_failed 7 (some false) started

record_failure_frees_example :
    (held_sample
        (thread_key (named (text "Slot-1")))
        (record_failure submit_failed 7 (some false) started).0
      ≡ none)
    × (held_row
          (thread_key (named (text "Slot-1")))
          (record_failure submit_failed 7 (some false) started).0
        ≡ none)
record_failure_frees_example =
    record_failure_frees submit_failed 7 (some false) started started-HasUniqueHolders refl

record_success_commits_example :
    (held_sample
        (thread_key (named (text "Slot-1")))
        (record_success (text "Slot-1") [] [] 7 false started).state
      ≡ none)
    × (held_row
          (thread_key (named (text "Slot-1")))
          (record_success (text "Slot-1") [] [] 7 false started).state
        ≡ none)
    × (is_sample_done
          (held_sample (thread_key (named (text "Slot-1"))) started)
          (record_success (text "Slot-1") [] [] 7 false started).state
        ≡ true)
    × (is_row_done
          (held_row (thread_key (named (text "Slot-1"))) started)
          (record_success (text "Slot-1") [] [] 7 false started).state
        ≡ true)
record_success_commits_example =
    record_success_commits (text "Slot-1") [] [] 7 false started started-HasUniqueHolders refl
      wanted

abbrev results : List Event
results =
    success (text "Slot-1") [] [] 7 false
    ∷ failure submit_failed 8 (some false)
    ∷ success (text "Slot-2") [] [] 9 false
    ∷ []

run-IsWithinTarget_example :
    IsWithinTarget (Histories.run started results)
    × ((Histories.run started results).config ≡ two_threads)
run-IsWithinTarget_example = run-IsWithinTarget started results (inr (omega arith))

reached : stop_threshold none two_threads ≤ 2
unfolding stop_threshold failure_threshold
reached = omega arith

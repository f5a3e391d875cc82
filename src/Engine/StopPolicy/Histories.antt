-- ===== src/Engine/StopPolicy/Histories.antt =====
-- Histories of successes and failures.
use survey_controller.Common.{
  ℕ, ◌+◌, ◌≤◌, ◌≡◌, ◌∙◌, ap, Bool, true, false, Option, List, [], ◌∷◌, Text, refl, arith, All,
  length, inr,
}
use survey_controller.Task.Defs.{ExecutionState}
use survey_controller.Engine.StopPolicy.{
  Failure, record_failure, record_success, is_proxy_unavailable, stop_threshold, set_stop,
}
use survey_controller.Engine.StopPolicy.Target.{record_success_cases, IsWithinTarget}
use survey_controller.Engine.StopPolicy.Failures.{record_failure_cases}

-- A history of results, by any threads at any times.
pub data Event : Type 0 where
  success : (thread_name status message : Text) (now : ℕ) (stop : Bool) → Event
  failure : (f : Failure) (now : ℕ) (stop : Option Bool) → Event

unfoldable pub step : ExecutionState → Event → ExecutionState
step s (success name status message now stop) =
    (record_success name status message now stop s).state
step s (failure f now stop) = (record_failure f now stop s).0

unfoldable pub run : ExecutionState → List Event → ExecutionState
run s [] = s
run s (event ∷ events) = run (step s event) events

step-IsWithinTarget :
    (s : ExecutionState) (event : Event)
    → IsWithinTarget s
    → IsWithinTarget (step s event) × ((step s event).config ≡ s.config)
unfolding step
step-IsWithinTarget s (success name status message now stop) v =
    let (same, _, _) = record_success_cases name status message now stop s in
    (
      ground (arith, ap (λ k. k.cur_num) same, ap (λ k. k.config) same),
      ground (arith, ap (λ k. k.config) same),
    )
step-IsWithinTarget s (failure f now stop) v =
    let (same, _, _) = record_failure_cases f now stop s in
    (ground (arith, ap (λ k. k.cur_num) same, ap (λ k. k.config) same), ap (λ k. k.config) same)

-- No history of successes and failures passes the target, if there is one, or changes the settings.
-- The target is not passed before.
pub run-IsWithinTarget :
    (s : ExecutionState) (events : List Event)
    → IsWithinTarget s
    → IsWithinTarget (run s events) × ((run s events).config ≡ s.config)
unfolding run
run-IsWithinTarget s [] v = (v, refl)
run-IsWithinTarget s (event ∷ events) v =
    let (w, e) = step-IsWithinTarget s event v in
    let (w', e') = run-IsWithinTarget (step s event) events w in (w', e' ∙ e)

-- A history of failures that are not failures to find a proxy.
abbrev pub IsOrdinary : Failure × ℕ × Option Bool → Type 0
IsOrdinary (f, now, stop) = is_proxy_unavailable f.failure_reason ≡ false

abbrev pub as_events : List (Failure × ℕ × Option Bool) → List Event
as_events [] = []
as_events ((f, now, stop) ∷ rest) = failure f now stop ∷ as_events rest

run-failures :
    (fs : List (Failure × ℕ × Option Bool)) (s : ExecutionState)
    → All IsOrdinary fs
    → ((run s (as_events fs)).cur_fail ≡ s.cur_fail + length fs)
      × ((run s (as_events fs)).config ≡ s.config)
unfolding run step
run-failures [] s ok = (omega arith, refl)
run-failures ((f, now, stop) ∷ fs) s ok =
    let (same, _, _) = record_failure_cases f now stop s in
    let (n, c) = run-failures fs (record_failure f now stop s).0 ok.1 in
    (ground (arith, n, ap (λ k. k.cur_fail) same, ok.0), c ∙ ap (λ k. k.config) same)

-- With the stop on failures enabled, the run stops no later than when the number of ordinary
-- failures in a row, with no success between them, reaches the threshold of the last one: that
-- failure's result is true and it sets the stop signal.
pub run_stops_at_threshold :
    (fs : List (Failure × ℕ × Option Bool)) (f : Failure) (now : ℕ) (stop : Option Bool)
    (s : ExecutionState)
    → All IsOrdinary ((f, now, stop) ∷ fs)
    → s.config.stop_on_fail_enabled ≡ true
    → stop_threshold f.threshold_override s.config ≤ s.cur_fail + length ((f, now, stop) ∷ fs)
    → let after = record_failure f now stop (run s (as_events fs)) in
      (after.2 ≡ true) × (after.1 ≡ set_stop stop)
run_stops_at_threshold fs f now stop s ok enabled reached =
    let (n, c) = run-failures fs s ok.1 in
    let (_, stops, sets) = record_failure_cases f now stop (run s (as_events fs)) in
    let stopped = stops.1 (
      inr (
        ground (arith, ap (λ k. k.stop_on_fail_enabled) c),
        ground (arith, ok.0, n, ap (stop_threshold f.threshold_override) c),
      )) in
    (stopped, rw stopped at sets)

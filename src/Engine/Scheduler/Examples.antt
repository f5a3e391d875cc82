-- ===== src/Engine/Scheduler/Examples.antt =====
-- A scheduler with two tokens.
use survey_controller.Common.{
  ℕ, ◌+◌, ◌≤◌, ◌≡◌, pos, clamp_1, true, false, List, [], ◌∷◌, ◌++◌, ltb, if◌then◌else◌, refl, All,
}
use survey_controller.Engine.Scheduler.{
  ScheduledToken, AsyncScheduler, sleeps, wake_delayed_tokens, sleep_for, pop_due,
}
use survey_controller.Engine.Scheduler.Waking.{
  IsOrdered, ids, due, resting, wake_moves_due, wake_is_in_time,
}
use survey_controller.Engine.Scheduler.Tokens.{
  Op, take, give, wake, run, start, places, run-conserves_tokens,
}

abbrev at : ℕ → ℕ → ℕ → ScheduledToken
at ready_at order token_id = record { ready_at = ready_at; order = order; token_id = token_id }

abbrev waiting : AsyncScheduler
waiting = record { ready = 2 ∷ []; delayed = at 40 1 1 ∷ at 90 0 0 ∷ []; order = 2; closed = false }

waiting_in_order : IsOrdered waiting.delayed
waiting_in_order = ((refl, tt), (tt, tt))

wake_moves_due_example :
    ((wake_delayed_tokens 50 waiting).0.ready ≡ waiting.ready ++ ids (due 50 waiting.delayed))
    × ((wake_delayed_tokens 50 waiting).0.delayed ≡ resting 50 waiting.delayed)
    × IsOrdered (wake_delayed_tokens 50 waiting).0.delayed
wake_moves_due_example = wake_moves_due 50 waiting refl waiting_in_order

sleeps_ten : (wake_delayed_tokens 30 waiting).1 ≡ sleeps 10
unfolding wake_delayed_tokens sleep_for pop_due
sleeps_ten = refl

wake_is_in_time_example : (10 ≤ 100) × All (λ t. 30 + 10 ≤ t.ready_at) waiting.delayed
wake_is_in_time_example = wake_is_in_time 30 10 waiting waiting_in_order sleeps_ten

abbrev rounds : List Op
rounds =
    take ∷ take ∷ give 0 true (pos 50) 10 ∷ take ∷ wake 70 ∷ take ∷ give 1 false (pos 0) 80 ∷ []

run-conserves_tokens_example :
    places 1 (run (start (pos 2)) rounds) ≡ (if ltb 1 (clamp_1 (pos 2)) then 1 else 0)
run-conserves_tokens_example = run-conserves_tokens (pos 2) rounds 1

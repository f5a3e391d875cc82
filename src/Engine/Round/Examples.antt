-- ===== src/Engine/Round/Examples.antt =====
-- Passes of two sessions.
use survey_controller.Common.{
  ◌≡◌, pos, true, false, none, text, is_some, refl, arith, text_eq, nat_eq, strip,
}
use survey_controller.Common.Dict.{lookup, insert, erase}
use survey_controller.Task.Defs.{named, thread_key, notify_runtime_change}
use survey_controller.Task.ReverseFill.{
  acquire_reverse_fill_sample, acquire_locked, reserve_next, next_queued,
  release_reverse_fill_sample, release_locked, load_samples,
}
use survey_controller.Task.Joint.{
  reserve_joint_sample, first_free, expire_stale_joint_sample_reservations, scan_stale,
  drop_reservations, requeue_rows, is_joint_sample_quota_exhausted,
}
use survey_controller.Engine.StopPolicy.{is_target_reached}
use survey_controller.Engine.StopPolicy.Resources.{held_row, held_sample}
use survey_controller.Engine.Samples.{started, started-HasUniqueHolders}
use survey_controller.Engine.Round.{
  ready, again, prepare_pass, reserve_resources, should_stop_loop, with_sample, without_sample,
  give_row_back,
}
use survey_controller.Engine.Round.Outcomes.{waits_empty_handed, starts_with_resources}

-- Slot-1 holds the only joint sample, so Slot-2 has to wait.
waits : (prepare_pass (text "Slot-2") (pos 1) 7 false started).pass ≡ again
unfolding prepare_pass reserve_resources should_stop_loop with_sample without_sample give_row_back
    is_target_reached reserve_joint_sample first_free expire_stale_joint_sample_reservations
    scan_stale drop_reservations requeue_rows is_joint_sample_quota_exhausted
    acquire_reverse_fill_sample acquire_locked reserve_next next_queued release_reverse_fill_sample
    release_locked load_samples lookup insert erase thread_key strip notify_runtime_change
waits = refl

waits_empty_handed_example :
    (held_sample
        (thread_key (named (text "Slot-2")))
        (prepare_pass (text "Slot-2") (pos 1) 7 false started).state
      ≡ none)
    × (held_row
          (thread_key (named (text "Slot-2")))
          (prepare_pass (text "Slot-2") (pos 1) 7 false started).state
        ≡ none)
waits_empty_handed_example =
    waits_empty_handed (text "Slot-2") (pos 1) 7 false started started-HasUniqueHolders
      (λ h. absurd (ground arith)) waits

starts : (prepare_pass (text "Slot-2") (pos 2) 7 false started).pass ≡ ready
unfolding prepare_pass reserve_resources should_stop_loop with_sample is_target_reached
    reserve_joint_sample first_free expire_stale_joint_sample_reservations scan_stale
    drop_reservations requeue_rows acquire_reverse_fill_sample acquire_locked reserve_next
    next_queued load_samples lookup insert thread_key strip
starts = refl

starts_with_resources_example :
    (is_some (
        held_sample
          (thread_key (named (text "Slot-2")))
          (prepare_pass (text "Slot-2") (pos 2) 7 false started).state)
      ≡ true)
    × (is_some (
          held_row
            (thread_key (named (text "Slot-2")))
            (prepare_pass (text "Slot-2") (pos 2) 7 false started).state)
        ≡ is_some (prepare_pass (text "Slot-2") (pos 2) 7 false started).state.reverse_fill_runtime)
starts_with_resources_example =
    starts_with_resources (text "Slot-2") (pos 2) 7 false started started-HasUniqueHolders
      (λ h. absurd (ground arith)) starts

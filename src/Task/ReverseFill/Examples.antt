-- ===== src/Task/ReverseFill/Examples.antt =====
-- The rows of a sheet with two rows, and two threads.
use survey_controller.Common.{
  ℕ, ◌+◌, ◌≤◌, ◌<◌, ◌≡◌, ◌≢◌, ◌↔◌, ◌⊎◌, inr, clamp_0, pos, true, false, some, List, [], ◌∷◌, Text,
  text, length, contains, count, refl, arith, nat_beq_iff, nat_eq, text_eq, All,
}
use survey_controller.Common.Dict.{lookup, insert}
use survey_controller.Task.Defs.{ExecutionState, ReverseFillSampleRow}
use survey_controller.Task.Samples.{two_rows, fresh}
use survey_controller.Task.ReverseFill.{
  acquire_locked, acquired_with, is_reverse_fill_target_unreachable, reserve_next, next_queued,
  load_samples,
}
use survey_controller.Task.ReverseFill.Places.{places}
use survey_controller.Task.ReverseFill.Steps.{
  Op, acquire, commit, fail, step, run, loaded, rows, HaveDistinctRows, KeepsRow, loaded-IsPlaced,
  run-conserves_rows, run-exclusive,
}
use survey_controller.Task.ReverseFill.Retries.{failures, UsesLimit, run-retries}
use survey_controller.Task.ReverseFill.Standing.{Life, Standing, Stands, is_settled}
use survey_controller.Task.ReverseFill.LifeCycle.{run-Life}
use survey_controller.Task.ReverseFill.Totals.{target_unreachable_iff, acquire_succeeds}

two_rows_distinct : HaveDistinctRows two_rows.samples
two_rows_distinct a = ground (arith, nat_beq_iff 2 a, nat_beq_iff 3 a)

-- The first thread fails twice with row 2, the second commits row 3.
abbrev history : List Op
history =
    acquire (pos 2) 0 (text "Slot-1")
    ∷ acquire (pos 2) 0 (text "Slot-2")
    ∷ fail (text "Slot-1") (pos 1)
    ∷ acquire (pos 2) 0 (text "Slot-1")
    ∷ commit (text "Slot-2")
    ∷ fail (text "Slot-1") (pos 1)
    ∷ []

history-KeepsRow : All KeepsRow history
history-KeepsRow = (tt, (tt, (tt, (tt, (tt, (tt, tt))))))

history-UsesLimit : All (UsesLimit (pos 1)) history
history-UsesLimit = (tt, (tt, (refl, (tt, (tt, (refl, tt))))))

run-conserves_rows_example :
    places 2 (run (loaded two_rows) history) ≡ count 2 (rows two_rows.samples)
run-conserves_rows_example =
    run-conserves_rows two_rows history 2 two_rows_distinct history-KeepsRow

run-retries_example :
    (failures 2 (run (loaded two_rows) history) ≤ 2)
    × ((contains 2 (run (loaded two_rows) history).discarded_row_numbers ≡ true)
        ↔ (failures 2 (run (loaded two_rows) history) ≡ 2))
run-retries_example = run-retries (pos 1) two_rows history 2 two_rows_distinct history-UsesLimit

abbrev first_op : List Op
first_op = acquire (pos 2) 0 (text "Slot-1") ∷ []

held_two : lookup (text "Slot-1") (run (loaded two_rows) first_op).reserved_row_by_thread ≡ some 2
unfolding lookup insert run step acquire_locked reserve_next next_queued load_samples
held_two = refl

run-exclusive_example :
    (text "Slot-1" ≡ text "Slot-1")
    × (contains 2 (run (loaded two_rows) first_op).committed_row_numbers ≡ false)
    × (contains 2 (run (loaded two_rows) first_op).discarded_row_numbers ≡ false)
    × (contains 2 (run (loaded two_rows) first_op).queued_row_numbers ≡ false)
run-exclusive_example =
    run-exclusive two_rows first_op (text "Slot-1") (text "Slot-1") 2 two_rows_distinct held_two
      held_two

abbrev after_history : ExecutionState
after_history = record fresh { reverse_fill_runtime = some (run (loaded two_rows) history) }

target_unreachable_iff_example :
    (is_reverse_fill_target_unreachable after_history ≡ true)
    ↔ (0 + length two_rows.samples
        < clamp_0 (pos 2)
          + length (run (loaded two_rows) history).committed_row_numbers
          + length (run (loaded two_rows) history).discarded_row_numbers)
      × (0 < clamp_0 (pos 2))
target_unreachable_iff_example =
    target_unreachable_iff two_rows history after_history two_rows_distinct history-KeepsRow refl

queued : (loaded two_rows).queued_row_numbers ≢ []
unfolding load_samples
queued e = ground arith

acquire_succeeds_example :
    (row : ℕ) × (sample : ReverseFillSampleRow) × (message : Text) × (lookup
        (text "Slot-1")
        (acquire_locked (pos 2) 0 (text "Slot-1") (loaded two_rows)).0.reserved_row_by_thread
      ≡ some row)
    × (lookup row
          (acquire_locked (pos 2) 0 (text "Slot-1") (loaded two_rows)).0.samples_by_row_number
        ≡ some sample)
    × ((acquire_locked (pos 2) 0 (text "Slot-1") (loaded two_rows)).1
        ≡ acquired_with sample message)
    × (acquire_locked
          (pos 2)
          0
          (text "Slot-1")
          (acquire_locked (pos 2) 0 (text "Slot-1") (loaded two_rows)).0
        ≡ (
          (acquire_locked (pos 2) 0 (text "Slot-1") (loaded two_rows)).0,
          acquired_with sample (text "already_reserved"),
        ))
acquire_succeeds_example =
    acquire_succeeds (pos 2) 0 (text "Slot-1") (loaded two_rows)
      (loaded-IsPlaced two_rows two_rows_distinct) (inr queued)

-- Row 2 goes from the queue to Slot-1 and back, is taken again and discarded.
run-Life_example :
    (t : Standing) × Life history Standing.queued t
    × Stands 2 (run (loaded two_rows) history) t
    × ((is_settled Standing.queued ≡ false) ⊎ (t ≡ Standing.queued))
unfolding load_samples
run-Life_example =
    run-Life (loaded two_rows) history 2 Standing.queued
      (loaded-IsPlaced two_rows two_rows_distinct) (refl, refl, refl, refl)

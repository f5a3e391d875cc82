-- ===== src/Task/ReverseFill/Totals.antt =====
-- How many copies the run can still reach, and when it gives up.
use survey_controller.Common.{
  ℕ, ◌+◌, ◌<◌, ◌≡◌, ◌≢◌, ◌⊎◌, ==_self, ◌↔◌, ℤ, clamp_0, true, none, some, List, [], ◌∷◌, ◌++◌, ◌∙◌,
  Text, text, length, length-append, nat_eq, text_eq, refl, arith, Option-cases, inl, inr, All,
}
use survey_controller.Common.Dict.{
  lookup, insert, length-insert_new, length-erase_hit, lookup-insert,
}
use survey_controller.Common.PySet.{add}
use survey_controller.Task.Defs.{
  ReverseFillRuntimeState, ReverseFillSampleRow, ReverseFillSpec, ExecutionState,
  ReverseFillAcquireResult,
}
use survey_controller.Task.ReverseFill.{
  acquire_locked, release_locked, commit_locked, failed_locked, load_samples, empty_runtime,
  possible_total, acquired_with, is_reverse_fill_target_unreachable,
}
use survey_controller.Task.ReverseFill.Places.{
  IsPlaced, Acquires, kept, taken, empty, acquire_locked-Acquires, free_of,
}
use survey_controller.Task.ReverseFill.Steps.{
  Op, acquire, release, commit, fail, step, run, step-IsPlaced, loaded, loaded-IsPlaced,
  HaveDistinctRows, KeepsRow,
}

-- The rows in all four places.
abbrev pub size : ReverseFillRuntimeState → ℕ
size r =
    length r.queued_row_numbers
    + length r.reserved_row_by_thread
    + length r.committed_row_numbers
    + length r.discarded_row_numbers

acquired-size :
    (target : ℤ) (cur : ℕ) (key : Text) (r : ReverseFillRuntimeState) (after : _)
    → Acquires target cur key r after
    → size after.0 ≡ size r
acquired-size target cur key r after (kept row sample e e' eq) = rw eq refl
acquired-size target cur key r after (taken row rest sample e h e' eq) =
    rw (eq, h) (omega (arith, length-insert_new key row r.reserved_row_by_thread e))
acquired-size target cur key r after (empty e h eq) = rw eq refl

module _ (r : ReverseFillRuntimeState) (v : IsPlaced r) where
  release_locked-size : (key : Text) → size (release_locked key true r).0 ≡ size r
  unfolding release_locked
  release_locked-size key = elim (Option-cases (lookup key r.reserved_row_by_thread)) [
    | inl e ↦ rw (e, release_locked) refl
    | inr (row, e) ↦
        let (c, d, q) = free_of r v key row e in
        rw (e, c, d, release_locked)
          (omega (arith, length-erase_hit key row r.reserved_row_by_thread e))
  ]

  commit_locked-size : (key : Text) → size (commit_locked key r).0 ≡ size r
  unfolding commit_locked add
  commit_locked-size key = elim (Option-cases (lookup key r.reserved_row_by_thread)) [
    | inl e ↦ rw (e, commit_locked) refl
    | inr (row, e) ↦
        let (c, d, q) = free_of r v key row e in
        rw (e, commit_locked, c)
          (omega (arith, length-erase_hit key row r.reserved_row_by_thread e))
  ]

  failed_locked-size : (key : Text) (m : ℤ) → size (failed_locked key m r).0 ≡ size r
  unfolding failed_locked add
  failed_locked-size key m = elim (Option-cases (lookup key r.reserved_row_by_thread)) [
    | inl e ↦ rw (e, failed_locked) refl
    | inr (row, e) ↦
        let (c, d, q) = free_of r v key row e in
        rw (e, failed_locked, d)
          (ground (arith, length-erase_hit key row r.reserved_row_by_thread e))
  ]

  size-step : (op : Op) → KeepsRow op → size (step r op) ≡ size r
  unfolding step
  size-step (acquire target cur key) k =
      acquired-size target cur key r _ (acquire_locked-Acquires r v target cur key)
  size-step (release key requeue) k = rw k (release_locked-size key)
  size-step (commit key) k = commit_locked-size key
  size-step (fail key m) k = failed_locked-size key m

size-run :
    (r : ReverseFillRuntimeState) (ops : List Op)
    → IsPlaced r
    → All KeepsRow ops
    → size (run r ops) ≡ size r
unfolding run
size-run r [] v k = refl
size-run r (op ∷ ops) v k =
    size-run (step r op) ops (step-IsPlaced r op v) k.1 ∙ size-step r v op k.0

size-load_samples :
    (samples : List ReverseFillSampleRow) (r : ReverseFillRuntimeState)
    → size (load_samples samples r) ≡ size r + length samples
unfolding load_samples
size-load_samples [] r = omega arith
size-load_samples (sample ∷ samples) r = omega (
  arith,
  size-load_samples samples (record r {
    samples_by_row_number = insert sample.data_row_number sample r.samples_by_row_number;
    queued_row_numbers = r.queued_row_numbers ++ sample.data_row_number ∷ [];
  }),
  length-append r.queued_row_numbers (sample.data_row_number ∷ []),
)

-- After any history of a run with distinct rows in which no release drops its row, the run gives up
-- exactly if there is a target and the copies done, with the rows neither committed nor discarded,
-- fall short of it.
pub target_unreachable_iff :
    (spec : ReverseFillSpec) (ops : List Op) (s : ExecutionState)
    → HaveDistinctRows spec.samples
    → All KeepsRow ops
    → s.reverse_fill_runtime ≡ some (run (loaded spec) ops)
    → (is_reverse_fill_target_unreachable s ≡ true)
      ↔ (s.cur_num + length spec.samples
          < clamp_0 s.config.target_num
            + length (run (loaded spec) ops).committed_row_numbers
            + length (run (loaded spec) ops).discarded_row_numbers)
        × (0 < clamp_0 s.config.target_num)
unfolding is_reverse_fill_target_unreachable possible_total
target_unreachable_iff spec ops s d k h =
    let total = size-run (loaded spec) ops (loaded-IsPlaced spec d) k in
    let start = size-load_samples spec.samples (empty_runtime spec) in
    (λ e. ground arith, λ e. ground arith)

Acquires-holds :
    (target : ℤ) (cur : ℕ) (key : Text) (r : ReverseFillRuntimeState)
    (after : ReverseFillRuntimeState × ReverseFillAcquireResult)
    → Acquires target cur key r after
    → (lookup key r.reserved_row_by_thread ≢ none) ⊎ (r.queued_row_numbers ≢ [])
    → (row : ℕ) × (sample : ReverseFillSampleRow) × (message : Text) × (lookup key
          after.0.reserved_row_by_thread
        ≡ some row)
      × (lookup row after.0.samples_by_row_number ≡ some sample)
      × (after.1 ≡ acquired_with sample message)
Acquires-holds target cur key r after (kept row sample e e' eq) free =
    (row, sample, text "already_reserved", rw eq e, rw eq e', rw eq refl)
Acquires-holds target cur key r after (taken row rest sample e h e' eq) free = (
  row,
  sample,
  text "reserved",
  rw (eq, lookup-insert key key row r.reserved_row_by_thread, ==_self key) refl,
  rw eq e',
  rw eq refl,
)
Acquires-holds target cur key r after (empty e h eq) (inl held) = absurd (held e)
Acquires-holds target cur key r after (empty e h eq) (inr queued) = absurd (queued h)

acquire_again :
    (target : ℤ) (cur : ℕ) (key : Text) (r : ReverseFillRuntimeState) (row : ℕ)
    (sample : ReverseFillSampleRow)
    → lookup key r.reserved_row_by_thread ≡ some row
    → lookup row r.samples_by_row_number ≡ some sample
    → acquire_locked target cur key r ≡ (r, acquired_with sample (text "already_reserved"))
acquire_again target cur key r row sample e e' =
    unfold acquire_locked in rw (e, acquire_locked, e') refl

-- If the thread holds a row or a row is queued, `acquire` succeeds: afterwards the thread holds a
-- row, the result is that row's sample, and to acquire again gives the same sample and changes
-- nothing. The rows are in their places.
pub acquire_succeeds :
    (target : ℤ) (cur : ℕ) (key : Text) (r : ReverseFillRuntimeState)
    → IsPlaced r
    → (lookup key r.reserved_row_by_thread ≢ none) ⊎ (r.queued_row_numbers ≢ [])
    → (row : ℕ) × (sample : ReverseFillSampleRow) × (message : Text) × (lookup key
          (acquire_locked target cur key r).0.reserved_row_by_thread
        ≡ some row)
      × (lookup row (acquire_locked target cur key r).0.samples_by_row_number ≡ some sample)
      × ((acquire_locked target cur key r).1 ≡ acquired_with sample message)
      × (acquire_locked target cur key (acquire_locked target cur key r).0
          ≡ ((acquire_locked target cur key r).0, acquired_with sample (text "already_reserved")))
acquire_succeeds target cur key r v free =
    let (row, sample, message, e, e', eq) =
      Acquires-holds target cur key r _ (acquire_locked-Acquires r v target cur key) free in
    (row, sample, message, e, e', eq, acquire_again target cur key _ row sample e e')

-- ===== src/Task/ReverseFill/Places.antt =====
-- Where a row is: queued, reserved by a thread, committed or discarded.
use survey_controller.Common.{
  ℕ, ◌+◌, ◌≤◌, ◌≡◌, text, ℤ, true, false, none, some, List, [], ◌∷◌, Text, count, contains, ◌==◌,
  if◌then◌else◌, nat_eq, text_eq, refl, arith, Option-cases, Bool-cases, inl, inr, is_some,
  contains-count, nat_beq_iff,
}
use survey_controller.Common.Dict.{
  lookup, insert, values, HasUniqueKeys, count-erase_hit, count_pos_of_lookup, count_two,
}
use survey_controller.Common.PySet.{add}
use survey_controller.Task.Defs.{
  ReverseFillAcquireResult, ReverseFillRuntimeState, ReverseFillSampleRow,
}
use survey_controller.Task.ReverseFill.{
  next_queued, reserve_next, acquire_locked, release_locked, commit_locked, failed_locked,
  acquired_with, no_row_left, possible_total,
}

abbrev pub places : ℕ → ReverseFillRuntimeState → ℕ
places row r =
    count row r.queued_row_numbers
    + count row (values r.reserved_row_by_thread)
    + count row r.committed_row_numbers
    + count row r.discarded_row_numbers

abbrev pub known : ℕ → ReverseFillRuntimeState → ℕ
known row r = if is_some (lookup row r.samples_by_row_number) then 1 else 0

-- A row with a sample is in one place at most, once; no other row is anywhere.
pub record IsPlaced (r : ReverseFillRuntimeState) : Type 0 where
  pub placed : (row : ℕ) → places row r ≤ known row r
  pub unique : HasUniqueKeys r.reserved_row_by_thread

-- What `acquire` may do to a runtime: keep the row that the thread holds, take the first in the
-- queue, or find the queue empty.
pub data Acquires (target : ℤ) (cur : ℕ) (key : Text) (r : ReverseFillRuntimeState)
    (after : ReverseFillRuntimeState × ReverseFillAcquireResult) : Type 0 where
  kept :
      (row : ℕ) (sample : ReverseFillSampleRow)
      → lookup key r.reserved_row_by_thread ≡ some row
      → lookup row r.samples_by_row_number ≡ some sample
      → after ≡ (r, acquired_with sample (text "already_reserved"))
      → Acquires target cur key r after
  taken :
      (row : ℕ) (rest : List ℕ) (sample : ReverseFillSampleRow)
      → lookup key r.reserved_row_by_thread ≡ none
      → r.queued_row_numbers ≡ row ∷ rest
      → lookup row r.samples_by_row_number ≡ some sample
      → after ≡ (
        record r {
          queued_row_numbers = rest;
          reserved_row_by_thread = insert key row r.reserved_row_by_thread;
        },
        acquired_with sample (text "reserved"),
      )
      → Acquires target cur key r after
  empty :
      lookup key r.reserved_row_by_thread ≡ none
      → r.queued_row_numbers ≡ []
      → after ≡ (r, no_row_left target (possible_total cur r))
      → Acquires target cur key r after

module _ (r : ReverseFillRuntimeState) (v : IsPlaced r) where
  -- Under the invariant each row that a thread holds has its sample.
  pub reserved_known :
      (key : Text) (row : ℕ)
      → lookup key r.reserved_row_by_thread ≡ some row
      → is_some (lookup row r.samples_by_row_number) ≡ true
  reserved_known key row h =
      ground (arith, v.placed row, count_pos_of_lookup key row r.reserved_row_by_thread)

  pub head_known :
      (row : ℕ) (rest : List ℕ)
      → r.queued_row_numbers ≡ row ∷ rest
      → is_some (lookup row r.samples_by_row_number) ≡ true
  head_known row rest h = ground (arith, v.placed row, nat_beq_iff row row)

  reserved_once :
      (key : Text) (row : ℕ)
      → lookup key r.reserved_row_by_thread ≡ some row
      → (count row r.queued_row_numbers ≡ 0)
        × (count row r.committed_row_numbers ≡ 0)
        × (count row r.discarded_row_numbers ≡ 0)
  reserved_once key row h =
      ground (arith, v.placed row, count_pos_of_lookup key row r.reserved_row_by_thread)

  not_contained : (row : ℕ) (rows : List ℕ) → count row rows ≡ 0 → contains row rows ≡ false
  not_contained row rows h = elim (Bool-cases (contains row rows)) [
    | inl found ↦ absurd (omega (arith, contains-count row rows found))
    | inr absent ↦ absent
  ]

  pub free_of :
      (key : Text) (row : ℕ)
      → lookup key r.reserved_row_by_thread ≡ some row
      → (contains row r.committed_row_numbers ≡ false)
        × (contains row r.discarded_row_numbers ≡ false)
        × (contains row r.queued_row_numbers ≡ false)
  free_of key row h =
      let (q, c, d) = reserved_once key row h in
      (
        not_contained row r.committed_row_numbers c,
        not_contained row r.discarded_row_numbers d,
        not_contained row r.queued_row_numbers q,
      )

  pub same_key :
      (j : Text) (row : ℕ)
      → lookup j r.reserved_row_by_thread ≡ some row
      → (k : Text) → lookup k r.reserved_row_by_thread ≡ some row
      → (j == k) ≡ true
  same_key j row h k g = elim (Bool-cases (j == k)) [
    | inl same ↦ same
    | inr other ↦
        absurd (ground (arith, v.placed row, count_two j k row r.reserved_row_by_thread other h g))
  ]

  pub release_locked-places :
      (key : Text) (a : ℕ) → places a (release_locked key true r).0 ≡ places a r
  unfolding release_locked
  release_locked-places key a = elim (Option-cases (lookup key r.reserved_row_by_thread)) [
    | inl e ↦ rw (e, release_locked) refl
    | inr (row, e) ↦
        let (c, d, q) = free_of key row e in
        rw (e, c, d, release_locked)
          (ground (arith, count-erase_hit key row a r.reserved_row_by_thread e))
  ]

  pub commit_locked-places : (key : Text) (a : ℕ) → places a (commit_locked key r).0 ≡ places a r
  unfolding commit_locked add
  commit_locked-places key a = elim (Option-cases (lookup key r.reserved_row_by_thread)) [
    | inl e ↦ rw (e, commit_locked) refl
    | inr (row, e) ↦
        let (c, d, q) = free_of key row e in
        rw (e, commit_locked, c)
          (ground (arith, count-erase_hit key row a r.reserved_row_by_thread e))
  ]

  pub failed_locked-places :
      (key : Text) (m : ℤ) (a : ℕ) → places a (failed_locked key m r).0 ≡ places a r
  unfolding failed_locked add
  failed_locked-places key m a = elim (Option-cases (lookup key r.reserved_row_by_thread)) [
    | inl e ↦ rw (e, failed_locked) refl
    | inr (row, e) ↦
        let (c, d, q) = free_of key row e in
        rw (e, failed_locked, d)
          (ground (arith, count-erase_hit key row a r.reserved_row_by_thread e))
  ]

  next_queued_lem :
      (row : ℕ) (rest : List ℕ)
      → r.queued_row_numbers ≡ row ∷ rest
      → (sample : ReverseFillSampleRow) × (lookup row r.samples_by_row_number ≡ some sample)
        × (next_queued r.samples_by_row_number r.queued_row_numbers ≡ (some (row, sample), rest))
  unfolding next_queued
  next_queued_lem row rest h = elim (Option-cases (lookup row r.samples_by_row_number)) [
    | inl e ↦ absurd (ground (arith, head_known row rest h))
    | inr (sample, e) ↦ (sample, e, rw (h, e, next_queued) refl)
  ]

  reserve_next_empty :
      (target : ℤ) (cur : ℕ) (key : Text)
      → r.queued_row_numbers ≡ []
      → reserve_next target cur key r ≡ (r, no_row_left target (possible_total cur r))
  unfolding reserve_next next_queued
  reserve_next_empty target cur key h = ground arith

  reserve_next-Acquires :
      (target : ℤ) (cur : ℕ) (key : Text) (q : List ℕ)
      → lookup key r.reserved_row_by_thread ≡ none
      → r.queued_row_numbers ≡ q
      → Acquires target cur key r (reserve_next target cur key r)
  unfolding reserve_next
  reserve_next-Acquires target cur key [] e h = empty e h (reserve_next_empty target cur key h)
  reserve_next-Acquires target cur key (row ∷ rest) e h =
      let (sample, known_sample, found) = next_queued_lem row rest h in
      taken row rest sample e h known_sample (ground arith)

  pub acquire_locked-Acquires :
      (target : ℤ) (cur : ℕ) (key : Text)
      → Acquires target cur key r (acquire_locked target cur key r)
  unfolding acquire_locked
  acquire_locked-Acquires target cur key =
      elim (Option-cases (lookup key r.reserved_row_by_thread)) [
        | inr (row, e) ↦ elim (Option-cases (lookup row r.samples_by_row_number)) [
          | inr (sample, e') ↦ kept row sample e e' (rw (e, acquire_locked, e') refl)
          | inl e' ↦ absurd (ground (arith, reserved_known key row e))
        ]
        | inl e ↦ rw (e, acquire_locked) (reserve_next-Acquires target cur key _ e refl)
      ]

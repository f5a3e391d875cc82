-- ===== src/Engine/Round/Holding.antt =====
-- What expiry and the reservation of a row do to the tables of reservations.
use survey_controller.Common.{
  ℕ, zero, suc, ◌≡◌, ◌∙◌, ap, sym, subst, refl, arith, ℤ, clamp_0, Bool, true, false, not, none,
  some, List, [], ◌∷◌, Text, is_some, Option-cases, inl, inr, text_eq, nat_eq, text_beq_iff,
}
use survey_controller.Common.Dict.{
  Dict, lookup, erase, HasUniqueKeys, insert-HasUniqueKeys, erase-HasUniqueKeys, lookup-insert,
  lookup-erase_self, erase_keeps_absent,
}
use survey_controller.Task.Defs.{
  ExecutionState, Caller, named, thread_key, notify_runtime_change, AcquireStatus, acquired,
  disabled, ReverseFillRuntimeState,
}
use survey_controller.Task.ReverseFill.{
  acquire_reverse_fill_sample, acquire_locked, reserve_next, next_queued, no_row_left,
  release_reverse_fill_sample, release_locked,
}
use survey_controller.Task.Joint.{
  scan_stale, drop_reservation, drop_reservations, requeue_rows, notify_if,
  expire_stale_joint_sample_reservations,
}
use survey_controller.Engine.StopPolicy.Resources.{
  Tables, tables, HasUniqueHolders, RowsAreUnique, held_row, held_sample, samples-release_row,
}

pub holders_of :
    (s t : ExecutionState) → tables t ≡ tables s → HasUniqueHolders s → HasUniqueHolders t
holders_of s t e u = record {
  samples = subst (λ (x : Tables). HasUniqueKeys x.samples) (sym e) u.samples;
  rows = subst (λ (x : Tables). RowsAreUnique x.runtime) (sym e) u.rows;
}

tables-scan_stale :
    (now age : ℕ) (entries : Dict Text ℕ) (s : ExecutionState)
    → tables (scan_stale now age entries s).0 ≡ tables s
unfolding scan_stale
tables-scan_stale now age [] s = refl
tables-scan_stale now age ((key, t) ∷ entries) s = tables-scan_stale now age entries _

drop_reservations_unique :
    (keys : List Text) (s : ExecutionState)
    → HasUniqueHolders s
    → HasUniqueHolders (drop_reservations keys s)
unfolding drop_reservations drop_reservation
drop_reservations_unique [] s u = u
drop_reservations_unique (key ∷ keys) s u = drop_reservations_unique keys _ (record {
  samples = erase-HasUniqueKeys key s.joint_reserved_sample_by_thread u.samples;
  rows = u.rows;
})

release_locked_unique :
    (key : Text) (requeue : Bool) (r : ReverseFillRuntimeState)
    → HasUniqueKeys r.reserved_row_by_thread
    → HasUniqueKeys (release_locked key requeue r).0.reserved_row_by_thread
unfolding release_locked
release_locked_unique key requeue r u =
    ground (arith, erase-HasUniqueKeys key r.reserved_row_by_thread u)

runtime-release :
    (c : Caller) (requeue : Bool) (s : ExecutionState) (r : ReverseFillRuntimeState)
    → s.reverse_fill_runtime ≡ some r
    → (release_reverse_fill_sample c requeue s).0.reverse_fill_runtime
      ≡ some (release_locked (thread_key c) requeue r).0
unfolding release_reverse_fill_sample notify_runtime_change
runtime-release c requeue s r e = ground arith

runtime-release_none :
    (c : Caller) (requeue : Bool) (s : ExecutionState)
    → s.reverse_fill_runtime ≡ none
    → (release_reverse_fill_sample c requeue s).0.reverse_fill_runtime ≡ none
unfolding release_reverse_fill_sample
runtime-release_none c requeue s e = ground arith

runtime-acquire :
    (c : Caller) (s : ExecutionState) (r : ReverseFillRuntimeState)
    → s.reverse_fill_runtime ≡ some r
    → let (r', result) = acquire_locked s.config.target_num s.cur_num (thread_key c) r in
      ((acquire_reverse_fill_sample c s).0.reverse_fill_runtime ≡ some r')
      × ((acquire_reverse_fill_sample c s).1 ≡ result)
      × ((acquire_reverse_fill_sample c s).0.joint_reserved_sample_by_thread
          ≡ s.joint_reserved_sample_by_thread)
unfolding acquire_reverse_fill_sample
runtime-acquire c s r e = ground arith

runtime-acquire_none :
    (c : Caller) (s : ExecutionState)
    → s.reverse_fill_runtime ≡ none
    → ((acquire_reverse_fill_sample c s).0 ≡ s)
      × ((acquire_reverse_fill_sample c s).1.status ≡ disabled)
unfolding acquire_reverse_fill_sample
runtime-acquire_none c s e = ground arith

pub release_row_unique :
    (c : Caller) (requeue : Bool) (s : ExecutionState)
    → HasUniqueHolders s
    → HasUniqueHolders (release_reverse_fill_sample c requeue s).0
release_row_unique c requeue s u = record {
  samples = rw (samples-release_row c requeue s) u.samples;
  rows = elim (Option-cases s.reverse_fill_runtime) [
    | inl e ↦ rw (runtime-release_none c requeue s e) tt
    | inr (r, e) ↦
        rw (runtime-release c requeue s r e)
          (release_locked_unique (thread_key c) requeue r (rw e at u.rows))
  ];
}

requeue_rows_unique :
    (keys : List Text) (s : ExecutionState)
    → HasUniqueHolders s
    → HasUniqueHolders (requeue_rows keys s)
unfolding requeue_rows
requeue_rows_unique [] s u = u
requeue_rows_unique (key ∷ keys) s u =
    requeue_rows_unique keys _ (release_row_unique (named key) true s u)

notify_if_unique :
    (keys : List Text) (s : ExecutionState)
    → HasUniqueHolders s
    → HasUniqueHolders (notify_if keys s)
unfolding notify_runtime_change
notify_if_unique [] s u = u
notify_if_unique (key ∷ keys) s u = record { samples = u.samples; rows = u.rows }

expire_unique_of :
    (max_age : ℤ) (now t : ℕ) (s : ExecutionState)
    → clamp_0 max_age ≡ t
    → HasUniqueHolders s
    → HasUniqueHolders (expire_stale_joint_sample_reservations max_age now s).0
unfolding expire_stale_joint_sample_reservations
expire_unique_of max_age now zero s e u = rw (e, expire_stale_joint_sample_reservations) u
expire_unique_of max_age now (suc age) s e u =
    let scanned = scan_stale now (suc age) s.joint_reserved_sample_started_at_by_thread s in
    rw (e, expire_stale_joint_sample_reservations)
      (notify_if_unique scanned.1 _ (
        requeue_rows_unique scanned.1 _ (
          drop_reservations_unique scanned.1 scanned.0
            (holders_of s scanned.0 (tables-scan_stale now (suc age) _ s) u))))

pub expire_unique :
    (max_age : ℤ) (now : ℕ) (s : ExecutionState)
    → HasUniqueHolders s
    → HasUniqueHolders (expire_stale_joint_sample_reservations max_age now s).0
expire_unique max_age now s u = expire_unique_of max_age now (clamp_0 max_age) s refl u

absent-drop_reservations :
    (keys : List Text) (k : Text) (s : ExecutionState)
    → held_sample k s ≡ none
    → held_sample k (drop_reservations keys s) ≡ none
unfolding drop_reservations drop_reservation
absent-drop_reservations [] k s h = h
absent-drop_reservations (key ∷ keys) k s h =
    absent-drop_reservations keys k _ (erase_keeps_absent key k s.joint_reserved_sample_by_thread h)

samples-requeue_rows :
    (keys : List Text) (s : ExecutionState)
    → (requeue_rows keys s).joint_reserved_sample_by_thread ≡ s.joint_reserved_sample_by_thread
unfolding requeue_rows
samples-requeue_rows [] s = refl
samples-requeue_rows (key ∷ keys) s =
    samples-requeue_rows keys _ ∙ samples-release_row (named key) true s

samples-notify_if :
    (keys : List Text) (s : ExecutionState)
    → (notify_if keys s).joint_reserved_sample_by_thread ≡ s.joint_reserved_sample_by_thread
unfolding notify_runtime_change
samples-notify_if [] s = refl
samples-notify_if (key ∷ keys) s = refl

expire_absent_of :
    (max_age : ℤ) (now t : ℕ) (k : Text) (s : ExecutionState)
    → clamp_0 max_age ≡ t
    → held_sample k s ≡ none
    → held_sample k (expire_stale_joint_sample_reservations max_age now s).0 ≡ none
unfolding expire_stale_joint_sample_reservations
expire_absent_of max_age now zero k s e h = rw (e, expire_stale_joint_sample_reservations) h
expire_absent_of max_age now (suc age) k s e h =
    let (scanned, keys) = scan_stale now (suc age) s.joint_reserved_sample_started_at_by_thread s in
    let same = tables-scan_stale now (suc age) s.joint_reserved_sample_started_at_by_thread s in
    let dropped = drop_reservations keys scanned in
    rw (e, expire_stale_joint_sample_reservations)
      (ap (lookup k)
          (samples-notify_if keys (requeue_rows keys dropped) ∙ samples-requeue_rows keys dropped)
        ∙ absent-drop_reservations keys k scanned
            (ap (λ (x : Tables). lookup k x.samples) same ∙ h))

-- Expiry gives no thread a joint sample.
pub expire_absent :
    (max_age : ℤ) (now : ℕ) (k : Text) (s : ExecutionState)
    → held_sample k s ≡ none
    → held_sample k (expire_stale_joint_sample_reservations max_age now s).0 ≡ none
expire_absent max_age now k s h = expire_absent_of max_age now (clamp_0 max_age) k s refl h

abbrev pub is_acquired : AcquireStatus → Bool
is_acquired acquired = true
is_acquired _ = false

abbrev pub is_disabled : AcquireStatus → Bool
is_disabled disabled = true
is_disabled _ = false

reserve_next_holds :
    (target : ℤ) (cur : ℕ) (key : Text) (r : ReverseFillRuntimeState)
    → HasUniqueKeys r.reserved_row_by_thread
    → lookup key r.reserved_row_by_thread ≡ none
    → HasUniqueKeys (reserve_next target cur key r).0.reserved_row_by_thread
      × (is_some (lookup key (reserve_next target cur key r).0.reserved_row_by_thread)
          ≡ is_acquired (reserve_next target cur key r).1.status)
      × (is_disabled (reserve_next target cur key r).1.status ≡ false)
unfolding reserve_next no_row_left
reserve_next_holds target cur key r u h =
    elim (Option-cases (next_queued r.samples_by_row_number r.queued_row_numbers).0) [
      | inl e ↦ rw (e, reserve_next) (u, ground (arith, h), ground arith)
      | inr ((row, sample), e) ↦
          rw (e, reserve_next)
            (
              insert-HasUniqueKeys key row r.reserved_row_by_thread u,
              ground
                  (arith, lookup-insert key key row r.reserved_row_by_thread, text_beq_iff key key),
              refl,
            )
    ]

acquire_locked_holds :
    (target : ℤ) (cur : ℕ) (key : Text) (r : ReverseFillRuntimeState)
    → HasUniqueKeys r.reserved_row_by_thread
    → HasUniqueKeys (acquire_locked target cur key r).0.reserved_row_by_thread
      × (is_some (lookup key (acquire_locked target cur key r).0.reserved_row_by_thread)
          ≡ is_acquired (acquire_locked target cur key r).1.status)
      × (is_disabled (acquire_locked target cur key r).1.status ≡ false)
unfolding acquire_locked
acquire_locked_holds target cur key r u =
    elim (Option-cases (lookup key r.reserved_row_by_thread)) [
      | inl e ↦ rw (e, acquire_locked) (reserve_next_holds target cur key r u e)
      | inr (row, e) ↦ elim (Option-cases (lookup row r.samples_by_row_number)) [
        | inr (sample, e') ↦ rw (e, acquire_locked, e') (u, ground (arith, e), refl)
        | inl e' ↦
            rw (e, acquire_locked, e')
              (reserve_next_holds target cur key
                (record r { reserved_row_by_thread = erase key r.reserved_row_by_thread })
                (erase-HasUniqueKeys key r.reserved_row_by_thread u)
                (lookup-erase_self key r.reserved_row_by_thread u))
      ]
    ]

-- After a reservation of a row: the thread holds one exactly if the answer says so, and the answer
-- is `disabled` exactly if the run has no spreadsheet. The joint samples stay.
pub acquire_holds :
    (c : Caller) (s : ExecutionState)
    → HasUniqueHolders s
    → HasUniqueHolders (acquire_reverse_fill_sample c s).0
      × (is_some (held_row (thread_key c) (acquire_reverse_fill_sample c s).0)
          ≡ is_acquired (acquire_reverse_fill_sample c s).1.status)
      × (is_disabled (acquire_reverse_fill_sample c s).1.status
          ≡ not (is_some (acquire_reverse_fill_sample c s).0.reverse_fill_runtime))
      × ((acquire_reverse_fill_sample c s).0.joint_reserved_sample_by_thread
          ≡ s.joint_reserved_sample_by_thread)
acquire_holds c s u = elim (Option-cases s.reverse_fill_runtime) [
  | inl e ↦
      let (same, off) = runtime-acquire_none c s e in
      (rw same u, rw (same, off, e) refl, rw (same, off, e) refl, rw same refl)
  | inr (r, e) ↦
      let (filled, result, samples) = runtime-acquire c s r e in
      let (unique, holds, on) =
        acquire_locked_holds s.config.target_num s.cur_num (thread_key c) r (rw e at u.rows) in
      (
        record { samples = rw samples u.samples; rows = rw filled unique },
        rw (filled, result) holds,
        rw (filled, result) on,
        samples,
      )
]

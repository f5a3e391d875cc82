-- ===== src/Task/Joint.antt =====
-- software/core/task/distribution_state.py, the joint samples: each thread reserves one index below
-- `sample_count`, marks it while it answers, and commits it or gives it back. A reservation that
-- grows old before its thread answers is taken back.
pub mod Assigned
pub mod Expiry
pub mod Steps
pub mod Quota
mod Examples
use survey_controller.Common.{
  ℕ, zero, suc, ◌-◌, ◌≤◌, ◌≡◌, ℤ, clamp_0, Bool, true, false, not, ◌&&◌, ◌||◌, Option, none, some,
  List, [], ◌∷◌, ◌++◌, Text, length, contains, leb, nat_beq, if◌then◌else◌, is_some, nat_eq,
  text_eq,
}
use survey_controller.Common.Dict.{Dict, lookup, insert, erase, values}
use survey_controller.Common.PySet.{add, discard}
use survey_controller.Task.Defs.{ExecutionState, Caller, named, thread_key, notify_runtime_change}
use survey_controller.Task.ReverseFill.{release_reverse_fill_sample}

unfoldable pub peek_reserved_joint_sample : Caller → ExecutionState → Option ℕ
peek_reserved_joint_sample c s = lookup (thread_key c) s.joint_reserved_sample_by_thread

-- `for sample_index in range(total)`, from `i` with `n` indices left.
unfoldable pub first_free : ℕ → ℕ → List ℕ → List ℕ → Option ℕ
first_free zero i reserved committed = none
first_free (suc n) i reserved committed =
    let later = first_free n (suc i) reserved committed in
    if contains i reserved || contains i committed then later else some i

-- `now` is `time.monotonic()`.
unfoldable pub reserve_joint_sample : ℤ → Caller → ℕ → ExecutionState → ExecutionState × Option ℕ
reserve_joint_sample sample_count c now s = elim (clamp_0 sample_count) [
  | zero ↦ (s, none)
  | suc n ↦ elim (lookup (thread_key c) s.joint_reserved_sample_by_thread) [
    | some existing ↦ (s, some existing)
    | none ↦
        elim (first_free (suc n) 0 (values s.joint_reserved_sample_by_thread)
          s.joint_committed_sample_indexes) [
            | none ↦ (s, none)
            | some i ↦ (
              record s {
                joint_reserved_sample_by_thread =
                    insert (thread_key c) i s.joint_reserved_sample_by_thread;
                joint_reserved_sample_started_at_by_thread =
                    insert (thread_key c) now s.joint_reserved_sample_started_at_by_thread;
              },
              some i,
            )
          ]
  ]
]

unfoldable pub mark_joint_sample_answering : Caller → ExecutionState → ExecutionState × Bool
mark_joint_sample_answering c s =
    if is_some (lookup (thread_key c) s.joint_reserved_sample_by_thread)
    then (record s { joint_answering_threads = add (thread_key c) s.joint_answering_threads }, true)
    else (s, false)

unfoldable pub is_joint_sample_quota_exhausted : ℤ → ExecutionState → Bool
is_joint_sample_quota_exhausted sample_count s = elim (clamp_0 sample_count) [
  | zero ↦ false
  | suc n ↦ leb (suc n) (length s.joint_committed_sample_indexes)
]

-- The three `pop`s that end a reservation.
unfoldable pub drop_reservation : Text → ExecutionState → ExecutionState
drop_reservation key s = record s {
  joint_reserved_sample_by_thread = erase key s.joint_reserved_sample_by_thread;
  joint_reserved_sample_started_at_by_thread =
      erase key s.joint_reserved_sample_started_at_by_thread;
  joint_answering_threads = discard key s.joint_answering_threads;
}

unfoldable pub release_joint_sample : Caller → ExecutionState → ExecutionState × Option ℕ
release_joint_sample c s =
    let reserved = lookup (thread_key c) s.joint_reserved_sample_by_thread in
    let dropped = drop_reservation (thread_key c) s in
    (elim reserved [ none ↦ dropped | some _ ↦ notify_runtime_change dropped ], reserved)

unfoldable pub commit_joint_sample : Caller → ExecutionState → ExecutionState × Option ℕ
commit_joint_sample c s =
    let reserved = lookup (thread_key c) s.joint_reserved_sample_by_thread in
    let dropped = drop_reservation (thread_key c) s in
    (
      elim reserved [
        | none ↦ dropped
        | some i ↦ notify_runtime_change (record dropped {
          joint_committed_sample_indexes = add i s.joint_committed_sample_indexes;
        })
      ],
      reserved,
    )

-- `now - float(reserved_at or now) >= max_age`: a start time of 0 counts as `now`.
abbrev pub is_stale : ℕ → ℕ → ℕ → Bool
is_stale now max_age reserved_at =
    leb max_age (if nat_beq reserved_at 0 then 0 else now - reserved_at)

-- The scan over a copy of the start times: the keys to expire, in order, and the state without the
-- start times that belong to no reservation.
unfoldable pub scan_stale : ℕ → ℕ → Dict Text ℕ → ExecutionState → ExecutionState × List Text
scan_stale now max_age [] s = (s, [])
scan_stale now max_age ((key, reserved_at) ∷ rest) s =
    let skipped = contains key s.joint_answering_threads in
    let held = is_some (lookup key s.joint_reserved_sample_by_thread) in
    let dated = s.joint_reserved_sample_started_at_by_thread in
    let (s', expired) = scan_stale now max_age rest (record s {
      joint_reserved_sample_started_at_by_thread =
          if skipped || held then dated else erase key dated;
    }) in
    (s', if not skipped && held && is_stale now max_age reserved_at then key ∷ expired else expired)

unfoldable pub drop_reservations : List Text → ExecutionState → ExecutionState
drop_reservations [] s = s
drop_reservations (key ∷ keys) s = drop_reservations keys (drop_reservation key s)

unfoldable pub requeue_rows : List Text → ExecutionState → ExecutionState
requeue_rows [] s = s
requeue_rows (key ∷ keys) s = requeue_rows keys (release_reverse_fill_sample (named key) true s).0

abbrev pub notify_if : List Text → ExecutionState → ExecutionState
notify_if [] s = s
notify_if (key ∷ keys) s = notify_runtime_change s

unfoldable pub expire_stale_joint_sample_reservations : ℤ → ℕ → ExecutionState → ExecutionState × ℕ
expire_stale_joint_sample_reservations max_age_seconds now s = elim (clamp_0 max_age_seconds) [
  | zero ↦ (s, 0)
  | suc age ↦
      let (scanned, expired) =
        scan_stale now (suc age) s.joint_reserved_sample_started_at_by_thread s in
      (notify_if expired (requeue_rows expired (drop_reservations expired scanned)), length expired)
]

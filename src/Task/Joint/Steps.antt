-- ===== src/Task/Joint/Steps.antt =====
-- Histories of the joint samples: the locked sections of all threads, in any order.
use survey_controller.Common.{
  ℕ, ◌<◌, ◌≡◌, ℤ, clamp_0, true, false, ◌||◌, Option, none, some, List, [], ◌∷◌, Text, contains,
  ◌==◌, nat_eq, text_eq, refl, arith, Bool-cases, inl, inr, contains-count, ==_self, text_beq_iff,
}
use survey_controller.Common.Dict.{lookup, values, lookup-insert, count_two, count_pos_of_lookup}
use survey_controller.Task.Defs.{ExecutionState, Caller, thread_key}
use survey_controller.Task.Joint.{
  reserve_joint_sample, mark_joint_sample_answering, release_joint_sample, commit_joint_sample,
  expire_stale_joint_sample_reservations,
}
use survey_controller.Task.Joint.Assigned.{
  joint, IsAssigned, Reserves, no_quota, existing, taken, full, reserve-Reserves, first_free-some,
  first_free-none, reserve-IsAssigned, mark-IsAssigned, release-IsAssigned, commit-IsAssigned,
}
use survey_controller.Task.Joint.Expiry.{expire-IsAssigned}

pub data Op : Type 0 where
  reserve : (sample_count : ℤ) (caller : Caller) (now : ℕ) → Op
  mark release commit : (caller : Caller) → Op
  expire : (max_age : ℤ) (now : ℕ) → Op

unfoldable pub step : ExecutionState → Op → ExecutionState
step s (reserve n c now) = (reserve_joint_sample n c now s).0
step s (mark c) = (mark_joint_sample_answering c s).0
step s (release c) = (release_joint_sample c s).0
step s (commit c) = (commit_joint_sample c s).0
step s (expire max_age now) = (expire_stale_joint_sample_reservations max_age now s).0

unfoldable pub run : ExecutionState → List Op → ExecutionState
run s [] = s
run s (op ∷ ops) = run (step s op) ops

pub step-IsAssigned :
    (s : ExecutionState) (op : Op) → IsAssigned (joint s) → IsAssigned (joint (step s op))
unfolding step
step-IsAssigned s (reserve n c now) v = reserve-IsAssigned n c now s v
step-IsAssigned s (mark c) v = mark-IsAssigned c s v
step-IsAssigned s (release c) v = release-IsAssigned c s v
step-IsAssigned s (commit c) v = commit-IsAssigned c s v
step-IsAssigned s (expire max_age now) v = expire-IsAssigned max_age now s v

-- Whatever the threads do and in whatever order, an index stays with one thread or is committed
-- once, a thread that is answering holds an index, and exactly the threads that hold an index have
-- a start time, so that expiry sees each of them. It holds before.
pub run-IsAssigned :
    (s : ExecutionState) (ops : List Op) → IsAssigned (joint s) → IsAssigned (joint (run s ops))
unfolding run
run-IsAssigned s [] v = v
run-IsAssigned s (op ∷ ops) v = run-IsAssigned (step s op) ops (step-IsAssigned s op v)

-- Two threads that hold one index after any history are the same thread, and an index that a thread
-- holds is not committed. The invariant holds before.
pub run-one_holder :
    (s : ExecutionState) (ops : List Op) (j k : Text) (i : ℕ)
    → IsAssigned (joint s)
    → lookup j (run s ops).joint_reserved_sample_by_thread ≡ some i
    → lookup k (run s ops).joint_reserved_sample_by_thread ≡ some i
    → (j ≡ k) × (contains i (run s ops).joint_committed_sample_indexes ≡ false)
run-one_holder s ops j k i v h g =
    let w = run-IsAssigned s ops v in
    let held = (joint (run s ops)).reserved in
    let done = (joint (run s ops)).committed in
    (
      elim (Bool-cases (j == k)) [
        | inl same ↦ (text_beq_iff j k).0 same
        | inr other ↦ absurd (omega (arith, w.once i, count_two j k i held other h g))
      ],
      elim (Bool-cases (contains i done)) [
        | inl found ↦
            absurd
              (omega (arith, w.once i, count_pos_of_lookup j i held h, contains-count i done found))
        | inr absent ↦ absent
      ],
    )

-- What a thread that holds nothing gets from a quota above 0: an index in range that no thread
-- holds and that is not committed, which it then holds; or nothing, and then every index in range
-- is held or committed, and the state is as it was.
pub data Grant (n : ℤ) (key : Text) (s : ExecutionState) (after : ExecutionState × Option ℕ)
    : Type 0 where
  granted :
      (i : ℕ)
      → after.1 ≡ some i
      → i < clamp_0 n
      → contains i (values s.joint_reserved_sample_by_thread) ≡ false
      → contains i s.joint_committed_sample_indexes ≡ false
      → lookup key after.0.joint_reserved_sample_by_thread ≡ some i
      → Grant n key s after
  refused :
      after ≡ (s, none)
      → ((i : ℕ)
          → i < clamp_0 n
          → (contains i (values s.joint_reserved_sample_by_thread)
              || contains i s.joint_committed_sample_indexes)
            ≡ true)
      → Grant n key s after

Reserves-Grant :
    (n : ℤ) (key : Text) (now : ℕ) (s : ExecutionState) (after : ExecutionState × Option ℕ)
    → 0 < clamp_0 n
    → lookup key s.joint_reserved_sample_by_thread ≡ none
    → Reserves n key now s after
    → Grant n key s after
Reserves-Grant n key now s after q h (no_quota z e) = absurd (omega arith)
Reserves-Grant n key now s after q h (existing i z g e) = absurd (cc)
Reserves-Grant n key now s after q h (taken i g f e) =
    let (below, r, c) = first_free-some (clamp_0 n) 0 _ _ i f in
    granted i (rw e refl) (omega arith) r c
      (rw e (rw (lookup-insert key key i s.joint_reserved_sample_by_thread, ==_self key) refl))
Reserves-Grant n key now s after q h (full g f e) =
    refused e (λ i below. first_free-none (clamp_0 n) 0 _ _ i f (omega arith) (omega arith))

-- A thread that holds no index, under a quota above 0, is granted a free one if there is any:
-- see `Grant`.
pub reserve-Grant :
    (n : ℤ) (c : Caller) (now : ℕ) (s : ExecutionState)
    → 0 < clamp_0 n
    → lookup (thread_key c) s.joint_reserved_sample_by_thread ≡ none
    → Grant n (thread_key c) s (reserve_joint_sample n c now s)
reserve-Grant n c now s q h =
    Reserves-Grant n (thread_key c) now s _ q h (reserve-Reserves n c now s)

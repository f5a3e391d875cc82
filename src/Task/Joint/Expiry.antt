-- ===== src/Task/Joint/Expiry.antt =====
-- Which reservations `expire_stale_joint_sample_reservations` takes back.
use survey_controller.Common.{
  ℕ, zero, suc, ◌≡◌, ℤ, clamp_0, Bool, false, not, ◌&&◌, Option, none, some, List, [], ◌∷◌, Text,
  contains, if◌then◌else◌, nat_eq, text_eq, refl, arith, is_some, text_beq_iff, ◌∙◌, ap,
}
use survey_controller.Common.Dict.{
  Dict, lookup, HasUniqueKeys, lookup-erase_self, lookup-erase_other, erase_absent,
}
use survey_controller.Task.Defs.{ExecutionState, notify_runtime_change}
use survey_controller.Task.Joint.{
  scan_stale, drop_reservation, drop_reservations, expire_stale_joint_sample_reservations, is_stale,
  notify_if, requeue_rows,
}
use survey_controller.Task.Joint.Assigned.{
  Joint, joint, IsAssigned, dropped-IsAssigned, joint-requeue_rows,
}

-- The scan forgets no start time of a reservation.
scan_stale-same :
    (now age : ℕ) (entries : Dict Text ℕ) (s : ExecutionState)
    → IsAssigned (joint s)
    → (scan_stale now age entries s).0 ≡ s
unfolding scan_stale
scan_stale-same now age [] s v = refl
scan_stale-same now age ((key, t) ∷ entries) s v = ground (
  arith,
  scan_stale-same now age entries s v,
  v.dated key,
  erase_absent key s.joint_reserved_sample_started_at_by_thread,
)

abbrev stale_at : ℕ → ℕ → Option ℕ → Bool
stale_at now age none = false
stale_at now age (some t) = is_stale now age t

-- A reservation is stale: its thread is not answering, and its start is at least `age` ago.
abbrev pub expires : ℕ → ℕ → Joint → Text → Bool
expires now age j key =
    not (contains key j.answering)
    && is_some (lookup key j.reserved)
    && stale_at now age (lookup key j.started_at)

expired_keys :
    (now age : ℕ) (entries : Dict Text ℕ) (s : ExecutionState) (key : Text)
    → IsAssigned (joint s)
    → HasUniqueKeys entries
    → contains key (scan_stale now age entries s).1 ≡ (
        not (contains key s.joint_answering_threads)
        && is_some (lookup key s.joint_reserved_sample_by_thread)
        && stale_at now age (lookup key entries))
unfolding scan_stale lookup
expired_keys now age [] s key v u = ground arith
expired_keys now age ((k, t) ∷ entries) s key v u = ground (
  arith,
  expired_keys now age entries s key v u.1,
  v.dated k,
  erase_absent k s.joint_reserved_sample_started_at_by_thread,
  text_beq_iff k key,
)

joint-drop_reservations-IsAssigned :
    (keys : List Text) (s : ExecutionState)
    → IsAssigned (joint s)
    → IsAssigned (joint (drop_reservations keys s))
unfolding drop_reservations drop_reservation
joint-drop_reservations-IsAssigned [] s v = v
joint-drop_reservations-IsAssigned (key ∷ keys) s v =
    joint-drop_reservations-IsAssigned keys _ (dropped-IsAssigned key (joint s) v)

lookup-drop_reservations :
    (keys : List Text) (s : ExecutionState) (key : Text)
    → IsAssigned (joint s)
    → lookup key (joint (drop_reservations keys s)).reserved
      ≡ (if contains key keys then none else lookup key (joint s).reserved)
unfolding drop_reservations drop_reservation
lookup-drop_reservations [] s key v = refl
lookup-drop_reservations (k ∷ keys) s key v = ground (
  arith,
  lookup-drop_reservations keys (unfold drop_reservation in drop_reservation k s) key
      (dropped-IsAssigned k (joint s) v),
  lookup-erase_other k key (joint s).reserved,
  lookup-erase_self k (joint s).reserved v.unique,
  text_beq_iff k key,
)

pub committed-drop_reservations :
    (keys : List Text) (s : ExecutionState)
    → (joint (drop_reservations keys s)).committed ≡ (joint s).committed
unfolding drop_reservations drop_reservation
committed-drop_reservations [] s = refl
committed-drop_reservations (k ∷ keys) s = committed-drop_reservations keys _

joint-notify_if : (keys : List Text) (s : ExecutionState) → joint (notify_if keys s) ≡ joint s
unfolding notify_runtime_change
joint-notify_if [] s = refl
joint-notify_if (key ∷ keys) s = refl

-- What is left of the joint samples: the scanned keys are dropped.
pub joint-expire_of :
    (max_age : ℤ) (now age : ℕ) (s : ExecutionState)
    → clamp_0 max_age ≡ suc age
    → IsAssigned (joint s)
    → joint (expire_stale_joint_sample_reservations max_age now s).0
      ≡ joint (
          drop_reservations
            (scan_stale now (suc age) s.joint_reserved_sample_started_at_by_thread s).1
            s)
unfolding expire_stale_joint_sample_reservations
joint-expire_of max_age now age s e v =
    let scanned = scan_stale now (suc age) s.joint_reserved_sample_started_at_by_thread s in
    rw (e, expire_stale_joint_sample_reservations)
      (joint-notify_if scanned.1 (requeue_rows scanned.1 (drop_reservations scanned.1 scanned.0))
        ∙ joint-requeue_rows scanned.1 (drop_reservations scanned.1 scanned.0)
        ∙ ap (λ t. joint (drop_reservations scanned.1 t)) (scan_stale-same now (suc age) _ s v))

expire-IsAssigned_of :
    (max_age : ℤ) (now t : ℕ) (s : ExecutionState)
    → clamp_0 max_age ≡ t
    → IsAssigned (joint s)
    → IsAssigned (joint (expire_stale_joint_sample_reservations max_age now s).0)
unfolding expire_stale_joint_sample_reservations
expire-IsAssigned_of max_age now zero s e v = rw (e, expire_stale_joint_sample_reservations) v
expire-IsAssigned_of max_age now (suc age) s e v = rw (joint-expire_of max_age now age s e v) (
    joint-drop_reservations-IsAssigned
      (scan_stale now (suc age) s.joint_reserved_sample_started_at_by_thread s).1 s v)

pub expire-IsAssigned :
    (max_age : ℤ) (now : ℕ) (s : ExecutionState)
    → IsAssigned (joint s)
    → IsAssigned (joint (expire_stale_joint_sample_reservations max_age now s).0)
expire-IsAssigned max_age now s v = expire-IsAssigned_of max_age now (clamp_0 max_age) s refl v

-- Expiry with a positive age takes back exactly the reservations that are stale: those of threads
-- that are not answering and whose start is at least that age ago (a start time of 0 counts as
-- now). Every other reservation, and what is committed, stays. The invariant holds before.
pub expire_exactly_stale :
    (max_age : ℤ) (now age : ℕ) (s : ExecutionState) (key : Text)
    → clamp_0 max_age ≡ suc age
    → IsAssigned (joint s)
    → (lookup key (joint (expire_stale_joint_sample_reservations max_age now s).0).reserved
        ≡ (if expires now (suc age) (joint s) key then none else lookup key (joint s).reserved))
      × ((joint (expire_stale_joint_sample_reservations max_age now s).0).committed
          ≡ (joint s).committed)
expire_exactly_stale max_age now age s key e v =
    let starts = s.joint_reserved_sample_started_at_by_thread in
    let keys = (scan_stale now (suc age) starts s).1 in
    rw (joint-expire_of max_age now age s e v) (
      ground (
        arith,
        lookup-drop_reservations keys s key v,
        expired_keys now (suc age) starts s key v v.unique_starts,
      ),
      committed-drop_reservations keys s,
    )

-- ===== src/Task/Joint/Quota.antt =====
-- The quota of joint samples: a history that always names one quota commits no more than that.
use survey_controller.Common.{
  ℕ, zero, suc, ◌+◌, ◌≤◌, ◌<◌, ◌≡◌, ◌⊎◌, ℤ, clamp_0, true, Option, List, [], ◌∷◌, Text, length,
  count, nat_eq, text_eq, refl, arith, Option-cases, ap, inl, inr, nat_beq_iff, All,
}
use survey_controller.Common.Tally.{tally, tally-length, tally-le, tally-lt}
use survey_controller.Common.Dict.{lookup, values, count-insert_new, count_pos_of_lookup}
use survey_controller.Common.PySet.{add}
use survey_controller.Task.Defs.{ExecutionState, Caller, thread_key, notify_runtime_change}
use survey_controller.Task.Joint.{
  mark_joint_sample_answering, release_joint_sample, commit_joint_sample,
  expire_stale_joint_sample_reservations, drop_reservation, drop_reservations, scan_stale,
  is_joint_sample_quota_exhausted,
}
use survey_controller.Task.Joint.Assigned.{
  joint, IsAssigned, Reserves, no_quota, existing, taken, full, reserve-Reserves, first_free-some,
  count-erase-le,
}
use survey_controller.Task.Joint.Expiry.{joint-expire_of, committed-drop_reservations}
use survey_controller.Task.Joint.Steps.{
  Op, reserve, mark, release, commit, expire, step, run, step-IsAssigned, run-IsAssigned,
}

-- No index at or above the quota is held or committed.
abbrev pub IsWithin : ℕ → ExecutionState → Type 0
IsWithin n s =
    (i : ℕ)
    → n ≤ i
    → count i (values s.joint_reserved_sample_by_thread) + count i s.joint_committed_sample_indexes
      ≡ 0

Reserves-IsWithin :
    (n : ℤ) (key : Text) (now : ℕ) (s : ExecutionState) (after : ExecutionState × Option ℕ)
    → IsWithin (clamp_0 n) s
    → Reserves n key now s after
    → IsWithin (clamp_0 n) after.0
Reserves-IsWithin n key now s after w (no_quota z e) = rw e w
Reserves-IsWithin n key now s after w (existing i z h e) = rw e w
Reserves-IsWithin n key now s after w (taken i h f e) =
    let (below, r, c) = first_free-some (clamp_0 n) 0 _ _ i f in
    rw e (λ a le. ground (
      arith,
      w a le,
      count-insert_new key i a s.joint_reserved_sample_by_thread h,
      nat_beq_iff i a,
    ))
Reserves-IsWithin n key now s after w (full h f e) = rw e w

count-drop_reservations :
    (keys : List Text) (s : ExecutionState) (i : ℕ)
    → count i (values (joint (drop_reservations keys s)).reserved)
      ≤ count i (values (joint s).reserved)
unfolding drop_reservations drop_reservation
count-drop_reservations [] s i = omega arith
count-drop_reservations (key ∷ keys) s i = omega (
  arith,
  count-drop_reservations keys (unfold drop_reservation in drop_reservation key s) i,
  count-erase-le key i (joint s).reserved,
)

module _ (n : ℕ) (s : ExecutionState) (v : IsAssigned (joint s)) (w : IsWithin n s) where
  release-IsWithin : (c : Caller) → IsWithin n (release_joint_sample c s).0
  unfolding release_joint_sample drop_reservation notify_runtime_change
  release-IsWithin c i le =
      ground (arith, w i le, count-erase-le (thread_key c) i s.joint_reserved_sample_by_thread)

  commit-IsWithin : (c : Caller) → IsWithin n (commit_joint_sample c s).0
  unfolding commit_joint_sample drop_reservation notify_runtime_change add
  commit-IsWithin c i le =
      elim (Option-cases (lookup (thread_key c) s.joint_reserved_sample_by_thread)) [
        | inl e ↦
            rw (e, commit_joint_sample)
              (omega
                (arith, w i le, count-erase-le (thread_key c) i s.joint_reserved_sample_by_thread))
        | inr (k, e) ↦
            rw (e, commit_joint_sample)
              (ground (
                arith,
                w i le,
                w k,
                count_pos_of_lookup (thread_key c) k s.joint_reserved_sample_by_thread e,
                count-erase-le (thread_key c) i s.joint_reserved_sample_by_thread,
                nat_beq_iff k i,
              ))
      ]

  expire-IsWithin_of :
      (max_age : ℤ) (now t : ℕ)
      → clamp_0 max_age ≡ t
      → IsWithin n (expire_stale_joint_sample_reservations max_age now s).0
  unfolding expire_stale_joint_sample_reservations
  expire-IsWithin_of max_age now zero e = rw (e, expire_stale_joint_sample_reservations) w
  expire-IsWithin_of max_age now (suc age) e = λ i le.
      let keys = (scan_stale now (suc age) s.joint_reserved_sample_started_at_by_thread s).1 in
      let same = joint-expire_of max_age now age s e v in
      omega (
        arith,
        w i le,
        ap (λ j. count i (values j.reserved)) same,
        ap (λ j. count i j.committed) same,
        count-drop_reservations keys s i,
        ap (count i) (committed-drop_reservations keys s),
      )

-- Each reservation of the history names the quota `n`.
abbrev pub NamesQuota : ℤ → Op → Type 0
NamesQuota n (reserve sample_count caller now) = sample_count ≡ n
NamesQuota n _ = Unit {0}

step-IsWithin :
    (n : ℤ) (s : ExecutionState) (op : Op)
    → IsAssigned (joint s)
    → IsWithin (clamp_0 n) s
    → NamesQuota n op
    → IsWithin (clamp_0 n) (step s op)
unfolding step mark_joint_sample_answering
step-IsWithin n s (reserve m c now) v w q =
    rw q (Reserves-IsWithin n (thread_key c) now s _ w (reserve-Reserves n c now s))
step-IsWithin n s (mark c) v w q = λ i le. ground (arith, w i le)
step-IsWithin n s (release c) v w q = release-IsWithin (clamp_0 n) s v w c
step-IsWithin n s (commit c) v w q = commit-IsWithin (clamp_0 n) s v w c
step-IsWithin n s (expire max_age now) v w q =
    expire-IsWithin_of (clamp_0 n) s v w max_age now (clamp_0 max_age) refl

run-IsWithin :
    (n : ℤ) (s : ExecutionState) (ops : List Op)
    → IsAssigned (joint s)
    → IsWithin (clamp_0 n) s
    → All (NamesQuota n) ops
    → IsWithin (clamp_0 n) (run s ops)
unfolding run
run-IsWithin n s [] v w q = w
run-IsWithin n s (op ∷ ops) v w q =
    run-IsWithin n (step s op) ops (step-IsAssigned s op v) (step-IsWithin n s op v w q.0) q.1

exhausted_length :
    (n : ℤ) (s : ExecutionState)
    → is_joint_sample_quota_exhausted n s ≡ true
    → (0 < clamp_0 n) × (clamp_0 n ≤ length s.joint_committed_sample_indexes)
unfolding is_joint_sample_quota_exhausted
exhausted_length n s h = ground arith

committed_of_full :
    (n i : ℕ) (xs : List ℕ)
    → ((a : ℕ) → count a xs ≤ 1)
    → i < n
    → (k : ℕ) → count i xs ≡ k
    → (1 ≤ count i xs) ⊎ (tally n xs < n)
committed_of_full n i xs single below zero e = inr (tally-lt n i xs single below e)
committed_of_full n i xs single below (suc k) e = inl (omega arith)

once_committed :
    (s : ExecutionState)
    → IsAssigned (joint s)
    → (i : ℕ) → count i s.joint_committed_sample_indexes ≤ 1
once_committed s a i = omega (arith, a.once i)

-- After any history that always names the quota `n`, from a state in which no index at or above it
-- is held or committed, no more than `n` indices are committed.
pub run-quota :
    (n : ℤ) (s : ExecutionState) (ops : List Op)
    → IsAssigned (joint s)
    → IsWithin (clamp_0 n) s
    → All (NamesQuota n) ops
    → length (run s ops).joint_committed_sample_indexes ≤ clamp_0 n
run-quota n s ops v w q =
    let a = run-IsAssigned s ops v in
    let b = run-IsWithin n s ops v w q in
    let done = (run s ops).joint_committed_sample_indexes in
    omega (
      arith,
      tally-length (clamp_0 n) done (λ i le. omega (arith, b i le)),
      tally-le (clamp_0 n) done (λ (i : ℕ). once_committed (run s ops) a i),
    )

-- If the quota `n` is exhausted after such a history, every index below `n` is committed, once,
-- and no thread holds one.
pub exhausted_quota_is_committed :
    (n : ℤ) (s : ExecutionState) (ops : List Op) (i : ℕ)
    → IsAssigned (joint s)
    → IsWithin (clamp_0 n) s
    → All (NamesQuota n) ops
    → is_joint_sample_quota_exhausted n (run s ops) ≡ true
    → i < clamp_0 n
    → (count i (run s ops).joint_committed_sample_indexes ≡ 1)
      × (count i (values (run s ops).joint_reserved_sample_by_thread) ≡ 0)
exhausted_quota_is_committed n s ops i v w q e below =
    let a = run-IsAssigned s ops v in
    let b = run-IsWithin n s ops v w q in
    let done = (run s ops).joint_committed_sample_indexes in
    let exact = tally-length (clamp_0 n) done (λ i le. omega (arith, b i le)) in
    let single = λ (i : ℕ). once_committed (run s ops) a i in
    omega (
      arith,
      exact,
      a.once i,
      exhausted_length n (run s ops) e,
      committed_of_full (clamp_0 n) i done single below (count i done) refl,
    )

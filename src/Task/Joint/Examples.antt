-- ===== src/Task/Joint/Examples.antt =====
-- Joint samples of two threads.
use survey_controller.Common.{
  ℕ, ◌≤◌, ◌≡◌, clamp_0, pos, true, false, none, some, List, [], ◌∷◌, text, length, contains, count,
  refl, arith, nat_eq, text_eq, All, if◌then◌else◌, strip,
}
use survey_controller.Common.Dict.{lookup, insert, erase, values}
use survey_controller.Common.PySet.{add, discard}
use survey_controller.Task.Defs.{ExecutionState, Caller, named, thread_key, notify_runtime_change}
use survey_controller.Task.Samples.{fresh}
use survey_controller.Task.Joint.{
  first_free, reserve_joint_sample, commit_joint_sample, drop_reservation,
  is_joint_sample_quota_exhausted, expire_stale_joint_sample_reservations,
}
use survey_controller.Task.Joint.Assigned.{joint, IsAssigned}
use survey_controller.Task.Joint.Expiry.{expires, expire_exactly_stale}
use survey_controller.Task.Joint.Steps.{
  Op, reserve, mark, commit, expire, step, run, run-IsAssigned, run-one_holder,
}
use survey_controller.Task.Joint.Quota.{
  IsWithin, NamesQuota, run-quota, exhausted_quota_is_committed,
}

fresh-IsAssigned : IsAssigned (joint fresh)
unfolding lookup
fresh-IsAssigned = record {
  once = λ i. omega arith;
  unique = tt;
  unique_starts = tt;
  held = λ key h. ground arith;
  dated = λ key. refl;
}

abbrev one : Caller
one = named (text "Slot-1")

abbrev two : Caller
two = named (text "Slot-2")

-- Slot-1 commits the only index of a quota of 1, after Slot-2 was refused.
abbrev history : List Op
history =
    reserve (pos 1) one 5 ∷ reserve (pos 1) two 6 ∷ mark one ∷ expire (pos 30) 40 ∷ commit one ∷ []

abbrev reserved_once : List Op
reserved_once = reserve (pos 1) one 5 ∷ []

held_zero :
    lookup (text "Slot-1") (run fresh reserved_once).joint_reserved_sample_by_thread ≡ some 0
unfolding lookup insert run step reserve_joint_sample first_free thread_key strip
held_zero = refl

run-one_holder_example :
    (text "Slot-1" ≡ text "Slot-1")
    × (contains 0 (run fresh reserved_once).joint_committed_sample_indexes ≡ false)
run-one_holder_example =
    run-one_holder fresh reserved_once (text "Slot-1") (text "Slot-1") 0 fresh-IsAssigned held_zero
      held_zero

free_at_first : lookup (thread_key one) fresh.joint_reserved_sample_by_thread ≡ none
unfolding lookup
free_at_first = refl

fresh-IsWithin : (n : ℕ) → IsWithin n fresh
fresh-IsWithin n i le = refl

history-NamesQuota : All (NamesQuota (pos 1)) history
history-NamesQuota = (refl, (refl, (tt, (tt, (tt, tt)))))

run-quota_example : length (run fresh history).joint_committed_sample_indexes ≤ clamp_0 (pos 1)
run-quota_example =
    run-quota (pos 1) fresh history fresh-IsAssigned (fresh-IsWithin 1) history-NamesQuota

abbrev commits_all : List Op
commits_all = reserve (pos 1) one 5 ∷ commit one ∷ []

commits_all-NamesQuota : All (NamesQuota (pos 1)) commits_all
commits_all-NamesQuota = (refl, (tt, tt))

exhausted : is_joint_sample_quota_exhausted (pos 1) (run fresh commits_all) ≡ true
unfolding is_joint_sample_quota_exhausted lookup insert erase run step reserve_joint_sample
    first_free thread_key strip commit_joint_sample drop_reservation add discard
    notify_runtime_change
exhausted = refl

exhausted_quota_is_committed_example :
    (count 0 (run fresh commits_all).joint_committed_sample_indexes ≡ 1)
    × (count 0 (values (run fresh commits_all).joint_reserved_sample_by_thread) ≡ 0)
exhausted_quota_is_committed_example =
    exhausted_quota_is_committed (pos 1) fresh commits_all 0 fresh-IsAssigned (fresh-IsWithin 1)
      commits_all-NamesQuota exhausted (omega arith)

abbrev reserved : ExecutionState
reserved = run fresh reserved_once

expire_exactly_stale_example :
    (lookup
        (text "Slot-1")
        (joint (expire_stale_joint_sample_reservations (pos 30) 40 reserved).0).reserved
      ≡ (if expires 40 30 (joint reserved) (text "Slot-1")
          then none
          else lookup (text "Slot-1") (joint reserved).reserved))
    × ((joint (expire_stale_joint_sample_reservations (pos 30) 40 reserved).0).committed
        ≡ (joint reserved).committed)
expire_exactly_stale_example =
    expire_exactly_stale (pos 30) 40 29 reserved (text "Slot-1") refl
      (run-IsAssigned fresh reserved_once fresh-IsAssigned)

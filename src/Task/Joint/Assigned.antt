-- ===== src/Task/Joint/Assigned.antt =====
-- Who holds which joint sample, under every interleaving of the locked sections.
use survey_controller.Common.{
  ℕ, zero, suc, ◌+◌, ◌≤◌, ◌<◌, ◌≡◌, ℤ, clamp_0, Bool, true, false, Option, none, some, List, [],
  ◌∷◌, Text, count, contains, nat_eq, text_eq, refl, arith, Option-cases, Bool-cases, inl, inr,
  is_some, contains-count, not-contains-count, nat_beq_iff, text_beq_iff, ◌∙◌, ◌||◌,
}
use survey_controller.Common.Dict.{
  Dict, lookup, insert, erase, values, HasUniqueKeys, count-insert_new, count-erase_hit,
  count_pos_of_lookup, insert-HasUniqueKeys, erase-HasUniqueKeys, lookup-insert, lookup-erase_self,
  lookup-erase_other, erase_absent,
}
use survey_controller.Common.PySet.{
  add, discard, contains-add, contains-discard_self, contains-discard_other,
}
use survey_controller.Task.Defs.{ExecutionState, Caller, named, thread_key, notify_runtime_change}
use survey_controller.Task.ReverseFill.{release_reverse_fill_sample}
use survey_controller.Task.Joint.{
  first_free, reserve_joint_sample, mark_joint_sample_answering, drop_reservation,
  release_joint_sample, commit_joint_sample, requeue_rows,
}

-- The part of the state that the joint samples use.
pub record Joint : Type 0 where
  pub reserved : Dict Text ℕ
  pub started_at : Dict Text ℕ
  pub committed : List ℕ
  pub answering : List Text

abbrev pub joint : ExecutionState → Joint
joint s = record {
  reserved = s.joint_reserved_sample_by_thread;
  started_at = s.joint_reserved_sample_started_at_by_thread;
  committed = s.joint_committed_sample_indexes;
  answering = s.joint_answering_threads;
}

-- An index is held by one thread or is committed, once; a thread that answers holds an index; and
-- exactly the threads that hold one have a start time.
pub record IsAssigned (j : Joint) : Type 0 where
  pub once : (i : ℕ) → count i (values j.reserved) + count i j.committed ≤ 1
  pub unique : HasUniqueKeys j.reserved
  pub unique_starts : HasUniqueKeys j.started_at
  pub held : (key : Text) → contains key j.answering ≡ true → is_some (lookup key j.reserved) ≡ true
  pub dated : (key : Text) → is_some (lookup key j.started_at) ≡ is_some (lookup key j.reserved)

pub count-erase-le :
    (key : Text) (i : ℕ) (m : Dict Text ℕ) → count i (values (erase key m)) ≤ count i (values m)
count-erase-le key i m = elim (Option-cases (lookup key m)) [
  | inl e ↦ rw (erase_absent key m e) (omega arith)
  | inr (v, e) ↦ omega (arith, count-erase_hit key v i m e)
]

abbrev pub dropped : Text → Joint → Joint
dropped key j = record j {
  reserved = erase key j.reserved;
  started_at = erase key j.started_at;
  answering = discard key j.answering;
}

pub dropped-IsAssigned : (key : Text) (j : Joint) → IsAssigned j → IsAssigned (dropped key j)
dropped-IsAssigned key j v = record {
  once = λ i. omega (arith, count-erase-le key i j.reserved, v.once i);
  unique = erase-HasUniqueKeys key j.reserved v.unique;
  unique_starts = erase-HasUniqueKeys key j.started_at v.unique_starts;
  held = λ k h. ground (
    arith,
    v.held k,
    text_beq_iff key k,
    contains-discard_self key j.answering,
    contains-discard_other key k j.answering,
    lookup-erase_other key k j.reserved,
  );
  dated = λ k. ground (
    arith,
    v.dated k,
    text_beq_iff key k,
    lookup-erase_self key j.reserved v.unique,
    lookup-erase_self key j.started_at v.unique_starts,
    lookup-erase_other key k j.reserved,
    lookup-erase_other key k j.started_at,
  );
}

-- The first free index: it is in range and free, and no index is free if there is none.
pub first_free-some :
    (n i : ℕ) (reserved committed : List ℕ) (j : ℕ)
    → first_free n i reserved committed ≡ some j
    → (j < i + n) × (contains j reserved ≡ false) × (contains j committed ≡ false)
unfolding first_free
first_free-some zero i reserved committed j h = ground arith
first_free-some (suc n) i reserved committed j h =
    ground (arith, first_free-some n (suc i) reserved committed j)

pub first_free-none :
    (n i : ℕ) (reserved committed : List ℕ) (j : ℕ)
    → first_free n i reserved committed ≡ none
    → i ≤ j
    → j < i + n
    → (contains j reserved || contains j committed) ≡ true
unfolding first_free
first_free-none zero i reserved committed j h p q = absurd (omega arith)
first_free-none (suc n) i reserved committed j h p q =
    ground (arith, first_free-none n (suc i) reserved committed j, nat_beq_iff i j)

taken-IsAssigned :
    (key : Text) (i now : ℕ) (j : Joint)
    → IsAssigned j
    → lookup key j.reserved ≡ none
    → contains i (values j.reserved) ≡ false
    → contains i j.committed ≡ false
    → IsAssigned
        (record j { reserved = insert key i j.reserved; started_at = insert key now j.started_at })
taken-IsAssigned key i now j v h r c = record {
  once = λ a. ground (
    arith,
    v.once a,
    count-insert_new key i a j.reserved h,
    not-contains-count i (values j.reserved) r,
    not-contains-count i j.committed c,
    nat_beq_iff i a,
  );
  unique = insert-HasUniqueKeys key i j.reserved v.unique;
  unique_starts = insert-HasUniqueKeys key now j.started_at v.unique_starts;
  held = λ k e. ground (arith, v.held k e, lookup-insert key k i j.reserved);
  dated = λ k.
      ground
        (arith, v.dated k, lookup-insert key k i j.reserved, lookup-insert key k now j.started_at);
}

committed-IsAssigned :
    (key : Text) (i : ℕ) (j : Joint)
    → IsAssigned j
    → lookup key j.reserved ≡ some i
    → IsAssigned (record (dropped key j) { committed = add i j.committed })
committed-IsAssigned key i j v h =
    let d = dropped-IsAssigned key j v in
    record {
      once = λ a.
          unfold add in
          ground (
            arith,
            v.once a,
            v.once i,
            count_pos_of_lookup key i j.reserved h,
            count-erase_hit key i a j.reserved h,
            contains-count i j.committed,
            nat_beq_iff i a,
          );
      unique = d.unique;
      unique_starts = d.unique_starts;
      held = d.held;
      dated = d.dated;
    }

marked-IsAssigned :
    (key : Text) (j : Joint)
    → IsAssigned j
    → is_some (lookup key j.reserved) ≡ true
    → IsAssigned (record j { answering = add key j.answering })
marked-IsAssigned key j v h = record {
  once = v.once;
  unique = v.unique;
  unique_starts = v.unique_starts;
  held = λ k e. ground (arith, v.held k, contains-add key k j.answering, text_beq_iff key k);
  dated = v.dated;
}

abbrev pub taking : Text → ℕ → ℕ → ExecutionState → ExecutionState
taking key i now s = record s {
  joint_reserved_sample_by_thread = insert key i s.joint_reserved_sample_by_thread;
  joint_reserved_sample_started_at_by_thread =
      insert key now s.joint_reserved_sample_started_at_by_thread;
}

abbrev pub free_index : ℤ → ExecutionState → Option ℕ
free_index n s =
    first_free (clamp_0 n) 0 (values s.joint_reserved_sample_by_thread)
      s.joint_committed_sample_indexes

-- What `reserve_joint_sample` may do: there is no quota, the thread holds an index already, it
-- takes the first free one, or there is none.
pub data Reserves (n : ℤ) (key : Text) (now : ℕ) (s : ExecutionState)
    (after : ExecutionState × Option ℕ) : Type 0 where
  no_quota : clamp_0 n ≡ 0 → after ≡ (s, none) → Reserves n key now s after
  existing :
      (i : ℕ)
      → 0 < clamp_0 n
      → lookup key s.joint_reserved_sample_by_thread ≡ some i
      → after ≡ (s, some i)
      → Reserves n key now s after
  taken :
      (i : ℕ)
      → lookup key s.joint_reserved_sample_by_thread ≡ none
      → free_index n s ≡ some i
      → after ≡ (taking key i now s, some i)
      → Reserves n key now s after
  full :
      lookup key s.joint_reserved_sample_by_thread ≡ none
      → free_index n s ≡ none
      → after ≡ (s, none)
      → Reserves n key now s after

reserve-Reserves_of :
    (n : ℤ) (c : Caller) (now : ℕ) (s : ExecutionState) (t : ℕ)
    → clamp_0 n ≡ t
    → Reserves n (thread_key c) now s (reserve_joint_sample n c now s)
unfolding reserve_joint_sample
reserve-Reserves_of n c now s zero e = no_quota e (rw (e, reserve_joint_sample) refl)
reserve-Reserves_of n c now s (suc m) e =
    elim (Option-cases (lookup (thread_key c) s.joint_reserved_sample_by_thread)) [
      | inr (i, h) ↦ existing i (omega arith) h (rw (e, reserve_joint_sample, h) refl)
      | inl h ↦ elim (Option-cases (free_index n s)) [
        | inr (i, f) ↦
            taken i h f
              (rw (e, reserve_joint_sample, h) (rw (rw e at f, reserve_joint_sample) refl))
        | inl f ↦
            full h f (rw (e, reserve_joint_sample, h) (rw (rw e at f, reserve_joint_sample) refl))
      ]
    ]

pub reserve-Reserves :
    (n : ℤ) (c : Caller) (now : ℕ) (s : ExecutionState)
    → Reserves n (thread_key c) now s (reserve_joint_sample n c now s)
reserve-Reserves n c now s = reserve-Reserves_of n c now s (clamp_0 n) refl

Reserves-IsAssigned :
    (n : ℤ) (key : Text) (now : ℕ) (s : ExecutionState) (after : ExecutionState × Option ℕ)
    → IsAssigned (joint s)
    → Reserves n key now s after
    → IsAssigned (joint after.0)
Reserves-IsAssigned n key now s after v (no_quota z e) = rw e v
Reserves-IsAssigned n key now s after v (existing i z h e) = rw e v
Reserves-IsAssigned n key now s after v (taken i h f e) =
    let (_, r, c) = first_free-some (clamp_0 n) 0 _ _ i f in
    rw e (taken-IsAssigned key i now (joint s) v h r c)
Reserves-IsAssigned n key now s after v (full h f e) = rw e v

pub reserve-IsAssigned :
    (n : ℤ) (c : Caller) (now : ℕ) (s : ExecutionState)
    → IsAssigned (joint s)
    → IsAssigned (joint (reserve_joint_sample n c now s).0)
reserve-IsAssigned n c now s v =
    Reserves-IsAssigned n (thread_key c) now s _ v (reserve-Reserves n c now s)

pub mark-IsAssigned :
    (c : Caller) (s : ExecutionState)
    → IsAssigned (joint s)
    → IsAssigned (joint (mark_joint_sample_answering c s).0)
unfolding mark_joint_sample_answering
mark-IsAssigned c s v =
    elim (Bool-cases (is_some (lookup (thread_key c) s.joint_reserved_sample_by_thread))) [
      | inl e ↦ rw e (marked-IsAssigned (thread_key c) (joint s) v e)
      | inr e ↦ rw e v
    ]

pub release-IsAssigned :
    (c : Caller) (s : ExecutionState)
    → IsAssigned (joint s)
    → IsAssigned (joint (release_joint_sample c s).0)
unfolding release_joint_sample drop_reservation notify_runtime_change
release-IsAssigned c s v =
    elim (Option-cases (lookup (thread_key c) s.joint_reserved_sample_by_thread)) [
      | inl e ↦ rw (e, release_joint_sample) (dropped-IsAssigned (thread_key c) (joint s) v)
      | inr (i, e) ↦ rw (e, release_joint_sample) (dropped-IsAssigned (thread_key c) (joint s) v)
    ]

pub commit-IsAssigned :
    (c : Caller) (s : ExecutionState)
    → IsAssigned (joint s)
    → IsAssigned (joint (commit_joint_sample c s).0)
unfolding commit_joint_sample drop_reservation notify_runtime_change
commit-IsAssigned c s v =
    elim (Option-cases (lookup (thread_key c) s.joint_reserved_sample_by_thread)) [
      | inl e ↦ rw (e, commit_joint_sample) (dropped-IsAssigned (thread_key c) (joint s) v)
      | inr (i, e) ↦
          rw (e, commit_joint_sample) (committed-IsAssigned (thread_key c) i (joint s) v e)
    ]

joint-release_row :
    (c : Caller) (requeue : Bool) (s : ExecutionState)
    → joint (release_reverse_fill_sample c requeue s).0 ≡ joint s
unfolding release_reverse_fill_sample notify_runtime_change
joint-release_row c requeue s = ground arith

pub joint-requeue_rows :
    (keys : List Text) (s : ExecutionState) → joint (requeue_rows keys s) ≡ joint s
unfolding requeue_rows
joint-requeue_rows [] s = refl
joint-requeue_rows (key ∷ keys) s = joint-requeue_rows keys _ ∙ joint-release_row (named key) true s

-- ===== src/Task/ReverseFill/Retries.antt =====
-- How often a row may fail before it is discarded.
use survey_controller.Common.{
  ◌↔◌, ℕ, suc, ◌≤◌, ◌≡◌, ℤ, clamp_0, Bool, true, false, List, [], ◌∷◌, Text, contains, or_zero,
  nat_eq, text_eq, refl, arith, Option-cases, inl, inr, nat_beq_iff, All, Bool-cases,
}
use survey_controller.Common.Dict.{
  lookup, HasUniqueKeys, lookup-insert, lookup-erase_other, lookup-erase_self, insert-HasUniqueKeys,
  erase-HasUniqueKeys,
}
use survey_controller.Common.PySet.{contains-add}
use survey_controller.Task.Defs.{ReverseFillRuntimeState, ReverseFillSampleRow, ReverseFillSpec}
use survey_controller.Task.ReverseFill.{
  release_locked, commit_locked, failed_locked, load_samples, empty_runtime,
}
use survey_controller.Task.ReverseFill.Places.{
  IsPlaced, Acquires, kept, taken, empty, acquire_locked-Acquires, free_of,
}
use survey_controller.Task.ReverseFill.Steps.{
  Op, acquire, release, commit, fail, step, run, step-IsPlaced, loaded, loaded-IsPlaced,
  HaveDistinctRows,
}

abbrev pub failures : ℕ → ReverseFillRuntimeState → ℕ
failures row r = or_zero (lookup row r.failure_count_by_row)

-- Every failure is recorded with the same limit.
abbrev pub UsesLimit : ℤ → Op → Type 0
UsesLimit m (fail key max_retries) = max_retries ≡ m
UsesLimit m _ = Unit {0}

pub record IsCounted (m : ℤ) (r : ReverseFillRuntimeState) : Type 0 where
  pub live : (row : ℕ) → contains row r.discarded_row_numbers ≡ false → failures row r ≤ clamp_0 m
  pub dead :
      (row : ℕ) → contains row r.discarded_row_numbers ≡ true → failures row r ≡ suc (clamp_0 m)
  pub unique : HasUniqueKeys r.failure_count_by_row

acquired-IsCounted :
    (m target : ℤ) (cur : ℕ) (key : Text) (r : ReverseFillRuntimeState) (after : _)
    → IsCounted m r
    → Acquires target cur key r after
    → IsCounted m after.0
acquired-IsCounted m target cur key r after c (kept row sample e e' eq) = rw eq c
acquired-IsCounted m target cur key r after c (taken row rest sample e h e' eq) =
    rw eq (record { live = c.live; dead = c.dead; unique = c.unique })
acquired-IsCounted m target cur key r after c (empty e h eq) = rw eq c

module _ (m : ℤ) (r : ReverseFillRuntimeState) (v : IsPlaced r) (c : IsCounted m r) where
  release_locked-IsCounted :
      (key : Text) (requeue : Bool) → IsCounted m (release_locked key requeue r).0
  unfolding release_locked
  release_locked-IsCounted key requeue = record {
    live = λ row h. ground (arith, c.live row);
    dead = λ row h. ground (arith, c.dead row);
    unique = ground (arith, c.unique);
  }

  commit_locked-IsCounted : (key : Text) → IsCounted m (commit_locked key r).0
  unfolding commit_locked
  commit_locked-IsCounted key = elim (Option-cases (lookup key r.reserved_row_by_thread)) [
    | inl e ↦ rw (e, commit_locked) c
    | inr (row, e) ↦
        rw (e, commit_locked)
          (record {
            live = λ a h. ground (
              arith,
              c.live a h,
              lookup-erase_other row a r.failure_count_by_row,
              lookup-erase_self row r.failure_count_by_row c.unique,
              nat_beq_iff row a,
            );
            dead = λ a h. ground (
              arith,
              c.dead a h,
              lookup-erase_other row a r.failure_count_by_row,
              nat_beq_iff row a,
              free_of r v key row e,
            );
            unique = erase-HasUniqueKeys row r.failure_count_by_row c.unique;
          })
  ]

  failed_locked-IsCounted : (key : Text) → IsCounted m (failed_locked key m r).0
  unfolding failed_locked
  failed_locked-IsCounted key = elim (Option-cases (lookup key r.reserved_row_by_thread)) [
    | inl e ↦ rw (e, failed_locked) c
    | inr (row, e) ↦
        rw (e, failed_locked)
          (record {
            live = λ a h. ground (
              arith,
              c.live a,
              c.live row,
              free_of r v key row e,
              lookup-insert row a (suc (failures row r)) r.failure_count_by_row,
              contains-add row a r.discarded_row_numbers,
              nat_beq_iff row a,
            );
            dead = λ a h. ground (
              arith,
              c.dead a,
              c.live row,
              free_of r v key row e,
              lookup-insert row a (suc (failures row r)) r.failure_count_by_row,
              contains-add row a r.discarded_row_numbers,
              nat_beq_iff row a,
            );
            unique = ground (
              arith,
              insert-HasUniqueKeys row (suc (failures row r)) r.failure_count_by_row c.unique,
            );
          })
  ]

  step-IsCounted : (op : Op) → UsesLimit m op → IsCounted m (step r op)
  unfolding step
  step-IsCounted (acquire target cur key) u =
      acquired-IsCounted m target cur key r _ c (acquire_locked-Acquires r v target cur key)
  step-IsCounted (release key requeue) u = release_locked-IsCounted key requeue
  step-IsCounted (commit key) u = commit_locked-IsCounted key
  step-IsCounted (fail key max_retries) u = rw u (failed_locked-IsCounted key)

run-IsCounted :
    (m : ℤ) (r : ReverseFillRuntimeState) (ops : List Op)
    → IsPlaced r
    → IsCounted m r
    → All (UsesLimit m) ops
    → IsCounted m (run r ops)
unfolding run
run-IsCounted m r [] v c u = c
run-IsCounted m r (op ∷ ops) v c u =
    run-IsCounted m (step r op) ops (step-IsPlaced r op v) (step-IsCounted m r v c op u.0) u.1

load_samples_blank :
    (samples : List ReverseFillSampleRow) (r : ReverseFillRuntimeState)
    → ((load_samples samples r).failure_count_by_row ≡ r.failure_count_by_row)
      × ((load_samples samples r).discarded_row_numbers ≡ r.discarded_row_numbers)
unfolding load_samples
load_samples_blank [] r = (refl, refl)
load_samples_blank (sample ∷ samples) r = load_samples_blank samples _

loaded-IsCounted : (m : ℤ) (spec : ReverseFillSpec) → IsCounted m (loaded spec)
unfolding lookup
loaded-IsCounted m spec =
    let (f, d) = load_samples_blank spec.samples (empty_runtime spec) in
    record {
      live = λ row h. rw (f, lookup) (omega arith);
      dead = λ row h. ground (arith, d);
      unique = rw f tt;
    }

retries_of :
    (m : ℤ) (r : ReverseFillRuntimeState) (row : ℕ)
    → IsCounted m r
    → (failures row r ≤ suc (clamp_0 m))
      × ((contains row r.discarded_row_numbers ≡ true) ↔ (failures row r ≡ suc (clamp_0 m)))
retries_of m r row c = elim (Bool-cases (contains row r.discarded_row_numbers)) [
  | inl gone ↦ (omega (arith, c.dead row gone), (λ e. c.dead row gone, λ e. gone))
  | inr live ↦ (
    omega (arith, c.live row live),
    (λ e. absurd (cc), λ e. absurd (omega (arith, c.live row live))),
  )
]

-- From the start of a run with distinct rows, and with one retry limit for all failures: whatever
-- the threads do and in whatever order, no row has more failures on record than one above the
-- limit, and exactly the rows that have that many are discarded.
pub run-retries :
    (m : ℤ) (spec : ReverseFillSpec) (ops : List Op) (row : ℕ)
    → HaveDistinctRows spec.samples
    → All (UsesLimit m) ops
    → (failures row (run (loaded spec) ops) ≤ suc (clamp_0 m))
      × ((contains row (run (loaded spec) ops).discarded_row_numbers ≡ true)
          ↔ (failures row (run (loaded spec) ops) ≡ suc (clamp_0 m)))
run-retries m spec ops row d u =
    retries_of m (run (loaded spec) ops) row
      (run-IsCounted m (loaded spec) ops (loaded-IsPlaced spec d) (loaded-IsCounted m spec) u)

-- ===== src/Task/ReverseFill/Steps.antt =====
-- Any history of the locked sections, in any order and by any threads, is a list of `Op`s: what
-- holds after every list holds under every interleaving.
use survey_controller.Common.{
  ℕ, ◌+◌, ◌≤◌, ◌≡◌, ℤ, Bool, true, false, some, List, [], ◌∷◌, ◌++◌, Text, count, contains,
  if◌then◌else◌, nat_eq, text_eq, refl, arith, Option-cases, inl, inr, count-append,
  not-contains-count, text_beq_iff, All, ◌∙◌,
}
use survey_controller.Common.Dict.{
  lookup, insert, HasUniqueKeys, count-insert_new, count-erase_hit, lookup-insert,
  insert-HasUniqueKeys, erase-HasUniqueKeys,
}
use survey_controller.Task.Defs.{ReverseFillRuntimeState, ReverseFillSampleRow, ReverseFillSpec}
use survey_controller.Task.ReverseFill.{
  acquire_locked, release_locked, commit_locked, failed_locked, load_samples, empty_runtime,
}
use survey_controller.Task.ReverseFill.Places.{
  places, known, IsPlaced, Acquires, kept, taken, empty, acquire_locked-Acquires,
  release_locked-places, commit_locked-places, failed_locked-places, free_of, same_key,
}

pub data Op : Type 0 where
  acquire : (target : ℤ) (cur : ℕ) (key : Text) → Op
  release : (key : Text) (requeue : Bool) → Op
  commit : (key : Text) → Op
  fail : (key : Text) (max_retries : ℤ) → Op

unfoldable pub step : ReverseFillRuntimeState → Op → ReverseFillRuntimeState
step r (acquire target cur key) = (acquire_locked target cur key r).0
step r (release key requeue) = (release_locked key requeue r).0
step r (commit key) = (commit_locked key r).0
step r (fail key max_retries) = (failed_locked key max_retries r).0

unfoldable pub run : ReverseFillRuntimeState → List Op → ReverseFillRuntimeState
run r [] = r
run r (op ∷ ops) = run (step r op) ops

-- No operation drops a row, but a release that is told not to queue it again.
abbrev pub KeepsRow : Op → Type 0
KeepsRow (release key requeue) = requeue ≡ true
KeepsRow _ = Unit {0}

acquired-places :
    (target : ℤ) (cur : ℕ) (key : Text) (a : ℕ) (r : ReverseFillRuntimeState) (after : _)
    → Acquires target cur key r after
    → places a after.0 ≡ places a r
acquired-places target cur key a r after (kept row sample e e' eq) = rw eq refl
acquired-places target cur key a r after (taken row rest sample e h e' eq) =
    rw (eq, h) (ground (arith, count-insert_new key row a r.reserved_row_by_thread e))
acquired-places target cur key a r after (empty e h eq) = rw eq refl

pub step-places :
    (r : ReverseFillRuntimeState) (op : Op) (a : ℕ)
    → IsPlaced r
    → KeepsRow op
    → places a (step r op) ≡ places a r
unfolding step
step-places r (acquire target cur key) a v k =
    acquired-places target cur key a r _ (acquire_locked-Acquires r v target cur key)
step-places r (release key requeue) a v k = rw k (release_locked-places r v key a)
step-places r (commit key) a v k = commit_locked-places r v key a
step-places r (fail key max_retries) a v k = failed_locked-places r v key max_retries a

dropped-places :
    (r : ReverseFillRuntimeState) (key : Text) (a : ℕ)
    → places a (release_locked key false r).0 ≤ places a r
unfolding release_locked
dropped-places r key a = elim (Option-cases (lookup key r.reserved_row_by_thread)) [
  | inl e ↦ rw (e, release_locked) (omega arith)
  | inr (row, e) ↦
      rw (e, release_locked) (omega (arith, count-erase_hit key row a r.reserved_row_by_thread e))
]

places-step-le :
    (r : ReverseFillRuntimeState) (op : Op) (a : ℕ) → IsPlaced r → places a (step r op) ≤ places a r
places-step-le r (release key false) a v = unfold step in dropped-places r key a
places-step-le r (release key true) a v = omega (arith, step-places r (release key true) a v refl)
places-step-le r (acquire target cur key) a v =
    omega (arith, step-places r (acquire target cur key) a v tt)
places-step-le r (commit key) a v = omega (arith, step-places r (commit key) a v tt)
places-step-le r (fail key m) a v = omega (arith, step-places r (fail key m) a v tt)

acquired-samples :
    (target : ℤ) (cur : ℕ) (key : Text) (r : ReverseFillRuntimeState) (after : _)
    → Acquires target cur key r after
    → after.0.samples_by_row_number ≡ r.samples_by_row_number
acquired-samples target cur key r after (kept row sample e e' eq) = rw eq refl
acquired-samples target cur key r after (taken row rest sample e h e' eq) = rw eq refl
acquired-samples target cur key r after (empty e h eq) = rw eq refl

acquired_unique :
    (target : ℤ) (cur : ℕ) (key : Text) (r : ReverseFillRuntimeState) (after : _)
    → HasUniqueKeys r.reserved_row_by_thread
    → Acquires target cur key r after
    → HasUniqueKeys after.0.reserved_row_by_thread
acquired_unique target cur key r after u (kept row sample e e' eq) = rw eq u
acquired_unique target cur key r after u (taken row rest sample e h e' eq) =
    rw eq (insert-HasUniqueKeys key row r.reserved_row_by_thread u)
acquired_unique target cur key r after u (empty e h eq) = rw eq u

samples-step :
    (r : ReverseFillRuntimeState) (op : Op)
    → IsPlaced r
    → (step r op).samples_by_row_number ≡ r.samples_by_row_number
unfolding step release_locked commit_locked failed_locked
samples-step r (acquire target cur key) v =
    acquired-samples target cur key r _ (acquire_locked-Acquires r v target cur key)
samples-step r (release key requeue) v = ground arith
samples-step r (commit key) v = ground arith
samples-step r (fail key m) v = ground arith

unique-step :
    (r : ReverseFillRuntimeState) (op : Op)
    → IsPlaced r
    → HasUniqueKeys (step r op).reserved_row_by_thread
unfolding step release_locked commit_locked failed_locked
unique-step r (acquire target cur key) v =
    acquired_unique target cur key r _ v.unique (acquire_locked-Acquires r v target cur key)
unique-step r (release key requeue) v =
    ground (arith, erase-HasUniqueKeys key r.reserved_row_by_thread v.unique, v.unique)
unique-step r (commit key) v =
    ground (arith, erase-HasUniqueKeys key r.reserved_row_by_thread v.unique, v.unique)
unique-step r (fail key m) v =
    ground (arith, erase-HasUniqueKeys key r.reserved_row_by_thread v.unique, v.unique)

pub step-IsPlaced : (r : ReverseFillRuntimeState) (op : Op) → IsPlaced r → IsPlaced (step r op)
step-IsPlaced r op v = record {
  placed = λ row. rw (samples-step r op v) (omega (arith, places-step-le r op row v, v.placed row));
  unique = unique-step r op v;
}

pub run-IsPlaced : (r : ReverseFillRuntimeState) (ops : List Op) → IsPlaced r → IsPlaced (run r ops)
unfolding run
run-IsPlaced r [] v = v
run-IsPlaced r (op ∷ ops) v = run-IsPlaced (step r op) ops (step-IsPlaced r op v)

-- Any history that drops no row leaves each row in as many places as before.
pub run-places :
    (r : ReverseFillRuntimeState) (ops : List Op) (a : ℕ)
    → IsPlaced r
    → All KeepsRow ops
    → places a (run r ops) ≡ places a r
unfolding run
run-places r [] a v k = refl
run-places r (op ∷ ops) a v k =
    run-places (step r op) ops a (step-IsPlaced r op v) k.1 ∙ step-places r op a v k.0

abbrev pub rows : List ReverseFillSampleRow → List ℕ
rows [] = []
rows (sample ∷ samples) = sample.data_row_number ∷ rows samples

places-load_samples :
    (samples : List ReverseFillSampleRow) (r : ReverseFillRuntimeState) (a : ℕ)
    → places a (load_samples samples r) ≡ places a r + count a (rows samples)
unfolding load_samples
places-load_samples [] r a = omega arith
places-load_samples (sample ∷ samples) r a = ground (
  arith,
  places-load_samples samples
      (record r {
        samples_by_row_number = insert sample.data_row_number sample r.samples_by_row_number;
        queued_row_numbers = r.queued_row_numbers ++ sample.data_row_number ∷ [];
      })
      a,
  count-append a r.queued_row_numbers (sample.data_row_number ∷ []),
)

known-load_samples :
    (samples : List ReverseFillSampleRow) (r : ReverseFillRuntimeState) (a : ℕ)
    → known a (load_samples samples r) ≡ (if contains a (rows samples) then 1 else known a r)
unfolding load_samples
known-load_samples [] r a = refl
known-load_samples (sample ∷ samples) r a = ground (
  arith,
  known-load_samples samples
      (record r {
        samples_by_row_number = insert sample.data_row_number sample r.samples_by_row_number;
        queued_row_numbers = r.queued_row_numbers ++ sample.data_row_number ∷ [];
      })
      a,
  lookup-insert sample.data_row_number a sample r.samples_by_row_number,
)

reserved-load_samples :
    (samples : List ReverseFillSampleRow) (r : ReverseFillRuntimeState)
    → (load_samples samples r).reserved_row_by_thread ≡ r.reserved_row_by_thread
unfolding load_samples
reserved-load_samples [] r = refl
reserved-load_samples (sample ∷ samples) r = reserved-load_samples samples _

abbrev pub HaveDistinctRows : List ReverseFillSampleRow → Type 0
HaveDistinctRows samples = (a : ℕ) → count a (rows samples) ≤ 1

abbrev pub loaded : ReverseFillSpec → ReverseFillRuntimeState
loaded spec = load_samples spec.samples (empty_runtime spec)

loaded-places :
    (spec : ReverseFillSpec) (a : ℕ) → places a (loaded spec) ≡ count a (rows spec.samples)
loaded-places spec a = omega (arith, places-load_samples spec.samples (empty_runtime spec) a)

pub loaded-IsPlaced :
    (spec : ReverseFillSpec) → HaveDistinctRows spec.samples → IsPlaced (loaded spec)
loaded-IsPlaced spec d = record {
  placed = λ a. ground (
    arith,
    loaded-places spec a,
    known-load_samples spec.samples (empty_runtime spec) a,
    d a,
    not-contains-count a (rows spec.samples),
  );
  unique = rw (reserved-load_samples spec.samples (empty_runtime spec)) tt;
}

-- From the start of a run, whatever the threads do and in whatever order, each row of the
-- spreadsheet stays in exactly one place: queued, reserved by one thread, committed or discarded.
-- The rows are distinct, and no release is told to drop its row.
pub run-conserves_rows :
    (spec : ReverseFillSpec) (ops : List Op) (row : ℕ)
    → HaveDistinctRows spec.samples
    → All KeepsRow ops
    → places row (run (loaded spec) ops) ≡ count row (rows spec.samples)
run-conserves_rows spec ops row d k =
    run-places (loaded spec) ops row (loaded-IsPlaced spec d) k ∙ loaded-places spec row

-- From the start of a run with distinct rows, whatever the threads do and in whatever order, two
-- threads that hold one row are the same thread, and a row that a thread holds is neither committed
-- nor discarded nor queued.
pub run-exclusive :
    (spec : ReverseFillSpec) (ops : List Op) (j k : Text) (row : ℕ)
    → HaveDistinctRows spec.samples
    → lookup j (run (loaded spec) ops).reserved_row_by_thread ≡ some row
    → lookup k (run (loaded spec) ops).reserved_row_by_thread ≡ some row
    → (j ≡ k)
      × (contains row (run (loaded spec) ops).committed_row_numbers ≡ false)
      × (contains row (run (loaded spec) ops).discarded_row_numbers ≡ false)
      × (contains row (run (loaded spec) ops).queued_row_numbers ≡ false)
run-exclusive spec ops j k row d h g =
    let v = run-IsPlaced (loaded spec) ops (loaded-IsPlaced spec d) in
    let (c, f, q) = free_of (run (loaded spec) ops) v j row h in
    ((text_beq_iff j k).0 (same_key (run (loaded spec) ops) v j row h k g), c, f, q)

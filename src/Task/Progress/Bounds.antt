-- ===== src/Task/Progress/Bounds.antt =====
-- The step that is shown never passes its total, and the counters of a thread.
use survey_controller.Common.{
  ℕ, ◌+◌, ◌≤◌, ◌≡◌, ◌⊎◌, ℤ, Bool, Option, none, some, List, [], ◌∷◌, Text, ◌==◌, if◌then◌else◌,
  refl, arith, text_eq, text_beq_iff, Option-cases, inl, inr,
}
use survey_controller.Common.Dict.{lookup, lookup-insert}
use survey_controller.Task.Defs.{ExecutionState, ThreadProgressState, notify_runtime_change}
use survey_controller.Task.Progress.{
  progress_key, get_or_create_thread_state, change_thread, update_thread_status, update_thread_step,
  increment_thread_success, increment_thread_fail, mark_thread_finished, on_status, on_step,
  on_success, on_fail, on_finished,
}

-- The methods, as one type of operations.
pub data Op : Type 0 where
  status : (thread_name status : Text) (running : Option Bool) (now : ℕ) → Op
  progress :
      (thread_name : Text) (step_current step_total : ℤ) (status : Option Text)
      (running : Option Bool) (now : ℕ)
      → Op
  success failure finished : (thread_name status : Text) (now : ℕ) → Op

unfoldable pub step : ExecutionState → Op → ExecutionState
step s (status name text running now) = update_thread_status name text running now s
step s (progress name current total text running now) =
    update_thread_step name current total text running now s
step s (success name text now) = increment_thread_success name text now s
step s (failure name text now) = increment_thread_fail name text now s
step s (finished name text now) = mark_thread_finished name text now s

unfoldable pub run : ExecutionState → List Op → ExecutionState
run s [] = s
run s (op ∷ ops) = run (step s op) ops

-- A step beyond a known total is never shown.
abbrev pub IsShown : ThreadProgressState → Type 0
IsShown t = (t.step_total ≡ 0) ⊎ (t.step_current ≤ t.step_total)

abbrev pub AreShown : ExecutionState → Type 0
AreShown s =
    (key : Text) (t : ThreadProgressState) → lookup key s.thread_progress ≡ some t → IsShown t

pub lookup-change_thread :
    (name : Text) (now : ℕ) (change : ThreadProgressState → ThreadProgressState)
    (s : ExecutionState) (key : Text)
    → lookup key (change_thread name now change s).thread_progress ≡ (
        if progress_key name == key
        then some (change (get_or_create_thread_state (progress_key name) now s))
        else lookup key s.thread_progress)
unfolding change_thread notify_runtime_change
lookup-change_thread name now change s key =
    lookup-insert (progress_key name) key
      (change (get_or_create_thread_state (progress_key name) now s)) s.thread_progress

get_or_create-IsShown :
    (key : Text) (now : ℕ) (s : ExecutionState)
    → AreShown s
    → IsShown (get_or_create_thread_state key now s)
unfolding get_or_create_thread_state
get_or_create-IsShown key now s v = elim (Option-cases (lookup key s.thread_progress)) [
  | inl e ↦ rw (e, get_or_create_thread_state) (inl refl)
  | inr (t, e) ↦ rw (e, get_or_create_thread_state) (v key t e)
]

change_thread-AreShown :
    (name : Text) (now : ℕ) (change : ThreadProgressState → ThreadProgressState)
    (s : ExecutionState)
    → ((t : ThreadProgressState) → IsShown t → IsShown (change t))
    → AreShown s
    → AreShown (change_thread name now change s)
change_thread-AreShown name now change s keep v key t h =
    let old = get_or_create_thread_state (progress_key name) now s in
    ground (
      arith,
      lookup-change_thread name now change s key,
      keep old (get_or_create-IsShown (progress_key name) now s v),
      v key t,
    )

step-AreShown : (s : ExecutionState) (op : Op) → AreShown s → AreShown (step s op)
unfolding step update_thread_status update_thread_step increment_thread_success
    increment_thread_fail mark_thread_finished
step-AreShown s (status name text running now) v = change_thread-AreShown name now _ s (λ t h. h) v
step-AreShown s (progress name current total text running now) v =
    change_thread-AreShown name now _ s (λ t h. ground arith) v
step-AreShown s (success name text now) v =
    change_thread-AreShown name now _ s (λ t h. ground arith) v
step-AreShown s (failure name text now) v = change_thread-AreShown name now _ s (λ t h. h) v
step-AreShown s (finished name text now) v = change_thread-AreShown name now _ s (λ t h. h) v

-- After any history of the progress methods, for all threads and whatever steps they report, below
-- 0 or above the total: a thread with a positive total is shown at a step within it. It holds
-- before.
pub run-AreShown : (s : ExecutionState) (ops : List Op) → AreShown s → AreShown (run s ops)
unfolding run
run-AreShown s [] v = v
run-AreShown s (op ∷ ops) v = run-AreShown (step s op) ops (step-AreShown s op v)

abbrev pub successes : Text → ExecutionState → ℕ
successes key s = elim (lookup key s.thread_progress) [ none ↦ 0 | some t ↦ t.success_count ]

abbrev pub fails : Text → ExecutionState → ℕ
fails key s = elim (lookup key s.thread_progress) [ none ↦ 0 | some t ↦ t.fail_count ]

abbrev pub success_of : Text → Op → ℕ
success_of key (success name note now) = if progress_key name == key then 1 else 0
success_of key _ = 0

abbrev pub fail_of : Text → Op → ℕ
fail_of key (failure name note now) = if progress_key name == key then 1 else 0
fail_of key _ = 0

abbrev pub total_of : (Op → ℕ) → List Op → ℕ
total_of f [] = 0
total_of f (op ∷ ops) = f op + total_of f ops

counts-change_thread :
    (name : Text) (now : ℕ) (change : ThreadProgressState → ThreadProgressState)
    (s : ExecutionState) (key : Text) (m n : ℕ)
    → ((t : ThreadProgressState)
        → ((change t).success_count ≡ t.success_count + m)
          × ((change t).fail_count ≡ t.fail_count + n))
    → (successes key (change_thread name now change s)
        ≡ successes key s + (if progress_key name == key then m else 0))
      × (fails key (change_thread name now change s)
          ≡ fails key s + (if progress_key name == key then n else 0))
unfolding get_or_create_thread_state
counts-change_thread name now change s key m n adds = ground (
  arith,
  lookup-change_thread name now change s key,
  text_beq_iff (progress_key name) key,
  adds (get_or_create_thread_state (progress_key name) now s),
)

step-counts :
    (s : ExecutionState) (op : Op) (key : Text)
    → (successes key (step s op) ≡ successes key s + success_of key op)
      × (fails key (step s op) ≡ fails key s + fail_of key op)
unfolding step update_thread_status update_thread_step increment_thread_success
    increment_thread_fail mark_thread_finished
step-counts s (status name note running now) key =
    ground (
      arith,
      counts-change_thread name now (on_status note running now) s key 0 0 (λ t. omega arith),
    )
step-counts s (progress name current total note running now) key = ground (
  arith,
  counts-change_thread name now (on_step current total note running now) s key 0 0
      (λ t. omega arith),
)
step-counts s (success name note now) key =
    ground (arith, counts-change_thread name now (on_success note now) s key 1 0 (λ t. omega arith))
step-counts s (failure name note now) key =
    ground (arith, counts-change_thread name now (on_fail note now) s key 0 1 (λ t. omega arith))
step-counts s (finished name note now) key =
    ground
      (arith, counts-change_thread name now (on_finished note now) s key 0 0 (λ t. omega arith))

-- After any history, a thread's counters have grown by the number of its successes and of its
-- failures, and by nothing else.
pub run-counts :
    (s : ExecutionState) (ops : List Op) (key : Text)
    → (successes key (run s ops) ≡ successes key s + total_of (success_of key) ops)
      × (fails key (run s ops) ≡ fails key s + total_of (fail_of key) ops)
unfolding run
run-counts s [] key = (omega arith, omega arith)
run-counts s (op ∷ ops) key =
    let (p, q) = run-counts (step s op) ops key in
    let (p', q') = step-counts s op key in (omega arith, omega arith)

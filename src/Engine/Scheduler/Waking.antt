-- ===== src/Engine/Scheduler/Waking.antt =====
-- The heap is in order, and a pass of the waker moves exactly the tokens that are due.
use survey_controller.Common.{
  ℕ, ◌+◌, ◌≤◌, ◌≡◌, true, false, not, List, [], ◌∷◌, ◌++◌, append-nil, append_assoc, nat_eq,
  filterb, All, refl, arith, Bool-cases, inl, inr,
}
use survey_controller.Engine.Scheduler.{
  ScheduledToken, AsyncScheduler, before, heappush, is_due, pop_due, sleep_for, sleeps, head_is_due,
  wake_delayed_tokens,
}

-- No token of the heap comes before `t`.
abbrev pub IsFirst : ScheduledToken → List ScheduledToken → Type 0
IsFirst t heap = All (λ u. before u t ≡ false) heap

abbrev pub IsOrdered : List ScheduledToken → Type 0
IsOrdered [] = Unit {0}
IsOrdered (t ∷ heap) = IsFirst t heap × IsOrdered heap

IsFirst-before :
    (t u : ScheduledToken) (heap : List ScheduledToken)
    → before t u ≡ true
    → IsFirst u heap
    → IsFirst t heap
IsFirst-before t u [] b f = tt
IsFirst-before t u (x ∷ heap) b f = (ground (arith, f.0), IsFirst-before t u heap b f.1)

heappush-IsFirst :
    (t u : ScheduledToken) (heap : List ScheduledToken)
    → before t u ≡ false
    → IsFirst u heap
    → IsFirst u (heappush t heap)
unfolding heappush
heappush-IsFirst t u [] b f = (b, tt)
heappush-IsFirst t u (x ∷ heap) b f = elim (Bool-cases (before t x)) [
  | inl e ↦ rw (e, heappush) (b, f)
  | inr e ↦ rw (e, heappush) (f.0, heappush-IsFirst t u heap b f.1)
]

before_asym : (t u : ScheduledToken) → before t u ≡ true → before u t ≡ false
before_asym t u b = ground arith

pub heappush-IsOrdered :
    (t : ScheduledToken) (heap : List ScheduledToken) → IsOrdered heap → IsOrdered (heappush t heap)
unfolding heappush
heappush-IsOrdered t [] o = (tt, tt)
heappush-IsOrdered t (u ∷ heap) o = elim (Bool-cases (before t u)) [
  | inl e ↦ rw (e, heappush) ((before_asym t u e, IsFirst-before t u heap e o.0), o)
  | inr e ↦ rw (e, heappush) (heappush-IsFirst t u heap e o.0, heappush-IsOrdered t heap o.1)
]

abbrev pub ids : List ScheduledToken → List ℕ
ids [] = []
ids (t ∷ heap) = t.token_id ∷ ids heap

abbrev pub due : ℕ → List ScheduledToken → List ScheduledToken
due now heap = filterb (is_due now) heap

abbrev pub resting : ℕ → List ScheduledToken → List ScheduledToken
resting now heap = filterb (λ t. not (is_due now t)) heap

none_due :
    (now : ℕ) (t : ScheduledToken) (heap : List ScheduledToken)
    → is_due now t ≡ false
    → IsFirst t heap
    → (due now heap ≡ []) × (resting now heap ≡ heap)
none_due now t [] e f = (refl, refl)
none_due now t (u ∷ heap) e f = ground (arith, none_due now t heap e f.1, f.0)

pop_due_lem :
    (now : ℕ) (heap : List ScheduledToken) (ready : List ℕ)
    → IsOrdered heap
    → pop_due now heap ready ≡ (resting now heap, ready ++ ids (due now heap))
unfolding pop_due
pop_due_lem now [] ready o = ground (arith, append-nil ready)
pop_due_lem now (t ∷ heap) ready o = ground (
  arith,
  pop_due_lem now heap (ready ++ t.token_id ∷ []) o.1,
  none_due now t heap,
  o.0,
  append-nil ready,
  append_assoc ready (t.token_id ∷ []) (ids (due now heap)),
)

resting-IsFirst :
    (now : ℕ) (t : ScheduledToken) (heap : List ScheduledToken)
    → IsFirst t heap
    → IsFirst t (resting now heap)
resting-IsFirst now t [] f = tt
resting-IsFirst now t (u ∷ heap) f = elim (Bool-cases (is_due now u)) [
  | inl e ↦ rw e (resting-IsFirst now t heap f.1)
  | inr e ↦ rw e (f.0, resting-IsFirst now t heap f.1)
]

resting-IsOrdered :
    (now : ℕ) (heap : List ScheduledToken) → IsOrdered heap → IsOrdered (resting now heap)
resting-IsOrdered now [] o = tt
resting-IsOrdered now (t ∷ heap) o = elim (Bool-cases (is_due now t)) [
  | inl e ↦ rw e (resting-IsOrdered now heap o.1)
  | inr e ↦ rw e (resting-IsFirst now t heap o.0, resting-IsOrdered now heap o.1)
]

-- A pass of the waker at `now` on an open scheduler moves exactly the tokens that are due, in the
-- order of the heap, to the end of the ready queue; the others keep resting, in order. The heap is in
-- order before.
pub wake_moves_due :
    (now : ℕ) (s : AsyncScheduler)
    → s.closed ≡ false
    → IsOrdered s.delayed
    → ((wake_delayed_tokens now s).0.ready ≡ s.ready ++ ids (due now s.delayed))
      × ((wake_delayed_tokens now s).0.delayed ≡ resting now s.delayed)
      × IsOrdered (wake_delayed_tokens now s).0.delayed
unfolding wake_delayed_tokens
wake_moves_due now s e o =
    rw (e, wake_delayed_tokens, pop_due_lem now s.delayed s.ready o)
      (refl, refl, resting-IsOrdered now s.delayed o)

later_than :
    (m : ℕ) (t : ScheduledToken) (heap : List ScheduledToken)
    → m ≤ t.ready_at
    → IsFirst t heap
    → All (λ u. m ≤ u.ready_at) heap
later_than m t [] le f = tt
later_than m t (u ∷ heap) le f = (ground (arith, f.0), later_than m t heap le f.1)

in_time :
    (now : ℕ) (heap : List ScheduledToken)
    → IsOrdered heap
    → head_is_due now heap ≡ false
    → (sleep_for now heap ≤ 100) × All (λ t. now + sleep_for now heap ≤ t.ready_at) heap
unfolding sleep_for
in_time now [] o h = (omega arith, tt)
in_time now (t ∷ heap) o h =
    let le : now + sleep_for now (t ∷ heap) ≤ t.ready_at = ground arith in
    (ground arith, (le, later_than (now + sleep_for now (t ∷ heap)) t heap le o.0))

slept :
    (now n : ℕ) (s : AsyncScheduler)
    → (wake_delayed_tokens now s).1 ≡ sleeps n
    → (head_is_due now s.delayed ≡ false) × (sleep_for now s.delayed ≡ n)
unfolding wake_delayed_tokens
slept now n s h = ground arith

-- When a pass of the waker moves nothing, it sleeps at most 100 milliseconds and not past the time at
-- which a token is due. The heap is in order.
pub wake_is_in_time :
    (now n : ℕ) (s : AsyncScheduler)
    → IsOrdered s.delayed
    → (wake_delayed_tokens now s).1 ≡ sleeps n
    → (n ≤ 100) × All (λ t. now + n ≤ t.ready_at) s.delayed
wake_is_in_time now n s o h =
    let (waiting, same) = slept now n s h in rw (← same) (in_time now s.delayed o waiting)

-- ===== src/Engine/Scheduler.antt =====
-- software/core/engine/async_scheduler.py: a session runs while it holds a token. Tokens that are
-- ready wait in a queue, and those that rest in a heap, here a list in the order in which the heap
-- gives them out. Each function is what a method does between two waits; time is in milliseconds.
pub mod Tokens
pub mod Waking
pub mod Closing
mod Examples
use survey_controller.Common.{
  ℕ, zero, suc, ◌+◌, ◌-◌, ℤ, clamp_0, clamp_1, Bool, true, false, not, ◌&&◌, ◌||◌, Option, none,
  some, List, [], ◌∷◌, ◌++◌, leb, ltb, nat_beq, if◌then◌else◌, min,
}

pub record ScheduledToken : Type 0 where
  pub ready_at : ℕ
  pub order : ℕ
  pub token_id : ℕ

pub record AsyncScheduler : Type 0 where
  pub ready : List ℕ
  pub delayed : List ScheduledToken
  pub order : ℕ
  pub closed : Bool

-- `range`, from `i` with `n` numbers
unfoldable pub tokens_from : ℕ → ℕ → List ℕ
tokens_from i zero = []
tokens_from i (suc n) = i ∷ tokens_from (suc i) n

unfoldable pub new_scheduler : ℤ → AsyncScheduler
new_scheduler concurrency = record {
  ready = tokens_from 0 (clamp_1 concurrency);
  delayed = [];
  order = 0;
  closed = false;
}

-- The order of `_ScheduledToken`: its time, then its number; the id does not count.
abbrev pub before : ScheduledToken → ScheduledToken → Bool
before t u = ltb t.ready_at u.ready_at || nat_beq t.ready_at u.ready_at && ltb t.order u.order

unfoldable pub heappush : ScheduledToken → List ScheduledToken → List ScheduledToken
heappush t [] = t ∷ []
heappush t (u ∷ heap) = let rest = heappush t heap in if before t u then t ∷ u ∷ heap else u ∷ rest

-- What one pass of the loop in `acquire` comes to.
pub data Acquired : Type 0 where
  refused : Acquired
  token : (token_id : ℕ) → Acquired
  waits : Acquired

unfoldable pub acquire : AsyncScheduler → AsyncScheduler × Acquired
acquire s = elim s.closed [
  | true ↦ (s, refused)
  | false ↦ elim s.ready [ [] ↦ (s, waits) | i ∷ rest ↦ (record s { ready = rest }, token i) ]
]

unfoldable pub release : ℕ → Bool → ℤ → ℕ → AsyncScheduler → AsyncScheduler
release token_id requeue delay now s =
    if not requeue || s.closed
    then s
    else if nat_beq (clamp_0 delay) 0
    then record s { ready = s.ready ++ token_id ∷ [] }
    else record s {
      delayed =
          heappush (record { ready_at = now + clamp_0 delay; order = s.order; token_id = token_id })
            s.delayed;
      order = suc s.order;
    }

abbrev pub is_due : ℕ → ScheduledToken → Bool
is_due now t = leb t.ready_at now

abbrev pub head_is_due : ℕ → List ScheduledToken → Bool
head_is_due now [] = false
head_is_due now (t ∷ heap) = is_due now t

-- The inner loop of `_wake_delayed_tokens`: what is left of the heap, and the ready tokens.
unfoldable pub pop_due : ℕ → List ScheduledToken → List ℕ → List ScheduledToken × List ℕ
pop_due now [] ready = ([], ready)
pop_due now (t ∷ heap) ready =
    let later = pop_due now heap (ready ++ t.token_id ∷ []) in
    if is_due now t then later else (t ∷ heap, ready)

-- How long the waker sleeps when it has moved nothing.
unfoldable pub sleep_for : ℕ → List ScheduledToken → ℕ
sleep_for now [] = 100
sleep_for now (t ∷ heap) = min 100 (t.ready_at - now)

pub data Wake : Type 0 where
  stopped : Wake
  moved : Wake
  sleeps : (milliseconds : ℕ) → Wake

-- One pass of `_wake_delayed_tokens`.
unfoldable pub wake_delayed_tokens : ℕ → AsyncScheduler → AsyncScheduler × Wake
wake_delayed_tokens now s =
    if s.closed
    then (s, stopped)
    else (let (delayed, ready) = pop_due now s.delayed s.ready in
        (
          record s { delayed = delayed; ready = ready },
          if head_is_due now s.delayed then moved else sleeps (sleep_for now s.delayed),
        ))

unfoldable pub close : AsyncScheduler → AsyncScheduler
close s = record s { closed = true }

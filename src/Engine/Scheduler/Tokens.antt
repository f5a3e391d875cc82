-- ===== src/Engine/Scheduler/Tokens.antt =====
-- Where the tokens are. A session takes a token, and releases it once: what the sessions hold, and
-- the tokens that went out of use, stand beside the scheduler.
use survey_controller.Common.{
  ℕ, zero, suc, ◌+◌, ◌≤◌, ◌≡◌, ◌∙◌, ℤ, clamp_0, clamp_1, Bool, true, not, ◌&&◌, List, [], ◌∷◌, ◌++◌,
  leb, ltb, if◌then◌else◌, count, contains, ◌==◌, nat_eq, nat_beq_iff, length, refl, arith,
  count-append,
}
use survey_controller.Common.Tally.{tally-length, tally-le}
use survey_controller.Engine.Scheduler.{
  ScheduledToken, AsyncScheduler, Acquired, token, heappush, pop_due, tokens_from, new_scheduler,
  wake_delayed_tokens, acquire, release, close,
}
use survey_controller.Engine.Scheduler.Waking.{ids}

pub record Sessions : Type 0 where
  pub scheduler : AsyncScheduler
  pub held : List ℕ
  pub retired : List ℕ

pub data Op : Type 0 where
  take : Op
  give : (token_id : ℕ) (requeue : Bool) (delay : ℤ) (now : ℕ) → Op
  wake : (now : ℕ) → Op
  shut : Op

abbrev hand_out : AsyncScheduler → Acquired → Sessions → Sessions
hand_out s (token i) y = record y { scheduler = s; held = i ∷ y.held }
hand_out s _ y = record y { scheduler = s }

abbrev pub drop_one : ℕ → List ℕ → List ℕ
drop_one i [] = []
drop_one i (x ∷ xs) = if x == i then xs else x ∷ drop_one i xs

-- A session releases only a token that it holds.
unfoldable pub step : Sessions → Op → Sessions
step y take = let (s, got) = acquire y.scheduler in hand_out s got y
step y (give i requeue delay now) =
    if contains i y.held
    then record {
      scheduler = release i requeue delay now y.scheduler;
      held = drop_one i y.held;
      retired = if requeue && not y.scheduler.closed then y.retired else i ∷ y.retired;
    }
    else y
step y (wake now) = record y { scheduler = (wake_delayed_tokens now y.scheduler).0 }
step y shut = record y { scheduler = close y.scheduler }

unfoldable pub run : Sessions → List Op → Sessions
run y [] = y
run y (op ∷ ops) = run (step y op) ops

abbrev pub start : ℤ → Sessions
start concurrency = record { scheduler = new_scheduler concurrency; held = []; retired = [] }

abbrev pub places : ℕ → Sessions → ℕ
places i y =
    count i y.scheduler.ready
    + count i (ids y.scheduler.delayed)
    + count i y.held
    + count i y.retired

count-heappush :
    (i : ℕ) (t : ScheduledToken) (heap : List ScheduledToken)
    → count i (ids (heappush t heap)) ≡ count i (t.token_id ∷ ids heap)
unfolding heappush
count-heappush i t [] = refl
count-heappush i t (u ∷ heap) = ground (arith, count-heappush i t heap)

count-pop_due :
    (i now : ℕ) (heap : List ScheduledToken) (ready : List ℕ)
    → count i (pop_due now heap ready).1 + count i (ids (pop_due now heap ready).0)
      ≡ count i ready + count i (ids heap)
unfolding pop_due
count-pop_due i now [] ready = refl
count-pop_due i now (t ∷ heap) ready = ground (
  arith,
  count-pop_due i now heap (ready ++ t.token_id ∷ []),
  count-append i ready (t.token_id ∷ []),
)

count-drop_one :
    (i a : ℕ) (xs : List ℕ) → contains i xs ≡ true → count a (i ∷ drop_one i xs) ≡ count a xs
count-drop_one i a [] h = ground arith
count-drop_one i a (x ∷ xs) h =
    ground (arith, count-drop_one i a xs, nat_beq_iff x i, nat_beq_iff i x)

places-take : (a : ℕ) (y : Sessions) → places a (step y take) ≡ places a y
unfolding step acquire
places-take a y = ground arith

places-give :
    (a i : ℕ) (requeue : Bool) (delay : ℤ) (now : ℕ) (y : Sessions)
    → places a (step y (give i requeue delay now)) ≡ places a y
unfolding step release
places-give a i requeue delay now y = ground (
  arith,
  count-drop_one i a y.held,
  count-append a y.scheduler.ready (i ∷ []),
  count-heappush a
      (record { ready_at = now + clamp_0 delay; order = y.scheduler.order; token_id = i })
      y.scheduler.delayed,
)

places-wake : (a now : ℕ) (y : Sessions) → places a (step y (wake now)) ≡ places a y
unfolding step wake_delayed_tokens
places-wake a now y = ground (arith, count-pop_due a now y.scheduler.delayed y.scheduler.ready)

places-step : (a : ℕ) (y : Sessions) (op : Op) → places a (step y op) ≡ places a y
unfolding step close
places-step a y take = places-take a y
places-step a y (give i requeue delay now) = places-give a i requeue delay now y
places-step a y (wake now) = places-wake a now y
places-step a y shut = refl

places-run : (a : ℕ) (y : Sessions) (ops : List Op) → places a (run y ops) ≡ places a y
unfolding run
places-run a y [] = refl
places-run a y (op ∷ ops) = places-run a (step y op) ops ∙ places-step a y op

count-tokens_from :
    (a i n : ℕ) → count a (tokens_from i n) ≡ (if leb i a && ltb a (i + n) then 1 else 0)
unfolding tokens_from
count-tokens_from a i zero = ground arith
count-tokens_from a i (suc n) = ground (arith, count-tokens_from a (suc i) n, nat_beq_iff i a)

-- After any history of a scheduler, each of its tokens is in exactly one place: ready, resting, held
-- by a session, or out of use; and no other number is a token.
pub run-conserves_tokens :
    (concurrency : ℤ) (ops : List Op) (a : ℕ)
    → places a (run (start concurrency) ops) ≡ (if ltb a (clamp_1 concurrency) then 1 else 0)
unfolding new_scheduler
run-conserves_tokens concurrency ops a =
    ground
      (arith, places-run a (start concurrency) ops, count-tokens_from a 0 (clamp_1 concurrency))

-- After any history no more sessions hold a token than the concurrency, or 1 if that is below 1.
pub run-within_concurrency :
    (concurrency : ℤ) (ops : List Op)
    → length (run (start concurrency) ops).held ≤ clamp_1 concurrency
run-within_concurrency concurrency ops =
    let held = (run (start concurrency) ops).held in
    let once = run-conserves_tokens concurrency ops in
    omega (
      arith,
      tally-length (clamp_1 concurrency) held (λ i le. ground (arith, once i)),
      tally-le (clamp_1 concurrency) held (λ i. ground (arith, once i)),
    )

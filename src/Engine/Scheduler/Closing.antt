-- ===== src/Engine/Scheduler/Closing.antt =====
-- A closed scheduler stays closed and hands out nothing.
use survey_controller.Common.{
  ℕ, ◌≤◌, ◌≡◌, ◌∙◌, ap, sym, true, List, [], ◌∷◌, nat_eq, length, refl, arith,
}
use survey_controller.Engine.Scheduler.{
  AsyncScheduler, refused, wake_delayed_tokens, acquire, release, close,
}
use survey_controller.Engine.Scheduler.Tokens.{
  Sessions, Op, take, give, wake, shut, step, run, drop_one,
}

held_one_less : (i : ℕ) (xs : List ℕ) → length (drop_one i xs) ≤ length xs
held_one_less i [] = omega arith
held_one_less i (x ∷ xs) = ground (arith, held_one_less i xs)

closed-step :
    (y : Sessions) (op : Op)
    → y.scheduler.closed ≡ true
    → ((step y op).scheduler ≡ y.scheduler) × (length (step y op).held ≤ length y.held)
unfolding step acquire release wake_delayed_tokens close
closed-step y take h = rw (h, step) (refl, omega arith)
closed-step y (give i requeue delay now) h = (ground arith, ground (arith, held_one_less i y.held))
closed-step y (wake now) h = (ground arith, omega arith)
closed-step y shut h = (ap (λ b. record y.scheduler { closed = b }) (sym h), omega arith)

closed-run :
    (y : Sessions) (ops : List Op)
    → y.scheduler.closed ≡ true
    → ((run y ops).scheduler ≡ y.scheduler) × (length (run y ops).held ≤ length y.held)
unfolding run
closed-run y [] h = (refl, omega arith)
closed-run y (op ∷ ops) h =
    let (same, fewer) = closed-step y op h in
    let (same', fewer') = closed-run (step y op) ops (ap (λ s. s.closed) same ∙ h) in
    (same' ∙ same, omega arith)

refused_of : (s : AsyncScheduler) → acquire (close s) ≡ (close s, refused)
unfolding acquire close
refused_of s = refl

-- Once the scheduler is closed, nothing changes it again: whatever follows, to acquire is refused,
-- and the sessions hold no more tokens than they did.
pub closed_hands_out_nothing :
    (y : Sessions) (ops : List Op)
    → let after = run (step y shut) ops in
      (after.scheduler ≡ close y.scheduler)
      × (acquire after.scheduler ≡ (close y.scheduler, refused))
      × (length after.held ≤ length y.held)
unfolding step close
closed_hands_out_nothing y ops =
    let (same, fewer) = closed-run (step y shut) ops refl in
    (same, rw same (refused_of y.scheduler), fewer)

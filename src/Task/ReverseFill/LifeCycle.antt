-- ===== src/Task/ReverseFill/LifeCycle.antt =====
-- Histories of operations (software/core/task/reverse_fill_state.py) as lives of the rows.
use survey_controller.Common.{
  ℕ, ◌≡◌, ◌⊎◌, false, List, [], ◌∷◌, nat_eq, text_eq, refl, inl, inr, sym, ap, ◌∙◌,
}
use survey_controller.Task.Defs.{ReverseFillRuntimeState}
use survey_controller.Task.ReverseFill.Places.{IsPlaced, acquire_locked-Acquires}
use survey_controller.Task.ReverseFill.Steps.{
  Op, acquire, release, commit, fail, step, run, step-IsPlaced,
}
use survey_controller.Task.ReverseFill.Standing.{
  Standing, Stands, Move, takes, returns, drops, commits, retries, discards, leaves, Life, ends,
  moves, is_settled,
}
use survey_controller.Task.ReverseFill.Moves.{
  Moves, release-Moves, commit-Moves, fail-Moves, acquire-Moves,
}

step-Moves :
    (r : ReverseFillRuntimeState) (op : Op) (a : ℕ) (s : Standing)
    → IsPlaced r
    → Stands a r s
    → Moves op a s (step r op)
unfolding step
step-Moves r (acquire target cur key) a s v st =
    acquire-Moves r v a target cur key s _ (acquire_locked-Acquires r v target cur key) st
step-Moves r (release key requeue) a s v st = release-Moves r v a key requeue s st
step-Moves r (commit key) a s v st = commit-Moves r v a key s st
step-Moves r (fail key m) a s v st = fail-Moves r v a key m s st

run_lives :
    (r : ReverseFillRuntimeState) (ops : List Op) (a : ℕ) (s : Standing)
    → IsPlaced r
    → Stands a r s
    → (t : Standing) × Life ops s t × Stands a (run r ops) t
unfolding run
run_lives r [] a s v st = (s, ends s, st)
run_lives r (op ∷ ops) a s v st =
    let (t, move, st') = step-Moves r op a s v st in
    let (u, life, last) = run_lives (step r op) ops a t (step-IsPlaced r op v) st' in
    (u, moves op ops s t u move life, last)

kept_by_step : (op : Op) (s t : Standing) → Move op s t → (is_settled s ≡ false) ⊎ (t ≡ s)
kept_by_step _ _ _ (takes target cur key) = inl refl
kept_by_step _ _ _ (returns key) = inl refl
kept_by_step _ _ _ (drops key) = inl refl
kept_by_step _ _ _ (commits key) = inl refl
kept_by_step _ _ _ (retries key m) = inl refl
kept_by_step _ _ _ (discards key m) = inl refl
kept_by_step _ _ _ (leaves op s h) = inr refl

kept_by_history : (ops : List Op) (s t : Standing) → Life ops s t → (is_settled s ≡ false) ⊎ (t ≡ s)
kept_by_history _ _ _ (ends s) = inr refl
kept_by_history _ _ _ (moves op ops s t u move life) = elim (kept_by_step op s t move) [
  | inl open_still ↦ inl open_still
  | inr same ↦ elim (kept_by_history ops t u life) [
    | inl open_still ↦ inl (ap is_settled (sym same) ∙ open_still)
    | inr last ↦ inr (last ∙ same)
  ]
]

-- Whatever the threads do to the rows and in whatever order, there is for each row a life of the abstract
-- machine, one move for each operation, that ends where the row then stands, once and nowhere else: an
-- acquisition may hand a queued row to its thread; the release, the commit and the failure of the thread
-- that holds the row put it back or drop it, commit it, and put it back or discard it; and no operation
-- of another thread moves it. A row that is committed, discarded or dropped stands there at the end too.
-- In the beginning no row stands in two places, and the row stands where the life starts.
pub run-Life :
    (r : ReverseFillRuntimeState) (ops : List Op) (row : ℕ) (s : Standing)
    → IsPlaced r
    → Stands row r s
    → (t : Standing) × Life ops s t × Stands row (run r ops) t × ((is_settled s ≡ false) ⊎ (t ≡ s))
run-Life r ops row s v st =
    let (t, life, last) = run_lives r ops row s v st in
    (t, life, last, kept_by_history ops s t life)

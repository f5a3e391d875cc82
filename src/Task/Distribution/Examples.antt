-- ===== src/Task/Distribution/Examples.antt =====
-- Two choices of one question with three options.
use survey_controller.Common.{
  ℕ, ◌+◌, ◌≡◌, pos, [], ◌∷◌, Text, text, length, sum, All, refl, arith, text_eq, strip, inr,
}
use survey_controller.Common.Dict.{lookup}
use survey_controller.Task.Defs.{ExecutionState, Caller, named, thread_key, PendingChoice}
use survey_controller.Task.Samples.{fresh}
use survey_controller.Task.Distribution.{
  snapshot_distribution_stats, pending_of, commit_pending_distribution, bucket_of, normalize_counts,
}
use survey_controller.Task.Distribution.Counts.{entry}
use survey_controller.Task.Distribution.Commit.{
  choices_of, choices_at, IsChoice, HasWidth, commit_adds_choices,
}
use survey_controller.Task.Distribution.Balance.{IsBalanced, FitsWidth, commit_keeps_balance}

abbrev one : Caller
one = named (text "Slot-1")

abbrev choice : ℕ → PendingChoice
choice i = record { stat_key = text "q1"; option_index = i; option_count = 3 }

abbrev collected : ExecutionState
collected = record fresh {
  distribution_pending_by_thread = (text "Slot-1", choice 2 ∷ choice 0 ∷ []) ∷ [];
}

collected-IsChoice : All IsChoice (pending_of (thread_key one) collected)
unfolding thread_key strip lookup
collected-IsChoice = (omega arith, (omega arith, tt))

collected-HasWidth : All (HasWidth (text "q1") 3) (pending_of (thread_key one) collected)
unfolding thread_key strip lookup
collected-HasWidth = (inr refl, (inr refl, tt))

commit_adds_choices_example :
    ((snapshot_distribution_stats
        (text "q1")
        (pos 3)
        (commit_pending_distribution one collected).0).0
      ≡ (snapshot_distribution_stats (text "q1") (pos 3) collected).0
        + choices_of (text "q1") (pending_of (thread_key one) collected))
    × (entry 2
          (snapshot_distribution_stats
            (text "q1")
            (pos 3)
            (commit_pending_distribution one collected).0).1
        ≡ entry 2 (snapshot_distribution_stats (text "q1") (pos 3) collected).1
          + choices_at (text "q1") 2 (pending_of (thread_key one) collected))
    × ((commit_pending_distribution one collected).1
        ≡ length (pending_of (thread_key one) collected))
    × (pending_of (thread_key one) (commit_pending_distribution one collected).0 ≡ [])
    × ((commit_pending_distribution one (commit_pending_distribution one collected).0).1 ≡ 0)
commit_adds_choices_example =
    commit_adds_choices (text "q1") 3 2 one collected collected-IsChoice collected-HasWidth
      (omega arith)

abbrev three : Text → ℕ
three key = 3

collected-FitsWidth : All (FitsWidth three) (pending_of (thread_key one) collected)
unfolding thread_key strip lookup
collected-FitsWidth = (refl, (refl, tt))

collected-IsBalanced : IsBalanced three collected.distribution_runtime_stats
unfolding bucket_of lookup normalize_counts
collected-IsBalanced key = refl

commit_keeps_balance_example :
    sum
      (snapshot_distribution_stats
        (text "q1")
        (pos 3)
        (commit_pending_distribution one collected).0).1
    ≡ (snapshot_distribution_stats
        (text "q1")
        (pos 3)
        (commit_pending_distribution one collected).0).0
commit_keeps_balance_example =
    commit_keeps_balance three one collected (text "q1") collected-IsChoice collected-FitsWidth
      collected-IsBalanced

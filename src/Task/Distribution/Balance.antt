-- ===== src/Task/Distribution/Balance.antt =====
-- The counts of each question add up to its total.
use survey_controller.Common.{
  ℕ, ◌≡◌, pos, List, [], ◌∷◌, Text, sum, ◌==◌, arith, All, text_eq, text_beq_iff, inl, inr,
  Bool-cases, ap, ◌∙◌,
}
use survey_controller.Common.Dict.{Dict}
use survey_controller.Task.Defs.{ExecutionState, Caller, thread_key, Bucket, PendingChoice}
use survey_controller.Task.Distribution.{
  normalize_counts, bucket_of, snapshot_distribution_stats, pending_of, bump, count_choice,
  commit_choices, commit_pending_distribution,
}
use survey_controller.Task.Distribution.Counts.{
  length-normalize_counts, sum-bump, length-bump, normalize_counts-same,
}
use survey_controller.Task.Distribution.Commit.{IsChoice, bucket_of-count_choice}

-- The counts that a snapshot shows for question `key` add up to its total; the question has
-- `width key` options.
abbrev pub IsBalanced : (Text → ℕ) → Dict Text Bucket → Type 0
IsBalanced width stats =
    (key : Text)
    → sum (normalize_counts (bucket_of key stats).counts (width key)) ≡ (bucket_of key stats).total

abbrev pub FitsWidth : (Text → ℕ) → PendingChoice → Type 0
FitsWidth width item = width item.stat_key ≡ item.option_count

count_choice-IsBalanced :
    (width : Text → ℕ) (item : PendingChoice) (stats : Dict Text Bucket)
    → IsChoice item
    → FitsWidth width item
    → IsBalanced width stats
    → IsBalanced width (count_choice item stats)
count_choice-IsBalanced width item stats ok w b key =
    let old = normalize_counts (bucket_of item.stat_key stats).counts item.option_count in
    elim (Bool-cases (item.stat_key == key)) [
      | inl hit ↦
          let e : item.stat_key ≡ key = (text_beq_iff item.stat_key key).0 hit in
          rw (bucket_of-count_choice key item stats, hit, ← e, w)
            (omega (
              arith,
              ap sum (
                  normalize_counts-same (bump old item.option_index) item.option_count (
                    length-bump old item.option_index
                    ∙ length-normalize_counts (bucket_of item.stat_key stats).counts
                        item.option_count)),
              sum-bump old item.option_index,
              length-normalize_counts (bucket_of item.stat_key stats).counts item.option_count,
              rw w at (b item.stat_key),
            ))
      | inr miss ↦ rw (bucket_of-count_choice key item stats, miss) (b key)
    ]

commit_choices-IsBalanced :
    (width : Text → ℕ) (items : List PendingChoice) (stats : Dict Text Bucket)
    → All IsChoice items
    → All (FitsWidth width) items
    → IsBalanced width stats
    → IsBalanced width (commit_choices items stats).0
unfolding commit_choices
commit_choices-IsBalanced width [] stats ok w b = b
commit_choices-IsBalanced width (item ∷ items) stats ok w b =
    let more =
      commit_choices-IsBalanced width items (count_choice item stats) ok.1 w.1
        (count_choice-IsBalanced width item stats ok.0 w.0 b) in
    λ key. ground (arith, more key, ok.0)

-- A commit keeps the statistics balanced: the counts that a snapshot shows for a question add up to
-- its total, for every question. The thread's choices are in range and name, for each question, the
-- number of options that it has.
pub commit_keeps_balance :
    (width : Text → ℕ) (c : Caller) (s : ExecutionState) (key : Text)
    → All IsChoice (pending_of (thread_key c) s)
    → All (FitsWidth width) (pending_of (thread_key c) s)
    → IsBalanced width s.distribution_runtime_stats
    → sum (snapshot_distribution_stats key (pos (width key)) (commit_pending_distribution c s).0).1
      ≡ (snapshot_distribution_stats key (pos (width key)) (commit_pending_distribution c s).0).0
unfolding commit_pending_distribution snapshot_distribution_stats
commit_keeps_balance width c s key ok w b =
    commit_choices-IsBalanced width (pending_of (thread_key c) s) s.distribution_runtime_stats ok w
      b key

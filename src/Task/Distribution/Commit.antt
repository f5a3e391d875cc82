-- ===== src/Task/Distribution/Commit.antt =====
-- What a commit adds to the statistics.
use survey_controller.Common.{
  ℕ, suc, ◌+◌, ◌<◌, ◌≡◌, ◌⊎◌, pos, false, ◌&&◌, List, [], ◌∷◌, Text, length, nat_beq, ◌==◌,
  if◌then◌else◌, refl, arith, All, text_eq, text_beq_iff,
}
use survey_controller.Common.Dict.{Dict, lookup-insert}
use survey_controller.Task.Defs.{ExecutionState, Caller, thread_key, Bucket, PendingChoice}
use survey_controller.Task.Distribution.{
  normalize_counts, bucket_of, snapshot_distribution_stats, pending_of, bump, count_choice,
  commit_choices, commit_pending_distribution,
}
use survey_controller.Task.Distribution.Counts.{
  entry, length-normalize_counts, entry-normalize_counts, entry-bump,
}

-- How many of the choices are of question `key`, and how many of those are of option `i`.
abbrev pub choices_of : Text → List PendingChoice → ℕ
choices_of key [] = 0
choices_of key (item ∷ items) =
    let rest = choices_of key items in if item.stat_key == key then suc rest else rest

abbrev pub choices_at : Text → ℕ → List PendingChoice → ℕ
choices_at key i [] = 0
choices_at key i (item ∷ items) =
    let rest = choices_at key i items in
    if item.stat_key == key && nat_beq item.option_index i then suc rest else rest

-- What `append` lets in: the index is in range, and every choice of `key` is among `n` options.
abbrev pub IsChoice : PendingChoice → Type 0
IsChoice item = item.option_index < item.option_count

abbrev pub HasWidth : Text → ℕ → PendingChoice → Type 0
HasWidth key n item = ((item.stat_key == key) ≡ false) ⊎ (item.option_count ≡ n)

pub bucket_of-count_choice :
    (key : Text) (item : PendingChoice) (stats : Dict Text Bucket)
    → bucket_of key (count_choice item stats) ≡ (
        if item.stat_key == key
        then record {
          total = suc (bucket_of item.stat_key stats).total;
          counts =
              bump
                (normalize_counts (bucket_of item.stat_key stats).counts item.option_count)
                item.option_index;
        }
        else bucket_of key stats)
unfolding bucket_of count_choice
bucket_of-count_choice key item stats = ground (
  arith,
  lookup-insert item.stat_key key
      (record {
        total = suc (bucket_of item.stat_key stats).total;
        counts =
            bump (normalize_counts (bucket_of item.stat_key stats).counts item.option_count)
              item.option_index;
      })
      stats,
)

entry-count_choice :
    (key : Text) (n i : ℕ) (item : PendingChoice) (stats : Dict Text Bucket)
    → i < n
    → IsChoice item
    → HasWidth key n item
    → entry i (bucket_of key (count_choice item stats)).counts
      ≡ entry i (bucket_of key stats).counts + choices_at key i (item ∷ [])
entry-count_choice key n i item stats h ok w =
    let old = (bucket_of item.stat_key stats).counts in
    ground (
      arith,
      bucket_of-count_choice key item stats,
      entry-bump i item.option_index (normalize_counts old item.option_count),
      length-normalize_counts old item.option_count,
      entry-normalize_counts i old item.option_count,
      text_beq_iff item.stat_key key,
      w,
    )

total-count_choice :
    (key : Text) (item : PendingChoice) (stats : Dict Text Bucket)
    → (bucket_of key (count_choice item stats)).total
      ≡ (bucket_of key stats).total + choices_of key (item ∷ [])
total-count_choice key item stats =
    ground (arith, bucket_of-count_choice key item stats, text_beq_iff item.stat_key key)

commit_choices-entry :
    (key : Text) (n i : ℕ) (items : List PendingChoice) (stats : Dict Text Bucket)
    → i < n
    → All IsChoice items
    → All (HasWidth key n) items
    → entry i (bucket_of key (commit_choices items stats).0).counts
      ≡ entry i (bucket_of key stats).counts + choices_at key i items
unfolding commit_choices
commit_choices-entry key n i [] stats h ok w = omega arith
commit_choices-entry key n i (item ∷ items) stats h ok w = ground (
  arith,
  commit_choices-entry key n i items (count_choice item stats) h ok.1 w.1,
  entry-count_choice key n i item stats h ok.0 w.0,
  ok.0,
)

commit_choices-total :
    (key : Text) (items : List PendingChoice) (stats : Dict Text Bucket)
    → All IsChoice items
    → ((bucket_of key (commit_choices items stats).0).total
        ≡ (bucket_of key stats).total + choices_of key items)
      × ((commit_choices items stats).1 ≡ length items)
unfolding commit_choices
commit_choices-total key [] stats ok = (omega arith, refl)
commit_choices-total key (item ∷ items) stats ok = ground (
  arith,
  commit_choices-total key items (count_choice item stats) ok.1,
  total-count_choice key item stats,
  ok.0,
)

cleared_pending :
    (c : Caller) (s : ExecutionState)
    → pending_of (thread_key c) (commit_pending_distribution c s).0 ≡ []
unfolding commit_pending_distribution
cleared_pending c s = ground (
  arith,
  lookup-insert (thread_key c) (thread_key c) [] s.distribution_pending_by_thread,
  text_beq_iff (thread_key c) (thread_key c),
)

commit_nothing :
    (c : Caller) (s : ExecutionState)
    → pending_of (thread_key c) s ≡ []
    → (commit_pending_distribution c s).1 ≡ 0
unfolding commit_pending_distribution commit_choices
commit_nothing c s h = ground arith

-- A commit adds the thread's choices to the statistics of each question, all of which have `n`
-- options there: its total grows by the number of choices of that question, each entry of its
-- counts by the number of choices of that option. It returns how many choices there were, and
-- leaves none, so that a second commit adds nothing. The thread's choices are in range.
pub commit_adds_choices :
    (key : Text) (n i : ℕ) (c : Caller) (s : ExecutionState)
    → All IsChoice (pending_of (thread_key c) s)
    → All (HasWidth key n) (pending_of (thread_key c) s)
    → i < n
    → let items = pending_of (thread_key c) s in
      let after = (commit_pending_distribution c s).0 in
      ((snapshot_distribution_stats key (pos n) after).0
        ≡ (snapshot_distribution_stats key (pos n) s).0 + choices_of key items)
      × (entry i (snapshot_distribution_stats key (pos n) after).1
          ≡ entry i (snapshot_distribution_stats key (pos n) s).1 + choices_at key i items)
      × ((commit_pending_distribution c s).1 ≡ length items)
      × (pending_of (thread_key c) after ≡ [])
      × ((commit_pending_distribution c after).1 ≡ 0)
unfolding commit_pending_distribution snapshot_distribution_stats
commit_adds_choices key n i c s ok w h =
    let items = pending_of (thread_key c) s in
    let stats = s.distribution_runtime_stats in
    let (total, committed) = commit_choices-total key items stats ok in
    let cleared = cleared_pending c s in
    (
      total,
      omega (
        arith,
        commit_choices-entry key n i items stats h ok w,
        entry-normalize_counts i (bucket_of key stats).counts n h,
        entry-normalize_counts i (bucket_of key (commit_choices items stats).0).counts n h,
      ),
      committed,
      cleared,
      commit_nothing c (commit_pending_distribution c s).0 cleared,
    )

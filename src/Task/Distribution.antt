-- ===== src/Task/Distribution.antt =====
-- software/core/task/distribution_state.py, the answer statistics: a thread collects its choices
-- while it answers a copy, and they count only when the copy was submitted.
pub mod Counts
pub mod Commit
pub mod Balance
pub mod Pending
mod Examples
use survey_controller.Common.{
  ℕ, zero, suc, ◌≤◌, ◌<◌, ℤ, pos, negsuc, clamp_0, Bool, true, false, ◌||◌, Option, none, some,
  List, [], ◌∷◌, ◌++◌, Text, leb, nat_beq, if◌then◌else◌, is_nonpositive, reaches_ℤ, text_eq,
}
use survey_controller.Common.Dict.{Dict, lookup, insert}
use survey_controller.Task.Defs.{ExecutionState, Caller, thread_key, Bucket, PendingChoice}

-- `_normalize_distribution_counts`, on the counts that a bucket holds: cut or filled up with 0 to
-- `count` entries.
unfoldable pub normalize_counts : List ℕ → ℕ → List ℕ
normalize_counts raw zero = []
normalize_counts [] (suc count) = 0 ∷ normalize_counts [] count
normalize_counts (c ∷ raw) (suc count) = c ∷ normalize_counts raw count

-- `distribution_runtime_stats.get(key) or {}`, whose total is 0 and whose counts are none.
unfoldable pub bucket_of : Text → Dict Text Bucket → Bucket
bucket_of key stats = elim (lookup key stats) [
  | none ↦ record { total = 0; counts = [] }
  | some bucket ↦ bucket
]

unfoldable pub snapshot_distribution_stats : Text → ℤ → ExecutionState → ℕ × List ℕ
snapshot_distribution_stats key option_count s =
    let bucket = bucket_of key s.distribution_runtime_stats in
    (bucket.total, normalize_counts bucket.counts (clamp_0 option_count))

abbrev pub pending_of : Text → ExecutionState → List PendingChoice
pending_of key s = elim (lookup key s.distribution_pending_by_thread) [
  | none ↦ []
  | some pending ↦ pending
]

unfoldable pub reset_pending_distribution : Caller → ExecutionState → ExecutionState
reset_pending_distribution c s = record s {
  distribution_pending_by_thread = insert (thread_key c) [] s.distribution_pending_by_thread;
}

-- `index < 0 or index >= count`
abbrev out_of_range : ℤ → ℕ → Bool
out_of_range (negsuc i) count = true
out_of_range (pos i) count = leb count i

unfoldable pub append_pending_distribution_choice :
    Text → ℤ → ℤ → Caller → ExecutionState → ExecutionState
append_pending_distribution_choice key option_index option_count c s =
    if nat_beq (clamp_0 option_count) 0 || out_of_range option_index (clamp_0 option_count)
    then s
    else record s {
      distribution_pending_by_thread =
          insert (thread_key c)
            (pending_of (thread_key c) s
              ++ record {
                stat_key = key;
                option_index = clamp_0 option_index;
                option_count = clamp_0 option_count;
              }
                ∷ [])
            s.distribution_pending_by_thread;
    }

-- `counts[i] += 1`
unfoldable pub bump : List ℕ → ℕ → List ℕ
bump [] i = []
bump (c ∷ counts) zero = suc c ∷ counts
bump (c ∷ counts) (suc i) = c ∷ bump counts i

abbrev pub is_invalid : PendingChoice → Bool
is_invalid item = nat_beq item.option_count 0 || leb item.option_count item.option_index

unfoldable pub count_choice : PendingChoice → Dict Text Bucket → Dict Text Bucket
count_choice item stats =
    let bucket = bucket_of item.stat_key stats in
    insert item.stat_key
      (record {
        total = suc bucket.total;
        counts = bump (normalize_counts bucket.counts item.option_count) item.option_index;
      })
      stats

-- The loop over the pending choices: the statistics, and how many were committed.
unfoldable pub commit_choices : List PendingChoice → Dict Text Bucket → Dict Text Bucket × ℕ
commit_choices [] stats = (stats, 0)
commit_choices (item ∷ items) stats =
    let skipped = is_invalid item in
    let (stats', committed) =
      commit_choices items (if skipped then stats else count_choice item stats) in
    (stats', if skipped then committed else suc committed)

unfoldable pub commit_pending_distribution : Caller → ExecutionState → ExecutionState × ℕ
commit_pending_distribution c s =
    let (stats, committed) =
      commit_choices (pending_of (thread_key c) s) s.distribution_runtime_stats in
    (
      record s {
        distribution_pending_by_thread = insert (thread_key c) [] s.distribution_pending_by_thread;
        distribution_runtime_stats = stats;
      },
      committed,
    )

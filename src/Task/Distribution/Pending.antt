-- ===== src/Task/Distribution/Pending.antt =====
-- What a thread collects before it commits.
use survey_controller.Common.{
  ◌≡◌, ℤ, pos, clamp_0, Bool, false, ◌&&◌, ltb, append-nil, [], ◌∷◌, ◌++◌, Text, ◌==◌,
  if◌then◌else◌, arith, text_eq, text_beq_iff,
}
use survey_controller.Common.Dict.{lookup-insert}
use survey_controller.Task.Defs.{ExecutionState, Caller, thread_key}
use survey_controller.Task.Distribution.{pending_of, append_pending_distribution_choice}

-- `0 <= index < count`
abbrev pub is_in_range : ℤ → ℤ → Bool
is_in_range (pos i) (pos n) = ltb i n
is_in_range _ _ = false

-- A choice goes to the end of the list of the thread that makes it exactly if its index is in
-- range; every other thread's list, and the statistics, stay as they are.
pub append_adds_choice :
    (key other : Text) (i n : ℤ) (c : Caller) (s : ExecutionState)
    → let after = append_pending_distribution_choice key i n c s in
      (pending_of other after
        ≡ pending_of other s
          ++ (if thread_key c == other && is_in_range i n
              then record { stat_key = key; option_index = clamp_0 i; option_count = clamp_0 n }
                ∷ []
              else []))
      × (after.distribution_runtime_stats ≡ s.distribution_runtime_stats)
unfolding append_pending_distribution_choice
append_adds_choice key other i n c s = (
  ground (
    arith,
    lookup-insert (thread_key c) other
        (pending_of (thread_key c) s
          ++ record { stat_key = key; option_index = clamp_0 i; option_count = clamp_0 n } ∷ [])
        s.distribution_pending_by_thread,
    text_beq_iff (thread_key c) other,
    append-nil (pending_of other s),
  ),
  ground arith,
)

-- ===== src/Engine/StopPolicy/Settling.antt =====
-- What a thread holds after its success or its failure: nothing.
use survey_controller.Common.{
  ℕ, ◌≡◌, ◌∙◌, ap, pos, clamp_0, Bool, true, false, Option, none, some, Text, contains, is_empty,
  refl, arith, nat_eq, text_eq, Bool-cases, inl, inr,
}
use survey_controller.Common.Dict.{lookup}
use survey_controller.Task.Defs.{ExecutionState, named, thread_key, notify_runtime_change}
use survey_controller.Task.ReverseFill.{
  release_reverse_fill_sample, commit_reverse_fill_sample, mark_reverse_fill_submission_failed,
}
use survey_controller.Task.Joint.{release_joint_sample, commit_joint_sample}
use survey_controller.Task.Distribution.{commit_pending_distribution}
use survey_controller.Task.Terminal.{mark_terminal_stop}
use survey_controller.Engine.StopPolicy.{
  Failure, give_back, commit_resources, record_failure, record_success, count_failure,
  count_success, is_wanted, trigger_target_reached_stop,
}
use survey_controller.Engine.StopPolicy.Resources.{
  row_in, held_row, held_sample, committed_in, is_row_committed, is_row_done, is_sample_done,
  RowsAreUnique, HasUniqueHolders, tables, tables-decide_failure, tables-fail, tables-success,
  tables-commit_pending, release_sample_frees, release_row_frees, fail_row_frees, commit_row_frees,
  commit_sample_frees, samples-release_row, samples-fail_row, samples-commit_row,
}

pub give_back_frees :
    (f : Failure) (now : ℕ) (s : ExecutionState)
    → HasUniqueHolders s
    → is_empty f.thread_name ≡ false
    → (held_sample (thread_key (named f.thread_name)) (give_back f now s) ≡ none)
      × (held_row (thread_key (named f.thread_name)) (give_back f now s) ≡ none)
unfolding give_back
give_back_frees f now s u h =
    let c = named f.thread_name in
    let unjoined = (release_joint_sample c s).0 in
    let (freed, same) = release_sample_frees c s u.samples in
    let unique : RowsAreUnique unjoined.reverse_fill_runtime = rw same u.rows in
    let m = pos (clamp_0 f.reverse_fill_max_retries) in
    elim (Bool-cases f.consume_reverse_fill_attempt) [
      | inl used ↦
          let e =
            tables-fail f.thread_name f.status_text now
              (mark_reverse_fill_submission_failed c m unjoined).0 in
          rw (h, used)
            (
              ap (λ t. lookup (thread_key c) t.samples) e
                  ∙ ap (lookup (thread_key c)) (samples-fail_row c m unjoined)
                  ∙ freed,
              ap (λ t. row_in (thread_key c) t.runtime) e ∙ fail_row_frees c m unjoined unique,
            )
      | inr kept ↦
          let e =
            tables-fail f.thread_name f.status_text now
              (release_reverse_fill_sample c true unjoined).0 in
          rw (h, kept)
            (
              ap (λ t. lookup (thread_key c) t.samples) e
                  ∙ ap (lookup (thread_key c)) (samples-release_row c true unjoined)
                  ∙ freed,
              ap (λ t. row_in (thread_key c) t.runtime) e
                  ∙ release_row_frees c true unjoined unique,
            )
    ]

-- After a failure of a thread with a name, whatever the reason, the thread holds neither a joint
-- sample nor a row of the spreadsheet. No thread name stands twice in a table before.
pub record_failure_frees :
    (f : Failure) (now : ℕ) (stop : Option Bool) (s : ExecutionState)
    → HasUniqueHolders s
    → is_empty f.thread_name ≡ false
    → (held_sample (thread_key (named f.thread_name)) (record_failure f now stop s).0 ≡ none)
      × (held_row (thread_key (named f.thread_name)) (record_failure f now stop s).0 ≡ none)
unfolding record_failure count_failure
record_failure_frees f now stop s u h =
    let key = thread_key (named f.thread_name) in
    let counted = count_failure f.failure_reason s in
    let unique : HasUniqueHolders counted = record { samples = u.samples; rows = u.rows } in
    let (sample, row) = give_back_frees f now counted unique h in
    let e = tables-decide_failure f _ stop (give_back f now counted) in
    (ap (λ t. lookup key t.samples) e ∙ sample, ap (λ t. row_in key t.runtime) e ∙ row)

commit_resources_frees :
    (name status : Text) (now : ℕ) (s : ExecutionState)
    → HasUniqueHolders s
    → is_empty name ≡ false
    → let key = thread_key (named name) in
      let after = commit_resources name status now s in
      (held_sample key after ≡ none)
      × (held_row key after ≡ none)
      × ((i : ℕ)
          → held_sample key s ≡ some i
          → contains i after.joint_committed_sample_indexes ≡ true)
      × ((row : ℕ) → held_row key s ≡ some row → is_row_committed row after ≡ true)
unfolding commit_resources
commit_resources_frees name status now s u h =
    let c = named name in
    let key = thread_key c in
    let joined = (commit_joint_sample c s).0 in
    let filled = (commit_reverse_fill_sample c joined).0 in
    let counted = (commit_pending_distribution c filled).0 in
    let (freed, done, same) = commit_sample_frees c s u.samples in
    let unique : RowsAreUnique joined.reverse_fill_runtime = rw same u.rows in
    let (row_freed, row_done) = commit_row_frees c joined unique in
    let (samples, indexes) = samples-commit_row c joined in
    let e = tables-success name status now counted ∙ tables-commit_pending c filled in
    rw h (
      ap (λ t. lookup key t.samples) e ∙ ap (lookup key) samples ∙ freed,
      ap (λ t. row_in key t.runtime) e ∙ row_freed,
      λ i held. ap (λ t. contains i t.committed) e ∙ ap (contains i) indexes ∙ done i held,
      λ row held.
          ap (λ t. committed_in row t.runtime) e ∙ row_done row (ap (row_in key) same ∙ held),
    )

pub tables-trigger :
    (message : Text) (stop : Option Bool) (s : ExecutionState)
    → tables (trigger_target_reached_stop message stop s).0 ≡ tables s
unfolding trigger_target_reached_stop mark_terminal_stop notify_runtime_change
tables-trigger message stop s = ground arith

tables-record_success :
    (name status message : Text) (now : ℕ) (stop : Bool) (s : ExecutionState)
    → is_wanted s ≡ true
    → tables (record_success name status message now stop s).state
      ≡ tables (commit_resources name status now (count_success s))
unfolding record_success
tables-record_success name status message now stop s w =
    ground (
      arith,
      tables-trigger message (some stop) (commit_resources name status now (count_success s)),
    )

done_of_sample :
    (held : Option ℕ) (s : ExecutionState)
    → ((i : ℕ) → held ≡ some i → contains i s.joint_committed_sample_indexes ≡ true)
    → is_sample_done held s ≡ true
done_of_sample none s h = refl
done_of_sample (some i) s h = h i refl

done_of_row :
    (held : Option ℕ) (s : ExecutionState)
    → ((row : ℕ) → held ≡ some row → is_row_committed row s ≡ true)
    → is_row_done held s ≡ true
done_of_row none s h = refl
done_of_row (some row) s h = h row refl

-- A success that counts, of a thread with a name, commits the joint sample and the row that the
-- thread held, if it held any, and leaves it with neither. No thread name stands twice in a table
-- before.
pub record_success_commits :
    (name status message : Text) (now : ℕ) (stop : Bool) (s : ExecutionState)
    → HasUniqueHolders s
    → is_empty name ≡ false
    → is_wanted s ≡ true
    → let key = thread_key (named name) in
      let after = (record_success name status message now stop s).state in
      (held_sample key after ≡ none)
      × (held_row key after ≡ none)
      × (is_sample_done (held_sample key s) after ≡ true)
      × (is_row_done (held_row key s) after ≡ true)
unfolding count_success
record_success_commits name status message now stop s u h w =
    let key = thread_key (named name) in
    let counted = count_success s in
    let after = (record_success name status message now stop s).state in
    let unique : HasUniqueHolders counted = record { samples = u.samples; rows = u.rows } in
    let (sample, row, samples, rows) = commit_resources_frees name status now counted unique h in
    let e = tables-record_success name status message now stop s w in
    (
      ap (λ t. lookup key t.samples) e ∙ sample,
      ap (λ t. row_in key t.runtime) e ∙ row,
      done_of_sample (held_sample key s) after
          (λ i held. ap (λ t. contains i t.committed) e ∙ samples i held),
      done_of_row (held_row key s) after
          (λ r held. ap (λ t. committed_in r t.runtime) e ∙ rows r held),
    )

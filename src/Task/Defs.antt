-- ===== src/Task/Defs.antt =====
-- The data of software/core/task and of software/core/reverse_fill/schema.py.
-- Times (`time.time()`, `time.monotonic()`) are counts of clock ticks. Counters that start at 0
-- and are only ever raised are natural numbers; settings that a user may set below 0 are ℤ.
use survey_controller.Common.{
  ℕ, suc, ℤ, Bool, false, Option, none, some, List, [], Text, text, strip, or_else,
}
use survey_controller.Common.Dict.{Dict}

pub record ReverseFillAnswer : Type 0 where
  pub question_num : ℕ
  pub kind : Text
  pub choice_index : Option ℕ
  pub text_value : Text
  pub text_values : List Text
  pub matrix_choice_indexes : List ℕ

pub record ReverseFillSampleRow : Type 0 where
  pub data_row_number : ℕ
  pub worksheet_row_number : ℕ
  pub answers : Dict ℕ ReverseFillAnswer

pub record ReverseFillIssue : Type 0 where
  pub question_num : ℕ
  pub title : Text
  pub severity : Text
  pub category : Text
  pub reason : Text
  pub suggestion : Text
  pub sample_rows : List ℕ

pub record ReverseFillQuestionPlan : Type 0 where
  pub question_num : ℕ
  pub title : Text
  pub question_type : Text
  pub status : Text
  pub column_headers : List Text
  pub detail : Text
  pub fallback_ready : Bool
  pub fallback_resolved : Bool

pub record ReverseFillSpec : Type 0 where
  pub source_path : Text
  pub selected_format : Text
  pub detected_format : Text
  pub start_row : ℕ
  pub total_samples : ℕ
  pub available_samples : ℕ
  pub target_num : ℤ
  pub question_plans : List ReverseFillQuestionPlan
  pub issues : List ReverseFillIssue
  pub samples : List ReverseFillSampleRow

pub record ReverseFillRuntimeState : Type 0 where
  pub spec : ReverseFillSpec
  pub queued_row_numbers : List ℕ
  pub samples_by_row_number : Dict ℕ ReverseFillSampleRow
  pub reserved_row_by_thread : Dict Text ℕ
  pub failure_count_by_row : Dict ℕ ℕ
  pub committed_row_numbers : List ℕ
  pub discarded_row_numbers : List ℕ

pub data AcquireStatus : Type 0 where
  disabled acquired exhausted waiting : AcquireStatus

pub record ReverseFillAcquireResult : Type 0 where
  pub status : AcquireStatus
  pub sample : Option ReverseFillSampleRow
  pub message : Text

pub record ThreadProgressState : Type 0 where
  pub thread_name : Text
  pub thread_index : ℕ
  pub owner_id : ℕ
  pub success_count : ℕ
  pub fail_count : ℕ
  pub step_current : ℕ
  pub step_total : ℕ
  pub status_text : Text
  pub running : Bool
  pub last_update_ts : ℕ

pub record ProxyLease : Type 0 where
  pub address : Text
  pub expire_at : Text
  pub expire_ts : ℕ
  pub poolable : Bool
  pub source : Text

-- One entry of `distribution_runtime_stats`.
pub record Bucket : Type 0 where
  pub total : ℕ
  pub counts : List ℕ

-- One entry of a thread's list in `distribution_pending_by_thread`.
pub record PendingChoice : Type 0 where
  pub stat_key : Text
  pub option_index : ℕ
  pub option_count : ℕ

-- The settings that the run's bookkeeping reads.
pub record ExecutionConfig : Type 0 where
  pub reverse_fill_spec : Option ReverseFillSpec
  pub num_threads : ℤ
  pub target_num : ℤ
  pub fail_threshold : ℤ
  pub stop_on_fail_enabled : Bool
  pub random_proxy_ip_enabled : Bool

pub record ExecutionState : Type 0 where
  pub config : ExecutionConfig
  pub cur_num : ℕ
  pub cur_fail : ℕ
  pub proxy_unavailable_fail_count : ℕ
  pub device_quota_fail_count : ℕ
  pub terminal_stop_category : Text
  pub terminal_failure_reason : Text
  pub terminal_stop_message : Text
  pub thread_progress : Dict Text ThreadProgressState
  pub distribution_runtime_stats : Dict Text Bucket
  pub distribution_pending_by_thread : Dict Text (List PendingChoice)
  pub free_ai_prefill_by_thread : Dict Text (Dict ℕ (List Text))
  pub free_ai_option_fill_prefill_by_thread : Dict Text (Dict (ℕ × ℕ) Text)
  pub joint_reserved_sample_by_thread : Dict Text ℕ
  pub joint_reserved_sample_started_at_by_thread : Dict Text ℕ
  pub joint_committed_sample_indexes : List ℕ
  pub joint_answering_threads : List Text
  pub proxy_waiting_threads : ℕ
  pub proxy_in_use_by_thread : Dict Text ProxyLease
  pub successful_proxy_addresses : List Text
  pub proxy_cooldown_until_by_address : Dict Text ℕ
  pub reverse_fill_runtime : Option ReverseFillRuntimeState
  pub target_reached_stop_triggered : Bool
  pub runtime_change_seq : ℕ

-- The state before a run: the defaults of `ExecutionState`.
abbrev pub initial_state : ExecutionConfig → ExecutionState
initial_state config = record {
  config = config;
  cur_num = 0;
  cur_fail = 0;
  proxy_unavailable_fail_count = 0;
  device_quota_fail_count = 0;
  terminal_stop_category = [];
  terminal_failure_reason = [];
  terminal_stop_message = [];
  thread_progress = [];
  distribution_runtime_stats = [];
  distribution_pending_by_thread = [];
  free_ai_prefill_by_thread = [];
  free_ai_option_fill_prefill_by_thread = [];
  joint_reserved_sample_by_thread = [];
  joint_reserved_sample_started_at_by_thread = [];
  joint_committed_sample_indexes = [];
  joint_answering_threads = [];
  proxy_waiting_threads = 0;
  proxy_in_use_by_thread = [];
  successful_proxy_addresses = [];
  proxy_cooldown_until_by_address = [];
  reverse_fill_runtime = none;
  target_reached_stop_triggered = false;
  runtime_change_seq = 0;
}

-- The caller of a method: the `thread_name` that it passes, and `threading.current_thread().name`.
pub record Caller : Type 0 where
  pub thread_name : Option Text
  pub current_name : Text

abbrev pub named : Text → Caller
named name = record { thread_name = some name; current_name = [] }

abbrev given_name : Option Text → Text
given_name none = []
given_name (some name) = name

-- `str(thread_name or threading.current_thread().name or "Worker-?").strip() or "Worker-?"`
unfoldable pub thread_key : Caller → Text
thread_key c =
    or_else (strip (or_else (given_name c.thread_name) (or_else c.current_name (text "Worker-?"))))
      (text "Worker-?")

-- The waiters' condition variable is the library's; its sequence number is the state's.
unfoldable pub notify_runtime_change : ExecutionState → ExecutionState
notify_runtime_change s = record s { runtime_change_seq = suc s.runtime_change_seq }

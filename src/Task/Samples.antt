-- ===== src/Task/Samples.antt =====
-- Settings and states for the examples.
use survey_controller.Common.{pos, true, false, some, [], ◌∷◌, text}
use survey_controller.Task.Defs.{
  ExecutionConfig, ExecutionState, ReverseFillSpec, ReverseFillSampleRow, initial_state,
}

abbrev pub row_two : ReverseFillSampleRow
row_two = record { data_row_number = 2; worksheet_row_number = 2; answers = [] }

abbrev pub row_three : ReverseFillSampleRow
row_three = record { data_row_number = 3; worksheet_row_number = 3; answers = [] }

abbrev pub two_rows : ReverseFillSpec
two_rows = record {
  source_path = text "answers.xlsx";
  selected_format = text "auto";
  detected_format = text "wjx_text";
  start_row = 1;
  total_samples = 2;
  available_samples = 2;
  target_num = pos 2;
  question_plans = [];
  issues = [];
  samples = row_two ∷ row_three ∷ [];
}

abbrev pub two_threads : ExecutionConfig
two_threads = record {
  reverse_fill_spec = some two_rows;
  num_threads = pos 2;
  target_num = pos 2;
  fail_threshold = pos 1;
  stop_on_fail_enabled = true;
  random_proxy_ip_enabled = false;
}

abbrev pub fresh : ExecutionState
fresh = initial_state two_threads

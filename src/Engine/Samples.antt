-- ===== src/Engine/Samples.antt =====
-- A state for the examples.
use survey_controller.Common.{text, text_eq, [], ◌∷◌, some, refl}
use survey_controller.Common.Dict.{lookup}
use survey_controller.Task.Defs.{ExecutionState}
use survey_controller.Task.Samples.{two_rows, fresh}
use survey_controller.Task.ReverseFill.Steps.{loaded}
use survey_controller.Engine.StopPolicy.Resources.{HasUniqueHolders}

-- Slot-1 holds row 2 and joint sample 0.
abbrev pub started : ExecutionState
started = record fresh {
  reverse_fill_runtime = some (record (loaded two_rows) {
    queued_row_numbers = 3 ∷ [];
    reserved_row_by_thread = (text "Slot-1", 2) ∷ [];
  });
  joint_reserved_sample_by_thread = (text "Slot-1", 0) ∷ [];
  joint_reserved_sample_started_at_by_thread = (text "Slot-1", 5) ∷ [];
}

pub started-HasUniqueHolders : HasUniqueHolders started
unfolding lookup
started-HasUniqueHolders = record { samples = (refl, tt); rows = (refl, tt) }

-- ===== src/Task/Prefill/Examples.antt =====
-- Answers for two questions.
use survey_controller.Common.{◌≡◌, ℤ, pos, negsuc, none, List, [], ◌∷◌, Text, text}
use survey_controller.Task.Samples.{fresh}
use survey_controller.Task.Prefill.{
  set_free_ai_prefill_answers, get_free_ai_prefill_answer, clear_free_ai_prefill_answers,
}
use survey_controller.Task.Prefill.Lookups.{last_answers, set_then_get}

abbrev written : List (ℤ × List Text)
written =
    (pos 3, text " yes " ∷ text " " ∷ []) ∷ (negsuc 0, text "no" ∷ []) ∷ (pos 4, text " " ∷ []) ∷ []

set_then_get_example :
    (get_free_ai_prefill_answer
        (text "Slot-1")
        (pos 3)
        (set_free_ai_prefill_answers (text "Slot-1") written fresh)
      ≡ last_answers 3 written none)
    × (get_free_ai_prefill_answer
          (text "Slot-1")
          (pos 3)
          (clear_free_ai_prefill_answers (text "Slot-1") fresh)
        ≡ none)
set_then_get_example = set_then_get (text "Slot-1") 2 written fresh tt

-- ===== src/Task/Progress/Examples.antt =====
-- The progress of two threads.
use survey_controller.Common.{
  ◌+◌, ◌≡◌, pos, negsuc, true, none, some, List, [], ◌∷◌, text, refl, arith, text_eq, strip,
}
use survey_controller.Common.Dict.{lookup}
use survey_controller.Task.Samples.{fresh}
use survey_controller.Task.Progress.{resolve_thread_index}
use survey_controller.Task.Progress.Bounds.{
  Op, status, progress, success, failure, finished, run, AreShown, successes, fails, success_of,
  fail_of, total_of, run-AreShown, run-counts,
}

slot_test : resolve_thread_index (text "Slot-12") ≡ 12
unfolding resolve_thread_index strip
slot_test = refl

tail_test : resolve_thread_index (text "pool 3_07") ≡ 7
unfolding resolve_thread_index strip
tail_test = refl

abbrev history : List Op
history =
    status (text "Slot-1") (text "starting") (some true) 1
    ∷ progress (text "Slot-1") (pos 9) (pos 4) none none 2
    ∷ success (text "Slot-1") [] 3
    ∷ progress (text "Slot-2") (negsuc 0) (pos 4) (some []) none 4
    ∷ failure (text "Slot-2") [] 5
    ∷ finished (text "Slot-1") [] 6
    ∷ []

fresh-AreShown : AreShown fresh
unfolding lookup
fresh-AreShown key t h = ground arith

run-AreShown_example : AreShown (run fresh history)
run-AreShown_example = run-AreShown fresh history fresh-AreShown

run-counts_example :
    (successes (text "Slot-1") (run fresh history)
      ≡ successes (text "Slot-1") fresh + total_of (success_of (text "Slot-1")) history)
    × (fails (text "Slot-1") (run fresh history)
        ≡ fails (text "Slot-1") fresh + total_of (fail_of (text "Slot-1")) history)
run-counts_example = run-counts fresh history (text "Slot-1")

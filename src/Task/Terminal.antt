-- ===== src/Task/Terminal.antt =====
-- software/core/task/task_context.py: why the run stopped. The first reason is kept.
mod Examples
use survey_controller.Common.{
  ℕ, ◌≡◌, ◌≢◌, Bool, true, false, List, [], ◌∷◌, Text, strip, refl, arith, if◌then◌else◌, is_empty,
  not, ◌&&◌,
}
use survey_controller.Task.Defs.{ExecutionState, notify_runtime_change}

unfoldable pub mark_terminal_stop : Text → Text → Text → Bool → ExecutionState → ExecutionState
mark_terminal_stop category failure_reason message overwrite s =
    if is_empty (strip category)
    then s
    else if not (is_empty s.terminal_stop_category) && not overwrite
    then s
    else notify_runtime_change (record s {
      terminal_stop_category = strip category;
      terminal_failure_reason = strip failure_reason;
      terminal_stop_message = strip message;
    })

unfoldable pub get_terminal_stop_snapshot : ExecutionState → Text × Text × Text
get_terminal_stop_snapshot s =
    (s.terminal_stop_category, s.terminal_failure_reason, s.terminal_stop_message)

-- Stops that do not overwrite, one after the other.
abbrev pub mark_all : List (Text × Text × Text) → ExecutionState → ExecutionState
mark_all [] s = s
mark_all ((category, reason, message) ∷ stops) s =
    mark_all stops (mark_terminal_stop category reason message false s)

kept_stop :
    (category reason message : Text) (s : ExecutionState)
    → is_empty s.terminal_stop_category ≡ false
    → mark_terminal_stop category reason message false s ≡ s
unfolding mark_terminal_stop
kept_stop category reason message s h = ground arith

kept_stops :
    (stops : List (Text × Text × Text)) (s : ExecutionState)
    → is_empty s.terminal_stop_category ≡ false
    → mark_all stops s ≡ s
kept_stops [] s h = refl
kept_stops ((category, reason, message) ∷ stops) s h =
    rw (kept_stop category reason message s h) (kept_stops stops s h)

-- Where no stop is recorded, a stop with a category that is not blank is, with its texts stripped;
-- and it stays, whatever stops that do not overwrite follow.
pub first_stop_wins :
    (category reason message : Text) (stops : List (Text × Text × Text)) (s : ExecutionState)
    → is_empty (strip category) ≡ false
    → s.terminal_stop_category ≡ []
    → get_terminal_stop_snapshot
        (mark_all stops (mark_terminal_stop category reason message false s))
      ≡ (strip category, strip reason, strip message)
unfolding get_terminal_stop_snapshot mark_terminal_stop notify_runtime_change
first_stop_wins category reason message stops s h e =
    ground (arith, kept_stops stops (mark_terminal_stop category reason message false s))

-- ===== src/Task/Progress.antt =====
-- software/core/task/progress_state.py: what the user is shown of each thread.
pub mod Bounds
mod Examples
use survey_controller.Common.{
  ℕ, zero, suc, ◌+◌, ◌-◌, ◌*◌, ◌≡◌, refl, ℤ, pos, negsuc, clamp_0, clamp_1, Bool, true, false, ◌&&◌,
  ◌||◌, Option, none, some, List, [], ◌∷◌, ◌++◌, Text, text, strip, or_else, leb, ltb, nat_beq, max,
  if◌then◌else◌, or_zero, is_empty, text_eq, min,
}
use mathlib.Core.List.{reverse}
use survey_controller.Common.Dict.{Dict, lookup, insert}
use survey_controller.Task.Defs.{ExecutionState, ThreadProgressState, notify_runtime_change}

abbrev is_digit : ℕ → Bool
is_digit c = leb b'0' c && leb c b'9'

-- `int(text)` for a stripped text, negative results aside: those count as no index like the texts
-- on which it raises. The digits are ASCII ones, with no underscores between them.
abbrev digits_value : ℕ → Text → Option ℕ
digits_value acc [] = some acc
digits_value acc (c ∷ s) =
    let rest = digits_value (acc * 10 + (c - b'0')) s in if is_digit c then rest else none

abbrev unsigned : Text → Option ℕ
unsigned [] = none
unsigned (c ∷ s) = digits_value 0 (c ∷ s)

abbrev parse_int : Text → Option ℕ
parse_int [] = none
parse_int (c ∷ s) = if nat_beq c b'+' then unsigned s else unsigned (c ∷ s)

abbrev starts_with : Text → Text → Bool
starts_with [] t = true
starts_with (c ∷ s) [] = false
starts_with (c ∷ s) (d ∷ t) = nat_beq c d && starts_with s t

-- `text.split("-", 1)[1]`
abbrev after_dash : Text → Text
after_dash [] = []
after_dash (c ∷ s) = let rest = after_dash s in if nat_beq c b'-' then s else rest

-- The digits at the end of a text, from its reversal; the result is in the order of the text.
abbrev tail_digits : Text → Text → Text
tail_digits tail [] = tail
tail_digits tail (c ∷ s) = let rest = tail_digits (c ∷ tail) s in if is_digit c then rest else tail

unfoldable pub resolve_thread_index : Text → ℕ
unfolding strip
resolve_thread_index thread_name =
    let name = strip thread_name in
    if starts_with (text "Worker-") name || starts_with (text "Slot-") name
    then or_zero (parse_int (strip (after_dash name)))
    else or_zero (parse_int (tail_digits [] (reverse name)))

-- `str(thread_name or "").strip() or "Worker-?"`
unfoldable pub progress_key : Text → Text
progress_key thread_name = or_else (strip thread_name) (text "Worker-?")

abbrev pub new_thread_state : Text → ℕ → ℕ → ThreadProgressState
new_thread_state key index now = record {
  thread_name = key;
  thread_index = index;
  owner_id = 0;
  success_count = 0;
  fail_count = 0;
  step_current = 0;
  step_total = 0;
  status_text = text "等待中";
  running = false;
  last_update_ts = now;
}

-- `_get_or_create_thread_state_locked`: the entry of `key`, or a new one.
unfoldable pub get_or_create_thread_state : Text → ℕ → ExecutionState → ThreadProgressState
get_or_create_thread_state key now s = elim (lookup key s.thread_progress) [
  | some state ↦ state
  | none ↦ new_thread_state key (resolve_thread_index key) now
]

-- The frame of the methods below: change the thread's entry, then notify.
unfoldable pub change_thread :
    Text → ℕ → (ThreadProgressState → ThreadProgressState) → ExecutionState → ExecutionState
change_thread thread_name now change s =
    let key = progress_key thread_name in
    notify_runtime_change (record s {
      thread_progress =
          insert key (change (get_or_create_thread_state key now s)) s.thread_progress;
    })

abbrev set_running : Option Bool → Bool → Bool
set_running none running = running
set_running (some given) running = given

abbrev pub on_status : Text → Option Bool → ℕ → ThreadProgressState → ThreadProgressState
on_status status running now t = record t {
  status_text = status;
  running = set_running running t.running;
  last_update_ts = now;
}

unfoldable pub update_thread_status :
    Text → Text → Option Bool → ℕ → ExecutionState → ExecutionState
update_thread_status thread_name status running now =
    change_thread thread_name now (on_status status running now)

-- `total > 0 and min(current, total)`, after `max(0, …)` on both
abbrev pub clamp_step : ℤ → ℤ → ℕ
clamp_step step_current step_total =
    if ltb 0 (clamp_0 step_total)
    then min (clamp_0 step_current) (clamp_0 step_total)
    else clamp_0 step_current

abbrev set_status : Option Text → Text → Text
set_status none status = status
set_status (some given) status = given

abbrev pub on_step :
    ℤ → ℤ → Option Text → Option Bool → ℕ → ThreadProgressState → ThreadProgressState
on_step step_current step_total status running now t = record t {
  step_current = clamp_step step_current step_total;
  step_total = clamp_0 step_total;
  status_text = set_status status t.status_text;
  running = set_running running t.running;
  last_update_ts = now;
}

unfoldable pub update_thread_step :
    Text → ℤ → ℤ → Option Text → Option Bool → ℕ → ExecutionState → ExecutionState
update_thread_step thread_name step_current step_total status running now =
    change_thread thread_name now (on_step step_current step_total status running now)

abbrev pub on_success : Text → ℕ → ThreadProgressState → ThreadProgressState
on_success status now t = record t {
  success_count = suc t.success_count;
  step_current = if ltb 0 t.step_total then t.step_total else t.step_current;
  status_text = or_else status (text "提交成功");
  running = true;
  last_update_ts = now;
}

unfoldable pub increment_thread_success : Text → Text → ℕ → ExecutionState → ExecutionState
increment_thread_success thread_name status now =
    change_thread thread_name now (on_success status now)

abbrev pub on_fail : Text → ℕ → ThreadProgressState → ThreadProgressState
on_fail status now t = record t {
  fail_count = suc t.fail_count;
  status_text = or_else status (text "失败重试");
  running = true;
  last_update_ts = now;
}

unfoldable pub increment_thread_fail : Text → Text → ℕ → ExecutionState → ExecutionState
increment_thread_fail thread_name status now = change_thread thread_name now (on_fail status now)

abbrev pub on_finished : Text → ℕ → ThreadProgressState → ThreadProgressState
on_finished status now t = record t {
  running = false;
  status_text = or_else status (text "已停止");
  last_update_ts = now;
}

unfoldable pub mark_thread_finished : Text → Text → ℕ → ExecutionState → ExecutionState
mark_thread_finished thread_name status now = change_thread thread_name now (on_finished status now)

-- ===== src/Task/ReverseFill/Standing.antt =====
-- Where a row of the spreadsheet stands, for a caller, and how operations may move it: the life of a row as
-- a machine of its own, whatever the lists of the runtime look like.
use survey_controller.Common.{
  ℕ, ◌≡◌, ℤ, Bool, true, false, List, [], ◌∷◌, Text, count, nat_eq, text_eq, some, ◌==◌,
}
use survey_controller.Common.Dict.{lookup, values}
use survey_controller.Task.Defs.{ReverseFillRuntimeState}
use survey_controller.Task.ReverseFill.Steps.{Op, acquire, release, commit, fail}

-- Where a row of the spreadsheet stands for a caller.
pub data Standing : Type 0 where
  absent queued committed discarded : Standing
  held : (key : Text) → Standing

-- How often the row stands in the queue, in a thread's hands, and in the two sets of the runtime.
abbrev pub Counts : ℕ → ReverseFillRuntimeState → ℕ → ℕ → ℕ → ℕ → Type 0
Counts row r q h c d =
    (count row r.queued_row_numbers ≡ q)
    × (count row (values r.reserved_row_by_thread) ≡ h)
    × (count row r.committed_row_numbers ≡ c)
    × (count row r.discarded_row_numbers ≡ d)

-- The row stands there, once, and nowhere else.
abbrev pub Stands : ℕ → ReverseFillRuntimeState → Standing → Type 0
Stands row r absent = Counts row r 0 0 0 0
Stands row r queued = Counts row r 1 0 0 0
Stands row r (held key) = (lookup key r.reserved_row_by_thread ≡ some row) × Counts row r 0 1 0 0
Stands row r committed = Counts row r 0 0 1 0
Stands row r discarded = Counts row r 0 0 0 1

abbrev pub holds : Text → Standing → Bool
holds key (held k) = key == k
holds key _ = false

-- Whether an operation is one on the thread that holds the row.
abbrev pub concerns : Op → Standing → Bool
concerns (acquire target cur key) s = false
concerns (release key requeue) s = holds key s
concerns (commit key) s = holds key s
concerns (fail key max_retries) s = holds key s

-- What an operation does to a row.
pub data Move : Op → Standing → Standing → Type 0 where
  takes : (target : ℤ) (cur : ℕ) (key : Text) → Move (acquire target cur key) queued (held key)
  returns : (key : Text) → Move (release key true) (held key) queued
  drops : (key : Text) → Move (release key false) (held key) absent
  commits : (key : Text) → Move (commit key) (held key) committed
  retries : (key : Text) (max_retries : ℤ) → Move (fail key max_retries) (held key) queued
  discards : (key : Text) (max_retries : ℤ) → Move (fail key max_retries) (held key) discarded
  leaves : (op : Op) (s : Standing) → concerns op s ≡ false → Move op s s

-- A move for each operation of a history.
pub data Life : List Op → Standing → Standing → Type 0 where
  ends : (s : Standing) → Life [] s s
  moves :
      (op : Op) (ops : List Op) (s t u : Standing)
      → Move op s t
      → Life ops t u
      → Life (op ∷ ops) s u

abbrev pub is_settled : Standing → Bool
is_settled queued = false
is_settled (held key) = false
is_settled _ = true

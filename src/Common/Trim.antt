-- ===== src/Common/Trim.antt =====
-- Texts that `str.strip` leaves as they are: they neither begin nor end with a space.
use Prim.Native.Nat.{ℕ, zero, suc, ◌+◌, ◌/◌, ◌%◌, ◌≤◌}
use mathlib.Core.Path.{◌≡◌, refl}
use mathlib.Core.Logic.{inl, inr}
use mathlib.Core.Bool.{false}
use mathlib.Core.List.{[], ◌∷◌, ◌++◌, reverse, reverse-append, reverse-reverse}
use native.Mathlib.Omega.{arith}
use survey_controller.Common.Tests.{Bool-cases, ltb}
use survey_controller.Common.Keys.{Text}
use survey_controller.Common.Decimal.{decimal, digits}
use survey_controller.Common.Strings.{is_space, strip, drop_spaces}

-- A text that begins with something else than a space, if with anything.
abbrev pub StartsTight : Text → Type 0
StartsTight [] = Unit
StartsTight (c ∷ s) = is_space c ≡ false

abbrev pub IsTrimmed : Text → Type 0
IsTrimmed s = StartsTight s × StartsTight (reverse s)

drop_spaces_tight : (s : Text) → StartsTight s → drop_spaces s ≡ s
unfolding drop_spaces
drop_spaces_tight [] h = refl
drop_spaces_tight (c ∷ s) h = rw h refl

drop_spaces-StartsTight : (s : Text) → StartsTight (drop_spaces s)
unfolding drop_spaces
drop_spaces-StartsTight [] = tt
drop_spaces-StartsTight (c ∷ s) = ground (arith, drop_spaces-StartsTight s)

drop_spaces_snoc :
    (xs : Text) (c : ℕ)
    → is_space c ≡ false
    → (ys : Text) × (drop_spaces (xs ++ (c ∷ [])) ≡ ys ++ (c ∷ []))
unfolding drop_spaces
drop_spaces_snoc [] c h = ([], rw h refl)
drop_spaces_snoc (x ∷ xs) c h = elim (Bool-cases (is_space x)) [
  | inl e ↦ let (ys, q) = drop_spaces_snoc xs c h in (ys, rw e q)
  | inr e ↦ (x ∷ xs, rw e refl)
]

starts_append : (s t : Text) → StartsTight s → StartsTight t → StartsTight (s ++ t)
starts_append [] t h k = k
starts_append (c ∷ s) t h k = h

-- What is left of a text that starts tight when the end of it is cut.
reverse-drop_spaces : (s : Text) → StartsTight s → StartsTight (reverse (drop_spaces (reverse s)))
unfolding drop_spaces
reverse-drop_spaces [] h = tt
reverse-drop_spaces (c ∷ s) h =
    let (ys, q) = drop_spaces_snoc (reverse s) c h in
    rw (reverse-append (c ∷ []) s, q, reverse-append ys (c ∷ [])) h

pub strip_trimmed : (s : Text) → IsTrimmed s → strip s ≡ s
unfolding strip
strip_trimmed s (h, k) =
    rw (drop_spaces_tight s h, drop_spaces_tight (reverse s) k) (reverse-reverse s)

pub strip-IsTrimmed : (s : Text) → IsTrimmed (strip s)
unfolding strip
strip-IsTrimmed s = (
  reverse-drop_spaces (drop_spaces s) (drop_spaces-StartsTight s),
  rw (reverse-reverse (drop_spaces (reverse (drop_spaces s))))
      (drop_spaces-StartsTight (reverse (drop_spaces s))),
)

pub append-IsTrimmed : (s t : Text) → IsTrimmed s → IsTrimmed t → IsTrimmed (s ++ t)
append-IsTrimmed s t h k = (
  starts_append s t h.0 k.0,
  rw (reverse-append s t) (starts_append (reverse t) (reverse s) k.1 h.1),
)

digit_tight : (c : ℕ) → 48 ≤ c → c ≤ 57 → is_space c ≡ false
unfolding is_space
digit_tight c h k = ground arith

digits-IsTrimmed : (fuel n : ℕ) → IsTrimmed (digits fuel n)
unfolding digits
digits-IsTrimmed zero n = (tt, tt)
digits-IsTrimmed (suc fuel) n = elim (Bool-cases (ltb n 10)) [
  | inl e ↦ rw e (
    digit_tight (48 + n) (omega arith) (ground arith),
    digit_tight (48 + n) (omega arith) (ground arith),
  )
  | inr e ↦
      let rest : IsTrimmed (digits fuel (n / 10)) = digits-IsTrimmed fuel (n / 10) in
      let last : is_space (48 + n % 10) ≡ false =
        digit_tight (48 + n % 10) (omega arith) (omega arith) in
      rw e (append-IsTrimmed (digits fuel (n / 10)) ((48 + n % 10) ∷ []) rest (last, last))
]

pub decimal-IsTrimmed : (n : ℕ) → IsTrimmed (decimal n)
unfolding decimal
decimal-IsTrimmed n = digits-IsTrimmed (suc n) n

-- ===== src/Questions/Weights.antt =====
-- software/core/questions/strict_ratio.py: whether a question is answered in a strict ratio, which goes by
-- whether its weights have a positive one, at whatever depth they are nested. What `float()` makes of a
-- value is a number, or `none` where it raises or is not finite.

pub mod Ending
mod Examples
use survey_controller.Common.{
  ℕ, zero, suc, ◌+◌, ℤ, Bool, true, false, not, ◌&&◌, ◌||◌, Option, none, some, List, [], ◌∷◌, Text,
  text, text_eq, ◌==◌, is_nonpositive, if◌then◌else◌, strip, nat_eq,
}
use survey_controller.Common.Dict.{Dict, lookup}

mutual
  -- An int or a float, something else that is not a list, and a list or a tuple.
  pub data Value : Type 0 where
    number : (value : Option ℤ) → Value
    other : (value : Option ℤ) → Value
    items : (values : Values) → Value

  pub data Values : Type 0 where
    nil : Values
    cons : (first : Value) (rest : Values) → Values

unfoldable pub is_positive : Option ℤ → Bool
is_positive none = false
is_positive (some value) = not (is_nonpositive value)

-- `stack.extend(values)`; the top of the stack stands first.
unfoldable pub push : Values → List Value → List Value
push nil stack = stack
push (cons first rest) stack = push rest (first ∷ stack)

-- The loop, for at most so many passes; `none` where they do not suffice.
unfoldable pub search_stack : ℕ → List Value → Option Bool
unfolding push is_positive
search_stack zero stack = none
search_stack (suc fuel) [] = some false
search_stack (suc fuel) (number value ∷ stack) =
    let rest = search_stack fuel stack in if is_positive value then some true else rest
search_stack (suc fuel) (other value ∷ stack) =
    let rest = search_stack fuel stack in if is_positive value then some true else rest
search_stack (suc fuel) (items values ∷ stack) = search_stack fuel (push values stack)

unfoldable pub has_positive_weight_values : ℕ → Value → Option Bool
unfolding search_stack is_positive push
has_positive_weight_values fuel (number value) = some (is_positive value)
has_positive_weight_values fuel (other value) = some false
has_positive_weight_values fuel (items values) = search_stack fuel (push values [])

unfoldable pub or_both : Option Bool → Option Bool → Option Bool
or_both (some true) second = some true
or_both (some false) second = second
or_both none second = none

-- `lower` is `str.lower`.
unfoldable pub is_strict_custom_ratio_mode : (Text → Text) → ℕ → Text → Value → Value → Option Bool
unfolding has_positive_weight_values or_both
is_strict_custom_ratio_mode lower fuel distribution_mode probabilities custom_weights =
    if lower (strip distribution_mode) == text "custom"
    then or_both (has_positive_weight_values fuel custom_weights)
        (has_positive_weight_values fuel probabilities)
    else some false

abbrev pub or_false : Option Bool → Bool
or_false none = false
or_false (some b) = b

-- `question_strict_ratio_map` and the number that `int()` reads, where there are such.
unfoldable pub is_strict_ratio_question : Option (Dict ℕ Bool) → Option ℕ → Bool
unfolding lookup
is_strict_ratio_question none question_number = false
is_strict_ratio_question (some strict_map) none = false
is_strict_ratio_question (some strict_map) (some q_num) = or_false (lookup q_num strict_map)

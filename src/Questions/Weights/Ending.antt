-- ===== src/Questions/Weights/Ending.antt =====
-- The search ends, and finds a positive weight exactly if there is one.
use survey_controller.Common.{
  ℕ, zero, suc, ◌+◌, ◌<◌, ◌≡◌, refl, ap, ◌∙◌, arith, Bool, false, ◌||◌, some, List, [], ◌∷◌,
}
use survey_controller.Questions.Weights.{
  Value, Values, number, other, items, nil, cons, is_positive, push, search_stack,
  has_positive_weight_values,
}

-- How many passes a value takes, and whether it has a positive weight, by recursion on the value.
unfoldable mutual
  pub passes : Value → ℕ
  passes (number value) = 1
  passes (other value) = 1
  passes (items values) = suc (passes_all values)

  pub passes_all : Values → ℕ
  passes_all nil = 0
  passes_all (cons first rest) = passes first + passes_all rest

unfoldable mutual
  pub has_positive : Value → Bool
  has_positive (number value) = is_positive value
  has_positive (other value) = is_positive value
  has_positive (items values) = any_positive values

  pub any_positive : Values → Bool
  any_positive nil = false
  any_positive (cons first rest) = has_positive first || any_positive rest

unfoldable pub stack_passes : List Value → ℕ
unfolding passes
stack_passes [] = 0
stack_passes (v ∷ stack) = passes v + stack_passes stack

unfoldable pub stack_positive : List Value → Bool
unfolding has_positive
stack_positive [] = false
stack_positive (v ∷ stack) = has_positive v || stack_positive stack

passes-push :
    (values : Values) (stack : List Value)
    → stack_passes (push values stack) ≡ passes_all values + stack_passes stack
unfolding push stack_passes passes
passes-push nil stack = omega arith
passes-push (cons first rest) stack = omega (arith, passes-push rest (first ∷ stack))

positive-push :
    (values : Values) (stack : List Value)
    → stack_positive (push values stack) ≡ (any_positive values || stack_positive stack)
unfolding push stack_positive has_positive
positive-push nil stack = refl
positive-push (cons first rest) stack = ground (arith, positive-push rest (first ∷ stack))

search_ends :
    (fuel : ℕ) (stack : List Value)
    → stack_passes stack < fuel
    → search_stack fuel stack ≡ some (stack_positive stack)
unfolding search_stack stack_passes stack_positive passes has_positive
search_ends zero stack h = absurd (omega arith)
search_ends (suc fuel) [] h = refl
search_ends (suc fuel) (number value ∷ stack) h = ground (arith, search_ends fuel stack)
search_ends (suc fuel) (other value ∷ stack) h = ground (arith, search_ends fuel stack)
search_ends (suc fuel) (items values ∷ stack) h =
    search_ends fuel (push values stack) (omega (arith, passes-push values stack))
    ∙ ap some (positive-push values stack)

or_none : (b : Bool) → (b || false) ≡ b
or_none b = ground arith

-- The search through nested weights ends after fewer passes than `passes` counts and one more, and its
-- result is whether some weight in the list, at whatever depth, is positive.
pub search_finds_positive :
    (fuel : ℕ) (values : Values)
    → passes (items values) < fuel
    → has_positive_weight_values fuel (items values) ≡ some (has_positive (items values))
unfolding has_positive_weight_values stack_passes stack_positive passes has_positive
search_finds_positive fuel values h =
    search_ends fuel (push values []) (omega (arith, passes-push values []))
    ∙ ap some (positive-push values [] ∙ or_none (any_positive values))

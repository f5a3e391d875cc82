-- ===== src/Questions/Rules.antt =====
-- software/core/questions/consistency.py with the record of given answers from
-- software/core/persona/context.py: the condition rules. A rule says which options of a question must
-- or must not be chosen once an earlier question has been answered in some way.
-- A value that `int()` refuses is `none`; what is not a list, or not a dict, is `none`.

pub mod Sorting
pub mod Normal
mod Examples
use survey_controller.Common.{
  ℕ, zero, suc, ◌<◌, ℤ, pos, negsuc, Bool, true, false, not, ◌&&◌, ◌||◌, Option, none, some, List,
  [], ◌∷◌, ◌++◌, Text, text, length, contains, ltb, leb, if◌then◌else◌, is_empty, nat_eq, text_eq,
  ◌==◌, strip, or_else,
}
use survey_controller.Common.Decimal.{decimal}
use survey_controller.Common.Dict.{Dict, lookup, insert}

pub record AnswerRule : Type 0 where
  pub id : Text
  pub condition_question_num : ℕ
  pub condition_mode : Text
  pub condition_option_indices : List ℕ
  pub target_question_num : ℕ
  pub action_mode : Text
  pub target_option_indices : List ℕ
  pub condition_row_index : Option ℕ
  pub target_row_index : Option ℕ

-- A rule as the settings give it, a dict with the values under these keys.
pub record RawRule : Type 0 where
  pub id : Text
  pub condition_question_num : Option ℤ
  pub condition_mode : Text
  pub condition_option_indices : Option (List (Option ℤ))
  pub target_question_num : Option ℤ
  pub action_mode : Text
  pub target_option_indices : Option (List (Option ℤ))
  pub condition_row_index : Option (Option ℤ)
  pub target_row_index : Option (Option ℤ)

-- `_to_int(value, -1)`, where only whether it is negative matters of a negative result
unfoldable pub to_index : Option ℤ → Option ℕ
to_index none = none
to_index (some (negsuc n)) = none
to_index (some (pos n)) = some n

-- A question number is positive.
unfoldable pub to_question_num : Option ℤ → Option ℕ
unfolding to_index
to_question_num value = elim (to_index value) [
  | none ↦ none
  | some n ↦ if leb n 0 then none else some n
]

-- The loop of `_to_int_list`; `seen` holds what is in the result.
unfoldable pub new_indices : List ℕ → List (Option ℤ) → List ℕ
unfolding to_index
new_indices seen [] = []
new_indices seen (item ∷ values) = elim (to_index item) [
  | none ↦ new_indices seen values
  | some idx ↦
      let skip = contains idx seen in
      let rest = new_indices (if skip then seen else idx ∷ seen) values in
      if skip then rest else idx ∷ rest
]

-- `sorted`
unfoldable pub insert_sorted : ℕ → List ℕ → List ℕ
insert_sorted a [] = a ∷ []
insert_sorted a (b ∷ xs) = let rest = insert_sorted a xs in if leb a b then a ∷ b ∷ xs else b ∷ rest

unfoldable pub sorted : List ℕ → List ℕ
sorted [] = []
sorted (a ∷ xs) = insert_sorted a (sorted xs)

unfoldable pub to_int_list : Option (List (Option ℤ)) → List ℕ
unfolding new_indices sorted
to_int_list none = []
to_int_list (some values) = sorted (new_indices [] values)

unfoldable pub condition_modes : List Text
condition_modes = text "selected" ∷ text "not_selected" ∷ []

unfoldable pub action_modes : List Text
action_modes = text "must_select" ∷ text "must_not_select" ∷ []

-- `rule-{…}-{…}-{…}-{…}`
unfoldable pub default_rule_id : ℕ → ℕ → ℕ → ℕ → Text
default_rule_id condition target conditions targets =
    text "rule-"
    ++ (decimal condition
        ++ (text "-"
            ++ (decimal target
                ++ (text "-" ++ (decimal conditions ++ (text "-" ++ decimal targets))))))

unfoldable pub to_row_index : Option (Option ℤ) → Option ℕ
unfolding to_index
to_row_index none = none
to_row_index (some value) = to_index value

abbrev pub has_none : List ℕ → Bool
has_none [] = true
has_none (a ∷ xs) = false

-- `normalize_rule_dict` returns `None` for these modes or indices.
unfoldable pub is_refused : Text → Text → List ℕ → List ℕ → Bool
unfolding condition_modes action_modes
is_refused condition_mode action_mode conditions targets =
    not (contains condition_mode condition_modes)
    || not (contains action_mode action_modes)
    || has_none conditions
    || has_none targets

-- The id of a rule, made up where the settings give none.
unfoldable pub rule_id : Text → ℕ → ℕ → List ℕ → List ℕ → Text
unfolding default_rule_id
rule_id id condition target conditions targets =
    or_else (strip id) (default_rule_id condition target (length conditions) (length targets))

unfoldable pub checked_rule : RawRule → ℕ → ℕ → Text → Text → List ℕ → List ℕ → Option AnswerRule
unfolding is_refused rule_id to_row_index
checked_rule raw condition target condition_mode action_mode conditions targets =
    if is_refused condition_mode action_mode conditions targets
    then none
    else some (record {
      id = rule_id raw.id condition target conditions targets;
      condition_question_num = condition;
      condition_mode = condition_mode;
      condition_option_indices = conditions;
      target_question_num = target;
      action_mode = action_mode;
      target_option_indices = targets;
      condition_row_index = to_row_index raw.condition_row_index;
      target_row_index = to_row_index raw.target_row_index;
    })

-- A question number that is not there, or not positive, is no rule.
unfoldable pub numbered_rule : RawRule → Option ℕ → Option ℕ → Option AnswerRule
unfolding checked_rule to_int_list
numbered_rule raw none target = none
numbered_rule raw (some condition) none = none
numbered_rule raw (some condition) (some target) =
    checked_rule raw condition target (strip raw.condition_mode) (strip raw.action_mode)
      (to_int_list raw.condition_option_indices) (to_int_list raw.target_option_indices)

unfoldable pub normalize_rule_dict : Option RawRule → Option AnswerRule
unfolding numbered_rule to_question_num
normalize_rule_dict none = none
normalize_rule_dict (some raw) =
    numbered_rule raw (to_question_num raw.condition_question_num)
      (to_question_num raw.target_question_num)

-- The dict that `normalize_rule_dict` returns, given to it again: the numbers stand in it as they
-- are, and a row's key is there when the rule has the row.
unfoldable pub as_values : List ℕ → List (Option ℤ)
as_values [] = []
as_values (a ∷ xs) = some (pos a) ∷ as_values xs

unfoldable pub as_row : Option ℕ → Option (Option ℤ)
as_row none = none
as_row (some row) = some (some (pos row))

unfoldable pub as_raw : AnswerRule → RawRule
unfolding as_values as_row
as_raw rule = record {
  id = rule.id;
  condition_question_num = some (pos rule.condition_question_num);
  condition_mode = rule.condition_mode;
  condition_option_indices = some (as_values rule.condition_option_indices);
  target_question_num = some (pos rule.target_question_num);
  action_mode = rule.action_mode;
  target_option_indices = some (as_values rule.target_option_indices);
  condition_row_index = as_row rule.condition_row_index;
  target_row_index = as_row rule.target_row_index;
}

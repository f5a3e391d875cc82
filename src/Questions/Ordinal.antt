-- ===== src/Questions/Ordinal.antt =====
-- software/core/psychometrics/ordinal_options.py: the scale that the texts of a question's options
-- stand for. How a text is cleaned, the number that it states and the list of known scales with their
-- words are an `OptionReader`: they go by regular expressions and by tables of Chinese words.

pub mod Scale
mod Examples
use survey_controller.Common.{
  ℕ, zero, suc, ◌+◌, ◌-◌, ◌<◌, Bool, true, false, not, ◌&&◌, ◌||◌, Option, none, some, List, [],
  ◌∷◌, ◌++◌, Text, length, take, reverse, ltb, leb, nat_beq, if◌then◌else◌, max, is_empty, is_some,
  text_eq, text_beq, filterb, map,
}
use survey_controller.Questions.Rules.{sorted}

-- `NUMERIC_RE` with `int`, the table `_CHINESE_NUMBERS` without the unit behind the number, and
-- `_score_attitude_option`; the groups are normalised already.
pub record OptionReader : Type 0 where
  pub normalize_option_text : Text → Text
  pub numeric_value : Text → Option ℕ
  pub chinese_value : Text → Option ℕ
  pub score_attitude_option : Text → Option ℕ
  pub ordinal_groups : List (List Text)

unfoldable pub read_values : (Text → Option ℕ) → List Text → Option (List ℕ)
read_values value_of [] = some []
read_values value_of (text ∷ texts) = elim (value_of text) [
  | none ↦ none
  | some value ↦ elim (read_values value_of texts) [
    | none ↦ none
    | some values ↦ some (value ∷ values)
  ]
]

-- Whether the numbers go up, or down, by one from the first.
unfoldable pub counts_up : ℕ → List ℕ → Bool
counts_up value [] = true
counts_up value (x ∷ xs) = nat_beq x value && counts_up (suc value) xs

unfoldable pub counts_down : ℕ → List ℕ → Bool
counts_down value [] = true
counts_down value (x ∷ []) = nat_beq x value
counts_down value (x ∷ y ∷ xs) = nat_beq x value && ltb 0 value && counts_down (value - 1) (y ∷ xs)

-- `min(values)` and `max(values)`
unfoldable pub smallest : ℕ → List ℕ → ℕ
smallest a [] = a
smallest a (x ∷ xs) = smallest (if ltb x a then x else a) xs

unfoldable pub largest : ℕ → List ℕ → ℕ
largest a [] = a
largest a (x ∷ xs) = largest (if ltb a x then x else a) xs

unfoldable pub score_numbers : List ℕ → Option (List ℕ)
unfolding counts_up counts_down smallest largest
score_numbers (first ∷ second ∷ rest) =
    let values = first ∷ second ∷ rest in
    if counts_up first values
    then some (map (λ value. value - smallest first (second ∷ rest)) values)
    else if counts_down first values
    then some (map (λ value. largest first (second ∷ rest) - value) values)
    else none
score_numbers _ = none

-- `_parse_numeric_options` and `_parse_chinese_numeric_options`
unfoldable pub parse_options : (Text → Option ℕ) → List Text → Option (List ℕ)
unfolding read_values score_numbers
parse_options value_of texts = elim (read_values value_of texts) [
  | none ↦ none
  | some values ↦ score_numbers values
]

unfoldable pub range_from : ℕ → ℕ → List ℕ
range_from value zero = []
range_from value (suc n) = value ∷ range_from (suc value) n

unfoldable pub same_texts : List Text → List Text → Bool
same_texts [] [] = true
same_texts (s ∷ ss) (t ∷ ts) = text_beq s t && same_texts ss ts
same_texts _ _ = false

-- `group[-n:]`
unfoldable pub last_of {ℓ} : {A : Type ℓ} → ℕ → List A → List A
last_of n xs = reverse (take n (reverse xs))

unfoldable pub is_reversed : List Text → List Text → Bool
unfolding same_texts last_of
is_reversed group texts =
    same_texts texts (reverse (last_of (length texts) group))
    || nat_beq (length texts) (length group) && same_texts texts (reverse group)

unfoldable pub match_text_group : List (List Text) → List Text → Option (List ℕ)
unfolding range_from same_texts is_reversed
match_text_group [] texts = none
match_text_group (group ∷ groups) texts =
    let rest = match_text_group groups texts in
    if ltb (length texts) 2
    then none
    else if same_texts texts (take (length texts) group)
    then some (range_from 0 (length texts))
    else if is_reversed group texts
    then some (reverse (range_from 0 (length texts)))
    else rest

unfoldable pub same_numbers : List ℕ → List ℕ → Bool
same_numbers [] [] = true
same_numbers (x ∷ xs) (y ∷ ys) = nat_beq x y && same_numbers xs ys
same_numbers _ _ = false

unfoldable pub match_attitude_scale : (Text → Option ℕ) → List Text → Option (List ℕ)
unfolding read_values sorted same_numbers range_from
match_attitude_scale score texts = elim (read_values score texts) [
  | none ↦ none
  | some scores ↦
      if nat_beq (length texts) 5 && same_numbers (sorted scores) (range_from 0 5)
      then some scores
      else none
]

-- `a or b`, where the empty list does not count either
unfoldable pub or_scores : Option (List ℕ) → Option (List ℕ) → Option (List ℕ)
or_scores (some (score ∷ scores)) other = some (score ∷ scores)
or_scores _ other = other

-- The scores by the first way that applies.
unfoldable pub score_texts : OptionReader → List Text → Option (List ℕ)
unfolding parse_options match_text_group match_attitude_scale or_scores
score_texts reader texts = or_scores (parse_options reader.numeric_value texts) (
    or_scores (parse_options reader.chinese_value texts) (
      or_scores (match_text_group reader.ordinal_groups texts)
        (match_attitude_scale reader.score_attitude_option texts)))

abbrev pub has_text : Text → Bool
has_text text = not (is_empty text)

unfoldable pub accepted : List Text → Option (List ℕ) → Option (List ℕ)
unfolding sorted same_numbers range_from
accepted texts none = none
accepted texts (some scores) =
    if nat_beq (length scores) (length texts)
      && same_numbers (sorted scores) (range_from 0 (length texts))
    then some scores
    else none

unfoldable pub infer_ordinal_option_mapping : OptionReader → List Text → Option (List ℕ)
unfolding score_texts accepted
infer_ordinal_option_mapping reader option_texts =
    let texts = filterb has_text (map reader.normalize_option_text option_texts) in
    if ltb (length texts) 2 then none else accepted texts (score_texts reader texts)

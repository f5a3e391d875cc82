-- ===== src/ReverseFill/Parser/InRange.antt =====
-- The options that a parsed answer names are options of the question.
use survey_controller.Common.{
  ℕ, suc, ◌+◌, ◌-◌, ◌≤◌, ◌<◌, ◌≡◌, refl, arith, Bool, true, false, Option, none, some, List, [],
  ◌∷◌, Text, text, length, ltb, if◌then◌else◌, nat_eq, text_eq, ◌==◌, Option-cases, Bool-cases, inl,
  inr,
}
use survey_controller.Common.Dict.{Dict, lookup, lookup-insert}
use survey_controller.Task.Defs.{ReverseFillAnswer}
use survey_controller.ReverseFill.Parser.{
  Parsed, raises, returns, Reader, choice_answer, set_defaults, first_in, option_text_index_map,
  parse_sequence, parse_number, parse_label, parse_choice_answer, unsupported_choice_value,
  matrix_answer, row_index, with_rest, row_indexes, parse_matrix_answer, is_reverse_fill_blank,
}

-- Every entry of the map is below `n`.
abbrev pub IsBelow : ℕ → Dict Text ℕ → Type 0
IsBelow n m = (key : Text) (i : ℕ) → lookup key m ≡ some i → i < n

set_defaults-IsBelow :
    (n index : ℕ) (variants : List Text) (m : Dict Text ℕ)
    → index < n
    → IsBelow n m
    → IsBelow n (set_defaults variants index m)
unfolding set_defaults
set_defaults-IsBelow n index [] m le b = b
set_defaults-IsBelow n index (variant ∷ variants) m le b =
    set_defaults-IsBelow n index variants _ le
      (λ key i h. ground (arith, b key i, lookup-insert variant key index m))

first_in-below :
    (n i : ℕ) (variants : List Text) (m : Dict Text ℕ)
    → IsBelow n m
    → first_in variants m ≡ some i
    → i < n
unfolding first_in
first_in-below n i [] m b h = ground arith
first_in-below n i (variant ∷ variants) m b h =
    ground (arith, first_in-below n i variants m b, b variant i)

-- A choice that is there names an option below `n`.
abbrev pub NamesOption : ℕ → ℕ → Parsed (Option ReverseFillAnswer) → Type 0
NamesOption q n (raises error) = Unit {0}
NamesOption q n (returns none) = Unit {0}
NamesOption q n (returns (some answer)) = (i : ℕ) × (answer ≡ choice_answer q i) × (i < n)

module _ {Value : Type 0} (reader : Reader Value) where
  option_text_index_map-IsBelow :
      (n index : ℕ) (options : List Value) (m : Dict Text ℕ)
      → index + length options ≤ n
      → IsBelow n m
      → IsBelow n (option_text_index_map reader index options m)
  unfolding option_text_index_map
  option_text_index_map-IsBelow n index [] m le b = b
  option_text_index_map-IsBelow n index (option ∷ options) m le b =
      option_text_index_map-IsBelow n (suc index) options _ (omega arith)
        (set_defaults-IsBelow n index (reader.label_variants option) m (omega arith) b)

  numbered :
      (q n one_based : ℕ) (fails : Parsed (Option ReverseFillAnswer))
      → NamesOption q n fails
      → NamesOption q n (
          if ltb (one_based - 1) n then returns (some (choice_answer q (one_based - 1))) else fails)
  numbered q n one_based fails f = elim (Bool-cases (ltb (one_based - 1) n)) [
    | inl e ↦ rw e (one_based - 1, refl, ground arith)
    | inr e ↦ rw e f
  ]

  parse_sequence-NamesOption :
      (q n : ℕ) (value : Value) → NamesOption q n (parse_sequence reader q value n)
  unfolding parse_sequence
  parse_sequence-NamesOption q n value = elim (Option-cases (reader.parse_one_based_index value)) [
    | inl e ↦ rw (e, parse_sequence) tt
    | inr (k, e) ↦ rw (e, parse_sequence) (numbered q n k _ tt)
  ]

  parse_number-NamesOption :
      (q n : ℕ) (value : Value) (allowed : Bool)
      → NamesOption q n (parse_number reader q value allowed n)
  unfolding parse_number
  parse_number-NamesOption q n value false = tt
  parse_number-NamesOption q n value true =
      elim (Option-cases (reader.parse_one_based_index value)) [
        | inl e ↦ rw (e, parse_number) tt
        | inr (k, e) ↦ rw (e, parse_number) (numbered q n k _ tt)
      ]

  parse_label-NamesOption :
      (q : ℕ) (value : Value) (format : Text) (options : List Value)
      → NamesOption q (length options) (parse_label reader q value format options)
  unfolding parse_label lookup
  parse_label-NamesOption q value format options =
      let m = option_text_index_map reader 0 options [] in
      elim (Option-cases (first_in (reader.label_variants value) m)) [
        | inl e ↦ rw (e, parse_label) (parse_number-NamesOption q (length options) value _)
        | inr (i, e) ↦
            rw (e, parse_label)
              (
                i,
                refl,
                first_in-below (length options) i (reader.label_variants value) m
                    (option_text_index_map-IsBelow (length options) 0 options [] (omega arith)
                      (λ key j h. ground arith))
                    e,
              )
      ]

  parse_choice_answer-NamesOption :
      (q : ℕ) (value : Value) (format : Text) (options : List Value)
      → NamesOption q (length options) (parse_choice_answer reader q value format options)
  unfolding parse_choice_answer
  parse_choice_answer-NamesOption q value format options =
      elim (Bool-cases (is_reverse_fill_blank reader value)) [
        | inl e ↦ rw (e, parse_choice_answer) tt
        | inr e ↦ elim (Option-cases (unsupported_choice_value (reader.normalize_text value))) [
          | inr (error, e') ↦ rw (e, parse_choice_answer, e') tt
          | inl e' ↦ elim (Bool-cases (format == text "wjx_sequence")) [
            | inl f ↦
                rw (e, parse_choice_answer, e', f)
                  (parse_sequence-NamesOption q (length options) value)
            | inr f ↦
                rw (e, parse_choice_answer, e', f) (parse_label-NamesOption q value format options)
          ]
        ]
      ]

-- Whatever the format and however cells are read: a choice that a cell is parsed to is the answer of
-- its question with one of the options, counted from 0.
pub parse_choice_answer_in_range :
    {Value : Type 0} (reader : Reader Value) (q : ℕ) (value : Value) (format : Text)
    (options : List Value) (answer : ReverseFillAnswer)
    → parse_choice_answer reader q value format options ≡ returns (some answer)
    → (i : ℕ) × (answer ≡ choice_answer q i) × (i < length options)
parse_choice_answer_in_range reader q value format options answer h =
    rw h at (parse_choice_answer-NamesOption reader q value format options)

module _ {Value : Type 0} (reader : Reader Value) (q : ℕ) (format : Text)
    (options : List Value) where
  -- The cell of a row is parsed to a choice of option `i`, and there is such an option.
  abbrev pub Chooses : Value → ℕ → Type 0
  Chooses value i =
      (parse_choice_answer reader q value format options ≡ returns (some (choice_answer q i)))
      × (i < length options)

  -- As many indexes as cells, and each index is the choice of the cell at its place.
  abbrev pub ChosenInOrder : List Value → List ℕ → Type 0
  ChosenInOrder [] [] = Unit
  ChosenInOrder [] (i ∷ indexes) = ⊥
  ChosenInOrder (value ∷ values) [] = ⊥
  ChosenInOrder (value ∷ values) (i ∷ indexes) = Chooses value i × ChosenInOrder values indexes

  abbrev AreChosen : List Value → Parsed (List ℕ) → Type 0
  AreChosen values (raises error) = Unit {0}
  AreChosen values (returns indexes) = ChosenInOrder values indexes

  with_rest-AreChosen :
      (value : Value) (values : List Value) (first : Parsed (Option ReverseFillAnswer))
      (rest : Parsed (List ℕ))
      → parse_choice_answer reader q value format options ≡ first
      → NamesOption q (length options) first
      → AreChosen values rest
      → AreChosen (value ∷ values) (with_rest (row_index first) rest)
  with_rest-AreChosen value values (raises error) rest e f r = tt
  with_rest-AreChosen value values (returns none) rest e f r = tt
  with_rest-AreChosen value values (returns (some answer)) (raises error) e (i, same, le) r =
      rw same tt
  with_rest-AreChosen value values (returns (some answer)) (returns indexes) e (i, same, le) r =
      rw same ((rw (e, same) refl, le), r)

  row_indexes-AreChosen :
      (values : List Value) → AreChosen values (row_indexes reader q values format options)
  unfolding row_indexes
  row_indexes-AreChosen [] = tt
  row_indexes-AreChosen (value ∷ values) =
      with_rest-AreChosen value values (parse_choice_answer reader q value format options)
        (row_indexes reader q values format options) refl
        (parse_choice_answer-NamesOption reader q value format options)
        (row_indexes-AreChosen values)

  matrix_of :
      (values : List Value) (rows : Parsed (List ℕ)) (answer : ReverseFillAnswer)
      → AreChosen values rows
      → matrix_answer q rows ≡ returns (some answer)
      → ChosenInOrder values answer.matrix_choice_indexes
  matrix_of values (raises error) answer a h = absurd (ground arith)
  matrix_of values (returns indexes) answer a h =
      let e : indexes ≡ answer.matrix_choice_indexes = ground arith in rw (← e) a

  matrix_split :
      (values : List Value) (answer : ReverseFillAnswer)
      → parse_matrix_answer reader q values format options ≡ returns (some answer)
      → matrix_answer q (row_indexes reader q values format options) ≡ returns (some answer)
  unfolding parse_matrix_answer
  matrix_split values answer h = ground arith

-- A matrix that is parsed to an answer has one index for each of its rows, in the order of the rows: the
-- index at a row's place is the choice that this row's cell alone is parsed to, and it is that of one of
-- the options, counted from 0.
pub parse_matrix_answer_in_range :
    {Value : Type 0} (reader : Reader Value) (q : ℕ) (values : List Value) (format : Text)
    (options : List Value) (answer : ReverseFillAnswer)
    → parse_matrix_answer reader q values format options ≡ returns (some answer)
    → ChosenInOrder reader q format options values answer.matrix_choice_indexes
parse_matrix_answer_in_range reader q values format options answer h =
    matrix_of reader q format options values (row_indexes reader q values format options) answer
      (row_indexes-AreChosen reader q format options values)
      (matrix_split reader q format options values answer h)

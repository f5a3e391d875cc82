-- ===== src/Questions/Rules/Normal.antt =====
-- Normalising a rule gives a rule in normal form, and that is read back as it is.
use survey_controller.Common.{
  ℕ, ◌<◌, ◌≡◌, refl, ℤ, pos, negsuc, Bool, true, false, not, ◌||◌, Option, none, some, List, [],
  ◌∷◌, ◌++◌, contains, if◌then◌else◌, arith, Text, text, text_eq, text_beq_iff, strip, or_else,
  is_empty, is_space, length, subst,
}
use survey_controller.Common.Decimal.{decimal}
use survey_controller.Common.Trim.{
  IsTrimmed, strip_trimmed, strip-IsTrimmed, decimal-IsTrimmed, append-IsTrimmed,
}
use survey_controller.Questions.Rules.{
  AnswerRule, RawRule, to_index, to_question_num, to_int_list, checked_rule, normalize_rule_dict,
  numbered_rule, is_refused, rule_id, as_raw, as_row, default_rule_id, to_row_index,
  condition_modes, action_modes,
}
use survey_controller.Questions.Rules.Sorting.{
  IsIncreasing, to_int_list-IsIncreasing, to_int_list-as_values,
}

-- A rule as `normalize_rule_dict` leaves it.
unfoldable pub IsNormal : AnswerRule → Type 0
IsNormal rule =
    (0 < rule.condition_question_num)
    × (0 < rule.target_question_num)
    × (is_refused rule.condition_mode rule.action_mode rule.condition_option_indices
          rule.target_option_indices
        ≡ false)
    × IsIncreasing rule.condition_option_indices
    × IsIncreasing rule.target_option_indices
    × IsTrimmed rule.id
    × (is_empty rule.id ≡ false)

to_question_num-positive : (value : Option ℤ) (n : ℕ) → to_question_num value ≡ some n → 0 < n
unfolding to_question_num to_index
to_question_num-positive none n h = ground arith
to_question_num-positive (some (negsuc m)) n h = ground arith
to_question_num-positive (some (pos m)) n h = ground arith

-- A text in front of a dash and a trimmed text.
dashed : (n : ℕ) (s : Text) → IsTrimmed s → IsTrimmed (decimal n ++ (text "-" ++ s))
unfolding is_space
dashed n s h =
    append-IsTrimmed (decimal n) (text "-" ++ s) (decimal-IsTrimmed n)
      (append-IsTrimmed (text "-") s (refl, refl) h)

default_rule_id-IsTrimmed : (a b c d : ℕ) → IsTrimmed (default_rule_id a b c d)
unfolding default_rule_id is_space
default_rule_id-IsTrimmed a b c d =
    let tail = decimal c ++ (text "-" ++ decimal d) in
    append-IsTrimmed (text "rule-") (decimal a ++ (text "-" ++ (decimal b ++ (text "-" ++ tail))))
      (refl, refl)
      (dashed a (decimal b ++ (text "-" ++ tail))
        (dashed b tail (dashed c (decimal d) (decimal-IsTrimmed d))))

or_else-IsTrimmed : (s t : Text) → IsTrimmed s → IsTrimmed t → IsTrimmed (or_else s t)
or_else-IsTrimmed [] t h k = k
or_else-IsTrimmed (c ∷ s) t h k = h

or_else_nonempty : (s t : Text) → is_empty t ≡ false → is_empty (or_else s t) ≡ false
or_else_nonempty [] t h = h
or_else_nonempty (c ∷ s) t h = refl

rule_id-IsTrimmed : (id : Text) (c t : ℕ) (cs ts : List ℕ) → IsTrimmed (rule_id id c t cs ts)
unfolding rule_id
rule_id-IsTrimmed id c t cs ts =
    or_else-IsTrimmed (strip id) (default_rule_id c t (length cs) (length ts)) (strip-IsTrimmed id)
      (default_rule_id-IsTrimmed c t (length cs) (length ts))

rule_id_nonempty : (id : Text) (c t : ℕ) (cs ts : List ℕ) → is_empty (rule_id id c t cs ts) ≡ false
unfolding rule_id default_rule_id
rule_id_nonempty id c t cs ts =
    or_else_nonempty (strip id) (default_rule_id c t (length cs) (length ts)) refl

rule_id_kept :
    (id : Text) (c t : ℕ) (cs ts : List ℕ)
    → IsTrimmed id
    → is_empty id ≡ false
    → rule_id id c t cs ts ≡ id
unfolding rule_id
rule_id_kept [] c t cs ts h e = ground arith
rule_id_kept (a ∷ id) c t cs ts h e = rw (strip_trimmed (a ∷ id) h) refl

kept {ℓ} :
    {A : Type ℓ} (refuse : Bool) (made got : A)
    → (if refuse then none else some made) ≡ some got
    → (refuse ≡ false) × (made ≡ got)
kept true made got h = ground arith
kept false made got h = (refl, ground arith)

checked_rule-IsNormal :
    (raw : RawRule) (condition target : ℕ) (condition_mode action_mode : Text)
    (conditions targets : List ℕ) (rule : AnswerRule)
    → 0 < condition
    → 0 < target
    → IsIncreasing conditions
    → IsIncreasing targets
    → checked_rule raw condition target condition_mode action_mode conditions targets ≡ some rule
    → IsNormal rule
unfolding IsNormal checked_rule
checked_rule-IsNormal raw c t cm am cs ts rule hc ht ic it h =
    let (passed, made) = kept (is_refused cm am cs ts) _ rule h in
    subst IsNormal made (
      hc,
      ht,
      passed,
      ic,
      it,
      rule_id-IsTrimmed raw.id c t cs ts,
      rule_id_nonempty raw.id c t cs ts,
    )

numbered_rule-IsNormal :
    (raw : RawRule) (condition target : Option ℕ) (rule : AnswerRule)
    → ((n : ℕ) → condition ≡ some n → 0 < n)
    → ((n : ℕ) → target ≡ some n → 0 < n)
    → numbered_rule raw condition target ≡ some rule
    → IsNormal rule
unfolding numbered_rule
numbered_rule-IsNormal raw none target rule hc ht h = ground arith
numbered_rule-IsNormal raw (some c) none rule hc ht h = ground arith
numbered_rule-IsNormal raw (some c) (some t) rule hc ht h =
    checked_rule-IsNormal raw c t (strip raw.condition_mode) (strip raw.action_mode)
      (to_int_list raw.condition_option_indices) (to_int_list raw.target_option_indices) rule
      (hc c refl) (ht t refl) (to_int_list-IsIncreasing raw.condition_option_indices)
      (to_int_list-IsIncreasing raw.target_option_indices) h

pub normalize_rule_dict-IsNormal :
    (raw : Option RawRule) (rule : AnswerRule) → normalize_rule_dict raw ≡ some rule → IsNormal rule
unfolding normalize_rule_dict
normalize_rule_dict-IsNormal none rule h = ground arith
normalize_rule_dict-IsNormal (some raw) rule h =
    numbered_rule-IsNormal raw (to_question_num raw.condition_question_num)
      (to_question_num raw.target_question_num) rule
      (to_question_num-positive raw.condition_question_num)
      (to_question_num-positive raw.target_question_num) h

guards : (a b c d : Bool) → (not a || not b || c || d) ≡ false → (a ≡ true) × (b ≡ true)
guards a b c d h = ground arith

mode_trimmed :
    (s a b : Text) → IsTrimmed a → IsTrimmed b → contains s (a ∷ b ∷ []) ≡ true → strip s ≡ s
mode_trimmed s a b ha hb h = strip_trimmed s (ground (arith, text_beq_iff a s, text_beq_iff b s))

to_question_num-pos : (n : ℕ) → 0 < n → to_question_num (some (pos n)) ≡ some n
unfolding to_question_num to_index
to_question_num-pos n h = ground arith

to_row_index-as_row : (row : Option ℕ) → to_row_index (as_row row) ≡ row
unfolding to_row_index as_row to_index
to_row_index-as_row none = refl
to_row_index-as_row (some n) = refl

modes_trimmed :
    (cm am : Text) (cs ts : List ℕ)
    → is_refused cm am cs ts ≡ false
    → (strip cm ≡ cm) × (strip am ≡ am)
unfolding is_refused condition_modes action_modes is_space
modes_trimmed cm am cs ts h = (
  mode_trimmed cm (text "selected") (text "not_selected") (refl, refl) (refl, refl)
      (guards _ _ _ _ h).0,
  mode_trimmed am (text "must_select") (text "must_not_select") (refl, refl) (refl, refl)
      (guards _ _ _ _ h).1,
)

-- A rule in normal form is read back as it is.
pub normalize_rule_dict-as_raw :
    (rule : AnswerRule) → IsNormal rule → normalize_rule_dict (some (as_raw rule)) ≡ some rule
unfolding IsNormal as_raw normalize_rule_dict numbered_rule checked_rule
normalize_rule_dict-as_raw rule (hc, ht, passed, ic, it, trimmed, named) =
    let modes =
      modes_trimmed rule.condition_mode rule.action_mode rule.condition_option_indices
        rule.target_option_indices passed in
    rw
      (
        to_question_num-pos rule.condition_question_num hc,
        to_question_num-pos rule.target_question_num ht,
        modes.0,
        modes.1,
        to_int_list-as_values rule.condition_option_indices ic,
        to_int_list-as_values rule.target_option_indices it,
        passed,
        rule_id_kept rule.id rule.condition_question_num rule.target_question_num
            rule.condition_option_indices rule.target_option_indices trimmed named,
        to_row_index-as_row rule.condition_row_index,
        to_row_index-as_row rule.target_row_index,
      )
      refl

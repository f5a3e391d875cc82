-- ===== src/Questions/Consistency/Applied/Obeyed.antt =====
-- The weights that are left once a rule has been applied.
use survey_controller.Common.{
  ℕ, zero, suc, ◌+◌, ◌<◌, ◌≡◌, refl, ap, ◌∙◌, inl, inr, ℤ, Bool, true, false, not, ◌&&◌, ◌||◌, ◌==◌,
  text, Option, none, some, List, [], ◌∷◌, contains, length, get_elem?, filterb, ltb, leb,
  if◌then◌else◌, arith, Bool-cases, nat_eq, text_eq, nat_beq_iff, sum, Text,
}
use survey_controller.Common.Dict.{Dict}
use survey_controller.Questions.Rules.{AnswerRule, has_none}
use survey_controller.Questions.Consistency.{AnsweredQuestion}
use survey_controller.Questions.Consistency.Picked.{pick_latest_triggered_rule}
use survey_controller.Questions.Consistency.Applied.{
  sanitize_probabilities, resolve_valid_rule_indices, must_select, is_left, adjusted_from,
  apply_rule, apply_picked, apply_single_like_consistency, apply_matrix_row_consistency,
  constraint_with, constraint_of, get_multiple_rule_constraint,
}

adjusted-get_elem :
    (must : Bool) (valid : List ℕ) (k i : ℕ) (ws : List ℕ) (w : ℕ)
    → get_elem? ws i ≡ some w
    → get_elem? (adjusted_from must valid k ws) i
      ≡ some (if is_left must valid (k + i) then w else 0)
unfolding adjusted_from
adjusted-get_elem must valid k i [] w h = ground arith
adjusted-get_elem must valid k zero (x ∷ ws) w h = ground arith
adjusted-get_elem must valid k (suc i) (x ∷ ws) w h =
    let next : k + suc i ≡ suc k + i = omega arith in
    rw next (adjusted-get_elem must valid (suc k) i ws w h)

adjusted_at :
    (must : Bool) (valid : List ℕ) (i : ℕ) (ws : List ℕ) (w : ℕ) (left : Bool)
    → get_elem? ws i ≡ some w
    → is_left must valid i ≡ left
    → get_elem? (adjusted_from must valid 0 ws) i ≡ some (if left then w else 0)
adjusted_at must valid i ws w left h e =
    let start : 0 + i ≡ i = omega arith in
    adjusted-get_elem must valid 0 i ws w h
    ∙ ap (λ k. some (if is_left must valid k then w else 0)) start
    ∙ ap (λ b. some (if b then w else 0)) e

-- What a rule asks of an option: it is one of the rule's options where one of these must be chosen, and
-- none of them otherwise.
abbrev pub allows : AnswerRule → ℕ → Bool
allows rule i =
    if rule.action_mode == text "must_select"
    then contains i rule.target_option_indices
    else not (contains i rule.target_option_indices)

-- Whether some option from `k` on that the rule allows has a positive weight.
abbrev pub leaves_some : AnswerRule → ℕ → List ℕ → Bool
leaves_some rule k [] = false
leaves_some rule k (w ∷ ws) = (allows rule k && ltb 0 w) || leaves_some rule (suc k) ws

contains-valid :
    (i n : ℕ) (targets : List ℕ)
    → i < n
    → contains i (filterb (λ idx. ltb idx n) targets) ≡ contains i targets
contains-valid i n [] h = refl
contains-valid i n (x ∷ targets) h = elim (Bool-cases (ltb x n)) [
  | inl e ↦ ground (arith, nat_beq_iff x i, contains-valid i n targets h)
  | inr e ↦ ground (arith, nat_beq_iff x i, contains-valid i n targets h)
]

is_left-allows :
    (rule : AnswerRule) (i n : ℕ)
    → i < n
    → is_left (must_select rule) (resolve_valid_rule_indices rule n) i ≡ allows rule i
unfolding is_left resolve_valid_rule_indices
is_left-allows rule i n h = rw (contains-valid i n rule.target_option_indices h) refl

below_of : (ws : List ℕ) (i w : ℕ) → get_elem? ws i ≡ some w → i < length ws
below_of [] i w h = ground arith
below_of (x ∷ ws) zero w h = ground arith
below_of (x ∷ ws) (suc i) w h = omega (arith, below_of ws i w h)

-- The adjusted weights have a positive sum exactly if some allowed option has a positive weight.
sum-adjusted :
    (rule : AnswerRule) (n k : ℕ) (ws : List ℕ)
    → k + length ws ≡ n
    → leb (sum (adjusted_from (must_select rule) (resolve_valid_rule_indices rule n) k ws)) 0
      ≡ not (leaves_some rule k ws)
unfolding adjusted_from
sum-adjusted rule n k [] h = refl
sum-adjusted rule n k (w ∷ ws) h =
    let rest = sum-adjusted rule n (suc k) ws (omega arith) in
    let same = is_left-allows rule k n (omega arith) in
    elim (Bool-cases (allows rule k)) [
      | inl e ↦ rw (same, e) (ground (arith, rest))
      | inr e ↦ rw (same, e) (ground (arith, rest))
    ]

contains-none : (i : ℕ) (xs : List ℕ) → has_none xs ≡ true → contains i xs ≡ false
contains-none i [] h = refl
contains-none i (x ∷ xs) h = ground arith

-- A rule without an option of the question leaves nothing to choose if it asks for one, and forbids
-- nothing otherwise.
none_valid :
    (rule : AnswerRule) (i n : ℕ)
    → i < n
    → has_none (resolve_valid_rule_indices rule n) ≡ true
    → allows rule i ≡ not (must_select rule)
unfolding resolve_valid_rule_indices
none_valid rule i n h e = ground (
  arith,
  contains-valid i n rule.target_option_indices h,
  contains-none i (filterb (λ idx. ltb idx n) rule.target_option_indices),
)

none_left :
    (rule : AnswerRule) (n k : ℕ) (ws : List ℕ)
    → k + length ws ≡ n
    → has_none (resolve_valid_rule_indices rule n) ≡ true
    → must_select rule ≡ true
    → leaves_some rule k ws ≡ false
none_left rule n k [] h e m = refl
none_left rule n k (w ∷ ws) h e m =
    let rest = none_left rule n (suc k) ws (omega arith) e m in
    let closed = none_valid rule k n (omega arith) e in rw (closed, m) (ground (arith, rest))

ignored :
    (rule : AnswerRule) (i : ℕ) (ws : List ℕ)
    → i < length ws
    → has_none (resolve_valid_rule_indices rule (length ws)) ≡ true
    → (leaves_some rule 0 ws && not (allows rule i)) ≡ false
ignored rule i ws h e = elim (Bool-cases (must_select rule)) [
  | inl m ↦ rw (none_left rule (length ws) 0 ws (omega arith) e m) refl
  | inr m ↦ rw (none_valid rule i (length ws) h e, m) (ground arith)
]

-- What a rule makes of the weight of an option.
apply_rule_weight :
    (base : List ℕ) (rule : AnswerRule) (i w : ℕ)
    → get_elem? base i ≡ some w
    → get_elem? (apply_rule base rule) i
      ≡ some (if leaves_some rule 0 base && not (allows rule i) then 0 else w)
unfolding apply_rule
apply_rule_weight [] rule i w h = ground arith
apply_rule_weight (x ∷ xs) rule i w h =
    let n = length (x ∷ xs) in
    let valid = resolve_valid_rule_indices rule n in
    let below = below_of (x ∷ xs) i w h in
    let adjusted =
      adjusted_at (must_select rule) valid i (x ∷ xs) w (allows rule i) h
        (is_left-allows rule i n below) in
    let positive = sum-adjusted rule n 0 (x ∷ xs) (omega arith) in
    elim (Bool-cases (has_none valid)) [
      | inl e ↦ rw (e, ignored rule i (x ∷ xs) below e) h
      | inr e ↦ elim (Bool-cases (leaves_some rule 0 (x ∷ xs))) [
        | inl some_left ↦ rw (e, positive, some_left) (ground (arith, adjusted))
        | inr none_left ↦ rw (e, positive, none_left) h
      ]
    ]

length-adjusted :
    (must : Bool) (valid : List ℕ) (k : ℕ) (ws : List ℕ)
    → length (adjusted_from must valid k ws) ≡ length ws
unfolding adjusted_from
length-adjusted must valid k [] = refl
length-adjusted must valid k (x ∷ ws) = omega (arith, length-adjusted must valid (suc k) ws)

length-apply_rule :
    (base : List ℕ) (rule : AnswerRule) → length (apply_rule base rule) ≡ length base
unfolding apply_rule
length-apply_rule [] rule = refl
length-apply_rule (x ∷ xs) rule = ground (
  arith,
  length-adjusted (must_select rule) (resolve_valid_rule_indices rule (length (x ∷ xs))) 0 (x ∷ xs),
)

fall_back :
    (refuse : Bool) (base adjusted : List ℕ)
    → 0 < sum base
    → 0 < sum (if refuse then base else if leb (sum adjusted) 0 then base else adjusted)
fall_back refuse base adjusted h = ground arith

sum-apply_rule : (base : List ℕ) (rule : AnswerRule) → 0 < sum base → 0 < sum (apply_rule base rule)
unfolding apply_rule
sum-apply_rule [] rule h = h
sum-apply_rule (x ∷ xs) rule h =
    let valid = resolve_valid_rule_indices rule (length (x ∷ xs)) in
    fall_back (has_none valid) (x ∷ xs) (adjusted_from (must_select rule) valid 0 (x ∷ xs)) h

apply_picked_keeps :
    (base : List ℕ) (picked : Option AnswerRule)
    → 0 < sum base
    → (length (apply_picked base picked) ≡ length base) × (0 < sum (apply_picked base picked))
unfolding apply_picked
apply_picked_keeps base none h = (refl, h)
apply_picked_keeps base (some rule) h = (length-apply_rule base rule, sum-apply_rule base rule h)

-- The rules of a run never take every option of a question, or of a row of a matrix question, away:
-- where some given weight is positive, some weight stays positive, and there are as many weights as
-- were given.
pub consistency_leaves_choice :
    (rules : List AnswerRule) (answered : Dict ℕ AnsweredQuestion) (probabilities : List (Option ℤ))
    (question_number row_index : ℕ)
    → 0 < sum (sanitize_probabilities probabilities)
    → ((length (apply_single_like_consistency rules answered probabilities question_number)
          ≡ length (sanitize_probabilities probabilities))
        × (0 < sum (apply_single_like_consistency rules answered probabilities question_number)))
      × ((length
              (apply_matrix_row_consistency rules answered probabilities question_number row_index)
            ≡ length (sanitize_probabilities probabilities))
          × (0
              < sum (
                  apply_matrix_row_consistency rules answered probabilities question_number
                    row_index)))
unfolding apply_single_like_consistency apply_matrix_row_consistency
consistency_leaves_choice rules answered probabilities q row h =
    let base = sanitize_probabilities probabilities in
    (
      apply_picked_keeps base (pick_latest_triggered_rule rules answered q none) h,
      apply_picked_keeps base (pick_latest_triggered_rule rules answered q (some row)) h,
    )

-- Where a rule decides about a question, each option that the rule does not allow (all but the rule's
-- options where one of these must be chosen, and the rule's options otherwise) has weight 0 in the
-- answer and every other option has its given weight, if some option that the rule allows has a
-- positive weight; if none has, every option has its given weight.
pub single_like_obeys :
    (rules : List AnswerRule) (answered : Dict ℕ AnsweredQuestion) (probabilities : List (Option ℤ))
    (question_number : ℕ) (rule : AnswerRule) (i w : ℕ)
    → pick_latest_triggered_rule rules answered question_number none ≡ some rule
    → get_elem? (sanitize_probabilities probabilities) i ≡ some w
    → get_elem? (apply_single_like_consistency rules answered probabilities question_number) i
      ≡ some (
          if leaves_some rule 0 (sanitize_probabilities probabilities) && not (allows rule i)
          then 0
          else w)
unfolding apply_single_like_consistency apply_picked
single_like_obeys rules answered probabilities q rule i w picked h =
    rw picked (apply_rule_weight (sanitize_probabilities probabilities) rule i w h)

valid_below :
    (i n : ℕ) (targets : List ℕ)
    → contains i (filterb (λ idx. ltb idx n) targets) ≡ true
    → (i < n) × (contains i targets ≡ true)
valid_below i n [] h = ground arith
valid_below i n (x ∷ targets) h = elim (Bool-cases (ltb x n)) [
  | inl e ↦ ground (arith, nat_beq_iff x i, valid_below i n targets, h)
  | inr e ↦ ground (arith, nat_beq_iff x i, valid_below i n targets, h)
]

-- The two lists of a constraint: one is empty, and the other is that of the valid options.
one_sided :
    (refuse must : Bool) (valid : List ℕ) (id : Text) (i : ℕ)
    → (contains i (constraint_with refuse must valid id).0
        || contains i (constraint_with refuse must valid id).1)
      ≡ true
    → (contains i valid ≡ true)
      × ((contains i (constraint_with refuse must valid id).0
            && contains i (constraint_with refuse must valid id).1)
          ≡ false)
unfolding constraint_with
one_sided true must valid id i h = ground arith
one_sided false true valid id i h = ground arith
one_sided false false valid id i h = ground arith

constraint_of_consistent :
    (picked : Option AnswerRule) (option_count idx : ℕ)
    → (contains idx (constraint_of picked option_count).0
        || contains idx (constraint_of picked option_count).1)
      ≡ true
    → (idx < option_count)
      × ((contains idx (constraint_of picked option_count).0
            && contains idx (constraint_of picked option_count).1)
          ≡ false)
unfolding constraint_of resolve_valid_rule_indices
constraint_of_consistent none n i h = ground arith
constraint_of_consistent (some rule) n i h =
    let valid = resolve_valid_rule_indices rule n in
    let (member, apart) = one_sided (has_none valid) (must_select rule) valid rule.id i h in
    ((valid_below i n rule.target_option_indices member).0, apart)

-- An option that the constraint on a question with several answers asks for or forbids is an option of
-- the question, and is not both asked for and forbidden.
pub multiple_constraint_consistent :
    (rules : List AnswerRule) (answered : Dict ℕ AnsweredQuestion)
    (question_number option_count idx : ℕ)
    → (contains idx (get_multiple_rule_constraint rules answered question_number option_count).0
        || contains idx
            (get_multiple_rule_constraint rules answered question_number option_count).1)
      ≡ true
    → (idx < option_count)
      × ((contains idx (get_multiple_rule_constraint rules answered question_number option_count).0
            && contains idx
                (get_multiple_rule_constraint rules answered question_number option_count).1)
          ≡ false)
unfolding get_multiple_rule_constraint
multiple_constraint_consistent rules answered q n i h =
    constraint_of_consistent (pick_latest_triggered_rule rules answered q none) n i h

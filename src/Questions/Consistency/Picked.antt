-- ===== src/Questions/Consistency/Picked.antt =====
-- Which rule decides about a question: the last of those that are triggered.
use survey_controller.Common.{
  ℕ, ◌<◌, ◌≡◌, refl, Bool, true, false, ◌&&◌, Option, none, some, List, [], ◌∷◌, ◌++◌, reverse,
  nat_beq, nat_eq, Option-cases, if◌then◌else◌, arith, Bool-cases, inl, inr, sym, ◌∙◌,
}
use mathlib.Core.List.{reverse-cons}
use survey_controller.Common.Dict.{Dict, lookup}
use survey_controller.Questions.Rules.{AnswerRule}
use survey_controller.Questions.Consistency.{AnsweredQuestion, is_rule_triggered, condition_holds}

abbrev pub same_row : Option ℕ → Option ℕ → Bool
same_row none none = true
same_row (some a) (some b) = nat_beq a b
same_row _ _ = false

-- The three tests that a rule passes in the loop of `_pick_latest_triggered_rule`.
unfoldable pub decides : Dict ℕ AnsweredQuestion → ℕ → Option ℕ → AnswerRule → Bool
unfolding is_rule_triggered
decides answered question_number row_index rule =
    nat_beq rule.target_question_num question_number
    && same_row rule.target_row_index row_index
    && is_rule_triggered answered rule

unfoldable pub pick_from :
    Dict ℕ AnsweredQuestion → ℕ → Option ℕ → Option AnswerRule → List AnswerRule → Option AnswerRule
unfolding decides
pick_from answered question_number row_index selected_rule [] = selected_rule
pick_from answered question_number row_index selected_rule (rule ∷ rules) =
    pick_from answered question_number row_index
      (if decides answered question_number row_index rule then some rule else selected_rule) rules

unfoldable pub pick_latest_triggered_rule :
    List AnswerRule → Dict ℕ AnsweredQuestion → ℕ → Option ℕ → Option AnswerRule
unfolding pick_from
pick_latest_triggered_rule rules answered question_number row_index =
    pick_from answered question_number row_index none rules

-- A reference: the first entry with a property.
unfoldable pub find {ℓ} : {A : Type ℓ} → (A → Bool) → List A → Option A
find p [] = none
find p (x ∷ xs) = let rest = find p xs in if p x then some x else rest

abbrev or_other {ℓ} : {A : Type ℓ} → Option A → Option A → Option A
or_other none other = other
or_other (some x) other = some x

find-append {ℓ} :
    {A : Type ℓ} (p : A → Bool) (xs ys : List A)
    → find p (xs ++ ys) ≡ or_other (find p xs) (find p ys)
unfolding find
find-append p [] ys = refl
find-append p (x ∷ xs) ys = ground (arith, find-append p xs ys)

find_one {ℓ} :
    {A : Type ℓ} (p : A → Bool) (x : A) → find p (x ∷ []) ≡ (if p x then some x else none)
unfolding find
find_one p x = refl

pick_from-find :
    (answered : Dict ℕ AnsweredQuestion) (q : ℕ) (row : Option ℕ) (selected : Option AnswerRule)
    (rules : List AnswerRule)
    → pick_from answered q row selected rules
      ≡ or_other (find (decides answered q row) (reverse rules)) selected
unfolding pick_from find
pick_from-find answered q row selected [] = refl
pick_from-find answered q row selected (rule ∷ rules) =
    let p = decides answered q row in
    rw (reverse-cons rule rules, find-append p (reverse rules) (rule ∷ []), find_one p rule)
      (ground (arith, pick_from-find answered q row (if p rule then some rule else selected) rules))

-- The loop over the rules gives the first rule of the reversed list that decides about the question:
-- the rule that stands last among the triggered ones wins, and without such a rule there is none.
pub pick_latest-find :
    (rules : List AnswerRule) (answered : Dict ℕ AnsweredQuestion) (question_number : ℕ)
    (row_index : Option ℕ)
    → pick_latest_triggered_rule rules answered question_number row_index
      ≡ find (decides answered question_number row_index) (reverse rules)
unfolding pick_latest_triggered_rule find
pick_latest-find rules answered question_number row_index =
    ground (arith, pick_from-find answered question_number row_index none rules)

find_holds {ℓ} : {A : Type ℓ} (p : A → Bool) (xs : List A) (x : A) → find p xs ≡ some x → p x ≡ true
unfolding find
find_holds p [] x h = ground arith
find_holds p (y ∷ xs) x h = elim (Bool-cases (p y)) [
  | inl e ↦ ground (arith, h)
  | inr e ↦ find_holds p xs x (ground arith)
]

decides_before :
    (answered : Dict ℕ AnsweredQuestion) (q : ℕ) (row : Option ℕ) (rule : AnswerRule)
    → decides answered q row rule ≡ true
    → (rule.target_question_num ≡ q)
      × (rule.condition_question_num < q)
      × ((given : AnsweredQuestion) × (lookup rule.condition_question_num answered ≡ some given)
          × (condition_holds rule given ≡ true))
unfolding decides is_rule_triggered
decides_before answered q row rule h =
    elim (Option-cases (lookup rule.condition_question_num answered)) [
      | inl e ↦ absurd (ground arith)
      | inr (given, e) ↦ (ground arith, ground arith, (given, e, ground arith))
    ]

-- The rule that decides about a question is about it, its condition is about an earlier question that
-- was answered, and the answer that was given there meets the condition.
pub pick_latest_triggered :
    (rules : List AnswerRule) (answered : Dict ℕ AnsweredQuestion) (question_number : ℕ)
    (row_index : Option ℕ) (rule : AnswerRule)
    → pick_latest_triggered_rule rules answered question_number row_index ≡ some rule
    → (rule.target_question_num ≡ question_number)
      × (rule.condition_question_num < question_number)
      × ((given : AnsweredQuestion) × (lookup rule.condition_question_num answered ≡ some given)
          × (condition_holds rule given ≡ true))
pick_latest_triggered rules answered q row rule h = decides_before answered q row rule (
    find_holds (decides answered q row) (reverse rules) rule
      (sym (pick_latest-find rules answered q row) ∙ h))

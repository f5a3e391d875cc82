-- ===== src/Questions/Consistency/Kept.antt =====
-- Which rules a run keeps.
use survey_controller.Common.{
  ℕ, ◌+◌, ◌≡◌, refl, inl, inr, false, Option, List, [], ◌∷◌, All, length, arith, Option-cases,
  Bool-cases,
}
use survey_controller.Common.Dict.{Dict}
use survey_controller.Questions.Rules.{AnswerRule, RawRule, normalize_rule_dict}
use survey_controller.Questions.Rules.Normal.{
  IsNormal, normalize_rule_dict-IsNormal, normalize_rule_dict-as_raw,
}
use survey_controller.Questions.Consistency.{
  SurveyQuestionMeta, is_unsupported, sanitize_rules, sanitize_answer_rules, parsed_rules,
  reset_consistency_context, build_question_info_map,
}

sanitize_rules-IsNormal :
    (m : Dict ℕ SurveyQuestionMeta) (items : List (Option RawRule))
    → All (λ rule. IsNormal rule × (is_unsupported m rule ≡ false)) (sanitize_rules m items).0
unfolding sanitize_rules
sanitize_rules-IsNormal m [] = tt
sanitize_rules-IsNormal m (item ∷ items) = elim (Option-cases (normalize_rule_dict item)) [
  | inl e ↦ rw (sanitize_rules, e) (sanitize_rules-IsNormal m items)
  | inr (rule, e) ↦ elim (Bool-cases (is_unsupported m rule)) [
    | inl f ↦ rw (sanitize_rules, e, f) (sanitize_rules-IsNormal m items)
    | inr f ↦
        rw (sanitize_rules, e, f)
          ((normalize_rule_dict-IsNormal item rule e, f), sanitize_rules-IsNormal m items)
  ]
]

parsed_rules_normal :
    (rules : List AnswerRule) → All (λ rule. IsNormal rule) rules → parsed_rules rules ≡ rules
unfolding parsed_rules
parsed_rules_normal [] h = refl
parsed_rules_normal (rule ∷ rules) h =
    rw (parsed_rules, normalize_rule_dict-as_raw rule h.0, parsed_rules_normal rules h.1) refl

all-IsNormal :
    (m : Dict ℕ SurveyQuestionMeta) (rules : List AnswerRule)
    → All (λ rule. IsNormal rule × (is_unsupported m rule ≡ false)) rules
    → All (λ rule. IsNormal rule) rules
all-IsNormal m [] h = tt
all-IsNormal m (rule ∷ rules) h = (h.0.0, all-IsNormal m rules h.1)

-- A thread goes by exactly the rules that sanitizing the settings gives: normalising each of them
-- once more drops none and changes none.
pub reset-sanitize :
    (answer_rules : List (Option RawRule)) (questions_info : List (Option SurveyQuestionMeta))
    → reset_consistency_context answer_rules questions_info
      ≡ (sanitize_answer_rules answer_rules questions_info).0
unfolding reset_consistency_context sanitize_answer_rules
reset-sanitize answer_rules questions_info =
    let m = build_question_info_map questions_info [] in
    parsed_rules_normal (sanitize_rules m answer_rules).0
      (all-IsNormal m (sanitize_rules m answer_rules).0 (sanitize_rules-IsNormal m answer_rules))

-- Every rule of the settings is kept, or counted as invalid, or counted as unsupported, one of them.
pub sanitize_rules_total :
    (m : Dict ℕ SurveyQuestionMeta) (items : List (Option RawRule))
    → length (sanitize_rules m items).0
        + (sanitize_rules m items).1.invalid
        + (sanitize_rules m items).1.unsupported
      ≡ length items
unfolding sanitize_rules
sanitize_rules_total m [] = refl
sanitize_rules_total m (item ∷ items) = ground (arith, sanitize_rules_total m items)

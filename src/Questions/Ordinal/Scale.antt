-- ===== src/Questions/Ordinal/Scale.antt =====
-- The scores of a scale: each number below the number of options once.
use survey_controller.Common.{
  ℕ, zero, suc, ◌+◌, ◌-◌, ◌≤◌, ◌≡◌, refl, sym, ap, ◌∙◌, subst, true, ◌&&◌, Option, none, some, List,
  [], ◌∷◌, Text, length, count, ltb, leb, if◌then◌else◌, nat_eq, nat_beq_iff, arith, filterb, map,
}
use survey_controller.Questions.Rules.{sorted, insert_sorted}
use survey_controller.Questions.Ordinal.{
  OptionReader, counts_up, smallest, score_numbers, range_from, same_numbers, accepted, score_texts,
  has_text, infer_ordinal_option_mapping,
}

same_numbers_equal : (xs ys : List ℕ) → same_numbers xs ys ≡ true → xs ≡ ys
unfolding same_numbers
same_numbers_equal [] [] h = refl
same_numbers_equal [] (y ∷ ys) h = ground arith
same_numbers_equal (x ∷ xs) [] h = ground arith
same_numbers_equal (x ∷ xs) (y ∷ ys) h = ground (arith, nat_beq_iff x y, same_numbers_equal xs ys)

count-insert_sorted : (a b : ℕ) (xs : List ℕ) → count a (insert_sorted b xs) ≡ count a (b ∷ xs)
unfolding insert_sorted
count-insert_sorted a b [] = refl
count-insert_sorted a b (x ∷ xs) = ground (arith, count-insert_sorted a b xs)

count-sorted : (a : ℕ) (xs : List ℕ) → count a (sorted xs) ≡ count a xs
unfolding sorted
count-sorted a [] = refl
count-sorted a (x ∷ xs) = ground (arith, count-insert_sorted a x (sorted xs), count-sorted a xs)

count-range_from :
    (a v n : ℕ) → count a (range_from v n) ≡ (if leb v a && ltb a (v + n) then 1 else 0)
unfolding range_from
count-range_from a v zero = ground arith
count-range_from a v (suc n) = ground (arith, count-range_from a (suc v) n, nat_beq_iff v a)

accepted_scores :
    (texts : List Text) (made : Option (List ℕ)) (scores : List ℕ)
    → accepted texts made ≡ some scores
    → (length scores ≡ length texts) × (sorted scores ≡ range_from 0 (length texts))
unfolding accepted
accepted_scores texts none scores h = ground arith
accepted_scores texts (some made) scores h =
    let same : made ≡ scores = ground arith in
    let sizes : length made ≡ length texts =
      ground (arith, nat_beq_iff (length made) (length texts)) in
    let passed : same_numbers (sorted made) (range_from 0 (length texts)) ≡ true = ground arith in
    let ordered = same_numbers_equal (sorted made) (range_from 0 (length texts)) passed in
    (
      subst (λ xs. length xs ≡ length texts) same sizes,
      subst (λ xs. sorted xs ≡ range_from 0 (length texts)) same ordered,
    )

-- The scores that are inferred for the texts of a question's options are a scale: at least two, as many
-- as there are texts that are not empty, and each number below that many is the score of exactly one
-- option.
pub inferred_scale :
    (reader : OptionReader) (option_texts : List Text) (scores : List ℕ)
    → infer_ordinal_option_mapping reader option_texts ≡ some scores
    → (2 ≤ length scores)
      × (length scores ≡ length (filterb has_text (map reader.normalize_option_text option_texts)))
      × ((score : ℕ) → count score scores ≡ (if ltb score (length scores) then 1 else 0))
unfolding infer_ordinal_option_mapping
inferred_scale reader option_texts scores h =
    let texts = filterb has_text (map reader.normalize_option_text option_texts) in
    let (sizes, ordered) = accepted_scores texts (score_texts reader texts) scores (ground arith) in
    let enough : 2 ≤ length texts = ground arith in
    (
      omega (arith, sizes, enough),
      sizes,
      λ score.
          sym (count-sorted score scores)
          ∙ ap (λ xs. count score xs) ordered
          ∙ count-range_from score 0 (length texts)
          ∙ ground (arith, sizes),
    )

counts_up-range_from : (v n : ℕ) → counts_up v (range_from v n) ≡ true
unfolding counts_up range_from
counts_up-range_from v zero = refl
counts_up-range_from v (suc n) = ground (arith, counts_up-range_from (suc v) n, nat_beq_iff v v)

smallest-range_from : (a v n : ℕ) → a ≤ v → smallest a (range_from v n) ≡ a
unfolding smallest range_from
smallest-range_from a v zero h = refl
smallest-range_from a v (suc n) h = ground (arith, smallest-range_from a (suc v) n)

map_less : (v k n : ℕ) → map (λ value. value - v) (range_from (v + k) n) ≡ range_from k n
unfolding range_from
map_less v k zero = refl
map_less v k (suc n) =
    let next : suc (v + k) ≡ v + suc k = omega arith in
    let first : v + k - v ≡ k = omega arith in rw (first, next, map_less v (suc k) n) refl

score_up :
    (a b : ℕ) (xs : List ℕ)
    → counts_up a (a ∷ b ∷ xs) ≡ true
    → smallest a (b ∷ xs) ≡ a
    → score_numbers (a ∷ b ∷ xs) ≡ some (map (λ value. value - a) (a ∷ b ∷ xs))
unfolding score_numbers
score_up a b xs up small = rw up (ap (λ low. some (map (λ value. value - low) (a ∷ b ∷ xs))) small)

-- Numbers that go up by one, two of them at least, are scored from 0 in their order, whatever the first.
pub score_numbers-range_from :
    (v n : ℕ) → score_numbers (range_from v (suc (suc n))) ≡ some (range_from 0 (suc (suc n)))
unfolding range_from
score_numbers-range_from v n =
    let start : v + 0 ≡ v = omega arith in
    let scored =
      score_up v (suc v) (range_from (suc (suc v)) n) (counts_up-range_from v (suc (suc n)))
        (smallest-range_from v (suc v) (suc n) (omega arith)) in
    scored
    ∙ ap some (
        subst
          (λ w. map (λ value. value - v) (range_from w (suc (suc n))) ≡ range_from 0 (suc (suc n)))
          start (map_less v 0 (suc (suc n))))

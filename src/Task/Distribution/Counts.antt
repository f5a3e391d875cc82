-- ===== src/Task/Distribution/Counts.antt =====
-- Entries and sums of the counts.
use survey_controller.Common.{
  ℕ, zero, suc, ◌<◌, ◌≡◌, List, [], ◌∷◌, length, sum, nat_beq, if◌then◌else◌, refl, arith,
}
use survey_controller.Task.Distribution.{normalize_counts, bump}

-- The entry at a position; 0 past the end.
abbrev pub entry : ℕ → List ℕ → ℕ
entry i [] = 0
entry zero (c ∷ counts) = c
entry (suc i) (c ∷ counts) = entry i counts

pub length-normalize_counts : (raw : List ℕ) (n : ℕ) → length (normalize_counts raw n) ≡ n
unfolding normalize_counts
length-normalize_counts raw zero = refl
length-normalize_counts [] (suc n) = omega (arith, length-normalize_counts [] n)
length-normalize_counts (c ∷ raw) (suc n) = omega (arith, length-normalize_counts raw n)

pub entry-normalize_counts :
    (i : ℕ) (raw : List ℕ) (n : ℕ) → i < n → entry i (normalize_counts raw n) ≡ entry i raw
unfolding normalize_counts
entry-normalize_counts i raw zero h = absurd (omega arith)
entry-normalize_counts zero [] (suc n) h = refl
entry-normalize_counts (suc i) [] (suc n) h = entry-normalize_counts i [] n (omega arith)
entry-normalize_counts zero (c ∷ raw) (suc n) h = refl
entry-normalize_counts (suc i) (c ∷ raw) (suc n) h = entry-normalize_counts i raw n (omega arith)

pub length-bump : (counts : List ℕ) (i : ℕ) → length (bump counts i) ≡ length counts
unfolding bump
length-bump [] i = refl
length-bump (c ∷ counts) zero = refl
length-bump (c ∷ counts) (suc i) = omega (arith, length-bump counts i)

pub entry-bump :
    (i j : ℕ) (counts : List ℕ)
    → j < length counts
    → entry i (bump counts j) ≡ (if nat_beq j i then suc (entry i counts) else entry i counts)
unfolding bump
entry-bump i j [] h = absurd (omega arith)
entry-bump zero zero (c ∷ counts) h = refl
entry-bump (suc i) zero (c ∷ counts) h = ground arith
entry-bump zero (suc j) (c ∷ counts) h = ground arith
entry-bump (suc i) (suc j) (c ∷ counts) h = ground (arith, entry-bump i j counts)

pub sum-bump :
    (counts : List ℕ) (j : ℕ) → j < length counts → sum (bump counts j) ≡ suc (sum counts)
unfolding bump
sum-bump [] j h = absurd (omega arith)
sum-bump (c ∷ counts) zero h = omega arith
sum-bump (c ∷ counts) (suc j) h = omega (arith, sum-bump counts j)

-- Counts of the right length stay as they are.
pub normalize_counts-same :
    (counts : List ℕ) (n : ℕ) → length counts ≡ n → normalize_counts counts n ≡ counts
unfolding normalize_counts
normalize_counts-same [] zero h = refl
normalize_counts-same (c ∷ counts) zero h = absurd (omega arith)
normalize_counts-same [] (suc n) h = absurd (omega arith)
normalize_counts-same (c ∷ counts) (suc n) h = ground (arith, normalize_counts-same counts n)

pub sum-normalize_nil : (n : ℕ) → sum (normalize_counts [] n) ≡ 0
unfolding normalize_counts
sum-normalize_nil zero = refl
sum-normalize_nil (suc n) = omega (arith, sum-normalize_nil n)

-- ===== src/Questions/Rules/Sorting.antt =====
-- The lists of option indices that `_to_int_list` makes: increasing, with the numbers of the given
-- list in them, and the same list again when it is given to it.
use survey_controller.Common.{
  ℕ, ◌<◌, ◌≡◌, refl, inl, inr, ℤ, pos, negsuc, true, false, Option, none, some, List, [], ◌∷◌, All,
  contains, leb, if◌then◌else◌, nat_eq, nat_beq_iff, arith, Bool-cases, ◌==◌,
}
use survey_controller.Questions.Rules.{
  new_indices, insert_sorted, sorted, to_int_list, to_index, as_values,
}

abbrev pub IsIncreasing : List ℕ → Type 0
IsIncreasing [] = Unit
IsIncreasing (a ∷ xs) = All (λ b. a < b) xs × IsIncreasing xs

abbrev pub IsDistinct : List ℕ → Type 0
IsDistinct [] = Unit
IsDistinct (a ∷ xs) = (contains a xs ≡ false) × IsDistinct xs

below_all : (a b : ℕ) (xs : List ℕ) → a < b → All (λ c. b < c) xs → All (λ c. a < c) xs
below_all a b [] h k = tt
below_all a b (x ∷ xs) h k = (omega (arith, k.0), below_all a b xs h k.1)

below_insert :
    (a b : ℕ) (xs : List ℕ) → a < b → All (λ c. a < c) xs → All (λ c. a < c) (insert_sorted b xs)
unfolding insert_sorted
below_insert a b [] h k = (h, tt)
below_insert a b (x ∷ xs) h k = elim (Bool-cases (leb b x)) [
  | inl e ↦ rw e (h, k)
  | inr e ↦ rw e (k.0, below_insert a b xs h k.1)
]

insert_sorted-IsIncreasing :
    (b : ℕ) (xs : List ℕ)
    → contains b xs ≡ false
    → IsIncreasing xs
    → IsIncreasing (insert_sorted b xs)
unfolding insert_sorted
insert_sorted-IsIncreasing b [] n k = (tt, tt)
insert_sorted-IsIncreasing b (x ∷ xs) n k = elim (Bool-cases (leb b x)) [
  | inl e ↦
      let lt : b < x = ground (arith, nat_beq_iff x b) in rw e ((lt, below_all b x xs lt k.0), k)
  | inr e ↦
      let lt : x < b = ground arith in
      let absent : contains b xs ≡ false = ground (arith, nat_beq_iff x b) in
      rw e (below_insert x b xs lt k.0, insert_sorted-IsIncreasing b xs absent k.1)
]

contains-insert_sorted :
    (a b : ℕ) (xs : List ℕ)
    → contains a (insert_sorted b xs) ≡ (if b == a then true else contains a xs)
unfolding insert_sorted
contains-insert_sorted a b [] = refl
contains-insert_sorted a b (x ∷ xs) = ground (arith, contains-insert_sorted a b xs)

pub contains-sorted : (a : ℕ) (xs : List ℕ) → contains a (sorted xs) ≡ contains a xs
unfolding sorted
contains-sorted a [] = refl
contains-sorted a (x ∷ xs) =
    ground (arith, contains-insert_sorted a x (sorted xs), contains-sorted a xs)

sorted-IsIncreasing : (xs : List ℕ) → IsDistinct xs → IsIncreasing (sorted xs)
unfolding sorted
sorted-IsIncreasing [] d = tt
sorted-IsIncreasing (x ∷ xs) d =
    insert_sorted-IsIncreasing x (sorted xs) (rw (contains-sorted x xs) d.0)
      (sorted-IsIncreasing xs d.1)

-- A number that was seen is not taken again.
new_indices_seen :
    (a : ℕ) (seen : List ℕ) (values : List (Option ℤ))
    → contains a seen ≡ true
    → contains a (new_indices seen values) ≡ false
unfolding new_indices to_index
new_indices_seen a seen [] h = refl
new_indices_seen a seen (none ∷ values) h = new_indices_seen a seen values h
new_indices_seen a seen (some (negsuc n) ∷ values) h = new_indices_seen a seen values h
new_indices_seen a seen (some (pos n) ∷ values) h = elim (Bool-cases (contains n seen)) [
  | inl e ↦ rw e (new_indices_seen a seen values h)
  | inr e ↦ rw e (ground (arith, nat_beq_iff n a, new_indices_seen a (n ∷ seen) values))
]

new_indices-IsDistinct :
    (seen : List ℕ) (values : List (Option ℤ)) → IsDistinct (new_indices seen values)
unfolding new_indices to_index
new_indices-IsDistinct seen [] = tt
new_indices-IsDistinct seen (none ∷ values) = new_indices-IsDistinct seen values
new_indices-IsDistinct seen (some (negsuc n) ∷ values) = new_indices-IsDistinct seen values
new_indices-IsDistinct seen (some (pos n) ∷ values) = elim (Bool-cases (contains n seen)) [
  | inl e ↦ rw e (new_indices-IsDistinct seen values)
  | inr e ↦ rw e (
    new_indices_seen n (n ∷ seen) values (ground (arith, nat_beq_iff n n)),
    new_indices-IsDistinct (n ∷ seen) values,
  )
]

pub to_int_list-IsIncreasing :
    (values : Option (List (Option ℤ))) → IsIncreasing (to_int_list values)
unfolding to_int_list
to_int_list-IsIncreasing none = tt
to_int_list-IsIncreasing (some values) =
    sorted-IsIncreasing (new_indices [] values) (new_indices-IsDistinct [] values)

absent_below : (a : ℕ) (xs : List ℕ) → All (λ b. a < b) xs → contains a xs ≡ false
absent_below a [] h = refl
absent_below a (x ∷ xs) h = ground (arith, nat_beq_iff x a, absent_below a xs h.1)

insert_sorted_below : (a : ℕ) (xs : List ℕ) → All (λ b. a < b) xs → insert_sorted a xs ≡ a ∷ xs
unfolding insert_sorted
insert_sorted_below a [] h = refl
insert_sorted_below a (x ∷ xs) h = ground (arith, h.0)

sorted_increasing : (xs : List ℕ) → IsIncreasing xs → sorted xs ≡ xs
unfolding sorted
sorted_increasing [] h = refl
sorted_increasing (x ∷ xs) h = rw (sorted_increasing xs h.1) (insert_sorted_below x xs h.0)

new_indices-as_values :
    (seen xs : List ℕ)
    → IsIncreasing xs
    → ((a : ℕ) → contains a seen ≡ true → contains a xs ≡ false)
    → new_indices seen (as_values xs) ≡ xs
unfolding new_indices to_index as_values
new_indices-as_values seen [] h apart = refl
new_indices-as_values seen (x ∷ xs) h apart = elim (Bool-cases (contains x seen)) [
  | inl e ↦ absurd (ground (arith, apart x e, nat_beq_iff x x))
  | inr e ↦
      rw
        (
          e,
          new_indices-as_values (x ∷ seen) xs h.1
              (λ a c. ground (arith, nat_beq_iff x a, apart a, absent_below x xs h.0)),
        )
        refl
]

pub to_int_list-as_values : (xs : List ℕ) → IsIncreasing xs → to_int_list (some (as_values xs)) ≡ xs
unfolding to_int_list
to_int_list-as_values xs h =
    rw (new_indices-as_values [] xs h (λ a c. ground (arith, c))) (sorted_increasing xs h)

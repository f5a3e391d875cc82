-- ===== src/Task/Prefill/Lookups.antt =====
-- What a thread finds after its answers were set.
use survey_controller.Common.{
  ℕ, suc, ◌≡◌, ◌∙◌, ap, refl, arith, ℤ, pos, clamp_0, false, not, ◌&&◌, Option, none, some, List,
  [], ◌∷◌, Text, is_nonpositive, if◌then◌else◌, nat_eq, text_eq, nat_beq, text_beq_iff,
}
use survey_controller.Common.Dict.{
  Dict, lookup, erase, HasUniqueKeys, lookup-insert, lookup-erase_self,
}
use survey_controller.Task.Defs.{ExecutionState}
use survey_controller.Task.Prefill.{
  stripped_answers, no_answers, normalized_prefill, set_free_ai_prefill_answers, store_or_drop,
  entries_of, unless_empty, get_free_ai_prefill_answer, clear_free_ai_prefill_answers,
  free_ai_thread_key,
}

-- The last answers for question `q` that are not all blank, stripped.
abbrev pub last_answers : ℕ → List (ℤ × List Text) → Option (List Text) → Option (List Text)
last_answers q [] found = found
last_answers q ((question_num, answers) ∷ rest) found = last_answers q rest (
    if not (is_nonpositive question_num)
      && nat_beq (clamp_0 question_num) q
      && not (no_answers (stripped_answers answers))
    then some (stripped_answers answers)
    else found)

lookup-normalized_prefill :
    (q : ℕ) (answers : List (ℤ × List Text)) (m : Dict ℕ (List Text))
    → lookup q (normalized_prefill answers m) ≡ last_answers q answers (lookup q m)
unfolding normalized_prefill
lookup-normalized_prefill q [] m = refl
lookup-normalized_prefill q ((n, xs) ∷ rest) m =
    lookup-normalized_prefill q rest _
    ∙ ap (last_answers q rest) (ground (arith, lookup-insert (clamp_0 n) q (stripped_answers xs) m))

entries-store_or_drop :
    (key : Text) (m : Dict ℕ (List Text)) (d : Dict Text (Dict ℕ (List Text)))
    → HasUniqueKeys d
    → entries_of key (store_or_drop key m d) ≡ m
entries-store_or_drop key [] d u = ground (arith, lookup-erase_self key d u)
entries-store_or_drop key (e ∷ m) d u =
    ground (arith, lookup-insert key key (e ∷ m) d, text_beq_iff key key)

unless_empty_of : (xs : List Text) → no_answers xs ≡ false → unless_empty (some xs) ≡ some xs
unless_empty_of [] h = ground arith
unless_empty_of (x ∷ xs) h = refl

never_empty :
    (q : ℕ) (answers : List (ℤ × List Text)) (found : Option (List Text))
    → unless_empty found ≡ found
    → unless_empty (last_answers q answers found) ≡ last_answers q answers found
never_empty q [] found h = h
never_empty q ((n, xs) ∷ rest) found h =
    never_empty q rest _ (ground (arith, unless_empty_of (stripped_answers xs), h))

cleared_entries :
    (key : Text) (d : Dict Text (Dict ℕ (List Text)))
    → HasUniqueKeys d
    → entries_of key (erase key d) ≡ []
cleared_entries key d u = ground (arith, lookup-erase_self key d u)

-- After answers were set for a thread, it finds for each question the last answers given for it that
-- are not all blank, stripped, and none if there are none, whatever was set before. After they were
-- cleared it finds none. No thread name stands twice in the table before.
pub set_then_get :
    (thread_name : Text) (q : ℕ) (answers : List (ℤ × List Text)) (s : ExecutionState)
    → HasUniqueKeys s.free_ai_prefill_by_thread
    → (get_free_ai_prefill_answer thread_name
          (pos (suc q))
          (set_free_ai_prefill_answers thread_name answers s)
        ≡ last_answers (suc q) answers none)
      × (get_free_ai_prefill_answer thread_name
            (pos (suc q))
            (clear_free_ai_prefill_answers thread_name s)
          ≡ none)
unfolding get_free_ai_prefill_answer set_free_ai_prefill_answers clear_free_ai_prefill_answers
    lookup
set_then_get thread_name q answers s u =
    let key = free_ai_thread_key thread_name in
    let m = normalized_prefill answers [] in
    (
      ap (λ d. unless_empty (lookup (suc q) d))
            (entries-store_or_drop key m s.free_ai_prefill_by_thread u)
          ∙ ap unless_empty (lookup-normalized_prefill (suc q) answers [])
          ∙ never_empty (suc q) answers none refl,
      ap (λ (d : Dict ℕ (List Text)). unless_empty (lookup (suc q) d))
          (cleared_entries key s.free_ai_prefill_by_thread u),
    )

-- ===== src/Questions/Guard/Nearest.antt =====
-- The guard gives the option with a positive weight that is nearest to the target.
use survey_controller.Common.{
  ℕ, zero, suc, ◌+◌, ◌<◌, ◌≡◌, refl, sym, ap, subst, inl, inr, ℤ, Bool, true, false, ◌&&◌, Option,
  some, List, [], ◌∷◌, All, get_elem?, contains, ltb, if◌then◌else◌, nat_eq, nat_beq_iff, pair_eq,
  pair_beq, ==_self, arith, Bool-cases,
}
use survey_controller.Common.Dict.{keys}
use survey_controller.Questions.Guard.{
  normalize_from, normalize_probabilities_for_zero_guard, positive_indices, is_better, best_from,
  clamp_index, nearest, anchored, enforce_zero_weight_guard,
}

-- No entry of the list is better than the one given.
abbrev pub IsBest : ℕ → ℕ × ℕ → List (ℕ × ℕ) → Type 0
IsBest target best entries = All (λ entry. is_better target entry best ≡ false) entries

better_irrefl : (target : ℕ) (a : ℕ × ℕ) → is_better target a a ≡ false
unfolding is_better
better_irrefl target (i, w) = ground arith

better_trans :
    (target : ℕ) (a b c : ℕ × ℕ)
    → is_better target a b ≡ false
    → is_better target b c ≡ false
    → is_better target a c ≡ false
unfolding is_better
better_trans target (i, w) (j, v) (k, u) h g = ground arith

better_asym :
    (target : ℕ) (a b : ℕ × ℕ) → is_better target a b ≡ true → is_better target b a ≡ false
unfolding is_better
better_asym target (i, w) (j, v) h = ground arith

step_better :
    (target : ℕ) (best e : ℕ × ℕ) (es : List (ℕ × ℕ)) (b : Bool)
    → is_better target e best ≡ b
    → best_from target (if b then e else best) es ≡ best_from target best (e ∷ es)
unfolding best_from
step_better target best e es b h = ap (λ c. best_from target (if c then e else best) es) (sym h)

best_from-IsBest :
    (target : ℕ) (best : ℕ × ℕ) (entries : List (ℕ × ℕ))
    → IsBest target (best_from target best entries) (best ∷ entries)
unfolding best_from
best_from-IsBest target best [] = (better_irrefl target best, tt)
best_from-IsBest target best (e ∷ es) = elim (Bool-cases (is_better target e best)) [
  | inl h ↦
      let rest = best_from-IsBest target e es in
      let final = best_from target e es in
      subst (λ b. IsBest target b (best ∷ e ∷ es)) (step_better target best e es true h)
        (better_trans target best e final (better_asym target e best h) rest.0, rest)
  | inr h ↦
      let rest = best_from-IsBest target best es in
      let final = best_from target best es in
      subst (λ b. IsBest target b (best ∷ e ∷ es)) (step_better target best e es false h)
        (rest.0, (better_trans target e best final h rest.0, rest.1))
]

best_from_member :
    (target : ℕ) (best : ℕ × ℕ) (entries : List (ℕ × ℕ))
    → contains (best_from target best entries) (best ∷ entries) ≡ true
unfolding best_from
best_from_member target best [] = ground (arith, ==_self best)
best_from_member target best (e ∷ es) =
    ground (arith, best_from_member target (if is_better target e best then e else best) es)

-- Where an entry stands in the list of positive options, and where not.
positive-contains :
    (k i : ℕ) (ws : List ℕ) (w : ℕ)
    → get_elem? ws i ≡ some w
    → 0 < w
    → contains (k + i) (keys (positive_indices k ws)) ≡ true
unfolding positive_indices
positive-contains k i [] w h p = ground arith
positive-contains k zero (x ∷ ws) w h p = ground (arith, nat_beq_iff k (k + 0))
positive-contains k (suc i) (x ∷ ws) w h p =
    let next : k + suc i ≡ suc k + i = omega arith in
    let rest = positive-contains (suc k) i ws w h p in
    rw next (ground (arith, rest, nat_beq_iff k (suc k + i)))

contains-positive :
    (k j v : ℕ) (ws : List ℕ)
    → contains (j, v) (positive_indices k ws) ≡ true
    → (i : ℕ) × (j ≡ k + i) × (get_elem? ws i ≡ some v) × (0 < v)
unfolding positive_indices
contains-positive k j v [] h = ground arith
contains-positive k j v (x ∷ ws) h = elim (Bool-cases (pair_beq (k, x) (j, v) && ltb 0 x)) [
  | inl e ↦ (0, ground arith, ground arith, ground arith)
  | inr e ↦
      let (i, at, got, p) = contains-positive (suc k) j v ws (ground (arith, h)) in
      (suc i, omega (arith, at), got, p)
]

nearest_entries :
    (target : ℕ) (entry : ℕ × ℕ) (entries : List (ℕ × ℕ)) (weights : List ℕ)
    → positive_indices 0 weights ≡ entry ∷ entries
    → (w : ℕ) × (get_elem? weights (best_from target entry entries).0 ≡ some w)
      × (0 < w)
      × IsBest target ((best_from target entry entries).0, w) (positive_indices 0 weights)
nearest_entries target entry entries weights e =
    let final = best_from target entry entries in
    let member =
      subst (λ es. contains final es ≡ true) (sym e) (best_from_member target entry entries) in
    let (i, at, got, p) = contains-positive 0 final.0 final.1 weights member in
    let here : i ≡ final.0 = omega (arith, at) in
    let best =
      subst (λ es. IsBest target final es) (sym e) (best_from-IsBest target entry entries) in
    (final.1, subst (λ k. get_elem? weights k ≡ some final.1) here got, p, best)

positive_above : (k j : ℕ) (ws : List ℕ) → j < k → contains j (keys (positive_indices k ws)) ≡ false
unfolding positive_indices
positive_above k j [] h = refl
positive_above k j (x ∷ ws) h = ground (arith, positive_above (suc k) j ws, nat_beq_iff k j)

absent_zero :
    (k i : ℕ) (ws : List ℕ)
    → get_elem? ws i ≡ some 0
    → contains (k + i) (keys (positive_indices k ws)) ≡ false
unfolding positive_indices
absent_zero k i [] h = ground arith
absent_zero k zero (x ∷ ws) h =
    let above = positive_above (suc k) (k + 0) ws (omega arith) in ground (arith, above)
absent_zero k (suc i) (x ∷ ws) h =
    let next : k + suc i ≡ suc k + i = omega arith in
    let rest = absent_zero (suc k) i ws h in
    rw next (ground (arith, rest, nat_beq_iff k (suc k + i)))

nearest_of :
    (selected target : ℕ) (weights : List ℕ) (i v : ℕ) (entries : List (ℕ × ℕ))
    → positive_indices 0 weights ≡ entries
    → get_elem? weights selected ≡ some 0
    → get_elem? weights i ≡ some v
    → 0 < v
    → (r : ℕ) × (w : ℕ) × (nearest selected target entries ≡ some r)
      × (get_elem? weights r ≡ some w)
      × (0 < w)
      × IsBest target (r, w) (positive_indices 0 weights)
unfolding nearest
nearest_of selected target weights i v [] e hs hi p =
    let some_positive =
      subst (λ es. contains (0 + i) (keys es) ≡ true) e (positive-contains 0 i weights v hi p) in
    ground (arith, some_positive)
nearest_of selected target weights i v (entry ∷ entries) e hs hi p =
    let (w, got, q, best) = nearest_entries target entry entries weights e in
    let zero_at : 0 + selected ≡ selected = omega arith in
    let absent =
      subst (λ es. contains (0 + selected) (keys es) ≡ false) e
        (absent_zero 0 selected weights hs) in
    let skipped : contains selected (keys (entry ∷ entries)) ≡ false =
      subst (λ m. contains m (keys (entry ∷ entries)) ≡ false) zero_at absent in
    let chosen = (best_from target entry entries).0 in
    (chosen, w, ap (λ c. if c then some selected else some chosen) skipped, got, q, best)

-- Where the chosen option has weight 0 and some option has a positive weight, the guard gives an option of
-- the question with a positive weight, and no option with a positive weight is nearer to the anchor (to
-- the chosen option, if there is no anchor), or as near and heavier, or as near, as heavy and earlier.
pub guard_nearest :
    (selected_index : ℤ) (n : ℕ) (values : List (Option ℤ)) (anchor_index : Option ℤ) (i v : ℕ)
    → get_elem? (normalize_from (suc n) values) (clamp_index (suc n) selected_index) ≡ some 0
    → get_elem? (normalize_from (suc n) values) i ≡ some v
    → 0 < v
    → (r : ℕ) × (w : ℕ) × (enforce_zero_weight_guard selected_index
          (suc n)
          (some values)
          anchor_index
        ≡ some r)
      × (get_elem? (normalize_from (suc n) values) r ≡ some w)
      × (0 < w)
      × All
          (λ entry.
            is_better
              (anchored (suc n) (clamp_index (suc n) selected_index) anchor_index)
              entry
              (r, w)
            ≡ false)
          (positive_indices 0 (normalize_from (suc n) values))
unfolding enforce_zero_weight_guard normalize_probabilities_for_zero_guard
guard_nearest selected_index n values anchor_index i v hs hi p =
    let selected = clamp_index (suc n) selected_index in
    nearest_of selected (anchored (suc n) selected anchor_index) (normalize_from (suc n) values) i v
      (positive_indices 0 (normalize_from (suc n) values)) refl hs hi p

nearest_kept :
    (selected target : ℕ) (entries : List (ℕ × ℕ))
    → contains selected (keys entries) ≡ true
    → nearest selected target entries ≡ some selected
unfolding nearest
nearest_kept selected target [] h = ground arith
nearest_kept selected target (entry ∷ entries) h =
    ap (λ c. if c then some selected else some (best_from target entry entries).0) h

-- An option with a positive weight passes the guard.
pub guard_keeps :
    (selected_index : ℤ) (n : ℕ) (values : List (Option ℤ)) (anchor_index : Option ℤ) (w : ℕ)
    → get_elem? (normalize_from (suc n) values) (clamp_index (suc n) selected_index) ≡ some w
    → 0 < w
    → enforce_zero_weight_guard selected_index (suc n) (some values) anchor_index
      ≡ some (clamp_index (suc n) selected_index)
unfolding enforce_zero_weight_guard normalize_probabilities_for_zero_guard
guard_keeps selected_index n values anchor_index w h p =
    let selected = clamp_index (suc n) selected_index in
    let weights = normalize_from (suc n) values in
    let start : 0 + selected ≡ selected = omega arith in
    nearest_kept selected (anchored (suc n) selected anchor_index) (positive_indices 0 weights) (
      subst (λ m. contains m (keys (positive_indices 0 weights)) ≡ true) start
        (positive-contains 0 selected weights w h p))

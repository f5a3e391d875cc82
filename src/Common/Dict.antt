-- ===== src/Common/Dict.antt =====
-- Python's dict: an association list in the order of insertion. An assignment to a key that is
-- there keeps its place; `pop` takes the entry out. The keys of a dict are distinct (`HasUniqueKeys`).
use Prim.Native.Nat.{suc, ◌+◌, ◌≤◌}
use mathlib.Core.Path.{◌≡◌, refl}
use mathlib.Core.Bool.{false}
use mathlib.Core.Option.{Option, none, some}
use mathlib.Core.List.{List, [], ◌∷◌}
use native.Mathlib.Omega.{arith}
use survey_controller.Common.Tests.{if◌then◌else◌}
use survey_controller.Common.Lists.{length}
use survey_controller.Common.Keys.{Key, ◌==◌, count}

abbrev pub Dict {ℓ κ} : Type ℓ → Type κ → Type (ℓ ⊔ κ)
Dict K V = List (K × V)

module _ {ℓ κ} {K : Type ℓ} {V : Type κ} where
  abbrev pub keys : Dict K V → List K
  keys [] = []
  keys ((k, v) ∷ m) = k ∷ keys m

  abbrev pub values : Dict K V → List V
  values [] = []
  values ((k, v) ∷ m) = v ∷ values m

module _ {ℓ κ} {K : Type ℓ} {V : Type κ} ⦃e : Key K⦄ where
  unfoldable pub lookup : K → Dict K V → Option V
  lookup k [] = none
  lookup k ((j, v) ∷ m) = if j == k then some v else lookup k m

  unfoldable pub erase : K → Dict K V → Dict K V
  erase k [] = []
  erase k ((j, w) ∷ m) = if j == k then m else (j, w) ∷ erase k m

  unfoldable pub insert : K → V → Dict K V → Dict K V
  insert k v [] = (k, v) ∷ []
  insert k v ((j, w) ∷ m) = if j == k then (j, v) ∷ m else (j, w) ∷ insert k v m

  abbrev pub HasUniqueKeys : Dict K V → Type κ
  HasUniqueKeys [] = Unit
  HasUniqueKeys ((k, v) ∷ m) = (lookup k m ≡ none) × HasUniqueKeys m

  pub lookup-insert :
      (key k : K) (value : V) (m : Dict K V)
      → lookup k (insert key value m) ≡ (if key == k then some value else lookup k m)
  unfolding insert lookup
  lookup-insert key k value [] = refl
  lookup-insert key k value ((j, v) ∷ m) =
      ground
        (arith, e.same_iff key k, e.same_iff j key, e.same_iff j k, lookup-insert key k value m)

  pub lookup-erase_other :
      (k j : K) (m : Dict K V) → (k == j) ≡ false → lookup j (erase k m) ≡ lookup j m
  unfolding lookup erase
  lookup-erase_other k j [] h = refl
  lookup-erase_other k j ((i, w) ∷ m) h =
      ground (arith, e.same_iff k j, e.same_iff i k, e.same_iff i j, lookup-erase_other k j m)

  pub lookup-erase_self : (k : K) (m : Dict K V) → HasUniqueKeys m → lookup k (erase k m) ≡ none
  unfolding lookup erase
  lookup-erase_self k [] u = refl
  lookup-erase_self k ((i, w) ∷ m) u = ground (arith, e.same_iff i k, lookup-erase_self k m)

  pub erase_absent : (k : K) (m : Dict K V) → lookup k m ≡ none → erase k m ≡ m
  unfolding lookup erase
  erase_absent k [] h = refl
  erase_absent k ((i, w) ∷ m) h = ground (arith, erase_absent k m)

  pub insert-HasUniqueKeys :
      (k : K) (v : V) (m : Dict K V) → HasUniqueKeys m → HasUniqueKeys (insert k v m)
  unfolding lookup insert
  insert-HasUniqueKeys k v [] u = (refl, tt)
  insert-HasUniqueKeys k v ((i, w) ∷ m) u =
      ground (
        arith,
        e.same_iff i k,
        e.same_iff k i,
        lookup-insert k i v m,
        insert-HasUniqueKeys k v m u.1,
      )

  pub erase_keeps_absent :
      (k j : K) (m : Dict K V) → lookup j m ≡ none → lookup j (erase k m) ≡ none
  unfolding lookup erase
  erase_keeps_absent k j [] h = refl
  erase_keeps_absent k j ((i, w) ∷ m) h = ground (arith, erase_keeps_absent k j m)

  pub erase-HasUniqueKeys : (k : K) (m : Dict K V) → HasUniqueKeys m → HasUniqueKeys (erase k m)
  unfolding lookup erase
  erase-HasUniqueKeys k [] u = tt
  erase-HasUniqueKeys k ((i, w) ∷ m) u =
      ground (arith, erase_keeps_absent k i m, erase-HasUniqueKeys k m u.1)

  pub length-insert_new :
      (k : K) (v : V) (m : Dict K V) → lookup k m ≡ none → length (insert k v m) ≡ suc (length m)
  unfolding lookup insert
  length-insert_new k v [] h = refl
  length-insert_new k v ((i, w) ∷ m) h = ground (arith, length-insert_new k v m)

  pub length-erase_hit :
      (k : K) (v : V) (m : Dict K V) → lookup k m ≡ some v → suc (length (erase k m)) ≡ length m
  unfolding lookup erase
  length-erase_hit k v [] h = ground arith
  length-erase_hit k v ((i, w) ∷ m) h = ground (arith, length-erase_hit k v m)

module _ {ℓ κ} {K : Type ℓ} {V : Type κ} ⦃e : Key K⦄ ⦃f : Key V⦄ where
  -- How often a value stands in the dict, after each operation.
  pub count-insert_new :
      (k : K) (v a : V) (m : Dict K V)
      → lookup k m ≡ none
      → count a (values (insert k v m)) ≡ count a (v ∷ []) + count a (values m)
  unfolding lookup insert
  count-insert_new k v a [] h = ground arith
  count-insert_new k v a ((i, w) ∷ m) h = ground (arith, count-insert_new k v a m)

  pub count-erase_hit :
      (k : K) (v a : V) (m : Dict K V)
      → lookup k m ≡ some v
      → count a (v ∷ []) + count a (values (erase k m)) ≡ count a (values m)
  unfolding lookup erase
  count-erase_hit k v a [] h = ground arith
  count-erase_hit k v a ((i, w) ∷ m) h = ground (arith, count-erase_hit k v a m)

  pub count_pos_of_lookup :
      (k : K) (v : V) (m : Dict K V) → lookup k m ≡ some v → 1 ≤ count v (values m)
  unfolding lookup
  count_pos_of_lookup k v [] h = ground arith
  count_pos_of_lookup k v ((i, w) ∷ m) h = ground (arith, f.same_iff w v, count_pos_of_lookup k v m)

  -- Two keys that hold one value count it twice.
  pub count_two :
      (j k : K) (v : V) (m : Dict K V)
      → (j == k) ≡ false
      → lookup j m ≡ some v
      → lookup k m ≡ some v
      → 2 ≤ count v (values m)
  unfolding lookup
  count_two j k v [] h p q = ground arith
  count_two j k v ((i, w) ∷ m) h p q = ground (
    arith,
    e.same_iff i j,
    e.same_iff i k,
    e.same_iff j k,
    f.same_iff w v,
    count_two j k v m h,
    count_pos_of_lookup j v m,
    count_pos_of_lookup k v m,
  )

-- ===== src/Common/PySet.antt =====
-- Python's set: a list with no repetition, in the order of insertion.
use mathlib.Core.Path.{◌≡◌, refl}
use mathlib.Core.Bool.{true, false}
use mathlib.Core.List.{List, [], ◌∷◌}
use native.Mathlib.Omega.{arith}
use survey_controller.Common.Tests.{if◌then◌else◌}
use survey_controller.Common.Keys.{Key, ◌==◌, contains}

module _ {ℓ} {A : Type ℓ} ⦃e : Key A⦄ where
  unfoldable pub add : A → List A → List A
  add a s = if contains a s then s else a ∷ s

  unfoldable pub discard : A → List A → List A
  discard a [] = []
  discard a (x ∷ s) = let rest = discard a s in if x == a then rest else x ∷ rest

  pub add_new : (a : A) (s : List A) → contains a s ≡ false → add a s ≡ a ∷ s
  unfolding add
  add_new a s h = rw h

  pub contains-add :
      (a b : A) (s : List A) → contains b (add a s) ≡ (if a == b then true else contains b s)
  unfolding add
  contains-add a b s = ground (arith, e.same_iff a b)

  pub contains-discard_other :
      (a b : A) (s : List A) → (a == b) ≡ false → contains b (discard a s) ≡ contains b s
  unfolding discard
  contains-discard_other a b [] h = refl
  contains-discard_other a b (x ∷ s) h =
      ground (arith, e.same_iff x a, e.same_iff x b, e.same_iff a b, contains-discard_other a b s)

  pub contains-discard_self : (a : A) (s : List A) → contains a (discard a s) ≡ false
  unfolding discard
  contains-discard_self a [] = refl
  contains-discard_self a (x ∷ s) = ground (arith, contains-discard_self a s)

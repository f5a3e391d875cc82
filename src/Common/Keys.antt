-- ===== src/Common/Keys.antt =====
-- Types whose values the program compares: an instance gives the Boolean test and its meaning.
-- `count`, membership and removal in a list go by that test.
use Prim.Native.Nat.{ℕ, suc, ◌+◌, ◌≤◌, ◌<◌}
use mathlib.Core.Path.{◌≡◌, refl}
use mathlib.Core.Logic.{◌↔◌}
use mathlib.Core.Bool.{Bool, true, false, ◌&&◌}
use mathlib.Core.List.{List, [], ◌∷◌, ◌++◌}
use native.Mathlib.Omega.{arith}
use survey_controller.Common.Tests.{nat_beq, if◌then◌else◌}
use survey_controller.Common.Lists.{length}

pub record Key {ℓ} (A : Type ℓ) : Type ℓ where
  pub same : A → A → Bool
  pub same_iff : (a b : A) → (same a b ≡ true) ↔ (a ≡ b)

pub nat_beq_iff : (a b : ℕ) → (nat_beq a b ≡ true) ↔ (a ≡ b)
nat_beq_iff a b = ground arith

instance abbrev pub nat_eq : Key ℕ
nat_eq = record { same = nat_beq; same_iff = nat_beq_iff }

infix 50 ◌==◌
abbrev pub ◌==◌ {ℓ} : {A : Type ℓ} ⦃e : Key A⦄ → A → A → Bool
◌==◌ ⦃e⦄ = e.same

-- Texts are lists of code points.
abbrev pub Text : Type 0
Text = List ℕ

abbrev pub text_beq : Text → Text → Bool
text_beq [] [] = true
text_beq (a ∷ s) (b ∷ t) = nat_beq a b && text_beq s t
text_beq _ _ = false

text_beq_to : (s t : Text) → text_beq s t ≡ true → s ≡ t
text_beq_to [] [] h = refl
text_beq_to [] (b ∷ t) h = ground arith
text_beq_to (a ∷ s) [] h = ground arith
text_beq_to (a ∷ s) (b ∷ t) h = ground (arith, text_beq_to s t)

text_beq_self : (s : Text) → text_beq s s ≡ true
text_beq_self [] = refl
text_beq_self (a ∷ s) = ground (arith, text_beq_self s)

pub text_beq_iff : (s t : Text) → (text_beq s t ≡ true) ↔ (s ≡ t)
text_beq_iff s t = (text_beq_to s t, λ e. ground (arith, text_beq_self s))

instance abbrev pub text_eq : Key Text
text_eq = record { same = text_beq; same_iff = text_beq_iff }

abbrev pub pair_beq : ℕ × ℕ → ℕ × ℕ → Bool
pair_beq (a, b) (c, d) = nat_beq a c && nat_beq b d

pair_beq_to : (p q : ℕ × ℕ) → pair_beq p q ≡ true → p ≡ q
pair_beq_to (a, b) (c, d) h = ground arith

pair_beq_self : (p : ℕ × ℕ) → pair_beq p p ≡ true
pair_beq_self (a, b) = ground arith

pub pair_beq_iff : (p q : ℕ × ℕ) → (pair_beq p q ≡ true) ↔ (p ≡ q)
pair_beq_iff p q = (pair_beq_to p q, λ e. rw e (pair_beq_self q))

instance abbrev pub pair_eq : Key (ℕ × ℕ)
pair_eq = record { same = pair_beq; same_iff = pair_beq_iff }

module _ {ℓ} {A : Type ℓ} ⦃e : Key A⦄ where
  abbrev pub count : A → List A → ℕ
  count a [] = 0
  count a (x ∷ xs) = let rest = count a xs in if x == a then suc rest else rest

  abbrev pub contains : A → List A → Bool
  contains a [] = false
  contains a (x ∷ xs) = if x == a then true else contains a xs

  pub ==_self : (a : A) → (a == a) ≡ true
  ==_self a = (e.same_iff a a).1 refl

  pub count-append : (a : A) (xs ys : List A) → count a (xs ++ ys) ≡ count a xs + count a ys
  count-append a [] ys = omega arith
  count-append a (x ∷ xs) ys = ground (arith, count-append a xs ys)

  pub contains-count : (a : A) (xs : List A) → contains a xs ≡ true → 0 < count a xs
  contains-count a [] h = ground arith
  contains-count a (x ∷ xs) h = ground (arith, contains-count a xs)

  pub not-contains-count : (a : A) (xs : List A) → contains a xs ≡ false → count a xs ≡ 0
  not-contains-count a [] h = refl
  not-contains-count a (x ∷ xs) h = ground (arith, not-contains-count a xs)

  pub count-le-length : (a : A) (xs : List A) → count a xs ≤ length xs
  count-le-length a [] = omega arith
  count-le-length a (x ∷ xs) = ground (arith, count-le-length a xs)

-- ===== src/Prelude/Equality.antt =====
-- `PartialEq`: a Boolean test that decides equality. `of_discrete` derives it from the structure.
use Prim.Native.Nat.{ℕ}
use mathlib.Core.Path.{◌≡◌, refl, sym, ap}
use mathlib.Core.Logic.{◌↔◌, ◌≢◌, inl, inr}
use mathlib.Core.Bool.{Bool, true, false, ◌||◌}
use mathlib.Core.List.{List, [], ◌∷◌, Memᴰ}
use native.Mathlib.Decide.{ℕ_discrete}
use native.Mathlib.Omega.{arith}
use thorax.Prelude.Tests.{Bool-cases}

pub record Eq {ℓ} (A : Type ℓ) : Type ℓ where
  pub beq : A → A → Bool
  pub beq_iff : (x y : A) → (beq x y ≡ true) ↔ (x ≡ y)

abbrev pub test {ℓ} : {P : Type ℓ} → Dec P → Bool
test (yes p) = true
test (no p) = false

pub test_iff {ℓ} : {P : Type ℓ} (d : Dec P) → (test d ≡ true) ↔ P
test_iff (yes p) = (λ _. p, λ _. refl)
test_iff (no p) = (λ h. cc, λ q. absurd (p q))

abbrev pub of_discrete {ℓ} : {A : Type ℓ} → Discrete A → Eq A
of_discrete d = record { beq = λ a b. test (d a b); beq_iff = λ a b. test_iff (d a b) }

infix 50 ◌==◌
abbrev pub ◌==◌ {ℓ} : {A : Type ℓ} ⦃e : Eq A⦄ → A → A → Bool
◌==◌ ⦃e⦄ a b = e.beq a b

module _ {ℓ} {A : Type ℓ} ⦃e : Eq A⦄ where
  pub ==_refl : (a : A) → (a == a) ≡ true
  ==_refl a = (e.beq_iff a a).1 refl

  pub eq_of_== : (a b : A) → (a == b) ≡ true → a ≡ b
  eq_of_== a b = (e.beq_iff a b).0

  pub ==_of_ne : (a b : A) → a ≢ b → (a == b) ≡ false
  ==_of_ne a b h = elim (Bool-cases (a == b)) [ inl p ↦ absurd (h (eq_of_== a b p)) | inr p ↦ p ]

  pub ne_of_== : (a b : A) → (a == b) ≡ false → a ≢ b
  ne_of_== a b h q = let t : (a == a) ≡ true = ==_refl a in ground (arith, ap (λ c. a == c) q)

  -- `Vec::contains`
  unfoldable pub contains : List A → A → Bool
  contains [] a = false
  contains (x ∷ xs) a = x == a || contains xs a

  pub Memᴰ_of_contains : (xs : List A) (a : A) → contains xs a ≡ true → Memᴰ a xs
  unfolding contains
  Memᴰ_of_contains [] a h = cc
  Memᴰ_of_contains (x ∷ xs) a h = elim (Bool-cases (x == a)) [
    | inl p ↦ Memᴰ.head (sym (eq_of_== x a p))
    | inr p ↦ Memᴰ.tail (Memᴰ_of_contains xs a (ground arith))
  ]

  pub contains_of_Memᴰ : {a : A} {xs : List A} → Memᴰ a xs → contains xs a ≡ true
  unfolding contains
  contains_of_Memᴰ {a} (Memᴰ.head {x} p) = ground (arith, e.beq_iff x a)
  contains_of_Memᴰ (Memᴰ.tail m) = ground (arith, contains_of_Memᴰ m)

instance abbrev pub nat_eq : Eq ℕ
nat_eq = of_discrete ℕ_discrete

-- ===== src/Prelude/Order.antt =====
-- `Ord`: a total comparison, the lexicographic order of byte strings, and the derived order of an
-- enum, which compares the variant's index and then its field.
use Prim.Native.Nat.{ℕ, compare, Ordering}
use Prim.Native.Nat.Ordering.{lt, eq, gt}
use mathlib.Core.Path.{◌≡◌, refl, ap}
use mathlib.Core.Logic.{◌⊎◌, inl, inr}
use mathlib.Core.List.{List, [], ◌∷◌}
use native.Mathlib.Omega.{arith}

pub Ordering-cases : (c : Ordering) → ((c ≡ lt) ⊎ (c ≡ eq)) ⊎ (c ≡ gt)
Ordering-cases lt = inl (inl refl)
Ordering-cases eq = inl (inr refl)
Ordering-cases gt = inr refl

abbrev pub flip : Ordering → Ordering
flip lt = gt
flip eq = eq
flip gt = lt

pub record IsTotal {ℓ} {K : Type ℓ} (cmp : K → K → Ordering) : Type ℓ where
  pub cmp_self : (a : K) → cmp a a ≡ eq
  pub eq_of_cmp : (a b : K) → cmp a b ≡ eq → a ≡ b
  pub cmp_flip : (a b : K) → cmp b a ≡ flip (cmp a b)
  pub cmp_trans : (x y z : K) → cmp x y ≡ lt → cmp y z ≡ lt → cmp x z ≡ lt

pub record Ord {ℓ} (K : Type ℓ) : Type ℓ where
  pub cmp : K → K → Ordering
  pub total : IsTotal cmp
  pub open total use *

abbrev pub nat_cmp : ℕ → ℕ → Ordering
nat_cmp a b = compare a b

pub nat_cmp-IsTotal : IsTotal nat_cmp
nat_cmp-IsTotal = record {
  cmp_self = λ a. ground arith;
  eq_of_cmp = λ a b h. ground arith;
  cmp_flip = λ a b. ground arith;
  cmp_trans = λ a b c p q. ground arith;
}

abbrev pub then_with : Ordering → Ordering → Ordering
then_with eq o = o
then_with lt o = lt
then_with gt o = gt

-- Byte strings compare byte by byte, a proper prefix first.
unfoldable pub lex : List ℕ → List ℕ → Ordering
lex [] [] = eq
lex [] (b ∷ bs) = lt
lex (a ∷ as_) [] = gt
lex (a ∷ as_) (b ∷ bs) = then_with (compare a b) (lex as_ bs)

lex_self : (a : List ℕ) → lex a a ≡ eq
unfolding lex
lex_self [] = refl
lex_self (x ∷ xs) = ground (arith, lex_self xs)

eq_of_lex : (a b : List ℕ) → lex a b ≡ eq → a ≡ b
unfolding lex
eq_of_lex [] [] h = refl
eq_of_lex [] (y ∷ ys) h = cc
eq_of_lex (x ∷ xs) [] h = cc
eq_of_lex (x ∷ xs) (y ∷ ys) h = ground (arith, eq_of_lex xs ys)

lex-flip : (a b : List ℕ) → lex b a ≡ flip (lex a b)
unfolding lex
lex-flip [] [] = refl
lex-flip [] (y ∷ ys) = refl
lex-flip (x ∷ xs) [] = refl
lex-flip (x ∷ xs) (y ∷ ys) = ground (arith, lex-flip xs ys)

lex_trans : (a b c : List ℕ) → lex a b ≡ lt → lex b c ≡ lt → lex a c ≡ lt
unfolding lex
lex_trans [] [] c p q = cc
lex_trans [] (y ∷ ys) [] p q = cc
lex_trans [] (y ∷ ys) (z ∷ zs) p q = refl
lex_trans (x ∷ xs) [] c p q = cc
lex_trans (x ∷ xs) (y ∷ ys) [] p q = cc
lex_trans (x ∷ xs) (y ∷ ys) (z ∷ zs) p q = ground (arith, lex_trans xs ys zs)

pub lex-IsTotal : IsTotal lex
lex-IsTotal = record {
  cmp_self = lex_self;
  eq_of_cmp = eq_of_lex;
  cmp_flip = lex-flip;
  cmp_trans = lex_trans;
}

instance abbrev pub bytes_ord : Ord (List ℕ)
bytes_ord = record { cmp = lex; total = lex-IsTotal }

-- The index of a variant and its field.
abbrev pub tagged_cmp : ℕ × List ℕ → ℕ × List ℕ → Ordering
tagged_cmp x y = then_with (compare x.0 y.0) (lex x.1 y.1)

module _ {ℓ} {K : Type ℓ} (code : K → ℕ × List ℕ) where
  abbrev pub code_cmp : K → K → Ordering
  code_cmp a b = tagged_cmp (code a) (code b)

  pub code_cmp-IsTotal :
      ((a b : K) → (code a).0 ≡ (code b).0 → (code a).1 ≡ (code b).1 → a ≡ b) → IsTotal code_cmp
  code_cmp-IsTotal inj = record {
    cmp_self = λ a. ground (arith, lex_self (code a).1);
    eq_of_cmp = λ a b h. inj a b (ground arith) (eq_of_lex (code a).1 (code b).1 (ground arith));
    cmp_flip = λ a b. ground (arith, lex-flip (code a).1 (code b).1);
    cmp_trans = λ a b c p q. ground (arith, lex_trans (code a).1 (code b).1 (code c).1);
  }

-- A total comparison decides equality.
pub ord_discrete {ℓ} : {K : Type ℓ} ⦃o : Ord K⦄ → Discrete K
ord_discrete ⦃o⦄ a b = elim (Ordering-cases (o.cmp a b)) [
  | inl (inl l) ↦ no (λ e. ground (arith, o.cmp_self a, ap (λ x. o.cmp a x) e))
  | inl (inr q) ↦ yes (o.eq_of_cmp a b q)
  | inr g ↦ no (λ e. ground (arith, o.cmp_self a, ap (λ x. o.cmp a x) e))
]

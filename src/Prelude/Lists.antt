-- ===== src/Prelude/Lists.antt =====
-- Iterator methods on slices, and their characterisation by membership.
use Prim.Native.Nat.{ℕ, suc, ◌+◌, ◌≤◌, ◌<◌}
use mathlib.Core.Path.{◌≡◌, refl, sym, ap, subst}
use mathlib.Core.Logic.{inl, inr}
use mathlib.Core.Bool.{Bool, true, false, ◌&&◌, ◌||◌}
use mathlib.Core.Option.{Option, none, some}
use mathlib.Core.List.{List, [], ◌∷◌, ◌++◌, Memᴰ}
use native.Mathlib.Omega.{arith}
use thorax.Prelude.Tests.{Bool-cases, if◌then◌else◌}

module _ {ℓ} {A : Type ℓ} where
  abbrev pub length : List A → ℕ
  length [] = 0
  length (x ∷ xs) = suc (length xs)

  unfoldable pub any : (A → Bool) → List A → Bool
  any p [] = false
  any p (x ∷ xs) = p x || any p xs

  unfoldable pub all : (A → Bool) → List A → Bool
  all p [] = true
  all p (x ∷ xs) = p x && all p xs

  unfoldable pub find? : (A → Bool) → List A → Option A
  find? p [] = none
  find? p (x ∷ xs) = if p x then some x else find? p xs

  -- What holds of the head and of every member of the tail.
  pub Memᴰ-cons_elim {κ} :
      (P : A → Type κ) {x : A} {xs : List A}
      → P x
      → ((y : A) → Memᴰ y xs → P y)
      → (y : A) → Memᴰ y (x ∷ xs)
      → P y
  Memᴰ-cons_elim P {x} {xs} h t y (Memᴰ.head e) = subst P (sym e) h
  Memᴰ-cons_elim P {x} {xs} h t y (Memᴰ.tail m) = t y m

  pub any-elim : (p : A → Bool) (xs : List A) → any p xs ≡ true → (x : A) × Memᴰ x xs × (p x ≡ true)
  unfolding any
  any-elim p [] h = cc
  any-elim p (x ∷ xs) h = elim (Bool-cases (p x)) [
    | inl now ↦ (x, Memᴰ.head refl, now)
    | inr skip ↦ let (y, m, q) = any-elim p xs (ground arith) in (y, Memᴰ.tail m, q)
  ]

  pub any-intro : (p : A → Bool) {x : A} {xs : List A} → Memᴰ x xs → p x ≡ true → any p xs ≡ true
  unfolding any
  any-intro p (Memᴰ.head e) q = cc
  any-intro p (Memᴰ.tail m) q = ground (arith, any-intro p m q)

  pub all-elim : (p : A → Bool) {x : A} {xs : List A} → all p xs ≡ true → Memᴰ x xs → p x ≡ true
  unfolding all
  all-elim p h (Memᴰ.head e) = ground (arith, ap p e)
  all-elim p h (Memᴰ.tail m) = all-elim p (ground arith) m

  pub all-intro :
      (p : A → Bool) (xs : List A) → ((x : A) → Memᴰ x xs → p x ≡ true) → all p xs ≡ true
  unfolding all
  all-intro p [] h = refl
  all-intro p (x ∷ xs) h =
      ground (arith, h x (Memᴰ.head refl), all-intro p xs (λ y m. h y (Memᴰ.tail m)))

  pub find?-elim :
      (p : A → Bool) (xs : List A) {x : A} → find? p xs ≡ some x → Memᴰ x xs × (p x ≡ true)
  unfolding find?
  find?-elim p [] h = cc
  find?-elim p (y ∷ xs) h = elim (Bool-cases (p y)) [
    | inl now ↦ (Memᴰ.head (ground arith), ground arith)
    | inr skip ↦ let (m, q) = find?-elim p xs (ground arith) in (Memᴰ.tail m, q)
  ]

  pub find?-none :
      (p : A → Bool) (xs : List A) → find? p xs ≡ none → (x : A) → Memᴰ x xs → p x ≡ false
  unfolding find?
  find?-none p [] h x m = elim m [ ]
  find?-none p (y ∷ xs) h x m = elim (Bool-cases (p y)) [
    | inl now ↦ absurd (ground arith)
    | inr skip ↦ Memᴰ-cons_elim (λ z. p z ≡ false) skip (find?-none p xs (ground arith)) x m
  ]

  pub any-append : (p : A → Bool) (xs ys : List A) → any p (xs ++ ys) ≡ (any p xs || any p ys)
  unfolding any
  any-append p [] ys = refl
  any-append p (x ∷ xs) ys = ground (arith, any-append p xs ys)

-- How many items pass a test.
module _ {ℓ} {A : Type ℓ} where
  unfoldable pub count : (A → Bool) → List A → ℕ
  count p [] = 0
  count p (x ∷ xs) = (if p x then 1 else 0) + count p xs

  pub count-le : (p : A → Bool) (xs : List A) → count p xs ≤ length xs
  unfolding count
  count-le p [] = omega arith
  count-le p (x ∷ xs) = ground (arith, count-le p xs)

  pub count_mono :
      (p q : A → Bool) (xs : List A) → ((x : A) → p x ≡ true → q x ≡ true) → count p xs ≤ count q xs
  unfolding count
  count_mono p q [] h = omega arith
  count_mono p q (x ∷ xs) h = ground (arith, h x, count_mono p q xs h)

  pub count_strict :
      (p q : A → Bool) (xs : List A) (y : A)
      → ((x : A) → p x ≡ true → q x ≡ true)
      → Memᴰ y xs
      → p y ≡ false
      → q y ≡ true
      → count p xs < count q xs
  unfolding count
  count_strict p q [] y h m n t = elim m [ ]
  count_strict p q (x ∷ xs) y h (Memᴰ.head e) n t =
      ground (arith, count_mono p q xs h, ap p e, ap q e)
  count_strict p q (x ∷ xs) y h (Memᴰ.tail m) n t =
      ground (arith, h x, count_strict p q xs y h m n t)

-- ===== src/Authority/Count.antt =====
-- How many items of a universe a list has: pushing an item of the universe that was not there makes
-- it more, and it is never more than the universe.
use thorax.Prelude.{
  ℕ, ◌≤◌, ◌<◌, ◌≡◌, refl, ap, Bool, true, false, ◌||◌, List, [], ◌∷◌, arith, Eq, ◌==◌, ==_refl,
  contains, any, Bool-cases, inl, inr, length, count, count-le, count_mono, count_strict, ◌⊎◌, Memᴰ,
}
use thorax.Authz.{push_unique, push_all}
use thorax.Authz.Grow.{any-push_unique}
use thorax.Authz.Delegate.{Memᴰ-push_unique}

module _ {A : Type 0} ⦃e : Eq A⦄ where
  -- How many items of the universe are in the list.
  unfoldable pub held : List A → List A → ℕ
  held universe items = count (λ u. any (λ x. x == u) items) universe

  pub held-le : (universe items : List A) → held universe items ≤ length universe
  unfolding held
  held-le universe items = count-le _ universe

  contains-any : (items : List A) (x : A) → contains items x ≡ any (λ y. y == x) items
  unfolding contains any
  contains-any [] x = refl
  contains-any (y ∷ items) x = ap (λ b. (y == x) || b) (contains-any items x)

  keeps :
      (items : List A) (x u : A)
      → any (λ y. y == u) items ≡ true
      → any (λ y. y == u) (push_unique items x).0 ≡ true
  keeps items x u h = ground (arith, any-push_unique (λ y. y == u) items x)

  push_unique-absent :
      (items : List A) (x : A) → (push_unique items x).1 ≡ true → any (λ y. y == x) items ≡ false
  unfolding push_unique
  push_unique-absent items x f = elim (Bool-cases (contains items x)) [
    | inl old ↦ absurd (ground arith)
    | inr new ↦ ground (arith, contains-any items x)
  ]

  push_unique-held :
      (universe items : List A) (x : A)
      → Memᴰ x universe
      → (held universe items ≤ held universe (push_unique items x).0)
        × ((push_unique items x).1 ≡ true
            → held universe items < held universe (push_unique items x).0)
  unfolding held
  push_unique-held universe items x m = (
    count_mono _ _ universe (keeps items x),
    λ f.
        count_strict _ _ universe x (keeps items x) m (push_unique-absent items x f)
          (ground (arith, any-push_unique (λ y. y == x) items x, ==_refl x)),
  )

  pub push_all-held :
      (universe items : List A) (c : Bool) (other : List A)
      → ((x : A) → Memᴰ x other → Memᴰ x universe)
      → (held universe items ≤ held universe (push_all (items, c) other).0)
        × ((push_all (items, c) other).1 ≡ true
            → (c ≡ true) ⊎ (held universe items < held universe (push_all (items, c) other).0))
  unfolding push_all
  push_all-held universe items c [] h = (omega arith, λ f. inl f)
  push_all-held universe items c (x ∷ other) h =
      let (items', pushed) = push_unique items x in
      let (le, more) = push_unique-held universe items x (h x (Memᴰ.head refl)) in
      let (le', more') =
        push_all-held universe items' (c || pushed) other (λ y m. h y (Memᴰ.tail m)) in
      (
        omega arith,
        λ f. elim (more' f) [
          | inl was ↦ elim (Bool-cases c) [
            | inl on ↦ inl on
            | inr off ↦ inr (omega (arith, le', more (ground arith)))
          ]
          | inr l ↦ inr (omega arith)
        ],
      )

  -- What the pushes put in comes from one of the two lists.
  pub Memᴰ-push_all :
      (items : List A) (c : Bool) (other : List A) (y : A)
      → Memᴰ y (push_all (items, c) other).0
      → Memᴰ y items ⊎ Memᴰ y other
  unfolding push_all
  Memᴰ-push_all items c [] y m = inl m
  Memᴰ-push_all items c (x ∷ other) y m =
      let (items', pushed) = push_unique items x in
      elim (Memᴰ-push_all items' (c || pushed) other y m) [
        | inr n ↦ inr (Memᴰ.tail n)
        | inl n ↦ elim (Memᴰ-push_unique items x n) [ inl o ↦ inl o | inr q ↦ inr (Memᴰ.head q) ]
      ]

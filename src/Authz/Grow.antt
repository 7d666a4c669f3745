-- ===== src/Authz/Grow.antt =====
-- `merge_from` and `as_grant_permissions` of authz.rs: a merge is the union of what two authorities
-- may do, its flag is exact, and the permissions that an authority confers carry its whole power.
use thorax.Prelude.{
  ℕ, suc, ◌+◌, ◌<◌, ◌≤◌, ◌≡◌, refl, ap, ◌∙◌, Bool, true, false, ◌||◌, List, [], ◌∷◌, ◌++◌, arith,
  Eq, contains, any, any-append, Bool-cases, inl, inr, length, if◌then◌else◌, Memᴰ_of_contains,
  any-intro, ◌⊎◌,
}
use thorax.Format.Selector.{
  SecretSelectorV1, ManageKeyspaceGrantV1, GrantPermissionV1, read_keyspace, write_keyspace,
  manage_keyspace, administer, selector_eq, manage_eq,
}
use thorax.Authz.{
  selector_matches, push_unique, push_all, AuthoritySet, no_authority, add_permission, any_matches,
  any_manages, can_read, can_write, can_manage, merge_from,
}
use thorax.Authz.Delegate.{grant_all}

length-append_one {ℓ} :
    {A : Type ℓ} (items : List A) (x : A) → length (items ++ x ∷ []) ≡ suc (length items)
length-append_one [] x = refl
length-append_one (y ∷ items) x = ap suc (length-append_one items x)

module _ {ℓ} {A : Type ℓ} ⦃e : Eq A⦄ where
  -- A test for any item sees a pushed item, whether or not it was there.
  pub any-push_unique :
      (p : A → Bool) (items : List A) (x : A) → any p (push_unique items x).0 ≡ (any p items || p x)
  unfolding push_unique any
  any-push_unique p items x = elim (Bool-cases (contains items x)) [
    | inl old ↦ rw old (elim (Bool-cases (p x)) [
      | inl hit ↦ ground (arith, any-intro p (Memᴰ_of_contains items x old) hit)
      | inr miss ↦ ground arith
    ])
    | inr new ↦ rw new (any-append p items (x ∷ []) ∙ ground arith)
  ]

  pub any-push_all :
      (p : A → Bool) (items : List A) (c : Bool) (other : List A)
      → any p (push_all (items, c) other).0 ≡ (any p items || any p other)
  unfolding push_all any
  any-push_all p items c [] = ground arith
  any-push_all p items c (x ∷ rest) =
      let (items', pushed) = push_unique items x in
      any-push_all p items' (c || pushed) rest ∙ ground (arith, any-push_unique p items x)

  push_unique-length :
      (items : List A) (x : A)
      → ((push_unique items x).1 ≡ false) × ((push_unique items x).0 ≡ items)
        ⊎ ((push_unique items x).1 ≡ true) × (length (push_unique items x).0 ≡ suc (length items))
  unfolding push_unique
  push_unique-length items x = elim (Bool-cases (contains items x)) [
    | inl old ↦ inl (rw old, rw old)
    | inr new ↦ inr (rw new, rw new (length-append_one items x))
  ]

  -- The flag of a run of pushes: unset, nothing was pushed.
  push_all-unset :
      (items : List A) (c : Bool) (other : List A)
      → (push_all (items, c) other).1 ≡ false
      → (c ≡ false) × ((push_all (items, c) other).0 ≡ items)
  unfolding push_all
  push_all-unset items c [] h = (h, refl)
  push_all-unset items c (x ∷ rest) h =
      let (items', pushed) = push_unique items x in
      let (both, same) = push_all-unset items' (c || pushed) rest h in
      elim (push_unique-length items x) [
        | inl (off, kept) ↦ (ground arith, same ∙ kept)
        | inr (on, longer) ↦ absurd (ground arith)
      ]

  -- Set, something was, if it was unset before.
  push_all-grows :
      (items : List A) (c : Bool) (other : List A)
      → (length items ≤ length (push_all (items, c) other).0)
        × ((push_all (items, c) other).1 ≡ true
            → (c ≡ true) ⊎ (length items < length (push_all (items, c) other).0))
  unfolding push_all
  push_all-grows items c [] = (omega arith, λ h. inl h)
  push_all-grows items c (x ∷ rest) =
      let (items', pushed) = push_unique items x in
      let (le, grown) = push_all-grows items' (c || pushed) rest in
      elim (push_unique-length items x) [
        | inl (off, kept) ↦ (
          ground (arith, ap length kept),
          λ h. elim (grown h) [
            | inl o ↦ inl (ground arith)
            | inr l ↦ inr (ground (arith, ap length kept))
          ],
        )
        | inr (on, longer) ↦ (omega arith, λ h. inr (omega arith))
      ]

-- How much an authority holds, counted.
unfoldable pub size : AuthoritySet → ℕ
size a = length a.read + length a.write + length a.manage + (if a.administer then 1 else 0)

-- A merge of two authority sets may read, write and manage exactly what one of the two may.
pub merge_from-union :
    (a b : AuthoritySet) (s : SecretSelectorV1)
    → (can_read (merge_from a b).0 s ≡ (can_read a s || can_read b s))
      × (can_write (merge_from a b).0 s ≡ (can_write a s || can_write b s))
      × (can_manage (merge_from a b).0 s ≡ (can_manage a s || can_manage b s))
unfolding merge_from can_read can_write can_manage any_matches any_manages
merge_from-union a b s =
    let r = any-push_all (λ g. selector_matches g s) a.read false b.read in
    let w =
      any-push_all (λ g. selector_matches g s) a.write (push_all (a.read, false) b.read).1
        b.write in
    let c = (push_all (a.write, (push_all (a.read, false) b.read).1) b.write).1 in
    let m =
      any-push_all (λ (g : ManageKeyspaceGrantV1). selector_matches g.selector s) a.manage c
        b.manage in
    (ground (arith, r, w, m), ground (arith, w, m), ground (arith, m))

-- The flag that a merge of authority sets returns is exact: unset, the set is unchanged, and set,
-- it has grown.
pub merge_from-changed :
    (a b : AuthoritySet)
    → ((merge_from a b).1 ≡ false → (merge_from a b).0 ≡ a)
      × ((merge_from a b).1 ≡ true → size a < size (merge_from a b).0)
unfolding merge_from size
merge_from-changed a b =
    let c1 = (push_all (a.read, false) b.read).1 in
    let c2 = (push_all (a.write, c1) b.write).1 in
    (
      λ h. ground (
        arith,
        push_all-unset a.manage c2 b.manage,
        push_all-unset a.write c1 b.write,
        push_all-unset a.read false b.read,
      ),
      λ h. ground (
        arith,
        push_all-grows a.read false b.read,
        push_all-grows a.write c1 b.write,
        push_all-grows a.manage c2 b.manage,
      ),
    )

-- What one grant adds to what an authority may read, write and manage.
abbrev pub grants_read : SecretSelectorV1 → GrantPermissionV1 → Bool
grants_read s p = can_read (add_permission no_authority p).0 s

abbrev pub grants_write : SecretSelectorV1 → GrantPermissionV1 → Bool
grants_write s p = can_write (add_permission no_authority p).0 s

abbrev pub grants_manage : SecretSelectorV1 → GrantPermissionV1 → Bool
grants_manage s p = can_manage (add_permission no_authority p).0 s

module _ (a : AuthoritySet) (s : SecretSelectorV1) where
  pub add_permission-union :
      (p : GrantPermissionV1)
      → (can_read (add_permission a p).0 s ≡ (can_read a s || grants_read s p))
        × (can_write (add_permission a p).0 s ≡ (can_write a s || grants_write s p))
        × (can_manage (add_permission a p).0 s ≡ (can_manage a s || grants_manage s p))
  unfolding add_permission no_authority can_read can_write can_manage any_matches any_manages any
  add_permission-union (read_keyspace k) =
      let r = any-push_unique (λ g. selector_matches g s) in
      (ground (arith, r a.read k, r [] k), ground arith, ground arith)
  add_permission-union (write_keyspace k) =
      let r = any-push_unique (λ g. selector_matches g s) in
      (ground (arith, r a.write k, r [] k), ground (arith, r a.write k, r [] k), ground arith)
  add_permission-union (manage_keyspace k) =
      let r = any-push_unique (λ (g : ManageKeyspaceGrantV1). selector_matches g.selector s) in
      (
        ground (arith, r a.manage k, r [] k),
        ground (arith, r a.manage k, r [] k),
        ground (arith, r a.manage k, r [] k),
      )
  add_permission-union administer = (ground arith, ground arith, ground arith)

-- A list of grants lets its holder read, write and manage exactly what they could before or what
-- some grant of the list confers.
pub grant_all-union :
    (a : AuthoritySet) (ps : List GrantPermissionV1) (s : SecretSelectorV1)
    → (can_read (grant_all a ps) s ≡ (can_read a s || any (grants_read s) ps))
      × (can_write (grant_all a ps) s ≡ (can_write a s || any (grants_write s) ps))
      × (can_manage (grant_all a ps) s ≡ (can_manage a s || any (grants_manage s) ps))
unfolding grant_all any
grant_all-union a [] s = (ground arith, ground arith, ground arith)
grant_all-union a (p ∷ ps) s =
    let (r, w, m) = grant_all-union (add_permission a p).0 ps s in
    let (r1, w1, m1) = add_permission-union a s p in
    (r ∙ ground (arith, r1), w ∙ ground (arith, w1), m ∙ ground (arith, m1))

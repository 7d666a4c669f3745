-- ===== src/Authz/Confer.antt =====
-- `as_grant_permissions` of authz.rs: the permissions that an authority confers carry its whole
-- power, and a check of each of them is a check of the authority.
use thorax.Prelude.{
  ◌≡◌, ◌∙◌, Bool, true, false, ◌||◌, List, [], ◌∷◌, map, arith, any, any-append, all, refl,
}
use thorax.Format.Selector.{
  SecretSelectorV1, KeyspaceSelectorV1, ManageKeyspaceGrantV1, GrantPermissionV1, read_keyspace,
  write_keyspace, manage_keyspace, administer, selector_eq, manage_eq,
}
use thorax.Authz.{
  selector_matches, AuthoritySet, no_authority, add_permission, any_matches, any_manages, can_read,
  can_write, can_manage, can_create_permission, as_grant_permissions,
}
use thorax.Authz.Delegate.{grant_all, delegation_bounded}
use thorax.Authz.Grow.{any-push_unique, grants_read, grants_write, grants_manage, grant_all-union}

any-map {ℓ κ} :
    {A : Type ℓ} {B : Type κ} (p : B → Bool) (q : A → Bool) (f : A → B) (xs : List A)
    → ((x : A) → p (f x) ≡ q x)
    → any p (map f xs) ≡ any q xs
unfolding any
any-map p q f [] h = refl
any-map p q f (x ∷ xs) h = ground (arith, h x, any-map p q f xs h)

any_never {ℓ} : {A : Type ℓ} (xs : List A) → any (λ _. false) xs ≡ false
unfolding any
any_never [] = refl
any_never (x ∷ xs) = any_never xs

-- A test of the permissions, one kind of permission at a time.
any-as_grant_permissions :
    (p : GrantPermissionV1 → Bool) (r w : KeyspaceSelectorV1 → Bool)
    (m : ManageKeyspaceGrantV1 → Bool) (a : AuthoritySet)
    → ((k : KeyspaceSelectorV1) → p (read_keyspace k) ≡ r k)
    → ((k : KeyspaceSelectorV1) → p (write_keyspace k) ≡ w k)
    → ((k : ManageKeyspaceGrantV1) → p (manage_keyspace k) ≡ m k)
    → p administer ≡ true
    → any p (as_grant_permissions a)
      ≡ (a.administer || any r a.read || any w a.write || any m a.manage)
unfolding as_grant_permissions any
any-as_grant_permissions p r w m a hr hw hm h =
    rw (any-append, any-append, any-append)
      (ground (
        arith,
        any-map p r read_keyspace a.read hr,
        any-map p w write_keyspace a.write hw,
        any-map p m manage_keyspace a.manage hm,
      ))

module _ (s : SecretSelectorV1) where
  grants_use :
      (k : KeyspaceSelectorV1)
      → (grants_read s (read_keyspace k) ≡ selector_matches k s)
        × (grants_read s (write_keyspace k) ≡ selector_matches k s)
        × (grants_write s (write_keyspace k) ≡ selector_matches k s)
  unfolding add_permission no_authority can_read can_write can_manage any_matches any_manages any
  grants_use k =
      let r = any-push_unique (λ g. selector_matches g s) [] k in
      (ground (arith, r), ground (arith, r), ground (arith, r))

  grants_manage_all :
      (k : ManageKeyspaceGrantV1)
      → (grants_read s (manage_keyspace k) ≡ selector_matches k.selector s)
        × (grants_write s (manage_keyspace k) ≡ selector_matches k.selector s)
        × (grants_manage s (manage_keyspace k) ≡ selector_matches k.selector s)
  unfolding add_permission no_authority can_read can_write can_manage any_matches any_manages any
  grants_manage_all k =
      let r = any-push_unique (λ (g : ManageKeyspaceGrantV1). selector_matches g.selector s) [] k in
      (ground (arith, r), ground (arith, r), ground (arith, r))

  grants_no_manage :
      (k : KeyspaceSelectorV1)
      → (grants_write s (read_keyspace k) ≡ false)
        × (grants_manage s (read_keyspace k) ≡ false)
        × (grants_manage s (write_keyspace k) ≡ false)
  unfolding add_permission no_authority can_write can_manage any_matches any_manages any
  grants_no_manage k = (ground arith, ground arith, ground arith)

  grants_administer :
      (grants_read s administer ≡ true)
      × (grants_write s administer ≡ true)
      × (grants_manage s administer ≡ true)
  unfolding add_permission can_read can_write can_manage
  grants_administer = (refl, refl, refl)

-- The permissions that an authority confers, granted afresh, may do exactly what it may do.
module _ (a : AuthoritySet) (s : SecretSelectorV1) where
  conferred_read : any (grants_read s) (as_grant_permissions a) ≡ can_read a s
  unfolding can_read any_matches any_manages
  conferred_read =
      any-as_grant_permissions (grants_read s) (λ g. selector_matches g s)
        (λ g. selector_matches g s) (λ g. selector_matches g.selector s) a (λ k. (grants_use s k).0)
        (λ k. (grants_use s k).1) (λ k. (grants_manage_all s k).0) (grants_administer s).0

  conferred_write : any (grants_write s) (as_grant_permissions a) ≡ can_write a s
  unfolding can_write any_matches any_manages
  conferred_write =
      any-as_grant_permissions (grants_write s) (λ g. false) (λ g. selector_matches g s)
        (λ g. selector_matches g.selector s) a (λ k. (grants_no_manage s k).0)
        (λ k. (grants_use s k).2) (λ k. (grants_manage_all s k).1) (grants_administer s).1
      ∙ ground (arith, any_never a.read)

  conferred_manage : any (grants_manage s) (as_grant_permissions a) ≡ can_manage a s
  unfolding can_manage any_manages
  conferred_manage =
      any-as_grant_permissions (grants_manage s) (λ g. false) (λ g. false)
        (λ g. selector_matches g.selector s) a (λ k. (grants_no_manage s k).1)
        (λ k. (grants_no_manage s k).2) (λ k. (grants_manage_all s k).2) (grants_administer s).2
      ∙ ground (arith, any_never a.read, any_never a.write)

nothing_allowed :
    (s : SecretSelectorV1)
    → (can_read no_authority s ≡ false)
      × (can_write no_authority s ≡ false)
      × (can_manage no_authority s ≡ false)
unfolding no_authority can_read can_write can_manage any_matches any_manages any
nothing_allowed s = (refl, refl, refl)

-- The permissions that an authority confers, granted to someone who holds nothing, let them read,
-- write and manage exactly what the authority may.
pub as_grant_permissions-roundtrip :
    (a : AuthoritySet) (s : SecretSelectorV1)
    → (can_read (grant_all no_authority (as_grant_permissions a)) s ≡ can_read a s)
      × (can_write (grant_all no_authority (as_grant_permissions a)) s ≡ can_write a s)
      × (can_manage (grant_all no_authority (as_grant_permissions a)) s ≡ can_manage a s)
as_grant_permissions-roundtrip a s =
    let (r, w, m) = grant_all-union no_authority (as_grant_permissions a) s in
    let (nr, nw, nm) = nothing_allowed s in
    (
      ground (arith, r, nr, conferred_read a s),
      ground (arith, w, nw, conferred_write a s),
      ground (arith, m, nm, conferred_manage a s),
    )

-- Whoever could have granted each permission that an authority confers may read, write and manage
-- all that the authority may.
pub conferred-bounded :
    (g a : AuthoritySet) (s : SecretSelectorV1)
    → all (can_create_permission g) (as_grant_permissions a) ≡ true
    → (can_read a s ≡ true → can_read g s ≡ true)
      × (can_write a s ≡ true → can_write g s ≡ true)
      × (can_manage a s ≡ true → can_manage g s ≡ true)
conferred-bounded g a s h =
    let (r, w, m) = as_grant_permissions-roundtrip a s in
    let (br, bw, bm) = delegation_bounded g (as_grant_permissions a) s h in
    (λ x. br (r ∙ x), λ x. bw (w ∙ x), λ x. bm (m ∙ x))

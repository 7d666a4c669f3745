-- ===== src/Authz/Delegate.antt =====
-- Delegation: what a granter may hand out (`can_create_permission`) never exceeds what it holds.
use thorax.Prelude.{
  ◌≡◌, sym, Bool, true, false, ◌||◌, ◌⊎◌, inl, inr, List, [], ◌∷◌, ◌++◌, arith, Eq, Memᴰ, contains,
  any-elim, any-intro, all, &&-elim, subst, if◌then◌else◌,
}
use thorax.Format.Selector.{
  SecretSelectorV1, ManageKeyspaceGrantV1, GrantPermissionV1, read_keyspace, write_keyspace,
  manage_keyspace, administer, selector_eq, manage_eq, class_eq,
}
use thorax.Authz.{
  push_unique, AuthoritySet, no_authority, add_permission, can_read, can_write, can_manage,
  holds_read_over, holds_write_over, may_hand_out_manage, can_create_permission,
}
use thorax.Authz.Cover.{
  manages_all_of, Covers, Covers-can_read, Covers-can_write, Covers-can_manage,
  Covers-can_create_permission,
}

Memᴰ-append {ℓ} : {A : Type ℓ} {x : A} (xs ys : List A) → Memᴰ x (xs ++ ys) → Memᴰ x xs ⊎ Memᴰ x ys
Memᴰ-append [] ys m = inr m
Memᴰ-append (z ∷ xs) ys (Memᴰ.head e) = inl (Memᴰ.head e)
Memᴰ-append (z ∷ xs) ys (Memᴰ.tail m) = elim (Memᴰ-append xs ys m) [
  | inl l ↦ inl (Memᴰ.tail l)
  | inr r ↦ inr r
]

pub Memᴰ-push_unique {ℓ} :
    {A : Type ℓ} ⦃e : Eq A⦄ {y : A} (items : List A) (x : A)
    → Memᴰ y (push_unique items x).0
    → Memᴰ y items ⊎ (y ≡ x)
unfolding push_unique
Memᴰ-push_unique {A} {y} items x m = go (contains items x) m
  where
    go :
        (b : Bool)
        → Memᴰ y (if◌then◌else◌ {A = List A × Bool} b (items, false) (items ++ x ∷ [], true)).0
        → Memᴰ y items ⊎ (y ≡ x)
    go true n = inl n
    go false n = elim (Memᴰ-append items (x ∷ []) n) [
      | inl l ↦ inl l
      | inr (Memᴰ.head p) ↦ inr p
      | inr (Memᴰ.tail r) ↦ elim r [ ]
    ]

-- Nothing covers less than no authority.
pub Covers-no_authority : (g : AuthoritySet) → Covers g no_authority
unfolding no_authority
Covers-no_authority g = record {
  reads = λ k m. elim m [ ];
  writes = λ k m. elim m [ ];
  manages = λ t m. elim m [ ];
  administers = λ h. cc;
}

manages_all_of_hand_out :
    (held : List ManageKeyspaceGrantV1) (t : ManageKeyspaceGrantV1)
    → may_hand_out_manage held t ≡ true
    → manages_all_of held t ≡ true
unfolding may_hand_out_manage manages_all_of
manages_all_of_hand_out held t h =
    let (x, mx, p) = any-elim _ held h in any-intro _ mx (ground arith)

-- A permission that `g` may create, added to what `g` covers, leaves it covered.
module _ (g a : AuthoritySet) (c : Covers g a) where
  pub Covers-add_permission :
      (p : GrantPermissionV1) → can_create_permission g p ≡ true → Covers g (add_permission a p).0
  unfolding add_permission can_create_permission holds_read_over holds_write_over
  Covers-add_permission (read_keyspace k) h = record {
    reads = λ x m. elim (Memᴰ-push_unique a.read k m) [
      | inl old ↦ c.reads x old
      | inr new ↦ subst (λ y. holds_read_over g y ≡ true) (sym new) (ground arith)
    ];
    writes = c.writes;
    manages = c.manages;
    administers = c.administers;
  }
  Covers-add_permission (write_keyspace k) h = record {
    reads = c.reads;
    writes = λ x m. elim (Memᴰ-push_unique a.write k m) [
      | inl old ↦ c.writes x old
      | inr new ↦ subst (λ y. holds_write_over g y ≡ true) (sym new) (ground arith)
    ];
    manages = c.manages;
    administers = c.administers;
  }
  Covers-add_permission (manage_keyspace t) h = record {
    reads = c.reads;
    writes = c.writes;
    manages = λ x m. elim (Memᴰ-push_unique a.manage t m) [
      | inl old ↦ c.manages x old
      | inr new ↦
          subst (λ y. (g.administer || manages_all_of g.manage y) ≡ true) (sym new)
            (ground (arith, manages_all_of_hand_out g.manage t))
    ];
    administers = c.administers;
  }
  Covers-add_permission administer h = record {
    reads = c.reads;
    writes = c.writes;
    manages = c.manages;
    administers = λ _. h;
  }

-- What one subject holds after a list of grants: the loop over `grants` in
-- `compute_authorities_from_selected`, at one subject.
unfoldable pub grant_all : AuthoritySet → List GrantPermissionV1 → AuthoritySet
grant_all a [] = a
grant_all a (p ∷ ps) = grant_all (add_permission a p).0 ps

pub Covers-grant_all :
    (g a : AuthoritySet) (ps : List GrantPermissionV1)
    → Covers g a
    → all (can_create_permission g) ps ≡ true
    → Covers g (grant_all a ps)
unfolding grant_all all
Covers-grant_all g a [] c h = c
Covers-grant_all g a (p ∷ ps) c h =
    let (now, later) = &&-elim _ _ h in
    Covers-grant_all g (add_permission a p).0 ps (Covers-add_permission g a c p now) later

-- Whatever list of permissions a granter may create, a grantee who holds exactly these may read,
-- write and manage no secret that the granter may not.
pub delegation_bounded :
    (g : AuthoritySet) (ps : List GrantPermissionV1) (s : SecretSelectorV1)
    → all (can_create_permission g) ps ≡ true
    → (can_read (grant_all no_authority ps) s ≡ true → can_read g s ≡ true)
      × (can_write (grant_all no_authority ps) s ≡ true → can_write g s ≡ true)
      × (can_manage (grant_all no_authority ps) s ≡ true → can_manage g s ≡ true)
delegation_bounded g ps s h =
    let c = Covers-grant_all g no_authority ps (Covers-no_authority g) h in
    (
      Covers-can_read g (grant_all no_authority ps) c s,
      Covers-can_write g (grant_all no_authority ps) c s,
      Covers-can_manage g (grant_all no_authority ps) c s,
    )

-- Whatever list of permissions a granter may create, a grantee who holds exactly these may create
-- no permission that the granter may not create.
pub delegation_transitive :
    (g : AuthoritySet) (ps : List GrantPermissionV1) (p : GrantPermissionV1)
    → all (can_create_permission g) ps ≡ true
    → can_create_permission (grant_all no_authority ps) p ≡ true
    → can_create_permission g p ≡ true
delegation_transitive g ps p h =
    Covers-can_create_permission g (grant_all no_authority ps)
      (Covers-grant_all g no_authority ps (Covers-no_authority g) h) p

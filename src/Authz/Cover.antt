-- ===== src/Authz/Cover.antt =====
-- What an authority covers of another: a reference for "holds at least as much", stated keyspace by
-- keyspace, from which every test of authz.rs follows.
use thorax.Prelude.{
  ◌≡◌, Bool, true, ◌&&◌, ◌||◌, List, arith, Memᴰ, contains, Memᴰ_of_contains, any, any-elim,
  any-intro, all-elim, all-intro, &&-elim, &&-intro,
}
use thorax.Format.Selector.{
  SecretSelectorV1, KeyspaceSelectorV1, KeyspaceGrantClassV1, ManageKeyspaceGrantV1,
  GrantPermissionV1, read_keyspace, write_keyspace, manage_keyspace, administer, class_eq,
}
use thorax.Authz.{
  selector_matches, selector_subsumes, has_grantable, grantable_subset, AuthoritySet, any_matches,
  any_manages, can_read, can_write, can_manage, any_subsumes, any_manages_over, holds_read_over,
  holds_write_over, may_hand_out, may_hand_out_manage, can_create_permission,
}
use thorax.Authz.Subsume.{selector_subsumes_sound, selector_subsumes_trans}

-- A manage grant over the keyspace and with the classes of another.
unfoldable pub manages_all_of : List ManageKeyspaceGrantV1 → ManageKeyspaceGrantV1 → Bool
manages_all_of held target =
    any
      (λ (m : ManageKeyspaceGrantV1).
        selector_subsumes m.selector target.selector
        && grantable_subset target.grantable m.grantable)
      held

pub record Covers (g a : AuthoritySet) : Type 0 where
  pub reads : (k : KeyspaceSelectorV1) → Memᴰ k a.read → holds_read_over g k ≡ true
  pub writes : (k : KeyspaceSelectorV1) → Memᴰ k a.write → holds_write_over g k ≡ true
  pub manages :
      (m : ManageKeyspaceGrantV1)
      → Memᴰ m a.manage
      → (g.administer || manages_all_of g.manage m) ≡ true
  pub administers : a.administer ≡ true → g.administer ≡ true

-- From one keyspace that subsumes another to the secrets and keyspaces below.
module _ (k : KeyspaceSelectorV1) (s : SecretSelectorV1) (m : selector_matches k s ≡ true) where
  any_matches_of_subsumes :
      (held : List KeyspaceSelectorV1) → any_subsumes held k ≡ true → any_matches held s ≡ true
  unfolding any_subsumes any_matches
  any_matches_of_subsumes held h =
      let (x, mx, p) = any-elim _ held h in any-intro _ mx (selector_subsumes_sound x k s p m)

  any_manages_of_over :
      (held : List ManageKeyspaceGrantV1)
      → any_manages_over held k ≡ true
      → any_manages held s ≡ true
  unfolding any_manages_over any_manages
  any_manages_of_over held h =
      let (x, mx, p) = any-elim _ held h in
      any-intro _ mx (selector_subsumes_sound x.selector k s p m)

  pub can_read_of_holds : (g : AuthoritySet) → holds_read_over g k ≡ true → can_read g s ≡ true
  unfolding holds_read_over can_read
  can_read_of_holds g h = ground (
    arith,
    any_matches_of_subsumes g.read,
    any_matches_of_subsumes g.write,
    any_manages_of_over g.manage,
  )

  pub can_write_of_holds : (g : AuthoritySet) → holds_write_over g k ≡ true → can_write g s ≡ true
  unfolding holds_write_over can_write
  can_write_of_holds g h =
      ground (arith, any_matches_of_subsumes g.write, any_manages_of_over g.manage)

module _ (k c : KeyspaceSelectorV1) (below : selector_subsumes k c ≡ true) where
  any_subsumes_trans :
      (held : List KeyspaceSelectorV1) → any_subsumes held k ≡ true → any_subsumes held c ≡ true
  unfolding any_subsumes
  any_subsumes_trans held h =
      let (x, mx, p) = any-elim _ held h in any-intro _ mx (selector_subsumes_trans x k c p below)

  any_manages_over_trans :
      (held : List ManageKeyspaceGrantV1)
      → any_manages_over held k ≡ true
      → any_manages_over held c ≡ true
  unfolding any_manages_over
  any_manages_over_trans held h =
      let (x, mx, p) = any-elim _ held h in
      any-intro _ mx (selector_subsumes_trans x.selector k c p below)

  pub holds_read_over_trans :
      (g : AuthoritySet) → holds_read_over g k ≡ true → holds_read_over g c ≡ true
  unfolding holds_read_over
  holds_read_over_trans g h = ground (
    arith,
    any_subsumes_trans g.read,
    any_subsumes_trans g.write,
    any_manages_over_trans g.manage,
  )

  pub holds_write_over_trans :
      (g : AuthoritySet) → holds_write_over g k ≡ true → holds_write_over g c ≡ true
  unfolding holds_write_over
  holds_write_over_trans g h =
      ground (arith, any_subsumes_trans g.write, any_manages_over_trans g.manage)

pub grantable_subset_trans :
    (a b c : List KeyspaceGrantClassV1)
    → grantable_subset a b ≡ true
    → grantable_subset b c ≡ true
    → grantable_subset a c ≡ true
unfolding grantable_subset has_grantable
grantable_subset_trans a b c p q =
    all-intro _ a (λ x m. all-elim _ q (Memᴰ_of_contains b x (all-elim (contains b) p m)))

-- A covering manage grant manages every secret and keyspace of the covered one, and hands out
-- every class of it.
module _ (g : AuthoritySet) (m : ManageKeyspaceGrantV1) where
  over_of_manages_all :
      manages_all_of g.manage m ≡ true → any_manages_over g.manage m.selector ≡ true
  unfolding manages_all_of any_manages_over
  over_of_manages_all h = let (x, mx, p) = any-elim _ g.manage h in any-intro _ mx (&&-elim _ _ p).0

  hand_out_of_manages_all :
      (class : KeyspaceGrantClassV1) (c : KeyspaceSelectorV1)
      → manages_all_of g.manage m ≡ true
      → has_grantable m.grantable class ≡ true
      → selector_subsumes m.selector c ≡ true
      → may_hand_out g.manage class c ≡ true
  unfolding manages_all_of may_hand_out grantable_subset has_grantable
  hand_out_of_manages_all class c h q below =
      let (x, mx, p) = any-elim _ g.manage h in
      let (s, sub) = &&-elim _ _ p in
      any-intro _ mx (
        &&-intro _ _ (all-elim _ sub (Memᴰ_of_contains m.grantable class q))
          (selector_subsumes_trans x.selector m.selector c s below))

  hand_out_manage_of_manages_all :
      (t : ManageKeyspaceGrantV1)
      → manages_all_of g.manage m ≡ true
      → has_grantable m.grantable KeyspaceGrantClassV1.manage ≡ true
      → selector_subsumes m.selector t.selector ≡ true
      → grantable_subset t.grantable m.grantable ≡ true
      → may_hand_out_manage g.manage t ≡ true
  unfolding manages_all_of may_hand_out_manage grantable_subset has_grantable
  hand_out_manage_of_manages_all t h q below ts =
      let (x, mx, p) = any-elim _ g.manage h in
      let (s, sub) = &&-elim _ _ p in
      any-intro _ mx (
        &&-intro _ _
          (&&-intro _ _
            (all-elim _ sub (Memᴰ_of_contains m.grantable KeyspaceGrantClassV1.manage q))
            (selector_subsumes_trans x.selector m.selector t.selector s below))
          (grantable_subset_trans t.grantable m.grantable x.grantable ts sub))

-- A covering authority may read, write and manage all that the covered one may.
module _ (g a : AuthoritySet) (c : Covers g a) (s : SecretSelectorV1) where
  reads_covered : any_matches a.read s ≡ true → can_read g s ≡ true
  unfolding any_matches
  reads_covered h = let (x, mx, p) = any-elim _ a.read h in can_read_of_holds x s p g (c.reads x mx)

  writes_covered : any_matches a.write s ≡ true → can_write g s ≡ true
  unfolding any_matches
  writes_covered h =
      let (x, mx, p) = any-elim _ a.write h in can_write_of_holds x s p g (c.writes x mx)

  manages_covered : any_manages a.manage s ≡ true → can_manage g s ≡ true
  unfolding any_manages can_manage
  manages_covered h =
      let (x, mx, p) = any-elim _ a.manage h in
      ground (
        arith,
        c.manages x mx,
        over_of_manages_all g x,
        any_manages_of_over x.selector s p g.manage,
      )

  pub Covers-can_manage : can_manage a s ≡ true → can_manage g s ≡ true
  unfolding can_manage
  Covers-can_manage h = ground (arith, manages_covered, c.administers)

  pub Covers-can_write : can_write a s ≡ true → can_write g s ≡ true
  unfolding can_write can_manage
  Covers-can_write h = ground (arith, writes_covered, manages_covered, c.administers)

  pub Covers-can_read : can_read a s ≡ true → can_read g s ≡ true
  unfolding can_read can_write can_manage
  Covers-can_read h = ground (arith, reads_covered, writes_covered, manages_covered, c.administers)

-- It holds each keyspace that the covered one holds, and may create each permission.
module _ (g a : AuthoritySet) (c : Covers g a) (k : KeyspaceSelectorV1) where
  reads_over_covered : any_subsumes a.read k ≡ true → holds_read_over g k ≡ true
  unfolding any_subsumes
  reads_over_covered h =
      let (x, mx, p) = any-elim _ a.read h in holds_read_over_trans x k p g (c.reads x mx)

  writes_over_covered : any_subsumes a.write k ≡ true → holds_write_over g k ≡ true
  unfolding any_subsumes
  writes_over_covered h =
      let (x, mx, p) = any-elim _ a.write h in holds_write_over_trans x k p g (c.writes x mx)

  manages_over_covered :
      any_manages_over a.manage k ≡ true → (g.administer || any_manages_over g.manage k) ≡ true
  unfolding any_manages_over
  manages_over_covered h =
      let (x, mx, p) = any-elim _ a.manage h in
      ground (
        arith,
        c.manages x mx,
        over_of_manages_all g x,
        any_manages_over_trans x.selector k p g.manage,
      )

  hand_out_covered :
      (class : KeyspaceGrantClassV1)
      → may_hand_out a.manage class k ≡ true
      → (g.administer || may_hand_out g.manage class k) ≡ true
  unfolding may_hand_out
  hand_out_covered class h =
      let (x, mx, p) = any-elim _ a.manage h in
      let (q, below) = &&-elim _ _ p in
      ground (
        arith,
        c.manages x mx,
        λ (y : manages_all_of g.manage x ≡ true). hand_out_of_manages_all g x class k y q below,
      )

  holds_read_covered : holds_read_over a k ≡ true → holds_read_over g k ≡ true
  unfolding holds_read_over holds_write_over
  holds_read_covered h =
      ground (arith, reads_over_covered, writes_over_covered, manages_over_covered, c.administers)

  holds_write_covered : holds_write_over a k ≡ true → holds_write_over g k ≡ true
  unfolding holds_write_over
  holds_write_covered h = ground (arith, writes_over_covered, manages_over_covered, c.administers)

module _ (g a : AuthoritySet) (c : Covers g a) where
  hand_out_manage_covered :
      (t : ManageKeyspaceGrantV1)
      → may_hand_out_manage a.manage t ≡ true
      → (g.administer || may_hand_out_manage g.manage t) ≡ true
  unfolding may_hand_out_manage
  hand_out_manage_covered t h =
      let (x, mx, p) = any-elim _ a.manage h in
      let (qs, sub) = &&-elim _ _ p in
      let (q, below) = &&-elim _ _ qs in
      ground (
        arith,
        c.manages x mx,
        λ (y : manages_all_of g.manage x ≡ true).
            hand_out_manage_of_manages_all g x t y q below sub,
      )

  pub Covers-can_create_permission :
      (p : GrantPermissionV1) → can_create_permission a p ≡ true → can_create_permission g p ≡ true
  unfolding can_create_permission
  Covers-can_create_permission (read_keyspace k) h = ground (
    arith,
    c.administers,
    holds_read_covered g a c k,
    hand_out_covered g a c k KeyspaceGrantClassV1.read,
  )
  Covers-can_create_permission (write_keyspace k) h = ground (
    arith,
    c.administers,
    holds_write_covered g a c k,
    hand_out_covered g a c k KeyspaceGrantClassV1.write,
  )
  Covers-can_create_permission (manage_keyspace t) h =
      ground (arith, c.administers, hand_out_manage_covered t)
  Covers-can_create_permission administer h = c.administers h

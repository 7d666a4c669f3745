-- ===== src/Authority/Complete.antt =====
-- Everybody holds a power who should.
use thorax.Prelude.{
  ℕ, zero, suc, ◌≡◌, sym, ap, ◌∙◌, subst, Bool, true, false, ◌||◌, List, [], ◌∷◌, arith, Memᴰ,
  Bool-cases, inl, inr, Option, none, some, ord_discrete,
}
use thorax.Prelude.Map.{get, get_or, get-update_self, get-update_ne}
use thorax.Format.Selector.{GrantPermissionV1}
use thorax.Format.Key.{UserId, PrincipalRefV1, principal_ord}
use thorax.Format.Body.{GroupMemberRecordV1, GrantRecordV1}
use thorax.Authz.{AuthoritySet, no_authority, root}
use thorax.Authz.Grow.{merge_from-changed}
use thorax.Authority.{
  Authorities, authority_of, root_authorities, confer, confer_all, inherit_from, inherit,
  inherit_all, spread,
}
use thorax.Authority.Settle.Round.{group_of, merge_into-elim, Settled}
use thorax.Authority.Powers.{Power}
use thorax.Authority.Sound.{Holds}

module _ (root_user : UserId) (ms : List GroupMemberRecordV1) (gs : List GrantRecordV1)
    (φ : AuthoritySet → Bool) (confers : GrantPermissionV1 → Bool) (power : Power φ confers) where
  abbrev H : PrincipalRefV1 → Type 0
  H = Holds root_user ms gs confers

  -- Completeness: the power is never taken away.
  abbrev pub Kept : Authorities → Authorities → Type 0
  Kept s t = (k : PrincipalRefV1) → φ (authority_of s k) ≡ true → φ (authority_of t k) ≡ true

  authority-confer_self :
      (s : Authorities) (g : GrantRecordV1)
      → φ (authority_of (confer s g) g.subject_id)
        ≡ (φ (authority_of s g.subject_id) || confers g.permission)
  unfolding confer
  authority-confer_self s g =
      ap (λ o. φ (get_or o no_authority)) (get-update_self g.subject_id _ s)
      ∙ power.of_add (authority_of s g.subject_id) g.permission

  Kept-confer : (s : Authorities) (g : GrantRecordV1) → Kept s (confer s g)
  unfolding confer
  Kept-confer s g k q = elim (ord_discrete k g.subject_id) [
    | yes e ↦
        ap (λ k. φ (authority_of (confer s g) k)) e
        ∙ authority-confer_self s g
        ∙ ground (arith, sym (ap (λ k. φ (authority_of s k)) e) ∙ q)
    | no n ↦ ap (λ o. φ (get_or o no_authority)) (get-update_ne k g.subject_id _ s n) ∙ q
  ]

  pub Kept-confer_all : (hs : List GrantRecordV1) (s : Authorities) → Kept s (confer_all s hs)
  unfolding confer_all
  Kept-confer_all [] s k q = q
  Kept-confer_all (g ∷ hs) s k q = Kept-confer_all hs (confer s g) k (Kept-confer s g k q)

  pub confer_all_complete :
      (hs : List GrantRecordV1) (s : Authorities) (g : GrantRecordV1)
      → Memᴰ g hs
      → confers g.permission ≡ true
      → φ (authority_of (confer_all s hs) g.subject_id) ≡ true
  unfolding confer_all
  confer_all_complete [] s g m c = elim m [ ]
  confer_all_complete (h ∷ hs) s g (Memᴰ.head e) c = Kept-confer_all hs (confer s h) g.subject_id (
      subst (λ (h : GrantRecordV1). φ (authority_of (confer s h) g.subject_id) ≡ true) e
        (ground (arith, authority-confer_self s g)))
  confer_all_complete (h ∷ hs) s g (Memᴰ.tail m) c = confer_all_complete hs (confer s h) g m c

  Kept-inherit_from :
      (s : Authorities) (c : Bool) (j : PrincipalRefV1) (o : Option AuthoritySet)
      → Kept s (inherit_from s c j o).0
  unfolding inherit_from
  Kept-inherit_from s c j none = λ k q. q
  Kept-inherit_from s c j (some g) =
      merge_into-elim (λ k a. φ (authority_of s k) ≡ true → φ a ≡ true) s j g
        (λ q. ground (arith, power.of_merge (authority_of s j) g)) (λ k q. q)

  Kept-inherit_all :
      (ns : List GroupMemberRecordV1) (s : Authorities) (c : Bool)
      → Kept s (inherit_all (s, c) ns).0
  unfolding inherit_all inherit
  Kept-inherit_all [] s c k q = q
  Kept-inherit_all (m ∷ ns) s c k q =
      Kept-inherit_all ns (inherit (s, c) m).0 (inherit (s, c) m).1 k
        (Kept-inherit_from s c m.member_id (get s (group_of m)) k q)

  pub Kept-spread : (fuel : ℕ) (s : Authorities) → Kept s (spread fuel ms s)
  unfolding spread
  Kept-spread zero s k q = q
  Kept-spread (suc fuel) s k q =
      let t = Kept-inherit_all ms s false k q in
      elim (Bool-cases (inherit_all (s, false) ms).1) [
        | inl on ↦ rw (on, spread) (Kept-spread fuel _ k t)
        | inr off ↦ rw (off, spread) t
      ]

  Settled-power :
      (s : Authorities) (m : GroupMemberRecordV1)
      → Settled s m
      → φ (authority_of s (group_of m)) ≡ true
      → φ (authority_of s m.member_id) ≡ true
  Settled-power s m h q =
      let a = authority_of s m.member_id in
      let b = authority_of s (group_of m) in
      sym (ap φ ((merge_from-changed a b).0 h)) ∙ power.of_merge a b ∙ ground (arith, q)

  pub complete :
      (s : Authorities)
      → φ (authority_of s (PrincipalRefV1.user root_user)) ≡ true
      → ((g : GrantRecordV1)
          → Memᴰ g gs
          → confers g.permission ≡ true
          → φ (authority_of s g.subject_id) ≡ true)
      → ((m : GroupMemberRecordV1) → Memᴰ m ms → Settled s m)
      → (k : PrincipalRefV1) → H k
      → φ (authority_of s k) ≡ true
  complete s r g t k Holds.as_root = r
  complete s r g t k (Holds.by_grant m c) = g _ m c
  complete s r g t k (Holds.by_group {m} i h) =
      Settled-power s m (t m i) (complete s r g t (group_of m) h)

  pub root-power :
      φ (authority_of (root_authorities root_user) (PrincipalRefV1.user root_user)) ≡ true
  unfolding root_authorities
  root-power =
      ap (λ o. φ (get_or o no_authority))
        (get-update_self (PrincipalRefV1.user root_user) (λ _. root) [])
      ∙ power.of_root

-- ===== src/Authority/Sound.antt =====
-- Nobody holds a power who should not.
use thorax.Prelude.{
  ℕ, zero, suc, ◌≡◌, refl, sym, ap, ◌∙◌, subst, Bool, true, false, ||-elim, List, [], ◌∷◌, arith,
  Memᴰ, Bool-cases, inl, inr, Option, none, some, ord_discrete,
}
use thorax.Prelude.Map.{get, get_or, update, get-update_self, get-update_ne}
use thorax.Format.Selector.{GrantPermissionV1}
use thorax.Format.Key.{UserId, PrincipalRefV1, principal_ord}
use thorax.Format.Body.{GroupMemberRecordV1, GrantRecordV1}
use thorax.Authz.{AuthoritySet, no_authority, root, add_permission}
use thorax.Authority.{
  Authorities, authority_of, root_authorities, confer, confer_all, inherit_from, inherit,
  inherit_all, spread,
}
use thorax.Authority.Settle.Round.{group_of, merge_into-elim}
use thorax.Authority.Powers.{Power}

-- The least answer: the root holds the power, a grant that confers it gives it to its subject, and a
-- group that holds it gives it to its members.
pub data Holds (root_user : UserId) (memberships : List GroupMemberRecordV1)
    (grants : List GrantRecordV1) (confers : GrantPermissionV1 → Bool)
    : PrincipalRefV1 → Type 0 where
  as_root : Holds root_user memberships grants confers (PrincipalRefV1.user root_user)
  by_grant :
      {g : GrantRecordV1}
      → Memᴰ g grants
      → confers g.permission ≡ true
      → Holds root_user memberships grants confers g.subject_id
  by_group :
      {m : GroupMemberRecordV1}
      → Memᴰ m memberships
      → Holds root_user memberships grants confers (PrincipalRefV1.group m.group_id)
      → Holds root_user memberships grants confers m.member_id

module _ (root_user : UserId) (ms : List GroupMemberRecordV1) (gs : List GrantRecordV1)
    (φ : AuthoritySet → Bool) (confers : GrantPermissionV1 → Bool) (power : Power φ confers) where
  abbrev pub H : PrincipalRefV1 → Type 0
  H = Holds root_user ms gs confers

  -- Soundness: nobody holds the power who should not.
  abbrev pub Sound : Authorities → Type 0
  Sound s = (k : PrincipalRefV1) → φ (authority_of s k) ≡ true → H k

  Sound-confer : (s : Authorities) (g : GrantRecordV1) → Memᴰ g gs → Sound s → Sound (confer s g)
  unfolding confer
  Sound-confer s g m h k q = elim (ord_discrete k g.subject_id) [
    | yes e ↦
        let f = λ (old : Option AuthoritySet).
          (add_permission (get_or old no_authority) g.permission).0 in
        let here = ap (λ o. φ (get_or o no_authority)) (get-update_self g.subject_id f s) in
        let there = ap (λ k. φ (authority_of (confer s g) k)) e in
        elim (||-elim _ _ (
          sym (power.of_add (authority_of s g.subject_id) g.permission)
          ∙ sym here
          ∙ sym there
          ∙ q)) [
            | inl old ↦ subst H (sym e) (h g.subject_id old)
            | inr new ↦ subst H (sym e) (Holds.by_grant m new)
          ]
    | no n ↦
        h k (sym (ap (λ o. φ (get_or o no_authority)) (get-update_ne k g.subject_id _ s n)) ∙ q)
  ]

  Sound-inherit_from :
      (s : Authorities) (c : Bool) (j : PrincipalRefV1) (o : Option AuthoritySet)
      → (φ (get_or o no_authority) ≡ true → H j)
      → Sound s
      → Sound (inherit_from s c j o).0
  unfolding inherit_from
  Sound-inherit_from s c j none h t = t
  Sound-inherit_from s c j (some g) h t =
      merge_into-elim (λ k a. φ a ≡ true → H k) s j g
        (λ q. elim (||-elim _ _ (sym (power.of_merge (authority_of s j) g) ∙ q)) [
          | inl own ↦ t j own
          | inr theirs ↦ h theirs
        ])
        t

  Sound-inherit_all :
      (ns : List GroupMemberRecordV1) (s : Authorities) (c : Bool)
      → ((m : GroupMemberRecordV1) → Memᴰ m ns → Memᴰ m ms)
      → Sound s
      → Sound (inherit_all (s, c) ns).0
  unfolding inherit_all inherit
  Sound-inherit_all [] s c i h = h
  Sound-inherit_all (m ∷ ns) s c i h =
      Sound-inherit_all ns (inherit (s, c) m).0 (inherit (s, c) m).1 (λ n k. i n (Memᴰ.tail k))
        (Sound-inherit_from s c m.member_id (get s (group_of m))
          (λ q. Holds.by_group (i m (Memᴰ.head refl)) (h (group_of m) q)) h)

  pub Sound-spread : (fuel : ℕ) (s : Authorities) → Sound s → Sound (spread fuel ms s)
  unfolding spread
  Sound-spread zero s h = h
  Sound-spread (suc fuel) s h =
      let t = Sound-inherit_all ms s false (λ m k. k) h in
      elim (Bool-cases (inherit_all (s, false) ms).1) [
        | inl on ↦ rw (on, spread) (Sound-spread fuel _ t)
        | inr off ↦ rw (off, spread) t
      ]

  pub Sound-root : Sound (root_authorities root_user)
  unfolding root_authorities get update
  Sound-root k q = elim (ord_discrete k (PrincipalRefV1.user root_user)) [
    | yes e ↦ subst H (sym e) Holds.as_root
    | no n ↦ absurd (
        ground (
          arith,
          power.of_none,
          sym (
                ap (λ o. φ (get_or o no_authority))
                  (get-update_ne k (PrincipalRefV1.user root_user) (λ _. root) [] n))
              ∙ q,
        ))
  ]

  pub Sound-confer_all :
      (hs : List GrantRecordV1) (s : Authorities)
      → ((g : GrantRecordV1) → Memᴰ g hs → Memᴰ g gs)
      → Sound s
      → Sound (confer_all s hs)
  unfolding confer_all
  Sound-confer_all [] s i h = h
  Sound-confer_all (g ∷ hs) s i h =
      Sound-confer_all hs (confer s g) (λ n k. i n (Memᴰ.tail k))
        (Sound-confer s g (i g (Memᴰ.head refl)) h)

-- ===== src/Authority/Holding.antt =====
-- Who may do what: exactly the root, those a grant names, and the members of a group that may.
use thorax.Prelude.{◌≡◌, ◌↔◌, Bool, true}
use thorax.Prelude.Map.{BTreeMap, values}
use thorax.Format.Selector.{SecretSelectorV1, GrantPermissionV1}
use thorax.Format.Key.{UserId, GroupMemberId, GrantId, PrincipalRefV1, principal_ord}
use thorax.Format.Body.{GroupMemberRecordV1, GrantRecordV1}
use thorax.Authz.{AuthoritySet, can_read, can_write, can_manage}
use thorax.Authz.Grow.{grants_read, grants_write, grants_manage}
use thorax.Authority.{
  Authorities, authority_of, root_authorities, spread, granted, rounds,
  compute_authorities_from_selected,
}
use thorax.Authority.Settle.{compute_authorities-Settled}
use thorax.Authority.Powers.{
  Power, Power-read, Power-write, Power-manage, Power-administer, grants_administer,
}
use thorax.Authority.Sound.{Holds, Sound-spread, Sound-root, Sound-confer_all}
use thorax.Authority.Complete.{
  Kept-confer_all, confer_all_complete, Kept-spread, complete, root-power,
}

module _ (root_user : UserId) (memberships : BTreeMap GroupMemberId GroupMemberRecordV1)
    (grants : BTreeMap GrantId GrantRecordV1) where
  abbrev authorities : Authorities
  authorities = compute_authorities_from_selected root_user memberships grants

  exact_for :
      (φ : AuthoritySet → Bool) (confers : GrantPermissionV1 → Bool)
      → Power φ confers
      → (p : PrincipalRefV1)
      → (φ (authority_of authorities p) ≡ true)
        ↔ Holds root_user (values memberships) (values grants) confers p
  unfolding compute_authorities_from_selected
  exact_for φ confers power p =
      let ms = values memberships in
      let gs = values grants in
      let s = granted root_user gs in
      let n = rounds ms s in
      let kept = Kept-spread root_user ms gs φ confers power n s in
      (
        Sound-spread root_user ms gs φ confers power n s
            (Sound-confer_all root_user ms gs φ confers power gs (root_authorities root_user)
              (λ g m. m) (Sound-root root_user ms gs φ confers power))
            p,
        complete root_user ms gs φ confers power (spread n ms s)
            (kept (PrincipalRefV1.user root_user) (
              Kept-confer_all root_user ms gs φ confers power gs (root_authorities root_user) _
                (root-power root_user ms gs φ confers power)))
            (λ g m c. kept g.subject_id (
              confer_all_complete root_user ms gs φ confers power gs (root_authorities root_user) g
                m c))
            (compute_authorities-Settled root_user memberships grants).0 p,
      )

-- What a principal is computed to read, write, manage and administer is exactly the least relation
-- in which the root holds every power, a grant gives its subject the power that it confers, and a
-- group that holds a power gives it to its members.
pub authorities_iff :
    (root_user : UserId) (memberships : BTreeMap GroupMemberId GroupMemberRecordV1)
    (grants : BTreeMap GrantId GrantRecordV1) (p : PrincipalRefV1) (s : SecretSelectorV1)
    → ((can_read (authority_of (compute_authorities_from_selected root_user memberships grants) p) s
          ≡ true)
        ↔ Holds root_user (values memberships) (values grants) (grants_read s) p)
      × ((can_write
              (authority_of (compute_authorities_from_selected root_user memberships grants) p)
              s
            ≡ true)
          ↔ Holds root_user (values memberships) (values grants) (grants_write s) p)
      × ((can_manage
              (authority_of (compute_authorities_from_selected root_user memberships grants) p)
              s
            ≡ true)
          ↔ Holds root_user (values memberships) (values grants) (grants_manage s) p)
      × (((authority_of
              (compute_authorities_from_selected root_user memberships grants)
              p).administer
            ≡ true)
          ↔ Holds root_user (values memberships) (values grants) grants_administer p)
authorities_iff root_user memberships grants p s = (
  exact_for root_user memberships grants _ _ (Power-read s) p,
  exact_for root_user memberships grants _ _ (Power-write s) p,
  exact_for root_user memberships grants _ _ (Power-manage s) p,
  exact_for root_user memberships grants _ _ Power-administer p,
)

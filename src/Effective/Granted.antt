-- ===== src/Effective/Granted.antt =====
-- In a state that converged, what is effective was signed by someone with the authority for it.
use thorax.Prelude.{
  ℕ, ◌≡◌, ap, ◌∙◌, subst, true, false, List, Option, some, arith, Memᴰ, Bool-cases, inl, inr,
  bytes_ord, Ord,
}
use thorax.Prelude.Map.{BTreeMap, BTreeSet, get, contains_key}
use thorax.Format.Selector.{Bytes}
use thorax.Format.Key.{HashValue, UserId, GroupId, GroupMemberId, GrantId, RecordKey, key_ord}
use thorax.Format.Body.{
  VaultRecordV1, RecordBodyV1, UserRecordV1, GroupRecordV1, GroupMemberRecordV1, GrantRecordV1,
}
use thorax.Authz.{can_create_permission}
use thorax.Lww.{VerifiedRecord, lww_resolution, partition_lww}
use thorax.Lww.Collect.{Competes}
use thorax.Lww.Winner.{winner_highest}
use thorax.Lww.Partition.{winners-Sorted, live_of-some}
use thorax.Authority.{Authorities, signer_auth, principal_exists}
use thorax.Effective.Select.{
  SelectedAuthorizedRecords, grant_claim, membership_claim, as_grant, as_membership,
  select_authorized_records, selected_grants, selected_memberships, grant_resolution,
  membership_resolution,
}
use thorax.Effective.State.{EffectiveState, compute_effective_state}
use thorax.Effective.Settled.{selects, compute_effective_state-Consistent}

-- A live value of a resolution is that of a record that competes at its key.
live_record :
    {K : Type 0} {V : Type 0} ⦃o : Ord K⦄ (records : List VerifiedRecord)
    (rollback_keys : BTreeMap RecordKey ℕ) (classify : VerifiedRecord → Option K)
    (value : RecordBodyV1 → Option V) (k : K) (v : V)
    → get (partition_lww (lww_resolution records rollback_keys classify).winners value).0 k ≡ some v
    → (r : VerifiedRecord) × Memᴰ r records
      × Competes rollback_keys classify k r
      × (value r.body ≡ some v)
unfolding partition_lww
live_record records rollback_keys classify value k v h =
    let (r, w, q) = live_of-some _ value k v (winners-Sorted records rollback_keys classify) h in
    let (m, c, _) = winner_highest rollback_keys classify k records r w in (r, m, c, q)

as_grant-some :
    (body : RecordBodyV1) (g : GrantRecordV1) → as_grant body ≡ some g → body ≡ RecordBodyV1.grant g
as_grant-some body g e = ground arith

as_membership-some :
    (body : RecordBodyV1) (m : GroupMemberRecordV1)
    → as_membership body ≡ some m
    → body ≡ RecordBodyV1.group_member m
as_membership-some body m e = ground arith

module _ (authorities : Authorities) (admitted_deletions : BTreeSet HashValue)
    (users : BTreeMap UserId UserRecordV1) (groups : BTreeMap GroupId GroupRecordV1) where
  grant_claim-grant :
      (r : VerifiedRecord) (id : GrantId) (g : GrantRecordV1)
      → grant_claim authorities admitted_deletions users groups r (RecordBodyV1.grant g) ≡ some id
      → (g.id ≡ id)
        × (principal_exists g.subject_id users groups ≡ true)
        × (can_create_permission (signer_auth authorities r.signer) g.permission ≡ true)
  unfolding grant_claim
  grant_claim-grant r id g c = elim (Bool-cases (principal_exists g.subject_id users groups)) [
    | inl p ↦
        elim (Bool-cases (can_create_permission (signer_auth authorities r.signer) g.permission)) [
          | inl q ↦ ground arith
          | inr q ↦ absurd (ground arith)
        ]
    | inr p ↦ absurd (ground arith)
  ]

  membership_claim-group_member :
      (r : VerifiedRecord) (id : GroupMemberId) (m : GroupMemberRecordV1)
      → membership_claim authorities admitted_deletions users groups r (RecordBodyV1.group_member m)
        ≡ some id
      → (m.id ≡ id)
        × (contains_key groups m.group_id ≡ true)
        × (principal_exists m.member_id users groups ≡ true)
        × ((signer_auth authorities r.signer).administer ≡ true)
  unfolding membership_claim
  membership_claim-group_member r id m c =
      elim (Bool-cases (signer_auth authorities r.signer).administer) [
        | inl a ↦ elim (Bool-cases (contains_key groups m.group_id)) [
          | inl g ↦ elim (Bool-cases (principal_exists m.member_id users groups)) [
            | inl p ↦ ground arith
            | inr p ↦ absurd (ground arith)
          ]
          | inr g ↦ absurd (ground arith)
        ]
        | inr a ↦ absurd (ground arith)
      ]

module _ (records : List VerifiedRecord) (rollback_keys : BTreeMap RecordKey ℕ)
    (authorities : Authorities) (users : BTreeMap UserId UserRecordV1)
    (groups : BTreeMap GroupId GroupRecordV1) where
  -- A record that carries the body, is not suspected of a rollback, and whose signer may write it.
  abbrev pub GrantedBy : GrantId → GrantRecordV1 → Type 0
  GrantedBy id g =
      (r : VerifiedRecord) × Memᴰ r records
      × (contains_key rollback_keys r.key ≡ false)
      × (r.body ≡ RecordBodyV1.grant g)
      × (g.id ≡ id)
      × (principal_exists g.subject_id users groups ≡ true)
      × (can_create_permission (signer_auth authorities r.signer) g.permission ≡ true)

  abbrev pub JoinedBy : GroupMemberId → GroupMemberRecordV1 → Type 0
  JoinedBy id m =
      (r : VerifiedRecord) × Memᴰ r records
      × (contains_key rollback_keys r.key ≡ false)
      × (r.body ≡ RecordBodyV1.group_member m)
      × (m.id ≡ id)
      × (contains_key groups m.group_id ≡ true)
      × (principal_exists m.member_id users groups ≡ true)
      × ((signer_auth authorities r.signer).administer ≡ true)

module _ (records : List VerifiedRecord) (root_user_record : UserRecordV1)
    (admitted_deletions : BTreeSet HashValue) (rollback_keys : BTreeMap RecordKey ℕ) where
  selected_grant :
      (authorities : Authorities) (id : GrantId) (g : GrantRecordV1)
      → let s = selects records root_user_record admitted_deletions rollback_keys authorities in
        get s.grants id ≡ some g → GrantedBy records rollback_keys authorities s.users s.groups id g
  unfolding select_authorized_records selected_grants grant_resolution
  selected_grant authorities id g at =
      let s = selects records root_user_record admitted_deletions rollback_keys authorities in
      let (r, m, c, q) = live_record records rollback_keys _ as_grant id g at in
      let e = as_grant-some r.body g q in
      let (i, p, a) = grant_claim-grant authorities admitted_deletions _ _ r id g (
        subst (λ b. grant_claim authorities admitted_deletions s.users s.groups r b ≡ some id) e
          c.classified) in
      (r, m, c.no_rollback, e, i, p, a)

  selected_membership :
      (authorities : Authorities) (id : GroupMemberId) (v : GroupMemberRecordV1)
      → let s = selects records root_user_record admitted_deletions rollback_keys authorities in
        get s.memberships id ≡ some v
        → JoinedBy records rollback_keys authorities s.users s.groups id v
  unfolding select_authorized_records selected_memberships membership_resolution
  selected_membership authorities id v at =
      let s = selects records root_user_record admitted_deletions rollback_keys authorities in
      let (r, m, c, q) = live_record records rollback_keys _ as_membership id v at in
      let e = as_membership-some r.body v q in
      let (i, n, p, a) = membership_claim-group_member authorities admitted_deletions _ _ r id v (
        subst (λ b. membership_claim authorities admitted_deletions s.users s.groups r b ≡ some id)
          e c.classified) in
      (r, m, c.no_rollback, e, i, n, p, a)

  module _ (serialize : VaultRecordV1 → Option Bytes) (root_hash : HashValue) where
    abbrev pub computed : EffectiveState
    computed =
        compute_effective_state serialize root_user_record root_hash records admitted_deletions
          rollback_keys

    abbrev selected_by : EffectiveState → SelectedAuthorizedRecords
    selected_by st =
        selects records root_user_record admitted_deletions rollback_keys st.authorities

    -- If the effective state is not flagged as unresolved, then every grant in it stands in a
    -- record whose key is not suspected of a rollback and whose signer, under the authorities of
    -- that state, could create its permission; its subject exists in that state.
    pub compute_effective_state-GrantedBy :
        (id : GrantId) (g : GrantRecordV1)
        → computed.authority_unresolved ≡ false
        → get computed.grants id ≡ some g
        → GrantedBy records rollback_keys computed.authorities computed.users computed.groups id g
    compute_effective_state-GrantedBy id g settled at =
        let (u, v, w, x, y) =
          compute_effective_state-Consistent records root_user_record admitted_deletions
            rollback_keys serialize root_hash settled in
        let h = selected_grant computed.authorities id g (ap (λ m. get m id) x ∙ at) in
        subst (λ us. GrantedBy records rollback_keys computed.authorities us computed.groups id g) u
          (subst
            (λ gs.
              GrantedBy records rollback_keys computed.authorities (selected_by computed).users gs
                id g)
            v h)

    -- If the effective state is not flagged as unresolved, then every membership in it stands in a
    -- record whose key is not suspected of a rollback and whose signer administers under the
    -- authorities of that state; its group and its member exist in that state.
    pub compute_effective_state-JoinedBy :
        (id : GroupMemberId) (m : GroupMemberRecordV1)
        → computed.authority_unresolved ≡ false
        → get computed.memberships id ≡ some m
        → JoinedBy records rollback_keys computed.authorities computed.users computed.groups id m
    compute_effective_state-JoinedBy id m settled at =
        let (u, v, w, x, y) =
          compute_effective_state-Consistent records root_user_record admitted_deletions
            rollback_keys serialize root_hash settled in
        let h = selected_membership computed.authorities id m (ap (λ m. get m id) w ∙ at) in
        subst (λ us. JoinedBy records rollback_keys computed.authorities us computed.groups id m) u
          (subst
            (λ gs.
              JoinedBy records rollback_keys computed.authorities (selected_by computed).users gs id
                m)
            v h)

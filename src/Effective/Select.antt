-- ===== src/Effective/Select.antt =====
-- `select_authorized_records`: the users, groups, memberships and grants that win at their keys among
-- the records whose signers were allowed to write them.
use native.Mathlib.Decide.{ℕ_discrete}
use thorax.Prelude.{
  ℕ, Bool, not, ◌||◌, if◌then◌else◌, ◌==◌, Eq, of_discrete, List, [], ◌∷◌, Option, none, some,
  bytes_ord,
}
use thorax.Prelude.Map.{BTreeMap, BTreeSet, insert, contains_key, extend}
use thorax.Format.Selector.{bytes_eq}
use thorax.Format.Key.{HashValue, UserId, GroupId, GroupMemberId, GrantId, RecordKey, key_ord}
use thorax.Format.Body.{
  RecordBodyV1, UserRecordV1, GroupRecordV1, GroupMemberRecordV1, GrantRecordV1,
}
use thorax.Authz.{can_create_permission}
use thorax.Lww.{VerifiedRecord, ConflictSlot, LwwResolution, lww_resolution, partition_lww}
use thorax.Authority.{Authorities, signer_auth, principal_exists}

pub record SelectedAuthorizedRecords : Type 0 where
  pub users : BTreeMap UserId UserRecordV1
  pub groups : BTreeMap GroupId GroupRecordV1
  pub memberships : BTreeMap GroupMemberId GroupMemberRecordV1
  pub grants : BTreeMap GrantId GrantRecordV1
  pub deleted_users : BTreeSet UserId
  pub deleted_groups : BTreeSet GroupId
  pub deleted_grants : BTreeSet GrantId
  pub conflicted : BTreeMap RecordKey ConflictSlot

abbrev pub nothing_selected : SelectedAuthorizedRecords
nothing_selected = record {
  users = [];
  groups = [];
  memberships = [];
  grants = [];
  deleted_users = [];
  deleted_groups = [];
  deleted_grants = [];
  conflicted = [];
}

-- The classifiers of the four resolutions, by the body of the record.
module _ (authorities : Authorities) (admitted_deletions : BTreeSet HashValue) where
  abbrev administers : VerifiedRecord → Bool
  administers r = (signer_auth authorities r.signer).administer

  abbrev admitted : VerifiedRecord → Bool
  admitted r = contains_key admitted_deletions r.record_hash

  unfoldable pub user_claim : UserId → VerifiedRecord → RecordBodyV1 → Option UserId
  user_claim root_user r (RecordBodyV1.user u) =
      if u.id == root_user || not (administers r) then none else some u.id
  user_claim root_user r (RecordBodyV1.user_deleted d) =
      if d.id == root_user || not (admitted r) then none else some d.id
  user_claim root_user r _ = none

  unfoldable pub group_claim : VerifiedRecord → RecordBodyV1 → Option GroupId
  group_claim r (RecordBodyV1.group g) = if administers r then some g.id else none
  group_claim r (RecordBodyV1.group_deleted d) = if admitted r then some d.id else none
  group_claim r _ = none

  module _ (users : BTreeMap UserId UserRecordV1) (groups : BTreeMap GroupId GroupRecordV1) where
    unfoldable pub membership_claim : VerifiedRecord → RecordBodyV1 → Option GroupMemberId
    membership_claim r (RecordBodyV1.group_member m) =
        if not (administers r)
          || not (contains_key groups m.group_id)
          || not (principal_exists m.member_id users groups)
        then none
        else some m.id
    membership_claim r (RecordBodyV1.group_member_deleted d) =
        if administers r then some d.id else none
    membership_claim r _ = none

    unfoldable pub grant_claim : VerifiedRecord → RecordBodyV1 → Option GrantId
    grant_claim r (RecordBodyV1.grant g) =
        if not (principal_exists g.subject_id users groups)
          || not (can_create_permission (signer_auth authorities r.signer) g.permission)
        then none
        else some g.id
    grant_claim r (RecordBodyV1.grant_deleted d) = if admitted r then some d.id else none
    grant_claim r _ = none

-- The live values of the bodies.
abbrev pub as_group : RecordBodyV1 → Option GroupRecordV1
as_group (RecordBodyV1.group g) = some g
as_group _ = none

abbrev pub as_membership : RecordBodyV1 → Option GroupMemberRecordV1
as_membership (RecordBodyV1.group_member m) = some m
as_membership _ = none

abbrev pub as_grant : RecordBodyV1 → Option GrantRecordV1
as_grant (RecordBodyV1.grant g) = some g
as_grant _ = none

-- The loop over the winning user records: a user without an entry point is neither live nor deleted.
unfoldable pub add_user :
    BTreeSet UserId
    → UserId
    → RecordBodyV1
    → BTreeMap UserId UserRecordV1
    → BTreeMap UserId UserRecordV1
add_user entry_point_users id (RecordBodyV1.user u) users =
    if contains_key entry_point_users id then insert id u users else users
add_user entry_point_users id _ users = users

unfoldable pub add_users :
    BTreeSet UserId
    → BTreeMap UserId VerifiedRecord
    → BTreeMap UserId UserRecordV1
    → BTreeMap UserId UserRecordV1
add_users entry_point_users [] users = users
add_users entry_point_users ((id, r) ∷ winners) users =
    add_users entry_point_users winners (add_user entry_point_users id r.body users)

unfoldable pub mark_deleted : UserId → RecordBodyV1 → BTreeSet UserId → BTreeSet UserId
mark_deleted id (RecordBodyV1.user u) deleted = deleted
mark_deleted id _ deleted = insert id tt deleted

unfoldable pub mark_all_deleted : BTreeMap UserId VerifiedRecord → BTreeSet UserId → BTreeSet UserId
mark_all_deleted [] deleted = deleted
mark_all_deleted ((id, r) ∷ winners) deleted =
    mark_all_deleted winners (mark_deleted id r.body deleted)

module _ (records : List VerifiedRecord) (root_user_record : UserRecordV1)
    (entry_point_users : BTreeSet UserId) (admitted_deletions : BTreeSet HashValue)
    (rollback_keys : BTreeMap RecordKey ℕ) (authorities : Authorities) where
  unfoldable pub user_resolution : LwwResolution UserId
  user_resolution = lww_resolution records rollback_keys (λ (r : VerifiedRecord).
      user_claim authorities admitted_deletions root_user_record.id r r.body)

  unfoldable pub selected_users : BTreeMap UserId UserRecordV1
  selected_users =
      add_users entry_point_users user_resolution.winners
        (insert root_user_record.id root_user_record [])

  unfoldable pub group_resolution : LwwResolution GroupId
  group_resolution =
      lww_resolution records rollback_keys
        (λ (r : VerifiedRecord). group_claim authorities admitted_deletions r r.body)

  unfoldable pub selected_groups : BTreeMap GroupId GroupRecordV1 × BTreeSet GroupId
  selected_groups = partition_lww group_resolution.winners as_group

  unfoldable pub membership_resolution : LwwResolution GroupMemberId
  membership_resolution = lww_resolution records rollback_keys (λ (r : VerifiedRecord).
      membership_claim authorities admitted_deletions selected_users selected_groups.0 r r.body)

  unfoldable pub selected_memberships : BTreeMap GroupMemberId GroupMemberRecordV1
  selected_memberships = (partition_lww membership_resolution.winners as_membership).0

  unfoldable pub grant_resolution : LwwResolution GrantId
  grant_resolution = lww_resolution records rollback_keys (λ (r : VerifiedRecord).
      grant_claim authorities admitted_deletions selected_users selected_groups.0 r r.body)

  unfoldable pub selected_grants : BTreeMap GrantId GrantRecordV1 × BTreeSet GrantId
  selected_grants = partition_lww grant_resolution.winners as_grant

  unfoldable pub select_authorized_records : SelectedAuthorizedRecords
  select_authorized_records = record {
    users = selected_users;
    groups = selected_groups.0;
    memberships = selected_memberships;
    grants = selected_grants.0;
    deleted_users = mark_all_deleted user_resolution.winners [];
    deleted_groups = selected_groups.1;
    deleted_grants = selected_grants.1;
    conflicted =
        extend
          (extend (extend (extend [] user_resolution.conflicted) group_resolution.conflicted)
            membership_resolution.conflicted)
          grant_resolution.conflicted;
  }

selected_discrete : Discrete SelectedAuthorizedRecords
selected_discrete = hlevel ℕ_discrete

-- `next == selected`
instance unfoldable pub selected_eq : Eq SelectedAuthorizedRecords
unfolding selected_discrete ℕ_discrete
selected_eq = of_discrete selected_discrete

-- ===== src/Effective/Examples.antt =====
-- A group, its member and its grant, all signed by the root.
use thorax.Prelude.{
  bytes_ord, ℕ, ◌≡◌, refl, List, [], ◌∷◌, Option, some, false, any, all, find?, count, contains,
  lex,
}
use thorax.Prelude.Map.{get, update, extend, retain}
use thorax.Format.Selector.{
  Bytes, text, read_keyspace, keyspace_all, selector_of_tuple, keyspace_exact, keyspace_prefix,
  bytes_eq, texts_eq, selector_eq, secret_selector_eq, class_eq, manage_eq, permission_eq,
}
use thorax.Format.Key.{PrincipalRefV1, RecordKey, principal_ord, key_ord, principal_eq, key_eq}
use thorax.Format.Body.{
  VaultRecordV1, RecordBodyV1, UserRecordV1, GrantRecordV1, GroupMemberRecordV1, unknown_kind,
  lww_counter, with_lww_counter, is_deletion, known, body_eq, vault_record_eq,
}
use thorax.Lww.{
  VerifiedRecord, counter_of, slot_push, sort_insert, sort, dedup_from, dedup, min_by_hash,
  diverging, winner_of, conflict_slot, conflict_of, offer, collect, settle_winners,
  settle_conflicts, lww_resolution, live_of, deleted_of, partition_lww, compare_lww,
}
use thorax.Effective.State.{
  EffectiveState, compute_effective_state, entry_point_users, authorities_eq, converge, converged,
  handle_claim, vault_handle_claim, entry_point_claim, handle_resolution, vault_handle_resolution,
  entry_point_resolution,
}
use thorax.Effective.Settled.{Consistent, compute_effective_state-Consistent}
use thorax.Effective.Granted.{
  GrantedBy, JoinedBy, compute_effective_state-GrantedBy, compute_effective_state-JoinedBy,
}
use thorax.Authz.{
  starts_with, tuple_matches, tuple_subsumes, secret_label_value, child_label_matcher,
  label_matches, label_subsumes, labels_subsume, selector_matches, selector_subsumes, has_grantable,
  grantable_subset, push_unique, no_authority, root, add_permission, any_matches, any_manages,
  can_read, can_write, can_manage, any_subsumes, any_manages_over, holds_read_over,
  holds_write_over, may_hand_out, may_hand_out_manage, can_create_permission, as_grant_permissions,
  push_all, merge_from,
}
use thorax.Authority.{
  root_authorities, signer_auth, principal_exists, confer, confer_all, merge_into, inherit_from,
  inherit, inherit_all, spread, compute_authorities_from_selected,
}
use thorax.Effective.Select.{
  user_claim, group_claim, membership_claim, grant_claim, add_user, add_users, mark_deleted,
  mark_all_deleted, user_resolution, selected_users, group_resolution, selected_groups,
  membership_resolution, selected_memberships, grant_resolution, selected_grants,
  select_authorized_records, selected_eq,
}
use thorax.Effective.Report.{
  sort_record, sort_records, dedup_records, canonical, candidates_of, materialize_conflicts,
}

runs : Unit {0}
unfolding any all find? count contains lex get update extend retain selector_of_tuple keyspace_all
    keyspace_exact keyspace_prefix bytes_eq texts_eq selector_eq secret_selector_eq class_eq
    manage_eq permission_eq principal_ord key_ord principal_eq key_eq lww_counter with_lww_counter
    is_deletion known body_eq vault_record_eq starts_with tuple_matches tuple_subsumes
    secret_label_value child_label_matcher label_matches label_subsumes labels_subsume
    selector_matches selector_subsumes has_grantable grantable_subset push_unique no_authority root
    add_permission any_matches any_manages can_read can_write can_manage any_subsumes
    any_manages_over holds_read_over holds_write_over may_hand_out may_hand_out_manage
    can_create_permission as_grant_permissions push_all merge_from root_authorities signer_auth
    principal_exists confer confer_all merge_into inherit_from inherit inherit_all spread
    compute_authorities_from_selected counter_of slot_push sort_insert sort dedup_from dedup
    min_by_hash diverging winner_of conflict_slot conflict_of offer collect settle_winners
    settle_conflicts lww_resolution live_of deleted_of partition_lww compare_lww user_claim
    group_claim membership_claim grant_claim add_user add_users mark_deleted mark_all_deleted
    user_resolution selected_users group_resolution selected_groups membership_resolution
    selected_memberships grant_resolution selected_grants select_authorized_records selected_eq
    entry_point_users authorities_eq converge converged handle_claim vault_handle_claim
    entry_point_claim handle_resolution vault_handle_resolution entry_point_resolution
    compute_effective_state sort_record sort_records dedup_records canonical candidates_of
    materialize_conflicts
runs = tt

abbrev serialize : VaultRecordV1 → Option Bytes
serialize v = some v.signature

abbrev root_user : UserRecordV1
root_user = record {
  id = 1 ∷ [];
  signing_public_key = 1 ∷ [];
  hpke_public_key = 1 ∷ [];
  counter = 0;
}

abbrev by_root : ℕ → RecordKey → RecordBodyV1 → VerifiedRecord
by_root hash key body = record {
  signed = record { body = unknown_kind []; signing_public_key = 1 ∷ []; signature = hash ∷ [] };
  body = body;
  key = key;
  record_hash = hash ∷ [];
  signer = 1 ∷ [];
}

abbrev grant : GrantRecordV1
grant = record {
  id = 7 ∷ [];
  seed = [];
  subject_id = PrincipalRefV1.group (5 ∷ []);
  permission = read_keyspace keyspace_all;
  counter = 1;
}

abbrev membership : GroupMemberRecordV1
membership = record {
  id = 9 ∷ [];
  group_id = 5 ∷ [];
  member_id = PrincipalRefV1.user (1 ∷ []);
  counter = 1;
}

abbrev log : List VerifiedRecord
log =
    by_root 1 (RecordKey.group (5 ∷ []))
      (RecordBodyV1.group (record { id = 5 ∷ []; seed = []; handle = text "team"; counter = 1 }))
    ∷ by_root 2 (RecordKey.grant (7 ∷ [])) (RecordBodyV1.grant grant)
    ∷ by_root 3 (RecordKey.group_member (9 ∷ [])) (RecordBodyV1.group_member membership)
    ∷ []

abbrev state : EffectiveState
state = compute_effective_state serialize root_user (1 ∷ []) log [] []

resolved : state.authority_unresolved ≡ false
unfolding runs
resolved = refl

compute_effective_state-Consistent_example : Consistent log root_user [] [] state
compute_effective_state-Consistent_example =
    compute_effective_state-Consistent log root_user [] [] serialize (1 ∷ []) resolved

granted_at : get state.grants (7 ∷ []) ≡ some grant
unfolding runs
granted_at = refl

compute_effective_state-GrantedBy_example :
    GrantedBy log [] state.authorities state.users state.groups (7 ∷ []) grant
compute_effective_state-GrantedBy_example =
    compute_effective_state-GrantedBy log root_user [] [] serialize (1 ∷ []) (7 ∷ []) grant resolved
      granted_at

joined_at : get state.memberships (9 ∷ []) ≡ some membership
unfolding runs
joined_at = refl

compute_effective_state-JoinedBy_example :
    JoinedBy log [] state.authorities state.users state.groups (9 ∷ []) membership
compute_effective_state-JoinedBy_example =
    compute_effective_state-JoinedBy log root_user [] [] serialize (1 ∷ []) (9 ∷ []) membership
      resolved joined_at

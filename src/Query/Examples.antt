-- ===== src/Query/Examples.antt =====
-- A secret written twice by a user who may write everything, and the theorems at it.
use thorax.Prelude.{
  ℕ, ◌≡◌, ◌≢◌, ◌↔◌, refl, List, [], ◌∷◌, none, some, true, false, Memᴰ, bytes_ord, any, all, find?,
  count, contains, lex,
}
use Prim.Native.Nat.Ordering.{gt}
use thorax.Format.Selector.{
  SecretSelectorV1, text, selector_of_tuple, keyspace_all, keyspace_exact, keyspace_prefix,
  bytes_eq, texts_eq, selector_eq, secret_selector_eq, class_eq, manage_eq, permission_eq,
}
use thorax.Format.Key.{RecordKey, UserId, principal_ord, key_ord, principal_eq, key_eq}
use thorax.Format.Body.{
  RecordBodyV1, unknown_kind, lww_counter, with_lww_counter, is_deletion, known, body_eq,
  vault_record_eq,
}
use thorax.Authz.{
  root, starts_with, tuple_matches, tuple_subsumes, secret_label_value, child_label_matcher,
  label_matches, label_subsumes, labels_subsume, selector_matches, selector_subsumes, has_grantable,
  grantable_subset, push_unique, no_authority, add_permission, any_matches, any_manages, can_read,
  can_write, can_manage, any_subsumes, any_manages_over, holds_read_over, holds_write_over,
  may_hand_out, may_hand_out_manage, can_create_permission, as_grant_permissions, push_all,
  merge_from,
}
use thorax.Crypto.{
  CryptoProvider, derive_secret_id, canonical_bytes, derive_hash, derive_user_id,
  derive_seeded_hash, key_hash, signed_record_message, record_hash, derive_user_handle_id,
  derive_vault_handle_id, derive_grant_id, derive_group_id, derive_group_member_id,
}
use thorax.Format.Key.{PrincipalRefV1}
use thorax.Lww.{
  VerifiedRecord, compare_lww, counter_of, slot_push, sort_insert, sort, dedup_from, dedup,
  min_by_hash, diverging, winner_of, conflict_slot, conflict_of, offer, collect, settle_winners,
  settle_conflicts, lww_resolution, live_of, deleted_of, partition_lww,
}
use thorax.Effective.State.{EffectiveState}
use thorax.Pipeline.Report.{unresolved_state}
use thorax.Query.{
  authorized_secret, attach_verified_records, latest_authorized_secret_record, authority_for_user,
  authority_for_group, user_for_signing_key, readers_among, current_reader_entries,
  secret_record_identity, get_elem?, index_record, index_from,
}
use thorax.Query.Secrets.{
  classify_secret_for_user, active_decryptable, live_at, classify_value, classify_at,
  secret_conflict, secret_record, secret_missing_reader, secret_is_deleted, secret_conflicts,
  secret_record_is_current, listed_slots, active_slots, secret_records, next_counter,
  rollback_counter_floor,
}
use thorax.Query.Index.{scan, latest_authorized_secret_record-scan}
use thorax.Query.Greatest.{latest_authorized_secret_record-greatest}
use thorax.Query.Classify.{Exposed, classify_secret_for_user_iff}
use thorax.Prelude.Map.{get, update, extend, retain}
use thorax.Handle.{
  is_whitespace, trim_start, trim_end, to_ascii_lowercase, normalize_handle, utf8_char, as_bytes,
  is_alnum, is_inner, is_valid_bytes, is_valid_handle,
}
use thorax.Structure.{
  ascending, sorted_unique, validate_sorted_unique_secret_labels,
  validate_sorted_unique_keyspace_labels, validate_sorted_unique_strings, ascending_classes,
  validate_sorted_unique_grantable, validate_secret_selector, validate_label_values,
  validate_keyspace_selector, validate_permission,
}
use thorax.Structure.Record.{
  distinct_slots, structurally_valid_user, validate_body, structurally_validate_record,
}
use thorax.Authority.{
  root_authorities, signer_auth, principal_exists, confer, confer_all, merge_into, inherit_from,
  inherit, inherit_all, spread, compute_authorities_from_selected,
}

runs : Unit {0}
unfolding any all find? count contains lex get update extend retain selector_of_tuple keyspace_all
    keyspace_exact keyspace_prefix bytes_eq texts_eq selector_eq secret_selector_eq class_eq
    manage_eq permission_eq principal_ord key_ord principal_eq key_eq lww_counter with_lww_counter
    is_deletion known body_eq vault_record_eq is_whitespace trim_start trim_end to_ascii_lowercase
    normalize_handle utf8_char as_bytes is_alnum is_inner is_valid_bytes is_valid_handle
    canonical_bytes derive_hash derive_user_id derive_seeded_hash key_hash signed_record_message
    record_hash derive_user_handle_id derive_vault_handle_id derive_grant_id derive_group_id
    derive_group_member_id derive_secret_id ascending sorted_unique
    validate_sorted_unique_secret_labels validate_sorted_unique_keyspace_labels
    validate_sorted_unique_strings ascending_classes validate_sorted_unique_grantable
    validate_secret_selector validate_label_values validate_keyspace_selector validate_permission
    distinct_slots structurally_valid_user validate_body structurally_validate_record starts_with
    tuple_matches tuple_subsumes secret_label_value child_label_matcher label_matches label_subsumes
    labels_subsume selector_matches selector_subsumes has_grantable grantable_subset push_unique
    no_authority root add_permission any_matches any_manages can_read can_write can_manage
    any_subsumes any_manages_over holds_read_over holds_write_over may_hand_out may_hand_out_manage
    can_create_permission as_grant_permissions push_all merge_from root_authorities signer_auth
    principal_exists confer confer_all merge_into inherit_from inherit inherit_all spread
    compute_authorities_from_selected counter_of slot_push sort_insert sort dedup_from dedup
    min_by_hash diverging winner_of conflict_slot conflict_of offer collect settle_winners
    settle_conflicts lww_resolution live_of deleted_of partition_lww compare_lww authority_for_user
    authority_for_group user_for_signing_key readers_among current_reader_entries
    secret_record_identity get_elem? authorized_secret index_record index_from
    attach_verified_records latest_authorized_secret_record live_at classify_value classify_at
    classify_secret_for_user secret_conflict secret_record secret_missing_reader secret_is_deleted
    secret_conflicts secret_record_is_current listed_slots active_slots secret_records next_counter
    rollback_counter_floor scan
runs = tt

abbrev selector : SecretSelectorV1
selector = record { tuple = text "app" ∷ []; labels = [] }

abbrev writer : UserId
writer = 1 ∷ []

abbrev written : ℕ → ℕ → VerifiedRecord
written counter hash = record {
  signed = record { body = unknown_kind []; signing_public_key = []; signature = [] };
  body = RecordBodyV1.secret (record {
    id = 7 ∷ [];
    selector = selector;
    sealed = record {
      nonce = [];
      ciphertext = [];
      recipient_slots =
          record { recipient_id = writer; hpke_encapsulated_key = []; wrapped_content_key = [] }
          ∷ [];
    };
    counter = counter;
  });
  key = RecordKey.secret (7 ∷ []);
  record_hash = hash ∷ [];
  signer = writer;
}

abbrev log : List VerifiedRecord
log = written 2 5 ∷ written 3 8 ∷ []

abbrev settled : EffectiveState
settled = record unresolved_state {
  authority_unresolved = false;
  authorities = (PrincipalRefV1.user writer, root) ∷ [];
  users =
      (writer, record { id = writer; signing_public_key = []; hpke_public_key = []; counter = 0 })
      ∷ [];
}

abbrev state : EffectiveState
state = attach_verified_records settled log none

abbrev crypto : CryptoProvider
crypto = record {
  serialize = λ value. some (7 ∷ []);
  hash = λ domain bytes. bytes;
  verify_signature = λ domain key message signature. true;
}

latest_authorized_secret_record-scan_example :
    latest_authorized_secret_record state (7 ∷ []) ≡ scan settled.authorities (7 ∷ []) log none
latest_authorized_secret_record-scan_example =
    latest_authorized_secret_record-scan settled log none (7 ∷ [])

latest : latest_authorized_secret_record state (7 ∷ []) ≡ some (written 3 8)
unfolding runs
latest = refl

latest_authorized_secret_record-greatest_example :
    Memᴰ (written 3 8) log
    × (authorized_secret settled.authorities (written 3 8) ≡ some (7 ∷ []))
    × ((x : VerifiedRecord)
        → Memᴰ x log
        → authorized_secret settled.authorities x ≡ some (7 ∷ [])
        → compare_lww x (written 3 8) ≢ gt)
latest_authorized_secret_record-greatest_example =
    latest_authorized_secret_record-greatest settled log none (7 ∷ []) (written 3 8) latest

-- The user who wrote the value, and to whom it is wrapped, may open it.
opens : classify_secret_for_user state crypto selector writer ≡ active_decryptable
unfolding runs
opens = refl

classify_secret_for_user_iff_example :
    (classify_secret_for_user state crypto selector writer ≡ active_decryptable)
    ↔ Exposed state writer (derive_secret_id crypto selector)
classify_secret_for_user_iff_example = classify_secret_for_user_iff state writer crypto selector

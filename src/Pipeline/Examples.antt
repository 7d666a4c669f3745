-- ===== src/Pipeline/Examples.antt =====
-- A vault with a root, a user and a group that was deleted, and the theorems at it.
use Prim.Native.Nat.{max}
use thorax.Prelude.{
  ℕ, ◌+◌, ◌≤◌, ◌<◌, ◌≡◌, ◌≢◌, ◌⊎◌, refl, List, [], ◌∷◌, ◌++◌, some, true, false, Bool, Memᴰ, arith,
  bytes_ord, any, all, find?, count, contains, lex,
}
use thorax.Prelude.Map.{get, BTreeMap, BTreeSet, contains_key, update, extend, retain}
use thorax.Format.Selector.{
  Bytes, text, selector_of_tuple, keyspace_all, keyspace_exact, keyspace_prefix, bytes_eq, texts_eq,
  selector_eq, secret_selector_eq, class_eq, manage_eq, permission_eq,
}
use thorax.Format.Key.{RecordKey, UserId, HashValue, key_ord, principal_ord, principal_eq, key_eq}
use thorax.Format.Body.{
  VaultRecordV1, RecordBodyV1, VaultRootRecordV1, known_kind, lww_counter, with_lww_counter,
  is_deletion, known, body_eq, vault_record_eq,
}
use thorax.Ratchet.{
  Ratchet, apply_update, new, raise, raise_all, remember_all, raise_version, watermark_records,
  version_records, to_records, absorb_origin, absorb_at, absorb_keyed, absorb_record, absorb_all,
}
use thorax.Ratchet.Monotone.{watermark}
use thorax.Lww.{
  VerifiedRecord, counter_of, slot_push, sort_insert, sort, dedup_from, dedup, min_by_hash,
  diverging, winner_of, conflict_slot, conflict_of, offer, collect, settle_winners,
  settle_conflicts, lww_resolution, live_of, deleted_of, partition_lww, compare_lww,
}
use thorax.Crypto.{
  CryptoProvider, Serialize, vault_record, canonical_bytes, derive_hash, derive_user_id,
  derive_seeded_hash, key_hash, signed_record_message, record_hash, derive_user_handle_id,
  derive_vault_handle_id, derive_grant_id, derive_group_id, derive_group_member_id,
  derive_secret_id,
}
use thorax.Structure.Record.{
  max_lww_counter, distinct_slots, structurally_valid_user, validate_body,
  structurally_validate_record,
}
use thorax.Effective.State.{
  EffectiveState, entry_point_users, authorities_eq, converge, converged, handle_claim,
  vault_handle_claim, entry_point_claim, handle_resolution, vault_handle_resolution,
  entry_point_resolution, compute_effective_state,
}
use thorax.Query.Secrets.{
  next_counter, live_at, classify_value, classify_at, classify_secret_for_user, secret_conflict,
  secret_record, secret_missing_reader, secret_is_deleted, secret_conflicts,
  secret_record_is_current, listed_slots, active_slots, secret_records, rollback_counter_floor,
}
use thorax.Pipeline.Report.{record_key_for}
use thorax.Pipeline.Root.{
  Hashed, SelectedRoot, user_from_root, distinct_records, signature_verifies, try_verify, trusted,
  root_match, root_matches, choose_root, select_root,
}
use thorax.Pipeline.Signers.{
  Signers, attested_among, resolution, user_body_of, user_bodies, introduce_pass, introduce_all,
  introductions, attest, attest_all, settle_claim, settle_claims, resolve_signers,
}
use thorax.Pipeline.Records.{
  Checked, nothing_checked, check_signature, check_signer, check_record, take_in, verify_records,
}
use thorax.Pipeline.Validate.{
  report_of, version_of, warnings_for, current_watermarks, rollback_keys, final_state,
  secret_resolution, effective_state, ratchet_update, validate_under, validate_v1,
  validate_vault_with_verified, validate_vault,
}
use thorax.Pipeline.Signers.Introduce.{introductions-settled}
use thorax.Pipeline.Signers.Commit.{Commits}
use thorax.Pipeline.Signers.Resolve.{Held, resolve_signers-Held}
use thorax.Pipeline.Records.Sound.{IsVerified, verify_records-IsVerified}
use thorax.Pipeline.Deletions.Admit.{Settled, resolve_effective_with_deletions-Settled}
use thorax.Pipeline.Deletions.Refine.{Admits, Reach, resolve_effective_with_deletions-refines}
use thorax.Pipeline.Watermarks.Remember.{CountedAt, counts, marks, admitted_watermarks-greatest}
use thorax.Pipeline.Validate.Rollback.{
  current, effective_state-rollback, apply_update-ratchet_update,
}
use thorax.Pipeline.Validate.Lamport.{provisionally_admitted, report_of-next_counter}
use thorax.Handle.{
  is_whitespace, trim_start, trim_end, to_ascii_lowercase, normalize_handle, utf8_char, as_bytes,
  is_alnum, is_inner, is_valid_bytes, is_valid_handle,
}
use thorax.Structure.{
  ascending, sorted_unique, validate_sorted_unique_secret_labels,
  validate_sorted_unique_keyspace_labels, validate_sorted_unique_strings, ascending_classes,
  validate_sorted_unique_grantable, validate_secret_selector, validate_label_values,
  validate_keyspace_selector, validate_permission,
}
use thorax.Authz.{
  starts_with, tuple_matches, tuple_subsumes, secret_label_value, child_label_matcher,
  label_matches, label_subsumes, labels_subsume, selector_matches, selector_subsumes, has_grantable,
  grantable_subset, push_unique, no_authority, root, add_permission, any_matches, any_manages,
  can_read, can_write, can_manage, any_subsumes, any_manages_over, holds_read_over,
  holds_write_over, may_hand_out, may_hand_out_manage, can_create_permission, as_grant_permissions,
  push_all, merge_from,
}
use thorax.Authority.{
  root_authorities, signer_auth, principal_exists, confer, confer_all, merge_into, inherit_from,
  inherit, inherit_all, spread, compute_authorities_from_selected,
}
use thorax.Effective.Select.{
  user_claim, group_claim, membership_claim, grant_claim, add_user, add_users, mark_deleted,
  mark_all_deleted, user_resolution, selected_users, group_resolution, selected_groups,
  membership_resolution, selected_memberships, grant_resolution, selected_grants,
  select_authorized_records, selected_eq,
}
use thorax.Effective.Report.{
  sort_record, sort_records, dedup_records, canonical, candidates_of, materialize_conflicts,
}
use thorax.Query.{
  authority_for_user, authority_for_group, user_for_signing_key, readers_among,
  current_reader_entries, secret_record_identity, get_elem?, authorized_secret, index_record,
  index_from, attach_verified_records, latest_authorized_secret_record,
}
use thorax.Pipeline.Deletions.{
  sort_candidate, deletion_candidates, grant_deleted_authorized, deletion_authorized, admissible,
  newly_admitted, state_with, admit, resolve_effective_with_deletions,
}
use thorax.Pipeline.Watermarks.{
  mark_at, record_origin, attested_users, body_admitted, watermarks_from, origins_from, is_admitted,
  admitted_watermarks, suspected, raised, new_origins, survivors, rollback_report, report_rollbacks,
  highest,
}

runs : Unit {0}
unfolding any all find? count contains lex get update extend retain selector_of_tuple keyspace_all
    keyspace_exact keyspace_prefix bytes_eq texts_eq selector_eq secret_selector_eq class_eq
    manage_eq permission_eq principal_ord key_ord principal_eq key_eq lww_counter with_lww_counter
    is_deletion known body_eq vault_record_eq is_whitespace trim_start trim_end to_ascii_lowercase
    normalize_handle utf8_char as_bytes is_alnum is_inner is_valid_bytes is_valid_handle
    canonical_bytes derive_hash derive_user_id derive_seeded_hash key_hash signed_record_message
    record_hash derive_user_handle_id derive_vault_handle_id derive_grant_id derive_group_id
    derive_group_member_id derive_secret_id ascending sorted_unique
    validate_sorted_unique_secret_labels validate_sorted_unique_keyspace_labels
    validate_sorted_unique_strings ascending_classes validate_sorted_unique_grantable
    validate_secret_selector validate_label_values validate_keyspace_selector validate_permission
    distinct_slots structurally_valid_user validate_body structurally_validate_record starts_with
    tuple_matches tuple_subsumes secret_label_value child_label_matcher label_matches label_subsumes
    labels_subsume selector_matches selector_subsumes has_grantable grantable_subset push_unique
    no_authority root add_permission any_matches any_manages can_read can_write can_manage
    any_subsumes any_manages_over holds_read_over holds_write_over may_hand_out may_hand_out_manage
    can_create_permission as_grant_permissions push_all merge_from root_authorities signer_auth
    principal_exists confer confer_all merge_into inherit_from inherit inherit_all spread
    compute_authorities_from_selected counter_of slot_push sort_insert sort dedup_from dedup
    min_by_hash diverging winner_of conflict_slot conflict_of offer collect settle_winners
    settle_conflicts lww_resolution live_of deleted_of partition_lww compare_lww new raise raise_all
    remember_all raise_version apply_update watermark_records version_records to_records
    absorb_origin absorb_at absorb_keyed absorb_record absorb_all user_claim group_claim
    membership_claim grant_claim add_user add_users mark_deleted mark_all_deleted user_resolution
    selected_users group_resolution selected_groups membership_resolution selected_memberships
    grant_resolution selected_grants select_authorized_records selected_eq entry_point_users
    authorities_eq converge converged handle_claim vault_handle_claim entry_point_claim
    handle_resolution vault_handle_resolution entry_point_resolution compute_effective_state
    sort_record sort_records dedup_records canonical candidates_of materialize_conflicts
    authority_for_user authority_for_group user_for_signing_key readers_among current_reader_entries
    secret_record_identity get_elem? authorized_secret index_record index_from
    attach_verified_records latest_authorized_secret_record live_at classify_value classify_at
    classify_secret_for_user secret_conflict secret_record secret_missing_reader secret_is_deleted
    secret_conflicts secret_record_is_current listed_slots active_slots secret_records next_counter
    rollback_counter_floor record_key_for user_from_root distinct_records signature_verifies
    try_verify trusted root_match root_matches choose_root select_root attested_among resolution
    user_body_of user_bodies introduce_pass introduce_all introductions attest attest_all
    settle_claim settle_claims resolve_signers check_signature check_signer check_record take_in
    verify_records sort_candidate deletion_candidates grant_deleted_authorized deletion_authorized
    admissible newly_admitted state_with admit resolve_effective_with_deletions record_origin
    attested_users body_admitted watermarks_from origins_from is_admitted admitted_watermarks
    suspected raised new_origins survivors rollback_report report_rollbacks highest version_of
    warnings_for current_watermarks rollback_keys final_state secret_resolution effective_state
    ratchet_update report_of validate_under validate_v1 validate_vault_with_verified validate_vault
runs = tt

-- Serialisation keeps the bytes, the hash is the identity, and a signature that is not empty is
-- valid.
abbrev bytes_of : Serialize → Bytes
bytes_of (Serialize.user_id_input i) = i.signing_public_key ++ i.hpke_public_key
bytes_of (Serialize.byte_vec bytes) = bytes
bytes_of (Serialize.id_seed seed) = seed
bytes_of (Serialize.vault_record signed) = signed.signature
bytes_of _ = []

abbrev is_signature : Bytes → Bool
is_signature [] = false
is_signature (b ∷ bytes) = true

abbrev crypto : CryptoProvider
crypto = record {
  serialize = λ value. some (bytes_of value);
  hash = λ domain bytes. bytes;
  verify_signature = λ domain key message signature. is_signature signature;
}

abbrev signed_by_root : ℕ → RecordBodyV1 → VaultRecordV1
signed_by_root n body = record {
  body = known_kind body;
  signing_public_key = 1 ∷ [];
  signature = n ∷ [];
}

abbrev root_record : VaultRootRecordV1
root_record = record { id = 1 ∷ 1 ∷ []; hpke_public_key = 1 ∷ [] }

abbrev selected_root : SelectedRoot
selected_root = record {
  root = root_record;
  signing_public_key = 1 ∷ [];
  root_signing_public_key_hash = 1 ∷ [];
}

abbrev bodies : List (ℕ × RecordKey × RecordBodyV1)
bodies =
    (20, RecordKey.vault_root, RecordBodyV1.vault_root root_record)
    ∷ (
      21,
      RecordKey.user (2 ∷ 3 ∷ []),
      RecordBodyV1.user (record {
        id = 2 ∷ 3 ∷ [];
        signing_public_key = 2 ∷ [];
        hpke_public_key = 3 ∷ [];
        counter = 1;
      }),
    )
    ∷ (
      22,
      RecordKey.group (5 ∷ []),
      RecordBodyV1.group (record { id = 5 ∷ []; seed = 5 ∷ []; handle = text "team"; counter = 1 }),
    )
    ∷ (
      23,
      RecordKey.group (5 ∷ []),
      RecordBodyV1.group_deleted (record { id = 5 ∷ []; counter = 2 }),
    )
    ∷ []

abbrev hashed_of : List (ℕ × RecordKey × RecordBodyV1) → List Hashed
hashed_of [] = []
hashed_of ((n, key, body) ∷ rest) = (signed_by_root n body, n ∷ []) ∷ hashed_of rest

abbrev verified_of : List (ℕ × RecordKey × RecordBodyV1) → List VerifiedRecord
verified_of [] = []
verified_of ((n, key, body) ∷ rest) =
    record {
      signed = signed_by_root n body;
      body = body;
      key = key;
      record_hash = n ∷ [];
      signer = 1 ∷ 1 ∷ [];
    }
    ∷ verified_of rest

abbrev hashed : List Hashed
hashed = hashed_of bodies

abbrev records : List VerifiedRecord
records = verified_of bodies

abbrev signers : Signers
signers = record {
  signer_for_key = (1 ∷ [], 1 ∷ 1 ∷ []) ∷ (2 ∷ [], 2 ∷ 3 ∷ []) ∷ [];
  contested_keys = [];
  ambiguous_keys = [];
}

abbrev checked : Checked
checked = record { verified_records = records; issues = []; unknown_records = 0 }

abbrev ratchet : Ratchet
ratchet = record {
  trusted_root = 1 ∷ [];
  watermarks = (RecordKey.group (5 ∷ []), 10) ∷ [];
  origins = [];
  format_version = 0;
  unknown_records = [];
}

introductions-settled_example :
    introduce_pass crypto []
      (user_bodies crypto hashed)
      (introductions crypto [] selected_root hashed)
      false
    ≡ (introductions crypto [] selected_root hashed, false)
introductions-settled_example = introductions-settled crypto [] selected_root hashed

resolves : resolve_signers crypto [] selected_root hashed ≡ some signers
unfolding runs
resolves = refl

resolve_signers-Held_example :
    Held crypto [] (user_bodies crypto hashed) (1 ∷ []) (1 ∷ 1 ∷ []) signers
    × ((key : Bytes) (id : UserId)
        → key ≢ 1 ∷ []
        → get signers.signer_for_key key ≡ some id
        → Commits crypto key id)
resolve_signers-Held_example = resolve_signers-Held crypto [] selected_root hashed signers resolves

checks : verify_records crypto [] selected_root signers hashed nothing_checked ≡ some checked
unfolding runs
checks = refl

resolve_effective_with_deletions-Settled_example :
    Settled crypto selected_root records []
      (resolve_effective_with_deletions crypto selected_root records [])
resolve_effective_with_deletions-Settled_example =
    resolve_effective_with_deletions-Settled crypto selected_root records []

deletes_group :
    contains_key (resolve_effective_with_deletions crypto selected_root records []).1 (23 ∷ [])
    ≡ true
unfolding runs
deletes_group = refl

-- The deletion of a group by the user, who does not administer.
abbrev by_user : VerifiedRecord
by_user = record {
  signed = signed_by_root 24 (RecordBodyV1.group_deleted (record { id = 5 ∷ []; counter = 3 }));
  body = RecordBodyV1.group_deleted (record { id = 5 ∷ []; counter = 3 });
  key = RecordKey.group (5 ∷ []);
  record_hash = 24 ∷ [];
  signer = 2 ∷ 3 ∷ [];
}

refuses_user :
    contains_key
      (resolve_effective_with_deletions crypto selected_root (by_user ∷ records) []).1
      (24 ∷ [])
    ≡ false
unfolding runs
refuses_user = refl

abbrev state : EffectiveState
state = (resolve_effective_with_deletions crypto selected_root records []).0

abbrev deleted : BTreeSet HashValue
deleted = (resolve_effective_with_deletions crypto selected_root records []).1

resolve_effective_with_deletions-refines_example :
    Reach crypto selected_root records [] [] deleted
    × ((after : BTreeSet HashValue) → ¬ Admits crypto selected_root records [] deleted after)
    × (state ≡ state_with crypto selected_root records [] deleted)
resolve_effective_with_deletions-refines_example =
    resolve_effective_with_deletions-refines crypto selected_root records []

admitted_watermarks-greatest_example :
    ((r : VerifiedRecord) (c : ℕ)
      → Memᴰ r records
      → counts records state deleted r ≡ true
      → lww_counter r.body ≡ some c
      → c ≤ mark_at (marks records state deleted) r.key)
    × ((key : RecordKey)
        → (mark_at (marks records state deleted) key ≡ 0)
          ⊎ CountedAt
              (counts records state deleted)
              records
              key
              (mark_at (marks records state deleted) key))
admitted_watermarks-greatest_example = admitted_watermarks-greatest records state deleted

abbrev group_key : RecordKey
group_key = RecordKey.group (5 ∷ [])

abbrev marked : BTreeMap RecordKey ℕ
marked = current crypto ratchet selected_root records

two : mark_at marked group_key ≡ 2
unfolding runs
two = refl

low : mark_at marked group_key < 10
low = omega (arith, two)

remembered_at : get ratchet.watermarks group_key ≡ some 10
unfolding runs
remembered_at = refl

effective_state-rollback_example :
    get (effective_state crypto ratchet selected_root records).conflicted group_key
    ≡ some (
        rollback_report
          (λ signed. crypto.serialize (vault_record signed))
          records
          marked
          (current_watermarks crypto ratchet selected_root records).1
          []
          group_key
          10)
effective_state-rollback_example =
    effective_state-rollback crypto ratchet selected_root records group_key 10 (tt, tt)
      remembered_at low

apply_update-ratchet_update_example :
    watermark (apply_update ratchet (ratchet_update crypto ratchet selected_root records)) group_key
    ≡ max (watermark ratchet group_key) (mark_at marked group_key)
apply_update-ratchet_update_example =
    apply_update-ratchet_update crypto ratchet selected_root records group_key

abbrev deletion : VerifiedRecord
deletion = record {
  signed = signed_by_root 23 (RecordBodyV1.group_deleted (record { id = 5 ∷ []; counter = 2 }));
  body = RecordBodyV1.group_deleted (record { id = 5 ∷ []; counter = 2 });
  key = group_key;
  record_hash = 23 ∷ [];
  signer = 1 ∷ 1 ∷ [];
}

deletion_stored : Memᴰ deletion records
deletion_stored = Memᴰ.tail (Memᴰ.tail (Memᴰ.tail (Memᴰ.head refl)))

deletion_admitted : provisionally_admitted crypto ratchet selected_root records deletion ≡ true
unfolding runs
deletion_admitted = refl

deletion_counter : lww_counter deletion.body ≡ some 2
unfolding runs
deletion_counter = refl

report_of-next_counter_example :
    (2 < next_counter (report_of crypto ratchet selected_root [] checked).effective)
    × (next_counter (report_of crypto ratchet selected_root [] checked).effective
        ≤ max_lww_counter + 1)
report_of-next_counter_example =
    report_of-next_counter crypto ratchet selected_root [] signers hashed checked checks deletion 2
      deletion_stored deletion_admitted deletion_counter

verify_records-IsVerified_example : IsVerified crypto [] selected_root signers hashed deletion
verify_records-IsVerified_example =
    verify_records-IsVerified crypto [] selected_root signers hashed checked checks deletion
      deletion_stored

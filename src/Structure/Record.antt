-- ===== src/Structure/Record.antt =====
-- The structural check of a record (`structurally_validate_record`, `structurally_valid_user`).
use thorax.Prelude.{
  ℕ, Bool, true, false, not, if◌then◌else◌, ◌==◌, List, [], ◌∷◌, Option, none, some, ltb, bytes_ord,
}
use thorax.Prelude.Map.{BTreeSet, contains_key, insert}
use thorax.Format.Selector.{bytes_eq}
use thorax.Format.Key.{HashValue, UserId}
use thorax.Format.Body.{
  VaultRecordV1, RecordBodyV1, VaultRootRecordV1, UserRecordV1, RecipientSlotV1, lww_counter,
}
use thorax.Handle.{is_valid_handle}
use thorax.Crypto.{
  CryptoProvider, derive_user_id, derive_user_handle_id, derive_vault_handle_id, derive_group_id,
  derive_group_member_id, derive_grant_id, derive_secret_id,
}
use thorax.Structure.{Defect, and_then, ensure, validate_permission, validate_secret_selector}

-- `1 << 62`
abbrev pub max_lww_counter : ℕ
max_lww_counter = 4611686018427387904

abbrev pub above_ceiling : Option ℕ → Bool
above_ceiling none = false
above_ceiling (some counter) = ltb max_lww_counter counter

-- `id != derive(…)?`
abbrev pub check_id : HashValue → Option HashValue → Defect → Option Defect
check_id id none defect = some Defect.core_error
check_id id (some derived) defect = ensure (id == derived) defect

-- The same with a check between the derivation and the comparison.
abbrev pub check_id_after : HashValue → Option HashValue → Option Defect → Defect → Option Defect
check_id_after id none between defect = some Defect.core_error
check_id_after id (some derived) between defect = and_then between (ensure (id == derived) defect)

-- The loop over the recipient slots.
unfoldable pub distinct_slots : BTreeSet UserId → List RecipientSlotV1 → Bool
distinct_slots seen [] = true
distinct_slots seen (slot ∷ slots) =
    let rest = distinct_slots (insert slot.recipient_id tt seen) slots in
    if contains_key seen slot.recipient_id then false else rest

module _ (crypto : CryptoProvider) where
  unfoldable pub structurally_valid_user : UserRecordV1 → Option Defect
  structurally_valid_user u =
      check_id u.id (derive_user_id crypto u.signing_public_key u.hpke_public_key)
        Defect.invalid_user

  unfoldable pub validate_body : VaultRecordV1 → VaultRootRecordV1 → RecordBodyV1 → Option Defect
  unfolding structurally_valid_user
  validate_body signed root (RecordBodyV1.vault_root r) =
      check_id r.id (derive_user_id crypto signed.signing_public_key r.hpke_public_key)
        Defect.invalid_root
  validate_body signed root (RecordBodyV1.entry_point r) =
      ensure (r.trusted_root_user_id == root.id) Defect.invalid_entry_point
  validate_body signed root (RecordBodyV1.user r) = structurally_valid_user r
  validate_body signed root (RecordBodyV1.user_handle r) =
      and_then (ensure (is_valid_handle r.handle) Defect.invalid_user_handle)
        (check_id r.id (derive_user_handle_id crypto r.handle) Defect.invalid_user_handle)
  validate_body signed root (RecordBodyV1.vault_handle r) =
      and_then (ensure (is_valid_handle r.handle) Defect.invalid_vault_handle)
        (check_id r.id (derive_vault_handle_id crypto r.handle) Defect.invalid_vault_handle)
  validate_body signed root (RecordBodyV1.group r) =
      and_then (check_id r.id (derive_group_id crypto r.seed) Defect.invalid_group)
        (ensure (is_valid_handle r.handle) Defect.invalid_group)
  validate_body signed root (RecordBodyV1.group_deleted r) = none
  validate_body signed root (RecordBodyV1.group_member r) =
      check_id r.id (derive_group_member_id crypto r.group_id r.member_id) Defect.invalid_membership
  validate_body signed root (RecordBodyV1.group_member_deleted r) =
      check_id r.id (derive_group_member_id crypto r.group_id r.member_id)
        Defect.invalid_membership_deletion
  validate_body signed root (RecordBodyV1.grant r) =
      check_id_after r.id (derive_grant_id crypto r.seed) (validate_permission r.permission)
        Defect.invalid_grant
  validate_body signed root (RecordBodyV1.grant_deleted r) = validate_permission r.permission
  validate_body signed root (RecordBodyV1.user_deleted r) =
      ensure (not (r.id == root.id)) Defect.invalid_user_deletion
  validate_body signed root (RecordBodyV1.secret r) =
      and_then (validate_secret_selector r.selector) (
        and_then (check_id r.id (derive_secret_id crypto r.selector) Defect.invalid_secret_value)
          (ensure (distinct_slots [] r.sealed.recipient_slots) Defect.duplicate_slot))
  validate_body signed root (RecordBodyV1.secret_deleted r) =
      and_then (validate_secret_selector r.selector)
        (check_id r.id (derive_secret_id crypto r.selector) Defect.invalid_secret_deletion)

  unfoldable pub structurally_validate_record :
      VaultRecordV1 → RecordBodyV1 → VaultRootRecordV1 → Option Defect
  structurally_validate_record signed body root =
      and_then (ensure (not (above_ceiling (lww_counter body))) Defect.counter_ceiling)
        (validate_body signed root body)

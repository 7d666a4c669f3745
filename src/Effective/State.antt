-- ===== src/Effective/State.antt =====
-- The effective state (validate/mod.rs) and its computation (`compute_effective_state`). The
-- serialisation of records is a parameter.
use thorax.Prelude.{
  ℕ, zero, suc, Bool, true, false, not, ◌&&◌, if◌then◌else◌, ◌==◌, Eq, of_discrete, List, [], ◌∷◌,
  Option, none, some, bytes_ord,
}
use native.Mathlib.Decide.{ℕ_discrete}
use thorax.Prelude.Map.{BTreeMap, BTreeSet, insert, contains_key, extend}
use thorax.Format.Selector.{Bytes, bytes_eq}
use thorax.Format.Key.{
  HashValue, UserId, UserHandleId, VaultHandleId, GroupId, GroupMemberId, GrantId, SecretId,
  RecordKey, key_ord,
}
use thorax.Format.Body.{
  VaultRecordV1, RecordBodyV1, UserRecordV1, UserHandleRecordV1, VaultHandleRecordV1, GroupRecordV1,
  GroupMemberRecordV1, GrantRecordV1, EntryPointRecordV1, vault_record_eq,
}
use thorax.Lww.{VerifiedRecord, LwwResolution, lww_resolution, partition_lww}
use thorax.Authority.{Authorities, signer_auth, root_authorities, compute_authorities_from_selected}
use thorax.Effective.Report.{ConflictReport, materialize_conflicts}
use thorax.Effective.Select.{
  SelectedAuthorizedRecords, nothing_selected, select_authorized_records, selected_eq,
}

pub record SecretSlot : Type 0 where
  pub winner : ℕ
  pub first_seen : ℕ

pub record EffectiveState : Type 0 where
  pub root_user_id : Option UserId
  pub root_signing_public_key_hash : Option HashValue
  pub users : BTreeMap UserId UserRecordV1
  pub handles : BTreeMap UserHandleId UserHandleRecordV1
  pub vault_handles : BTreeMap VaultHandleId VaultHandleRecordV1
  pub groups : BTreeMap GroupId GroupRecordV1
  pub memberships : BTreeMap GroupMemberId GroupMemberRecordV1
  pub grants : BTreeMap GrantId GrantRecordV1
  pub entry_points : BTreeMap UserId EntryPointRecordV1
  pub deleted_users : BTreeSet UserId
  pub deleted_groups : BTreeSet GroupId
  pub deleted_grants : BTreeSet GrantId
  pub authorities : Authorities
  pub authority_unresolved : Bool
  pub conflicted : BTreeMap RecordKey ConflictReport
  pub admitted_counter_max : Option ℕ
  pub verified_records : List VerifiedRecord
  pub secret_index : BTreeMap SecretId SecretSlot

-- The users with an entry point whose key is not suspected of a rollback.
abbrev pub entry_point_of : RecordBodyV1 → RecordKey → Option UserId
entry_point_of (RecordBodyV1.entry_point e) (RecordKey.entry_point user_id) = some user_id
entry_point_of _ _ = none

unfoldable pub entry_point_users :
    BTreeMap RecordKey ℕ → List VerifiedRecord → BTreeSet UserId → BTreeSet UserId
entry_point_users rollback_keys [] users = users
entry_point_users rollback_keys (r ∷ records) users = entry_point_users rollback_keys records (
    if contains_key rollback_keys r.key
    then users
    else elim (entry_point_of r.body r.key) [ none ↦ users | some user ↦ insert user tt users ])

authorities_discrete : Discrete Authorities
authorities_discrete = hlevel ℕ_discrete

unfoldable pub authorities_eq : Eq Authorities
unfolding authorities_discrete ℕ_discrete
authorities_eq = of_discrete authorities_discrete

pub record Convergence : Type 0 where
  pub selected : SelectedAuthorizedRecords
  pub authorities : Authorities
  pub authority_converged : Bool

module _ (records : List VerifiedRecord) (root_user_record : UserRecordV1)
    (admitted_deletions : BTreeSet HashValue) (rollback_keys : BTreeMap RecordKey ℕ) where
  -- The two halves of a round of the `for` loop.
  abbrev pub next_selected : Authorities → SelectedAuthorizedRecords
  next_selected authorities =
      select_authorized_records records root_user_record
        (entry_point_users rollback_keys records []) admitted_deletions rollback_keys authorities

  abbrev pub next_authorities : SelectedAuthorizedRecords → Authorities
  next_authorities next =
      compute_authorities_from_selected root_user_record.id next.memberships next.grants

  -- `for _ in 0..64`, with the rounds that are left.
  unfoldable pub converge : ℕ → SelectedAuthorizedRecords → Authorities → Convergence
  converge zero selected authorities = record {
    selected = selected;
    authorities = authorities;
    authority_converged = false;
  }
  converge (suc left) selected authorities =
      let next = next_selected authorities in
      let new_authorities = next_authorities next in
      elim (next == selected && authorities_eq.beq new_authorities authorities) [
        | true ↦ record {
          selected = selected;
          authorities = authorities;
          authority_converged = true;
        }
        | false ↦ converge left next new_authorities
      ]

  unfoldable pub converged : Convergence
  converged = converge 64 nothing_selected (root_authorities root_user_record.id)

-- The classifiers of handles and entry points.
module _ (authorities : Authorities) (users : BTreeMap UserId UserRecordV1) where
  unfoldable pub handle_claim : VerifiedRecord → RecordBodyV1 → RecordKey → Option UserHandleId
  handle_claim r (RecordBodyV1.user_handle h) (RecordKey.user_handle handle_id) =
      if (signer_auth authorities r.signer).administer && contains_key users h.user_id
      then some handle_id
      else none
  handle_claim r _ _ = none

  unfoldable pub vault_handle_claim :
      VerifiedRecord → RecordBodyV1 → RecordKey → Option VaultHandleId
  vault_handle_claim r (RecordBodyV1.vault_handle h) (RecordKey.vault_handle handle_id) =
      if (signer_auth authorities r.signer).administer then some handle_id else none
  vault_handle_claim r _ _ = none

  unfoldable pub entry_point_claim : RecordBodyV1 → RecordKey → Option UserId
  entry_point_claim (RecordBodyV1.entry_point e) (RecordKey.entry_point user_id) =
      if contains_key users user_id then some user_id else none
  entry_point_claim _ _ = none

abbrev as_handle : RecordBodyV1 → Option UserHandleRecordV1
as_handle (RecordBodyV1.user_handle h) = some h
as_handle _ = none

abbrev as_vault_handle : RecordBodyV1 → Option VaultHandleRecordV1
as_vault_handle (RecordBodyV1.vault_handle h) = some h
as_vault_handle _ = none

abbrev as_entry_point : RecordBodyV1 → Option EntryPointRecordV1
as_entry_point (RecordBodyV1.entry_point e) = some e
as_entry_point _ = none

module _ (serialize : VaultRecordV1 → Option Bytes) where
  module _ (root_user_record : UserRecordV1) (root_signing_public_key_hash : HashValue)
      (records : List VerifiedRecord) (admitted_deletions : BTreeSet HashValue)
      (rollback_keys : BTreeMap RecordKey ℕ) where
    abbrev settled : Convergence
    settled = converged records root_user_record admitted_deletions rollback_keys

    unfoldable pub handle_resolution : LwwResolution UserHandleId
    handle_resolution = lww_resolution records rollback_keys (λ (r : VerifiedRecord).
        handle_claim settled.authorities settled.selected.users r r.body r.key)

    unfoldable pub vault_handle_resolution : LwwResolution VaultHandleId
    vault_handle_resolution = lww_resolution records rollback_keys (λ (r : VerifiedRecord).
        vault_handle_claim settled.authorities settled.selected.users r r.body r.key)

    unfoldable pub entry_point_resolution : LwwResolution UserId
    entry_point_resolution = lww_resolution records rollback_keys (λ (r : VerifiedRecord).
        entry_point_claim settled.authorities settled.selected.users r.body r.key)

    unfoldable pub compute_effective_state : EffectiveState
    compute_effective_state = record {
      root_user_id = some root_user_record.id;
      root_signing_public_key_hash = some root_signing_public_key_hash;
      users = settled.selected.users;
      handles = (partition_lww handle_resolution.winners as_handle).0;
      vault_handles = (partition_lww vault_handle_resolution.winners as_vault_handle).0;
      groups = settled.selected.groups;
      memberships = settled.selected.memberships;
      grants = settled.selected.grants;
      entry_points = (partition_lww entry_point_resolution.winners as_entry_point).0;
      deleted_users = settled.selected.deleted_users;
      deleted_groups = settled.selected.deleted_groups;
      deleted_grants = settled.selected.deleted_grants;
      authorities = settled.authorities;
      authority_unresolved = not settled.authority_converged;
      conflicted = materialize_conflicts serialize records (
          extend
            (extend (extend settled.selected.conflicted handle_resolution.conflicted)
              vault_handle_resolution.conflicted)
            entry_point_resolution.conflicted);
      admitted_counter_max = none;
      verified_records = [];
      secret_index = [];
    }

-- ===== src/Pipeline/Report.antt =====
-- What a validation reports (validate/mod.rs), and the logical key of a record.
use thorax.Prelude.{ℕ, List, none, true, []}
use thorax.Format.Key.{HashValue, UserId, RecordKey}
use thorax.Format.Body.{RecordBodyV1}
use thorax.Ratchet.{RatchetUpdate}
use thorax.Structure.{Defect}
use thorax.Effective.State.{EffectiveState}

pub data ValidationIssue : Type 0 where
  invalid_structure : Defect → ValidationIssue
  invalid_signature : RecordKey → ValidationIssue
  unknown_signer_key : HashValue → ValidationIssue
  root_not_trusted : ValidationIssue
  ambiguous_root : ValidationIssue
  authority_did_not_converge : ValidationIssue
  format_version_regression : ℕ → ℕ → ValidationIssue

pub data ValidationWarning : Type 0 where
  unknown_records : ℕ → ValidationWarning
  ambiguous_signing_key : HashValue → ValidationWarning

pub record ValidationReport : Type 0 where
  pub effective : EffectiveState
  pub ratchet_update : RatchetUpdate
  pub issues : List ValidationIssue
  pub warnings : List ValidationWarning

-- `..Default::default()` with `authority_unresolved: true`
abbrev pub unresolved_state : EffectiveState
unresolved_state = record {
  root_user_id = none;
  root_signing_public_key_hash = none;
  users = [];
  handles = [];
  vault_handles = [];
  groups = [];
  memberships = [];
  grants = [];
  entry_points = [];
  deleted_users = [];
  deleted_groups = [];
  deleted_grants = [];
  authorities = [];
  authority_unresolved = true;
  conflicted = [];
  admitted_counter_max = none;
  verified_records = [];
  secret_index = [];
}

abbrev pub no_update : RatchetUpdate
no_update = record { raised_watermarks = []; origins = []; raised_format_version = none }

unfoldable pub record_key_for : RecordBodyV1 → UserId → RecordKey
record_key_for (RecordBodyV1.vault_root r) signer = RecordKey.vault_root
record_key_for (RecordBodyV1.entry_point r) signer = RecordKey.entry_point signer
record_key_for (RecordBodyV1.user r) signer = RecordKey.user r.id
record_key_for (RecordBodyV1.user_deleted r) signer = RecordKey.user r.id
record_key_for (RecordBodyV1.user_handle r) signer = RecordKey.user_handle r.id
record_key_for (RecordBodyV1.vault_handle r) signer = RecordKey.vault_handle r.id
record_key_for (RecordBodyV1.group r) signer = RecordKey.group r.id
record_key_for (RecordBodyV1.group_deleted r) signer = RecordKey.group r.id
record_key_for (RecordBodyV1.group_member r) signer = RecordKey.group_member r.id
record_key_for (RecordBodyV1.group_member_deleted r) signer = RecordKey.group_member r.id
record_key_for (RecordBodyV1.grant r) signer = RecordKey.grant r.id
record_key_for (RecordBodyV1.grant_deleted r) signer = RecordKey.grant r.id
record_key_for (RecordBodyV1.secret r) signer = RecordKey.secret r.id
record_key_for (RecordBodyV1.secret_deleted r) signer = RecordKey.secret r.id

-- ===== src/Pipeline/Validate.antt =====
-- `validate_v1` (validate/pipeline.rs) and `validate_vault_with_verified` (validate/mod.rs): the steps
-- of the validation, composed. `none` is an error of the serialisation.
pub mod Rollback
pub mod Lamport
use thorax.Prelude.{
  ℕ, Bool, true, false, ◌&&◌, List, [], ◌∷◌, ◌++◌, map, Option, none, some, ◌>>=◌, ltb,
  if◌then◌else◌, bytes_ord,
}
use thorax.Prelude.Map.{BTreeMap, BTreeSet, extend, values}
use thorax.Format.Key.{HashValue, UserId, SecretId, RecordKey, key_ord}
use thorax.Format.Body.{VaultRecordV1, RecordBodyV1}
use thorax.Format.RatchetRecord.{KeyOrigin}
use thorax.Ratchet.{Ratchet, RatchetUpdate}
use thorax.Lww.{VerifiedRecord, LwwResolution, lww_resolution}
use thorax.Crypto.{CryptoProvider, vault_record}
use thorax.Effective.State.{EffectiveState}
use thorax.Effective.Report.{materialize_conflicts}
use thorax.Query.{attach_verified_records, authorized_secret}
use thorax.Pipeline.Report.{
  ValidationIssue, ValidationWarning, ValidationReport, unknown_records, ambiguous_signing_key,
  authority_did_not_converge, format_version_regression, unresolved_state, no_update,
}
use thorax.Pipeline.Root.{Hashed, SelectedRoot, distinct_records, select_root}
use thorax.Pipeline.Signers.{Signers, resolve_signers}
use thorax.Pipeline.Records.{Checked, nothing_checked, verify_records}
use thorax.Pipeline.Deletions.{resolve_effective_with_deletions}
use thorax.Pipeline.Watermarks.{
  admitted_watermarks, suspected, raised, new_origins, report_rollbacks, highest,
}

pub data VaultStore : Type 0 where
  v1 : List VaultRecordV1 → VaultStore

unfoldable pub version_of : VaultStore → ℕ
version_of (v1 records) = 1

abbrev records_of : VaultStore → List VaultRecordV1
records_of (v1 records) = records

unfoldable pub warnings_for : ℕ → List ValidationWarning
warnings_for count = if ltb 0 count then unknown_records count ∷ [] else []

-- What is refuse_all before a root is known.
abbrev pub refuse_all : List ValidationIssue → ValidationReport
refuse_all issues = record {
  effective = unresolved_state;
  ratchet_update = no_update;
  issues = issues;
  warnings = [];
}

module _ (crypto : CryptoProvider) (ratchet : Ratchet) where
  module _ (root : SelectedRoot) (records : List VerifiedRecord) where
    -- The view with no rollback exclusions, and the watermarks that it admits.
    unfoldable pub current_watermarks : BTreeMap RecordKey ℕ × BTreeMap RecordKey KeyOrigin
    current_watermarks =
        let (provisional, deletions) = resolve_effective_with_deletions crypto root records [] in
        admitted_watermarks records provisional deletions

    unfoldable pub rollback_keys : BTreeMap RecordKey ℕ
    rollback_keys = suspected current_watermarks.0 ratchet.watermarks

    -- The view with the suspected keys inert.
    unfoldable pub final_state : EffectiveState
    final_state = (resolve_effective_with_deletions crypto root records rollback_keys).0

    -- The secrets compete where their signers may write them.
    unfoldable pub secret_resolution : LwwResolution SecretId
    secret_resolution =
        lww_resolution records rollback_keys
          (λ (r : VerifiedRecord). authorized_secret final_state.authorities r)

    unfoldable pub effective_state : EffectiveState
    effective_state =
        attach_verified_records
          (record final_state {
            conflicted =
                report_rollbacks (λ signed. crypto.serialize (vault_record signed)) records
                  current_watermarks.0 current_watermarks.1 ratchet.origins rollback_keys
                  (extend final_state.conflicted (
                    materialize_conflicts (λ signed. crypto.serialize (vault_record signed)) records
                      secret_resolution.conflicted));
          })
          records (highest (values current_watermarks.0))

    unfoldable pub ratchet_update : RatchetUpdate
    ratchet_update = record {
      raised_watermarks = raised ratchet.watermarks current_watermarks.0;
      origins = new_origins ratchet.origins current_watermarks.1;
      raised_format_version = none;
    }

  abbrev convergence_issues : EffectiveState → List ValidationIssue
  convergence_issues state =
      if state.authority_unresolved then authority_did_not_converge ∷ [] else []

  unfoldable pub report_of : SelectedRoot → List HashValue → Checked → ValidationReport
  report_of root ambiguous_keys checked = record {
    effective = effective_state root checked.verified_records;
    ratchet_update = ratchet_update root checked.verified_records;
    issues = checked.issues ++ convergence_issues (final_state root checked.verified_records);
    warnings = warnings_for checked.unknown_records ++ map ambiguous_signing_key ambiguous_keys;
  }

  -- After the root was selected.
  unfoldable pub validate_under :
      BTreeSet HashValue
      → List Hashed
      → List ValidationIssue × Option SelectedRoot
      → Option ValidationReport
  validate_under verified records (issues, none) = some (refuse_all issues)
  validate_under verified records (issues, some root) = do
    signers ← resolve_signers crypto verified root records
    checked ← verify_records crypto verified root signers records nothing_checked
    some (report_of root signers.ambiguous_keys checked)

  unfoldable pub validate_v1 : List VaultRecordV1 → BTreeSet HashValue → Option ValidationReport
  validate_v1 vault verified = do
    records ← distinct_records crypto [] vault
    selected ← select_root crypto verified ratchet records
    validate_under verified records selected

  abbrev no_issues : List ValidationIssue → Bool
  no_issues [] = true
  no_issues _ = false

  abbrev raise_format_version : ℕ → ValidationReport → ValidationReport
  raise_format_version version report =
      if ltb ratchet.format_version version && no_issues report.issues
      then record report {
        ratchet_update = record report.ratchet_update { raised_format_version = some version };
      }
      else report

  unfoldable pub validate_vault_with_verified :
      VaultStore → BTreeSet HashValue → Option ValidationReport
  validate_vault_with_verified vault verified =
      let version = version_of vault in
      if ltb version ratchet.format_version
      then some (refuse_all (format_version_regression ratchet.format_version version ∷ []))
      else (validate_v1 (records_of vault) verified >>= λ report.
          some (raise_format_version version report))

  unfoldable pub validate_vault : VaultStore → Option ValidationReport
  validate_vault vault = validate_vault_with_verified vault []

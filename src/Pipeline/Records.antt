-- ===== src/Pipeline/Records.antt =====
-- The loop of `validate_v1` that verifies the records (validate/pipeline.rs).
pub mod Sound
use thorax.Prelude.{
  ℕ, suc, Bool, true, false, List, [], ◌∷◌, ◌++◌, Option, none, some, ◌>>=◌, if◌then◌else◌,
  bytes_ord,
}
use thorax.Prelude.Map.{BTreeSet, get, contains_key}
use thorax.Format.Key.{HashValue, UserId}
use thorax.Format.Body.{VaultRecordV1, RecordBodyV1, Evolving, known}
use thorax.Lww.{VerifiedRecord}
use thorax.Crypto.{CryptoProvider, key_hash}
use thorax.Structure.Record.{structurally_validate_record}
use thorax.Pipeline.Report.{
  ValidationIssue, invalid_structure, invalid_signature, unknown_signer_key, record_key_for,
}
use thorax.Pipeline.Root.{Hashed, SelectedRoot, try_verify}
use thorax.Pipeline.Signers.{Signers}

-- What becomes of a record: it is of a newer kind, dropped, an issue, or verified.
pub data Outcome : Type 0 where
  unknown_record : Outcome
  dropped : Outcome
  issue : ValidationIssue → Outcome
  accepted : VerifiedRecord → Outcome

pub record Checked : Type 0 where
  pub verified_records : List VerifiedRecord
  pub issues : List ValidationIssue
  pub unknown_records : ℕ

abbrev pub nothing_checked : Checked
nothing_checked = record { verified_records = []; issues = []; unknown_records = 0 }

module _ (crypto : CryptoProvider) (verified : BTreeSet HashValue) (root : SelectedRoot)
    (signers : Signers) where
  -- After the signer of the key is known.
  unfoldable pub check_signature : Hashed → RecordBodyV1 → UserId → Option Outcome
  check_signature (signed, hash) body signer = try_verify crypto verified (signed, hash) >>= λ ok.
      some (
        if ok
        then accepted (record {
          signed = signed;
          body = body;
          key = record_key_for body signer;
          record_hash = hash;
          signer = signer;
        })
        else issue (invalid_signature (record_key_for body signer)))

  unfoldable pub check_signer : Hashed → RecordBodyV1 → Option Outcome
  check_signer (signed, hash) body =
      if contains_key signers.contested_keys signed.signing_public_key
      then some dropped
      else elim (get signers.signer_for_key signed.signing_public_key) [
        | none ↦ key_hash crypto signed.signing_public_key >>= λ key.
            some (issue (unknown_signer_key key))
        | some signer ↦ check_signature (signed, hash) body signer
      ]

  unfoldable pub check_record : Hashed → Option RecordBodyV1 → Option Outcome
  check_record (signed, hash) none = some unknown_record
  check_record (signed, hash) (some body) =
      elim (structurally_validate_record crypto signed body root.root) [
        | some defect ↦ some (issue (invalid_structure defect))
        | none ↦ check_signer (signed, hash) body
      ]

  -- The pushes of the loop.
  unfoldable pub take_in : Checked → Outcome → Checked
  take_in checked unknown_record = record checked { unknown_records = suc checked.unknown_records }
  take_in checked dropped = checked
  take_in checked (issue i) = record checked { issues = checked.issues ++ i ∷ [] }
  take_in checked (accepted r) = record checked {
    verified_records = checked.verified_records ++ r ∷ [];
  }

  unfoldable pub verify_records : List Hashed → Checked → Option Checked
  verify_records [] checked = some checked
  verify_records ((signed, hash) ∷ records) checked =
      check_record (signed, hash) (known signed.body) >>= λ outcome.
      verify_records records (take_in checked outcome)

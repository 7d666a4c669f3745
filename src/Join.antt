-- ===== src/Join.antt =====
-- The artifacts of a join (crates/thorax-core/src/join.rs): candidates, approvals, the messages that
-- are signed, and their encodings. The serialisation is the parameter `ArtifactCodec`.
pub mod Artifact
pub mod OneValue
mod Examples
use thorax.Prelude.{
  ℕ, ◌+◌, ◌≡◌, Bool, if◌then◌else◌, List, [], ◌∷◌, ◌++◌, Option, none, some, length, ltb,
}
use thorax.Format.Selector.{Bytes, Text, SecretSelectorV1, GrantPermissionV1, text}
use thorax.Format.Key.{HashValue, UserId}
use thorax.Format.Body.{VaultRecordV1}
use thorax.Envelope.{strip_prefix}

-- `cord::serialize` and `cord::deserialize` of one type. What was serialised is read back.
pub record ArtifactCodec (A : Type 0) : Type 0 where
  pub serialize : A → Option Bytes
  pub deserialize : Bytes → Option A
  pub deserialize-serialize :
      (a : A) (payload : Bytes) → serialize a ≡ some payload → deserialize payload ≡ some a

pub data JoinPurposeV1 : Type 0 where
  enroll : JoinPurposeV1
  restore_trust : JoinPurposeV1

pub record DeploymentContextV1 : Type 0 where
  pub namespace : Text
  pub vault_name : Text
  pub vault_uid : Text

pub record JoinCandidateV1 : Type 0 where
  pub purpose : JoinPurposeV1
  pub request_id : Bytes
  pub trusted_root : HashValue
  pub trusted_root_user_id : UserId
  pub deployment : DeploymentContextV1
  pub user_id : UserId
  pub signing_public_key : Bytes
  pub hpke_public_key : Bytes
  pub suggested_selectors : List SecretSelectorV1
  pub entry_point : Option VaultRecordV1
  pub proof : Bytes

pub data JoinCandidateStore : Type 0 where
  candidate_v1 : JoinCandidateV1 → JoinCandidateStore

pub record JoinCandidateMessageV1 : Type 0 where
  pub purpose : JoinPurposeV1
  pub request_id : Bytes
  pub trusted_root : HashValue
  pub trusted_root_user_id : UserId
  pub deployment : DeploymentContextV1
  pub user_id : UserId
  pub signing_public_key : Bytes
  pub hpke_public_key : Bytes
  pub suggested_selectors : List SecretSelectorV1
  pub entry_point : Option VaultRecordV1

pub record EncryptedBaselineV1 : Type 0 where
  pub encapsulated_key : Bytes
  pub ciphertext : Bytes

pub record JoinApprovalV1 : Type 0 where
  pub purpose : JoinPurposeV1
  pub request_id : Bytes
  pub trusted_root : HashValue
  pub deployment : DeploymentContextV1
  pub user_id : UserId
  pub approved_grants : List GrantPermissionV1
  pub encrypted_baseline : EncryptedBaselineV1
  pub replaces_user_id : Option UserId
  pub approving_admin : UserId
  pub approving_signing_public_key : Bytes
  pub signature : Bytes

pub data JoinApprovalStore : Type 0 where
  approval_v1 : JoinApprovalV1 → JoinApprovalStore

pub record JoinApprovalMessageV1 : Type 0 where
  pub purpose : JoinPurposeV1
  pub request_id : Bytes
  pub trusted_root : HashValue
  pub deployment : DeploymentContextV1
  pub user_id : UserId
  pub approved_grants : List GrantPermissionV1
  pub encrypted_baseline : EncryptedBaselineV1
  pub replaces_user_id : Option UserId
  pub approving_admin : UserId
  pub approving_signing_public_key : Bytes

unfoldable pub candidate_message : JoinCandidateV1 → JoinCandidateMessageV1
candidate_message c = record {
  purpose = c.purpose;
  request_id = c.request_id;
  trusted_root = c.trusted_root;
  trusted_root_user_id = c.trusted_root_user_id;
  deployment = c.deployment;
  user_id = c.user_id;
  signing_public_key = c.signing_public_key;
  hpke_public_key = c.hpke_public_key;
  suggested_selectors = c.suggested_selectors;
  entry_point = c.entry_point;
}

unfoldable pub approval_message : JoinApprovalV1 → JoinApprovalMessageV1
approval_message a = record {
  purpose = a.purpose;
  request_id = a.request_id;
  trusted_root = a.trusted_root;
  deployment = a.deployment;
  user_id = a.user_id;
  approved_grants = a.approved_grants;
  encrypted_baseline = a.encrypted_baseline;
  replaces_user_id = a.replaces_user_id;
  approving_admin = a.approving_admin;
  approving_signing_public_key = a.approving_signing_public_key;
}

pub data JoinError : Type 0 where
  cord_error : JoinError
  above_limit : JoinError
  invalid_magic : JoinError

pub data JoinResult (A : Type 0) : Type 0 where
  ok : A → JoinResult A
  err : JoinError → JoinResult A

abbrev pub join_candidate_magic : Bytes
join_candidate_magic = text "thorax-join-candidate" ++ 0 ∷ []

abbrev pub join_approval_magic : Bytes
join_approval_magic = text "thorax-join-approval" ++ 0 ∷ []

abbrev pub max_join_artifact_bytes : ℕ
max_join_artifact_bytes = 1048576

-- What `encode_artifact` does with the serialised value.
unfoldable pub encode_artifact : Bytes → Option Bytes → JoinResult Bytes
encode_artifact value_magic none = JoinResult.err JoinError.cord_error
encode_artifact value_magic (some payload) =
    if ltb max_join_artifact_bytes (length payload)
    then JoinResult.err JoinError.above_limit
    else JoinResult.ok (value_magic ++ payload)

unfoldable pub ok_or_magic : Option Bytes → JoinResult Bytes
ok_or_magic none = JoinResult.err JoinError.invalid_magic
ok_or_magic (some payload) = JoinResult.ok payload

unfoldable pub artifact_payload : Bytes → Bytes → JoinResult Bytes
artifact_payload value_magic bytes =
    if ltb (max_join_artifact_bytes + length value_magic) (length bytes)
    then JoinResult.err JoinError.above_limit
    else ok_or_magic (strip_prefix value_magic bytes)

-- What the decoders do with the payload.
unfoldable pub read_candidate : Option JoinCandidateStore → JoinResult JoinCandidateV1
read_candidate none = JoinResult.err JoinError.cord_error
read_candidate (some (JoinCandidateStore.candidate_v1 c)) = JoinResult.ok c

unfoldable pub read_approval : Option JoinApprovalStore → JoinResult JoinApprovalV1
read_approval none = JoinResult.err JoinError.cord_error
read_approval (some (JoinApprovalStore.approval_v1 a)) = JoinResult.ok a

unfoldable pub then_read : {A B : Type 0} → JoinResult A → (A → JoinResult B) → JoinResult B
then_read (JoinResult.ok a) f = f a
then_read (JoinResult.err e) f = JoinResult.err e

module _ (cord : ArtifactCodec JoinCandidateStore) where
  unfoldable pub encode_join_candidate : JoinCandidateV1 → JoinResult Bytes
  encode_join_candidate candidate =
      encode_artifact join_candidate_magic
        (cord.serialize (JoinCandidateStore.candidate_v1 candidate))

  unfoldable pub decode_join_candidate : Bytes → JoinResult JoinCandidateV1
  decode_join_candidate bytes =
      then_read (artifact_payload join_candidate_magic bytes)
        (λ payload. read_candidate (cord.deserialize payload))

module _ (cord : ArtifactCodec JoinApprovalStore) where
  unfoldable pub encode_join_approval : JoinApprovalV1 → JoinResult Bytes
  encode_join_approval approval =
      encode_artifact join_approval_magic (cord.serialize (JoinApprovalStore.approval_v1 approval))

  unfoldable pub decode_join_approval : Bytes → JoinResult JoinApprovalV1
  decode_join_approval bytes =
      then_read (artifact_payload join_approval_magic bytes)
        (λ payload. read_approval (cord.deserialize payload))

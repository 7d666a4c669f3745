-- ===== src/Join/Examples.antt =====
-- A candidate and an approval under a serialisation that knows only them, written and read.
use native.Mathlib.Decide.{ℕ_discrete}
use thorax.Prelude.{◌+◌, ◌≤◌, ◌≡◌, refl, [], ◌∷◌, ◌++◌, none, length, ap}
use thorax.Format.Selector.{Bytes, text}
use thorax.Envelope.{strip_prefix}
use thorax.Join.{
  ArtifactCodec, JoinPurposeV1, DeploymentContextV1, JoinCandidateV1, JoinCandidateStore,
  JoinApprovalV1, JoinApprovalStore, JoinError, JoinResult, join_candidate_magic,
  join_approval_magic, max_join_artifact_bytes, encode_artifact, ok_or_magic, artifact_payload,
  read_candidate, read_approval, then_read, encode_join_candidate, decode_join_candidate,
  encode_join_approval, decode_join_approval, candidate_message, approval_message,
}
use thorax.Join.Artifact.{encode_join_candidate-roundtrip, encode_join_approval-roundtrip}
use thorax.Join.OneValue.{written_as_self, only}

runs : Unit {0}
unfolding strip_prefix encode_artifact ok_or_magic artifact_payload read_candidate read_approval
    then_read encode_join_candidate decode_join_candidate encode_join_approval decode_join_approval
    candidate_message approval_message
runs = tt

abbrev payments : DeploymentContextV1
payments = record { namespace = text "db"; vault_name = text "payments"; vault_uid = text "uid" }

-- The proof travels as the payload; all else is fixed.
abbrev candidate : Bytes → JoinCandidateV1
candidate proof = record {
  purpose = JoinPurposeV1.enroll;
  request_id = 1 ∷ [];
  trusted_root = 2 ∷ [];
  trusted_root_user_id = 3 ∷ [];
  deployment = payments;
  user_id = 4 ∷ [];
  signing_public_key = 5 ∷ [];
  hpke_public_key = 6 ∷ [];
  suggested_selectors = [];
  entry_point = none;
  proof = proof;
}

abbrev approval : Bytes → JoinApprovalV1
approval signature = record {
  purpose = JoinPurposeV1.restore_trust;
  request_id = 1 ∷ [];
  trusted_root = 2 ∷ [];
  deployment = payments;
  user_id = 4 ∷ [];
  approved_grants = [];
  encrypted_baseline = record { encapsulated_key = 7 ∷ []; ciphertext = 8 ∷ [] };
  replaces_user_id = none;
  approving_admin = 3 ∷ [];
  approving_signing_public_key = 5 ∷ [];
  signature = signature;
}

purpose_discrete : Discrete JoinPurposeV1
purpose_discrete = hlevel

candidates_discrete : Discrete JoinCandidateStore
candidates_discrete = hlevel ℕ_discrete

approvals_discrete : Discrete JoinApprovalStore
approvals_discrete = hlevel ℕ_discrete

abbrev first : JoinCandidateStore
first = JoinCandidateStore.candidate_v1 (candidate (9 ∷ []))

abbrev second : JoinApprovalStore
second = JoinApprovalStore.approval_v1 (approval (9 ∷ []))

abbrev candidates : ArtifactCodec JoinCandidateStore
candidates = only candidates_discrete first (5 ∷ 6 ∷ [])

abbrev approvals : ArtifactCodec JoinApprovalStore
approvals = only approvals_discrete second (7 ∷ [])

candidate_written :
    encode_join_candidate candidates (candidate (9 ∷ []))
    ≡ JoinResult.ok (join_candidate_magic ++ 5 ∷ 6 ∷ [])
unfolding runs
candidate_written =
    ap (encode_artifact join_candidate_magic) (written_as_self (candidates_discrete first first) _)

approval_written :
    encode_join_approval approvals (approval (9 ∷ []))
    ≡ JoinResult.ok (join_approval_magic ++ 7 ∷ [])
unfolding runs
approval_written =
    ap (encode_artifact join_approval_magic) (written_as_self (approvals_discrete second second) _)

-- A message leaves the proof out.
unsigned : candidate_message (candidate (1 ∷ [])) ≡ candidate_message (candidate (2 ∷ []))
unfolding runs
unsigned = refl

unsigned_approval : approval_message (approval (1 ∷ [])) ≡ approval_message (approval (2 ∷ []))
unfolding runs
unsigned_approval = refl

-- `wrong_magic_is_rejected`
wrong_magic :
    decode_join_candidate candidates (text "not-a-candidate")
    ≡ JoinResult.err JoinError.invalid_magic
unfolding runs
wrong_magic = refl

encode_join_candidate-roundtrip_example :
    (decode_join_candidate candidates (join_candidate_magic ++ 5 ∷ 6 ∷ [])
      ≡ JoinResult.ok (candidate (9 ∷ [])))
    × (length (join_candidate_magic ++ 5 ∷ 6 ∷ [])
        ≤ max_join_artifact_bytes + length join_candidate_magic)
    × ((a : JoinApprovalV1)
        → ¬ (decode_join_approval approvals (join_candidate_magic ++ 5 ∷ 6 ∷ []) ≡ JoinResult.ok a))
encode_join_candidate-roundtrip_example =
    encode_join_candidate-roundtrip candidates approvals (candidate (9 ∷ []))
      (join_candidate_magic ++ 5 ∷ 6 ∷ []) candidate_written

encode_join_approval-roundtrip_example :
    (decode_join_approval approvals (join_approval_magic ++ 7 ∷ [])
      ≡ JoinResult.ok (approval (9 ∷ [])))
    × (length (join_approval_magic ++ 7 ∷ [])
        ≤ max_join_artifact_bytes + length join_approval_magic)
    × ((c : JoinCandidateV1)
        → ¬ (decode_join_candidate candidates (join_approval_magic ++ 7 ∷ []) ≡ JoinResult.ok c))
encode_join_approval-roundtrip_example =
    encode_join_approval-roundtrip candidates approvals (approval (9 ∷ []))
      (join_approval_magic ++ 7 ∷ []) approval_written

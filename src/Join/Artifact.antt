-- ===== src/Join/Artifact.antt =====
-- A join artifact that is written is read back, and never as one of the other kind.
use thorax.Prelude.{◌+◌, ◌≤◌, ◌≡◌, refl, ap, ◌∙◌, [], ◌∷◌, ◌++◌, Option, none, some, length, arith}
use thorax.Format.Selector.{Bytes}
use thorax.Envelope.{strip_prefix}
use thorax.Envelope.Limits.{strip_prefix-append}
use thorax.Join.{
  ArtifactCodec, JoinCandidateV1, JoinCandidateStore, JoinApprovalV1, JoinApprovalStore, JoinResult,
  join_candidate_magic, join_approval_magic, max_join_artifact_bytes, encode_artifact, ok_or_magic,
  artifact_payload, read_candidate, read_approval, then_read, encode_join_candidate,
  decode_join_candidate, encode_join_approval, decode_join_approval,
}

ok_inj : {A : Type 0} (a b : A) → JoinResult.ok a ≡ JoinResult.ok b → a ≡ b
ok_inj a b h = cc

encode_artifact-ok :
    (value_magic : Bytes) (x : Option Bytes) (bytes : Bytes)
    → encode_artifact value_magic x ≡ JoinResult.ok bytes
    → (payload : Bytes) × (x ≡ some payload)
      × (bytes ≡ value_magic ++ payload)
      × (length payload ≤ max_join_artifact_bytes)
unfolding encode_artifact
encode_artifact-ok value_magic none bytes h = cc
encode_artifact-ok value_magic (some payload) bytes h = (payload, refl, ground arith, ground arith)

length-append : (p q : Bytes) → length (p ++ q) ≡ length p + length q
length-append [] q = omega arith
length-append (x ∷ p) q = omega (arith, length-append p q)

artifact_payload-append :
    (value_magic payload : Bytes)
    → length payload ≤ max_join_artifact_bytes
    → artifact_payload value_magic (value_magic ++ payload) ≡ JoinResult.ok payload
unfolding artifact_payload ok_or_magic
artifact_payload-append value_magic payload le =
    ground (arith, length-append value_magic payload, strip_prefix-append value_magic payload)

candidate_magic-distinct :
    (payload : Bytes) → strip_prefix join_approval_magic (join_candidate_magic ++ payload) ≡ none
unfolding strip_prefix
candidate_magic-distinct payload = refl

approval_magic-distinct :
    (payload : Bytes) → strip_prefix join_candidate_magic (join_approval_magic ++ payload) ≡ none
unfolding strip_prefix
approval_magic-distinct payload = refl

artifact_payload-refused :
    (value_magic bytes payload : Bytes)
    → strip_prefix value_magic bytes ≡ none
    → ¬ (artifact_payload value_magic bytes ≡ JoinResult.ok payload)
unfolding artifact_payload ok_or_magic
artifact_payload-refused value_magic bytes payload none_left h = ground arith

then_read-ok :
    {A B : Type 0} (x : JoinResult A) (f : A → JoinResult B) (b : B)
    → then_read x f ≡ JoinResult.ok b
    → (a : A) × (x ≡ JoinResult.ok a)
unfolding then_read
then_read-ok (JoinResult.ok a) f b h = (a, refl)
then_read-ok (JoinResult.err e) f b h = cc

module _ (candidates : ArtifactCodec JoinCandidateStore)
    (approvals : ArtifactCodec JoinApprovalStore) where
  -- A join candidate that is written without an error is read back as the same candidate, is at
  -- most as long as the limit and its magic together, and is never read as an approval.
  pub encode_join_candidate-roundtrip :
      (candidate : JoinCandidateV1) (bytes : Bytes)
      → encode_join_candidate candidates candidate ≡ JoinResult.ok bytes
      → (decode_join_candidate candidates bytes ≡ JoinResult.ok candidate)
        × (length bytes ≤ max_join_artifact_bytes + length join_candidate_magic)
        × ((a : JoinApprovalV1) → ¬ (decode_join_approval approvals bytes ≡ JoinResult.ok a))
  unfolding encode_join_candidate decode_join_candidate decode_join_approval then_read
      read_candidate
  encode_join_candidate-roundtrip candidate bytes h =
      let (payload, x, e, le) = encode_artifact-ok join_candidate_magic _ bytes h in
      let p =
        ap (artifact_payload join_candidate_magic) e
        ∙ artifact_payload-append join_candidate_magic payload le in
      let d =
        candidates.deserialize-serialize (JoinCandidateStore.candidate_v1 candidate) payload x in
      let s = ap (strip_prefix join_approval_magic) e ∙ candidate_magic-distinct payload in
      (
        ap (λ r. then_read r (λ q. read_candidate (candidates.deserialize q))) p
            ∙ ap read_candidate d,
        omega (arith, le, ap length e, length-append join_candidate_magic payload),
        λ a g.
            let (q, w) = then_read-ok _ _ a g in
            artifact_payload-refused join_approval_magic bytes q s w,
      )

  -- A join approval that is written without an error is read back as the same approval, is at most
  -- as long as the limit and its magic together, and is never read as a candidate.
  pub encode_join_approval-roundtrip :
      (approval : JoinApprovalV1) (bytes : Bytes)
      → encode_join_approval approvals approval ≡ JoinResult.ok bytes
      → (decode_join_approval approvals bytes ≡ JoinResult.ok approval)
        × (length bytes ≤ max_join_artifact_bytes + length join_approval_magic)
        × ((c : JoinCandidateV1) → ¬ (decode_join_candidate candidates bytes ≡ JoinResult.ok c))
  unfolding encode_join_approval decode_join_approval decode_join_candidate then_read read_approval
  encode_join_approval-roundtrip approval bytes h =
      let (payload, x, e, le) = encode_artifact-ok join_approval_magic _ bytes h in
      let p =
        ap (artifact_payload join_approval_magic) e
        ∙ artifact_payload-append join_approval_magic payload le in
      let d = approvals.deserialize-serialize (JoinApprovalStore.approval_v1 approval) payload x in
      let s = ap (strip_prefix join_candidate_magic) e ∙ approval_magic-distinct payload in
      (
        ap (λ r. then_read r (λ q. read_approval (approvals.deserialize q))) p ∙ ap read_approval d,
        omega (arith, le, ap length e, length-append join_approval_magic payload),
        λ c g.
            let (q, w) = then_read-ok _ _ c g in
            artifact_payload-refused join_candidate_magic bytes q s w,
      )

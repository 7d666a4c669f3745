-- ===== src/Pipeline/Root.antt =====
-- The first steps of `validate_v1` (validate/pipeline.rs): the records by their hash, and the root
-- that the ratchet trusts. `none` is an error of the serialisation.
use thorax.Prelude.{
  Bool, true, List, [], ◌∷◌, Option, none, some, ◌>>=◌, ◌==◌, if◌then◌else◌, bytes_ord,
}
use thorax.Prelude.Map.{BTreeSet, contains_key, insert}
use thorax.Format.Selector.{Bytes, text, bytes_eq}
use thorax.Format.Key.{HashValue}
use thorax.Format.Body.{VaultRecordV1, RecordBodyV1, VaultRootRecordV1, UserRecordV1, known}
use thorax.Ratchet.{Ratchet}
use thorax.Crypto.{CryptoProvider, derive_user_id, key_hash, signed_record_message, record_hash}
use thorax.Pipeline.Report.{ValidationIssue, root_not_trusted, ambiguous_root}

abbrev pub Hashed : Type 0
Hashed = VaultRecordV1 × HashValue

pub record SelectedRoot : Type 0 where
  pub root : VaultRootRecordV1
  pub signing_public_key : Bytes
  pub root_signing_public_key_hash : HashValue

unfoldable pub user_from_root : VaultRootRecordV1 → Bytes → UserRecordV1
user_from_root root signing_public_key = record {
  id = root.id;
  signing_public_key = signing_public_key;
  hpke_public_key = root.hpke_public_key;
  counter = 0;
}

module _ (crypto : CryptoProvider) where
  -- The loop that drops byte-identical duplicates.
  unfoldable pub distinct_records : BTreeSet HashValue → List VaultRecordV1 → Option (List Hashed)
  distinct_records seen_hashes [] = some []
  distinct_records seen_hashes (signed ∷ records) = record_hash crypto signed >>= λ hash.
      (distinct_records (insert hash tt seen_hashes) records >>= λ rest.
      some (if contains_key seen_hashes hash then rest else (signed, hash) ∷ rest))

  unfoldable pub signature_verifies : VaultRecordV1 → Bytes → Bool
  signature_verifies signed message =
      crypto.verify_signature (text "thorax.signed.v1") signed.signing_public_key message
        signed.signature

  module _ (verified : BTreeSet HashValue) where
    -- The check where the error of the message is passed on (`?`).
    unfoldable pub try_verify : Hashed → Option Bool
    try_verify (signed, hash) =
        if contains_key verified hash
        then some true
        else signed_record_message crypto signed >>= λ message.
            some (signature_verifies signed message)

    module _ (ratchet : Ratchet) where
      unfoldable pub trusted : Hashed → VaultRootRecordV1 → Option (Option SelectedRoot)
      trusted (signed, hash) root = key_hash crypto signed.signing_public_key >>= λ root_hash.
          some (
            if root_hash == ratchet.trusted_root
            then some (record {
              root = root;
              signing_public_key = signed.signing_public_key;
              root_signing_public_key_hash = root_hash;
            })
            else none)

      unfoldable pub root_match : Hashed → Option RecordBodyV1 → Option (Option SelectedRoot)
      root_match (signed, hash) (some (RecordBodyV1.vault_root root)) =
          derive_user_id crypto signed.signing_public_key root.hpke_public_key >>= λ id.
          if root.id == id
          then (try_verify (signed, hash) >>= λ ok.
              if ok then trusted (signed, hash) root else some none)
          else some none
      root_match hashed _ = some none

      unfoldable pub root_matches : List Hashed → Option (List SelectedRoot)
      root_matches [] = some []
      root_matches ((signed, hash) ∷ records) =
          root_match (signed, hash) (known signed.body) >>= λ found.
          (root_matches records >>= λ rest.
          some (elim found [ none ↦ rest | some selected ↦ selected ∷ rest ]))

      -- The `match matches.len()`, with the issue that it raises.
      unfoldable pub choose_root : List SelectedRoot → List ValidationIssue × Option SelectedRoot
      choose_root [] = (root_not_trusted ∷ [], none)
      choose_root (root ∷ []) = ([], some root)
      choose_root (root ∷ another ∷ more) = (ambiguous_root ∷ [], none)

      unfoldable pub select_root : List Hashed → Option (List ValidationIssue × Option SelectedRoot)
      select_root records = root_matches records >>= λ matches. some (choose_root matches)

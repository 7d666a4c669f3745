-- ===== src/Crypto.antt =====
-- crates/thorax-core/src/crypto.rs and ids.rs: the hashes that give records and principals their
-- identity. The hash, the signature check and the serialisation are the parameter `CryptoProvider`;
-- `none` is the error of the serialisation.
use thorax.Prelude.{Bool, Option, some, ◌>>=◌}
use thorax.Format.Selector.{Bytes, Text, Chars, text, SecretSelectorV1}
use thorax.Format.Key.{
  HashValue, UserId, UserHandleId, VaultHandleId, GroupId, GroupMemberId, GrantId, SecretId, IdSeed,
  PrincipalRefV1,
}
use thorax.Format.Body.{VaultRecordV1, RecordBodyV1, Evolving}
use thorax.Format.RatchetRecord.{GroupMemberIdInputV1}
use thorax.Handle.{normalize_handle}

pub record UserIdInputV1 : Type 0 where
  pub signing_public_key : Bytes
  pub hpke_public_key : Bytes

-- The types whose values the source serialises to hash or to sign them.
pub data Serialize : Type 0 where
  user_id_input : UserIdInputV1 → Serialize
  group_member_id_input : GroupMemberIdInputV1 → Serialize
  id_seed : IdSeed → Serialize
  byte_vec : Bytes → Serialize
  string : Chars → Serialize
  secret_selector : SecretSelectorV1 → Serialize
  record_body : Evolving RecordBodyV1 → Serialize
  vault_record : VaultRecordV1 → Serialize

-- The trait `CryptoProvider`, and `cord::serialize`.
pub record CryptoProvider : Type 0 where
  pub serialize : Serialize → Option Bytes
  pub hash : Text → Bytes → HashValue
  pub verify_signature : Text → Bytes → Bytes → Bytes → Bool

module _ (crypto : CryptoProvider) where
  unfoldable pub canonical_bytes : Serialize → Option Bytes
  canonical_bytes value = crypto.serialize value

  unfoldable pub derive_hash : Text → Serialize → Option HashValue
  unfolding canonical_bytes
  derive_hash domain value = do bytes ← canonical_bytes value; some (crypto.hash domain bytes)

  unfoldable pub derive_user_id : Bytes → Bytes → Option UserId
  derive_user_id signing_public_key hpke_public_key = derive_hash (text "thorax.user.v1") (
      Serialize.user_id_input
        (record { signing_public_key = signing_public_key; hpke_public_key = hpke_public_key }))

  unfoldable pub derive_seeded_hash : Text → IdSeed → Option HashValue
  derive_seeded_hash domain seed = derive_hash domain (Serialize.id_seed seed)

  unfoldable pub key_hash : Bytes → Option HashValue
  key_hash public_key = derive_hash (text "thorax.key.v1") (Serialize.byte_vec public_key)

  unfoldable pub signed_record_message : VaultRecordV1 → Option Bytes
  signed_record_message signed = canonical_bytes (Serialize.record_body signed.body)

  unfoldable pub record_hash : VaultRecordV1 → Option HashValue
  record_hash signed = derive_hash (text "thorax.record-hash.v1") (Serialize.vault_record signed)

  unfoldable pub derive_user_handle_id : Chars → Option UserHandleId
  derive_user_handle_id handle =
      derive_hash (text "thorax.handle.v1") (Serialize.string (normalize_handle handle))

  unfoldable pub derive_vault_handle_id : Chars → Option VaultHandleId
  derive_vault_handle_id handle =
      derive_hash (text "thorax.vault-handle.v1") (Serialize.string (normalize_handle handle))

  unfoldable pub derive_grant_id : IdSeed → Option GrantId
  derive_grant_id seed = derive_seeded_hash (text "thorax.grant.v1") seed

  unfoldable pub derive_group_id : IdSeed → Option GroupId
  derive_group_id seed = derive_seeded_hash (text "thorax.group.v1") seed

  unfoldable pub derive_group_member_id : GroupId → PrincipalRefV1 → Option GroupMemberId
  derive_group_member_id group_id member_id =
      derive_hash (text "thorax.group-member.v1")
        (Serialize.group_member_id_input (record { group_id = group_id; member_id = member_id }))

  unfoldable pub derive_secret_id : SecretSelectorV1 → Option SecretId
  derive_secret_id selector =
      derive_hash (text "thorax.secret.v1") (Serialize.secret_selector selector)

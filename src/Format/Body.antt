-- ===== src/Format/Body.antt =====
-- The records of a vault and their bodies (format.rs, from `VaultStore` to `SealedPayloadV1`).
use native.Mathlib.Decide.{ℕ_discrete}
use thorax.Prelude.{ℕ, Bool, true, false, List, Option, none, some, Eq, of_discrete}
use thorax.Format.Selector.{Bytes, Text, Chars, SecretSelectorV1, GrantPermissionV1}
use thorax.Format.Key.{
  UserId, UserHandleId, VaultHandleId, GroupId, GroupMemberId, GrantId, SecretId, IdSeed,
  PrincipalRefV1,
}

pub record VaultRootRecordV1 : Type 0 where
  pub id : UserId
  pub hpke_public_key : Bytes

pub record EntryPointRecordV1 : Type 0 where
  pub trusted_root_user_id : UserId
  pub hpke_public_key : Bytes
  pub counter : ℕ

pub record UserRecordV1 : Type 0 where
  pub id : UserId
  pub signing_public_key : Bytes
  pub hpke_public_key : Bytes
  pub counter : ℕ

pub record UserHandleRecordV1 : Type 0 where
  pub id : UserHandleId
  pub handle : Chars
  pub user_id : UserId
  pub counter : ℕ

pub record VaultHandleRecordV1 : Type 0 where
  pub id : VaultHandleId
  pub handle : Chars
  pub counter : ℕ

pub record GroupRecordV1 : Type 0 where
  pub id : GroupId
  pub seed : IdSeed
  pub handle : Chars
  pub counter : ℕ

pub record GroupDeletedRecordV1 : Type 0 where
  pub id : GroupId
  pub counter : ℕ

pub record GroupMemberRecordV1 : Type 0 where
  pub id : GroupMemberId
  pub group_id : GroupId
  pub member_id : PrincipalRefV1
  pub counter : ℕ

pub record GroupMemberDeletedRecordV1 : Type 0 where
  pub id : GroupMemberId
  pub group_id : GroupId
  pub member_id : PrincipalRefV1
  pub counter : ℕ

pub record GrantRecordV1 : Type 0 where
  pub id : GrantId
  pub seed : IdSeed
  pub subject_id : PrincipalRefV1
  pub permission : GrantPermissionV1
  pub counter : ℕ

pub record GrantDeletedRecordV1 : Type 0 where
  pub id : GrantId
  pub permission : GrantPermissionV1
  pub counter : ℕ

pub record UserDeletedRecordV1 : Type 0 where
  pub id : UserId
  pub reason : Option Text
  pub counter : ℕ

pub record RecipientSlotV1 : Type 0 where
  pub recipient_id : UserId
  pub hpke_encapsulated_key : Bytes
  pub wrapped_content_key : Bytes

pub record SealedPayloadV1 : Type 0 where
  pub nonce : Bytes
  pub ciphertext : Bytes
  pub recipient_slots : List RecipientSlotV1

pub record SecretRecordV1 : Type 0 where
  pub id : SecretId
  pub selector : SecretSelectorV1
  pub sealed : SealedPayloadV1
  pub counter : ℕ

pub record SecretDeletedRecordV1 : Type 0 where
  pub id : SecretId
  pub selector : SecretSelectorV1
  pub counter : ℕ

pub data RecordBodyV1 : Type 0 where
  vault_root : VaultRootRecordV1 → RecordBodyV1
  entry_point : EntryPointRecordV1 → RecordBodyV1
  user : UserRecordV1 → RecordBodyV1
  user_handle : UserHandleRecordV1 → RecordBodyV1
  group : GroupRecordV1 → RecordBodyV1
  group_deleted : GroupDeletedRecordV1 → RecordBodyV1
  group_member : GroupMemberRecordV1 → RecordBodyV1
  group_member_deleted : GroupMemberDeletedRecordV1 → RecordBodyV1
  grant : GrantRecordV1 → RecordBodyV1
  grant_deleted : GrantDeletedRecordV1 → RecordBodyV1
  user_deleted : UserDeletedRecordV1 → RecordBodyV1
  secret : SecretRecordV1 → RecordBodyV1
  secret_deleted : SecretDeletedRecordV1 → RecordBodyV1
  vault_handle : VaultHandleRecordV1 → RecordBodyV1

unfoldable pub lww_counter : RecordBodyV1 → Option ℕ
lww_counter (entry_point r) = some r.counter
lww_counter (user r) = some r.counter
lww_counter (user_deleted r) = some r.counter
lww_counter (user_handle r) = some r.counter
lww_counter (vault_handle r) = some r.counter
lww_counter (group r) = some r.counter
lww_counter (group_deleted r) = some r.counter
lww_counter (group_member r) = some r.counter
lww_counter (group_member_deleted r) = some r.counter
lww_counter (grant r) = some r.counter
lww_counter (grant_deleted r) = some r.counter
lww_counter (secret r) = some r.counter
lww_counter (secret_deleted r) = some r.counter
lww_counter (vault_root r) = none

unfoldable pub with_lww_counter : RecordBodyV1 → ℕ → Option RecordBodyV1
with_lww_counter (entry_point r) n = some (entry_point (record r { counter = n }))
with_lww_counter (user r) n = some (user (record r { counter = n }))
with_lww_counter (user_deleted r) n = some (user_deleted (record r { counter = n }))
with_lww_counter (user_handle r) n = some (user_handle (record r { counter = n }))
with_lww_counter (vault_handle r) n = some (vault_handle (record r { counter = n }))
with_lww_counter (group r) n = some (group (record r { counter = n }))
with_lww_counter (group_deleted r) n = some (group_deleted (record r { counter = n }))
with_lww_counter (group_member r) n = some (group_member (record r { counter = n }))
with_lww_counter (group_member_deleted r) n = some (group_member_deleted (record r { counter = n }))
with_lww_counter (grant r) n = some (grant (record r { counter = n }))
with_lww_counter (grant_deleted r) n = some (grant_deleted (record r { counter = n }))
with_lww_counter (secret r) n = some (secret (record r { counter = n }))
with_lww_counter (secret_deleted r) n = some (secret_deleted (record r { counter = n }))
with_lww_counter (vault_root r) n = none

unfoldable pub is_deletion : RecordBodyV1 → Bool
is_deletion (user_deleted r) = true
is_deletion (group_deleted r) = true
is_deletion (group_member_deleted r) = true
is_deletion (grant_deleted r) = true
is_deletion (secret_deleted r) = true
is_deletion _ = false

-- `cord::Evolving`, as the source takes it apart: a record of a kind that this build knows, or the
-- bytes of a newer one.
pub data Evolving {ℓ} (A : Type ℓ) : Type ℓ where
  known_kind : A → Evolving A
  unknown_kind : Bytes → Evolving A

-- `Evolving::known`
unfoldable pub known {ℓ} : {A : Type ℓ} → Evolving A → Option A
known (known_kind a) = some a
known (unknown_kind bytes) = none

pub record VaultRecordV1 : Type 0 where
  pub body : Evolving RecordBodyV1
  pub signing_public_key : Bytes
  pub signature : Bytes

body_discrete : Discrete RecordBodyV1
body_discrete = hlevel ℕ_discrete

vault_record_discrete : Discrete VaultRecordV1
vault_record_discrete = hlevel ℕ_discrete

instance unfoldable pub body_eq : Eq RecordBodyV1
unfolding body_discrete ℕ_discrete
body_eq = of_discrete body_discrete

instance unfoldable pub vault_record_eq : Eq VaultRecordV1
unfolding vault_record_discrete ℕ_discrete
vault_record_eq = of_discrete vault_record_discrete

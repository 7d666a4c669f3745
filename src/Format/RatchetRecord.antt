-- ===== src/Format/RatchetRecord.antt =====
-- The records of a rollback ratchet (format.rs, `UserRatchetRecordV1` to `RatchetRecordV1::counter`)
-- and the id preimages that they remember (`KeyOrigin` of ratchet.rs).
use thorax.Prelude.{ℕ, List, [], ◌∷◌, Option, none, some}
use thorax.Format.Selector.{Text, Chars, SecretSelectorV1, selector_of_tuple}
use thorax.Format.Key.{
  HashValue, UserId, UserHandleId, VaultHandleId, GroupId, GroupMemberId, GrantId, SecretId,
  PrincipalRefV1, RecordKey,
}

pub record GroupMemberIdInputV1 : Type 0 where
  pub group_id : GroupId
  pub member_id : PrincipalRefV1

pub data KeyOrigin : Type 0 where
  secret : SecretSelectorV1 → KeyOrigin
  user_handle : Chars → KeyOrigin
  vault_handle : Chars → KeyOrigin
  group_member : GroupMemberIdInputV1 → KeyOrigin

pub record UserRatchetRecordV1 : Type 0 where
  pub id : UserId
  pub counter : ℕ

pub record UserHandleRatchetRecordV1 : Type 0 where
  pub id : UserHandleId
  pub counter : ℕ
  pub handle : Chars

pub record VaultHandleRatchetRecordV1 : Type 0 where
  pub id : VaultHandleId
  pub counter : ℕ
  pub handle : Chars

pub record GroupRatchetRecordV1 : Type 0 where
  pub id : GroupId
  pub counter : ℕ

pub record GroupMemberRatchetRecordV1 : Type 0 where
  pub id : GroupMemberId
  pub counter : ℕ
  pub membership : Option GroupMemberIdInputV1

pub record GrantRatchetRecordV1 : Type 0 where
  pub id : GrantId
  pub counter : ℕ

pub record SecretRatchetRecordV1 : Type 0 where
  pub id : SecretId
  pub counter : ℕ
  pub selector : SecretSelectorV1

pub record EntryPointRatchetRecordV1 : Type 0 where
  pub id : UserId
  pub counter : ℕ

pub record FormatVersionRatchetRecordV1 : Type 0 where
  pub version : ℕ

pub record TrustedRootRatchetRecordV1 : Type 0 where
  pub trusted_root : HashValue

pub data RatchetRecordV1 : Type 0 where
  user : UserRatchetRecordV1 → RatchetRecordV1
  user_handle : UserHandleRatchetRecordV1 → RatchetRecordV1
  vault_handle : VaultHandleRatchetRecordV1 → RatchetRecordV1
  group : GroupRatchetRecordV1 → RatchetRecordV1
  group_member : GroupMemberRatchetRecordV1 → RatchetRecordV1
  grant : GrantRatchetRecordV1 → RatchetRecordV1
  secret : SecretRatchetRecordV1 → RatchetRecordV1
  entry_point : EntryPointRatchetRecordV1 → RatchetRecordV1
  format_version : FormatVersionRatchetRecordV1 → RatchetRecordV1
  trusted_root : TrustedRootRatchetRecordV1 → RatchetRecordV1

-- The `match origin` of three branches of `for_key`; an origin of another kind is not remembered.
unfoldable pub user_handle_of : Option KeyOrigin → Chars
user_handle_of (some (KeyOrigin.user_handle handle)) = handle
user_handle_of _ = []

unfoldable pub vault_handle_of : Option KeyOrigin → Chars
vault_handle_of (some (KeyOrigin.vault_handle handle)) = handle
vault_handle_of _ = []

unfoldable pub membership_of : Option KeyOrigin → Option GroupMemberIdInputV1
membership_of (some (KeyOrigin.group_member input)) = some input
membership_of _ = none

unfoldable pub selector_of : Option KeyOrigin → SecretSelectorV1
unfolding selector_of_tuple
selector_of (some (KeyOrigin.secret selector)) = selector
selector_of _ = selector_of_tuple []

-- `RatchetRecordV1::for_key`
unfoldable pub for_key : RecordKey → ℕ → Option KeyOrigin → Option RatchetRecordV1
unfolding user_handle_of vault_handle_of membership_of selector_of
for_key RecordKey.vault_root counter origin = none
for_key (RecordKey.entry_point id) counter origin =
    some (RatchetRecordV1.entry_point (record { id = id; counter = counter }))
for_key (RecordKey.user id) counter origin =
    some (RatchetRecordV1.user (record { id = id; counter = counter }))
for_key (RecordKey.user_handle id) counter origin = some (
    RatchetRecordV1.user_handle
      (record { id = id; counter = counter; handle = user_handle_of origin }))
for_key (RecordKey.vault_handle id) counter origin = some (
    RatchetRecordV1.vault_handle
      (record { id = id; counter = counter; handle = vault_handle_of origin }))
for_key (RecordKey.group id) counter origin =
    some (RatchetRecordV1.group (record { id = id; counter = counter }))
for_key (RecordKey.group_member id) counter origin = some (
    RatchetRecordV1.group_member
      (record { id = id; counter = counter; membership = membership_of origin }))
for_key (RecordKey.grant id) counter origin =
    some (RatchetRecordV1.grant (record { id = id; counter = counter }))
for_key (RecordKey.secret id) counter origin =
    some (
      RatchetRecordV1.secret (record { id = id; counter = counter; selector = selector_of origin }))

-- The origins that two of the arms below guard by `!is_empty()`.
abbrev user_handle_origin : Chars → Option KeyOrigin
user_handle_origin [] = none
user_handle_origin (c ∷ cs) = some (KeyOrigin.user_handle (c ∷ cs))

abbrev vault_handle_origin : Chars → Option KeyOrigin
vault_handle_origin [] = none
vault_handle_origin (c ∷ cs) = some (KeyOrigin.vault_handle (c ∷ cs))

abbrev membership_origin : Option GroupMemberIdInputV1 → Option KeyOrigin
membership_origin none = none
membership_origin (some input) = some (KeyOrigin.group_member input)

abbrev pub selector_origin : List Text → SecretSelectorV1 → Option KeyOrigin
selector_origin [] selector = none
selector_origin (part ∷ parts) selector = some (KeyOrigin.secret selector)

-- `RatchetRecordV1::origin`
unfoldable pub origin : RatchetRecordV1 → Option KeyOrigin
origin (RatchetRecordV1.user_handle w) = user_handle_origin w.handle
origin (RatchetRecordV1.vault_handle w) = vault_handle_origin w.handle
origin (RatchetRecordV1.group_member w) = membership_origin w.membership
origin (RatchetRecordV1.secret w) = selector_origin w.selector.tuple w.selector
origin _ = none

-- `RatchetRecordV1::key`
unfoldable pub key_of : RatchetRecordV1 → Option RecordKey
key_of (RatchetRecordV1.format_version w) = none
key_of (RatchetRecordV1.trusted_root w) = none
key_of (RatchetRecordV1.user w) = some (RecordKey.user w.id)
key_of (RatchetRecordV1.user_handle w) = some (RecordKey.user_handle w.id)
key_of (RatchetRecordV1.vault_handle w) = some (RecordKey.vault_handle w.id)
key_of (RatchetRecordV1.group w) = some (RecordKey.group w.id)
key_of (RatchetRecordV1.group_member w) = some (RecordKey.group_member w.id)
key_of (RatchetRecordV1.grant w) = some (RecordKey.grant w.id)
key_of (RatchetRecordV1.secret w) = some (RecordKey.secret w.id)
key_of (RatchetRecordV1.entry_point w) = some (RecordKey.entry_point w.id)

-- `RatchetRecordV1::counter`
unfoldable pub counter : RatchetRecordV1 → ℕ
counter (RatchetRecordV1.user w) = w.counter
counter (RatchetRecordV1.user_handle w) = w.counter
counter (RatchetRecordV1.vault_handle w) = w.counter
counter (RatchetRecordV1.group w) = w.counter
counter (RatchetRecordV1.group_member w) = w.counter
counter (RatchetRecordV1.grant w) = w.counter
counter (RatchetRecordV1.secret w) = w.counter
counter (RatchetRecordV1.entry_point w) = w.counter
counter (RatchetRecordV1.format_version w) = w.version
counter (RatchetRecordV1.trusted_root w) = 0

-- ===== src/Envelope.antt =====
-- The vault file (crates/thorax-core/src/validate/mod.rs, `encode_vault` and `decode_vault`): magic,
-- limits and payload. The serialisation of the payload is the parameter `VaultCodec`.
pub mod Limits
mod Examples
use Prim.Native.Nat.{min}
use thorax.Prelude.{
  ℕ, ◌+◌, ◌-◌, ◌^◌, ◌≡◌, Bool, true, false, if◌then◌else◌, List, [], ◌∷◌, ◌++◌, Option, none, some,
  length, ltb, nat_beq,
}
use thorax.Format.Selector.{Bytes, text}

-- `cord::serialize` and `cord::deserialize` of a `VaultStore`, and the number of its records. What
-- was serialised is read back.
pub record VaultCodec : Type 1 where
  pub VaultStore : Type 0
  pub record_count : VaultStore → ℕ
  pub serialize : VaultStore → Option Bytes
  pub deserialize : Bytes → Option VaultStore
  pub deserialize-serialize :
      (v : VaultStore) (payload : Bytes) → serialize v ≡ some payload → deserialize payload ≡ some v

pub data CoreError : Type 0 where
  cord_error : CoreError
  missing_magic : CoreError
  above_max_bytes : ℕ → CoreError
  above_max_records : ℕ → CoreError

pub data Result (A : Type 0) : Type 0 where
  ok : A → Result A
  err : CoreError → Result A

abbrev pub vault_magic : Bytes
vault_magic = 116 ∷ 104 ∷ 111 ∷ 114 ∷ 97 ∷ 120 ∷ 45 ∷ 118 ∷ 97 ∷ 117 ∷ 108 ∷ 116 ∷ 0 ∷ []

abbrev pub max_vault_bytes : ℕ
max_vault_bytes = 268435456

abbrev pub max_vault_records : ℕ
max_vault_records = 262144

-- `usize` of 64 bits
abbrev pub saturating_add : ℕ → ℕ → ℕ
saturating_add a b = min (a + b) 18446744073709551615

unfoldable pub strip_prefix : Bytes → Bytes → Option Bytes
strip_prefix [] bytes = some bytes
strip_prefix (p ∷ ps) [] = none
strip_prefix (p ∷ ps) (b ∷ bs) = let rest = strip_prefix ps bs in if nat_beq p b then rest else none

unfoldable pub guard_bytes : {A : Type 0} → ℕ → ℕ → Result A → Result A
guard_bytes limit size next = if ltb limit size then err (above_max_bytes size) else next

unfoldable pub guard_records : {A : Type 0} → ℕ → ℕ → Result A → Result A
guard_records limit count next = if ltb limit count then err (above_max_records count) else next

module _ (cord : VaultCodec) where
  -- What `encode_vault` does with the serialised vault.
  unfoldable pub encode_payload : Option Bytes → Result Bytes
  encode_payload none = err cord_error
  encode_payload (some payload) =
      guard_bytes max_vault_bytes (saturating_add (length vault_magic) (length payload))
        (ok (vault_magic ++ payload))

  unfoldable pub encode_vault : cord.VaultStore → Result Bytes
  encode_vault vault =
      guard_records max_vault_records (cord.record_count vault)
        (encode_payload (cord.serialize vault))

  unfoldable pub check_records : ℕ → Option cord.VaultStore → Result cord.VaultStore
  check_records max_records none = err cord_error
  check_records max_records (some vault) =
      guard_records max_records (cord.record_count vault) (ok vault)

  unfoldable pub decode_payload : Bytes → ℕ → ℕ → Option Bytes → Result cord.VaultStore
  decode_payload bytes max_bytes max_records none = err missing_magic
  decode_payload bytes max_bytes max_records (some payload) =
      guard_bytes max_bytes (length bytes) (check_records max_records (cord.deserialize payload))

  unfoldable pub decode_vault_with_limits : Bytes → ℕ → ℕ → Result cord.VaultStore
  decode_vault_with_limits bytes max_bytes max_records =
      decode_payload bytes max_bytes max_records (strip_prefix vault_magic bytes)

  unfoldable pub decode_vault : Bytes → Result cord.VaultStore
  decode_vault bytes = decode_vault_with_limits bytes max_vault_bytes max_vault_records

-- ===== src/Envelope/Examples.antt =====
-- A vault as its serialised bytes, written and read.
use thorax.Prelude.{◌≤◌, ◌≡◌, refl, [], ◌∷◌, ◌++◌, some, length, sym}
use thorax.Format.Selector.{Bytes}
use thorax.Envelope.{
  VaultCodec, CoreError, Result, vault_magic, max_vault_bytes, max_vault_records, strip_prefix,
  guard_bytes, guard_records, encode_payload, encode_vault, check_records, decode_payload,
  decode_vault_with_limits, decode_vault,
}
use thorax.Envelope.Limits.{encode_vault-roundtrip, decode_vault-bounded}

runs : Unit {0}
unfolding strip_prefix guard_bytes guard_records encode_payload encode_vault check_records
    decode_payload decode_vault_with_limits decode_vault
runs = tt

abbrev raw : VaultCodec
raw = record {
  VaultStore = Bytes;
  record_count = λ v. length v;
  serialize = λ v. some v;
  deserialize = λ p. some p;
  deserialize-serialize = λ v p h. sym h;
}

abbrev two : Bytes
two = 5 ∷ 6 ∷ []

written : encode_vault raw two ≡ Result.ok (vault_magic ++ two)
unfolding runs
written = refl

read : decode_vault raw (vault_magic ++ two) ≡ Result.ok two
unfolding runs
read = refl

unmarked : decode_vault raw two ≡ Result.err CoreError.missing_magic
unfolding runs
unmarked = refl

encode_vault-roundtrip_example :
    (decode_vault raw (vault_magic ++ two) ≡ Result.ok two)
    × (length (vault_magic ++ two) ≤ max_vault_bytes)
encode_vault-roundtrip_example = encode_vault-roundtrip raw two (vault_magic ++ two) written

decode_vault-bounded_example :
    (payload : Bytes) × (vault_magic ++ two ≡ vault_magic ++ payload)
    × (some payload ≡ some two)
    × (length (vault_magic ++ two) ≤ max_vault_bytes)
    × (length two ≤ max_vault_records)
decode_vault-bounded_example = decode_vault-bounded raw (vault_magic ++ two) two read

-- ===== src/Envelope/Limits.antt =====
-- What is written is read back, and only what keeps to the limits is read or written.
use thorax.Prelude.{
  ℕ, ◌+◌, ◌≤◌, ◌≡◌, refl, sym, ap, ◌∙◌, [], ◌∷◌, ◌++◌, Option, none, some, length, nat_beq, arith,
  Bool-cases, inl, inr, subst,
}
use thorax.Format.Selector.{Bytes}
use thorax.Envelope.{
  VaultCodec, Result, vault_magic, max_vault_bytes, max_vault_records, strip_prefix, guard_bytes,
  guard_records, encode_payload, encode_vault, check_records, decode_payload,
  decode_vault_with_limits, decode_vault,
}

guard_bytes-ok :
    {A : Type 0} (limit size : ℕ) (next : Result A) (a : A)
    → guard_bytes limit size next ≡ Result.ok a
    → (size ≤ limit) × (next ≡ Result.ok a)
unfolding guard_bytes
guard_bytes-ok limit size next a h = (ground arith, ground arith)

guard_bytes_pass :
    {A : Type 0} (limit size : ℕ) (next : Result A)
    → size ≤ limit
    → guard_bytes limit size next ≡ next
unfolding guard_bytes
guard_bytes_pass limit size next h = ground arith

guard_records-ok :
    {A : Type 0} (limit count : ℕ) (next : Result A) (a : A)
    → guard_records limit count next ≡ Result.ok a
    → (count ≤ limit) × (next ≡ Result.ok a)
unfolding guard_records
guard_records-ok limit count next a h = (ground arith, ground arith)

guard_records_pass :
    {A : Type 0} (limit count : ℕ) (next : Result A)
    → count ≤ limit
    → guard_records limit count next ≡ next
unfolding guard_records
guard_records_pass limit count next h = ground arith

pub strip_prefix-append : (p rest : Bytes) → strip_prefix p (p ++ rest) ≡ some rest
unfolding strip_prefix
strip_prefix-append [] rest = refl
strip_prefix-append (x ∷ p) rest = ground (arith, strip_prefix-append p rest)

strip_prefix-some : (p bytes rest : Bytes) → strip_prefix p bytes ≡ some rest → bytes ≡ p ++ rest
unfolding strip_prefix
strip_prefix-some [] bytes rest h = cc
strip_prefix-some (x ∷ p) [] rest h = cc
strip_prefix-some (x ∷ p) (b ∷ bytes) rest h = elim (Bool-cases (nat_beq x b)) [
  | inl e ↦ ground (arith, strip_prefix-some p bytes rest (ground arith))
  | inr e ↦ absurd (ground arith)
]

length-magic : (payload : Bytes) → length (vault_magic ++ payload) ≡ 13 + length payload
length-magic payload = omega arith

ok_inj : {A : Type 0} (a b : A) → Result.ok a ≡ Result.ok b → a ≡ b
ok_inj a b h = cc

module _ (cord : VaultCodec) where
  encode_payload-ok :
      (x : Option Bytes) (bytes : Bytes)
      → encode_payload cord x ≡ Result.ok bytes
      → (payload : Bytes) × (x ≡ some payload)
        × (bytes ≡ vault_magic ++ payload)
        × (length bytes ≤ max_vault_bytes)
  unfolding encode_payload
  encode_payload-ok none bytes h = cc
  encode_payload-ok (some payload) bytes h =
      let (le, q) = guard_bytes-ok max_vault_bytes _ _ bytes h in
      let e = sym (ok_inj _ bytes q) in
      (payload, refl, e, omega (arith, le, ap length e, length-magic payload))

  decode_payload-some :
      (bytes payload : Bytes) (vault : cord.VaultStore)
      → length bytes ≤ max_vault_bytes
      → cord.record_count vault ≤ max_vault_records
      → cord.deserialize payload ≡ some vault
      → decode_payload cord bytes max_vault_bytes max_vault_records (some payload) ≡ Result.ok vault
  unfolding decode_payload check_records
  decode_payload-some bytes payload vault le c d =
      guard_bytes_pass max_vault_bytes (length bytes) _ le
      ∙ ap (check_records cord max_vault_records) d
      ∙ guard_records_pass max_vault_records (cord.record_count vault) (Result.ok vault) c

  -- A vault file that is written without an error is read back as the same vault, and is at most
  -- max_vault_bytes long.
  pub encode_vault-roundtrip :
      (vault : cord.VaultStore) (bytes : Bytes)
      → encode_vault cord vault ≡ Result.ok bytes
      → (decode_vault cord bytes ≡ Result.ok vault) × (length bytes ≤ max_vault_bytes)
  unfolding encode_vault decode_vault decode_vault_with_limits
  encode_vault-roundtrip vault bytes h =
      let (c, q) = guard_records-ok max_vault_records (cord.record_count vault) _ bytes h in
      let (payload, x, e, le) = encode_payload-ok (cord.serialize vault) bytes q in
      let s = ap (strip_prefix vault_magic) e ∙ strip_prefix-append vault_magic payload in
      let d = cord.deserialize-serialize vault payload x in
      (
        ap (decode_payload cord bytes max_vault_bytes max_vault_records) s
            ∙ decode_payload-some bytes payload vault le c d,
        le,
      )

  check_records-ok :
      (max_records : ℕ) (x : Option cord.VaultStore) (vault : cord.VaultStore)
      → check_records cord max_records x ≡ Result.ok vault
      → (x ≡ some vault) × (cord.record_count vault ≤ max_records)
  unfolding check_records
  check_records-ok max_records none vault h = cc
  check_records-ok max_records (some v) vault h =
      let (le, q) = guard_records-ok max_records (cord.record_count v) _ vault h in
      let e = ok_inj v vault q in (ap some e, subst (λ v. cord.record_count v ≤ max_records) e le)

  decode_payload-ok :
      (bytes : Bytes) (x : Option Bytes) (vault : cord.VaultStore)
      → decode_payload cord bytes max_vault_bytes max_vault_records x ≡ Result.ok vault
      → (payload : Bytes) × (x ≡ some payload)
        × (cord.deserialize payload ≡ some vault)
        × (length bytes ≤ max_vault_bytes)
        × (cord.record_count vault ≤ max_vault_records)
  unfolding decode_payload
  decode_payload-ok bytes none vault h = cc
  decode_payload-ok bytes (some payload) vault h =
      let (le, q) = guard_bytes-ok max_vault_bytes (length bytes) _ vault h in
      let (d, c) = check_records-ok max_vault_records (cord.deserialize payload) vault q in
      (payload, refl, d, le, c)

  -- A vault file that is read without an error is the magic and a payload that deserialises to the
  -- vault, is at most max_vault_bytes long, and holds at most max_vault_records records.
  pub decode_vault-bounded :
      (bytes : Bytes) (vault : cord.VaultStore)
      → decode_vault cord bytes ≡ Result.ok vault
      → (payload : Bytes) × (bytes ≡ vault_magic ++ payload)
        × (cord.deserialize payload ≡ some vault)
        × (length bytes ≤ max_vault_bytes)
        × (cord.record_count vault ≤ max_vault_records)
  unfolding decode_vault decode_vault_with_limits
  decode_vault-bounded bytes vault h =
      let (payload, s, d, le, c) =
        decode_payload-ok bytes (strip_prefix vault_magic bytes) vault h in
      (payload, strip_prefix-some vault_magic bytes payload s, d, le, c)

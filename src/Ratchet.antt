-- ===== src/Ratchet.antt =====
-- crates/thorax-core/src/ratchet.rs: the local rollback ratchet of one trusted root. A method on
-- `&mut self` returns the new ratchet.
pub mod Monotone
pub mod Restore
mod Examples
use Prim.Native.Nat.{max}
use thorax.Prelude.{ℕ, List, [], ◌∷◌, ◌++◌, Option, none, some, ltb, if◌then◌else◌}
use thorax.Prelude.Map.{BTreeMap, get, get_or, update, or_insert}
use thorax.Format.Selector.{Bytes}
use thorax.Format.Key.{HashValue, RecordKey, key_ord}
use thorax.Format.RatchetRecord.{KeyOrigin, RatchetRecordV1, for_key, origin, key_of, counter}

-- A newtype over the raw payload in the source.
abbrev pub UnknownRatchetRecord : Type 0
UnknownRatchetRecord = Bytes

pub record Ratchet : Type 0 where
  pub trusted_root : HashValue
  pub watermarks : BTreeMap RecordKey ℕ
  pub origins : BTreeMap RecordKey KeyOrigin
  pub format_version : ℕ
  pub unknown_records : List UnknownRatchetRecord

pub record RatchetUpdate : Type 0 where
  pub raised_watermarks : BTreeMap RecordKey ℕ
  pub origins : BTreeMap RecordKey KeyOrigin
  pub raised_format_version : Option ℕ

unfoldable pub new : HashValue → Ratchet
new trusted_root = record {
  trusted_root = trusted_root;
  watermarks = [];
  origins = [];
  format_version = 0;
  unknown_records = [];
}

-- `*entry = (*entry).max(counter)` at `entry(key).or_insert(0)`
unfoldable pub raise : RecordKey → ℕ → BTreeMap RecordKey ℕ → BTreeMap RecordKey ℕ
raise key counter = update key (λ entry. max (get_or entry 0) counter)

-- The loops of `apply_update`.
unfoldable pub raise_all : BTreeMap RecordKey ℕ → BTreeMap RecordKey ℕ → BTreeMap RecordKey ℕ
raise_all watermarks [] = watermarks
raise_all watermarks ((key, counter) ∷ raised) = raise_all (raise key counter watermarks) raised

unfoldable pub remember_all :
    BTreeMap RecordKey KeyOrigin → BTreeMap RecordKey KeyOrigin → BTreeMap RecordKey KeyOrigin
remember_all origins [] = origins
remember_all origins ((key, origin) ∷ rest) = remember_all (or_insert key origin origins) rest

unfoldable pub raise_version : ℕ → Option ℕ → ℕ
raise_version current none = current
raise_version current (some version) = max current version

unfoldable pub apply_update : Ratchet → RatchetUpdate → Ratchet
unfolding raise_version
apply_update self update = record self {
  watermarks = raise_all self.watermarks update.raised_watermarks;
  origins = remember_all self.origins update.origins;
  format_version = raise_version self.format_version update.raised_format_version;
}

-- The loop of `to_records`.
unfoldable pub watermark_records :
    BTreeMap RecordKey KeyOrigin → BTreeMap RecordKey ℕ → List RatchetRecordV1
watermark_records origins [] = []
watermark_records origins ((key, counter) ∷ watermarks) =
    let rest = watermark_records origins watermarks in
    elim (for_key key counter (get origins key)) [ none ↦ rest | some r ↦ r ∷ rest ]

unfoldable pub version_records : ℕ → List RatchetRecordV1
version_records version =
    if ltb 0 version then RatchetRecordV1.format_version (record { version = version }) ∷ [] else []

unfoldable pub to_records : Ratchet → List RatchetRecordV1
to_records self =
    watermark_records self.origins self.watermarks
    ++ (version_records self.format_version
        ++ RatchetRecordV1.trusted_root (record { trusted_root = self.trusted_root }) ∷ [])

-- The `keyed` arm of `absorb_record`, by what the record's accessors give.
unfoldable pub absorb_origin :
    RecordKey → Option KeyOrigin → BTreeMap RecordKey KeyOrigin → BTreeMap RecordKey KeyOrigin
absorb_origin key none origins = origins
absorb_origin key (some origin) origins = or_insert key origin origins

unfoldable pub absorb_at : Ratchet → Option RecordKey → ℕ → Option KeyOrigin → Ratchet
absorb_at self none counter origin = self
absorb_at self (some key) counter origin = record self {
  watermarks = raise key counter self.watermarks;
  origins = absorb_origin key origin self.origins;
}

unfoldable pub absorb_keyed : Ratchet → RatchetRecordV1 → Ratchet
absorb_keyed self keyed = absorb_at self (key_of keyed) (counter keyed) (origin keyed)

unfoldable pub absorb_record : Ratchet → RatchetRecordV1 → Ratchet
absorb_record self (RatchetRecordV1.trusted_root fact) = self
absorb_record self (RatchetRecordV1.format_version fact) = record self {
  format_version = max self.format_version fact.version;
}
absorb_record self keyed = absorb_keyed self keyed

-- A ratchet read back record by record, as the ratchet store and an invite's baseline do.
unfoldable pub absorb_all : Ratchet → List RatchetRecordV1 → Ratchet
absorb_all self [] = self
absorb_all self (r ∷ records) = absorb_all (absorb_record self r) records

-- ===== src/Effective/Report.antt =====
-- The reports of conflicts (`ConflictReport` of merge.rs, `materialize_conflicts` of
-- validate/effective.rs). The serialisation of records, by which candidates are sorted, is a
-- parameter.
use thorax.Prelude.{ℕ, if◌then◌else◌, ◌==◌, contains, List, [], ◌∷◌, Option, none, lex}
use Prim.Native.Nat.Ordering.{gt}
use thorax.Prelude.Map.{BTreeMap, get_or}
use thorax.Format.Selector.{Bytes, bytes_eq}
use thorax.Format.Key.{HashValue, RecordKey}
use thorax.Format.Body.{VaultRecordV1, vault_record_eq}
use thorax.Format.RatchetRecord.{KeyOrigin}
use thorax.Lww.{VerifiedRecord, ConflictSlot}

pub data ConflictKind : Type 0 where
  tie : ConflictKind
  rollback : ℕ → ConflictKind

pub record ConflictReport : Type 0 where
  pub key : RecordKey
  pub counter : ℕ
  pub kind : ConflictKind
  pub candidates : List VaultRecordV1
  pub origin : Option KeyOrigin

module _ (serialize : VaultRecordV1 → Option Bytes) where
  -- `sort_by_key` by `cord::serialize(signed).unwrap_or_default()`, which keeps the order of equals,
  -- and `dedup`.
  unfoldable pub sort_record : VaultRecordV1 → List VaultRecordV1 → List VaultRecordV1
  sort_record v [] = v ∷ []
  sort_record v (w ∷ ws) = elim (lex (get_or (serialize v) []) (get_or (serialize w) [])) [
    | gt ↦ w ∷ sort_record v ws
    | _ ↦ v ∷ w ∷ ws
  ]

  unfoldable pub sort_records : List VaultRecordV1 → List VaultRecordV1
  sort_records [] = []
  sort_records (v ∷ vs) = sort_record v (sort_records vs)

  unfoldable pub dedup_records : VaultRecordV1 → List VaultRecordV1 → List VaultRecordV1
  dedup_records last [] = []
  dedup_records last (v ∷ vs) = if v == last then dedup_records last vs else v ∷ dedup_records v vs

  unfoldable pub canonical : List VaultRecordV1 → List VaultRecordV1
  canonical vs = elim (sort_records vs) [ [] ↦ [] | w ∷ ws ↦ w ∷ dedup_records w ws ]

  unfoldable pub candidates_of : List HashValue → List VerifiedRecord → List VaultRecordV1
  candidates_of hashes [] = []
  candidates_of hashes (r ∷ records) =
      let rest = candidates_of hashes records in
      if contains hashes r.record_hash then r.signed ∷ rest else rest

  unfoldable pub materialize_conflicts :
      List VerifiedRecord → BTreeMap RecordKey ConflictSlot → BTreeMap RecordKey ConflictReport
  materialize_conflicts records [] = []
  materialize_conflicts records ((key, slot) ∷ conflicted) =
      (
        key,
        record {
          key = key;
          counter = slot.counter;
          kind = tie;
          candidates = canonical (candidates_of slot.candidate_hashes records);
          origin = none;
        },
      )
      ∷ materialize_conflicts records conflicted

-- ===== src/Pipeline/Watermarks.antt =====
-- `record_origin` and `admitted_watermarks` (validate/pipeline.rs), and what `validate_v1` makes of
-- the watermarks: the keys suspected of a rollback and the update of the ratchet.
pub mod Remember
use Prim.Native.Nat.{max}
use thorax.Prelude.{
  ℕ, Bool, true, false, not, ◌&&◌, List, [], ◌∷◌, Option, none, some, ltb, nat_beq, ◌==◌,
  if◌then◌else◌, bytes_ord,
}
use thorax.Prelude.Map.{
  BTreeMap, BTreeSet, get, get_or, insert, contains_key, or_insert, values, retain,
}
use thorax.Format.Key.{HashValue, UserId, RecordKey, key_ord, key_eq}
use thorax.Format.Body.{RecordBodyV1, VaultRecordV1, EntryPointRecordV1, lww_counter}
use thorax.Format.RatchetRecord.{KeyOrigin, GroupMemberIdInputV1}
use thorax.Authz.{AuthoritySet, can_create_permission, can_write}
use thorax.Ratchet.{Ratchet, raise}
use thorax.Lww.{VerifiedRecord, counter_of}
use thorax.Effective.State.{EffectiveState}
use thorax.Effective.Report.{ConflictReport, ConflictKind, rollback, canonical}
use thorax.Query.{authority_for_user}

unfoldable pub record_origin : RecordBodyV1 → Option KeyOrigin
record_origin (RecordBodyV1.secret r) = some (KeyOrigin.secret r.selector)
record_origin (RecordBodyV1.secret_deleted r) = some (KeyOrigin.secret r.selector)
record_origin (RecordBodyV1.user_handle r) = some (KeyOrigin.user_handle r.handle)
record_origin (RecordBodyV1.vault_handle r) = some (KeyOrigin.vault_handle r.handle)
record_origin (RecordBodyV1.group_member r) =
    some (KeyOrigin.group_member (record { group_id = r.group_id; member_id = r.member_id }))
record_origin (RecordBodyV1.group_member_deleted r) =
    some (KeyOrigin.group_member (record { group_id = r.group_id; member_id = r.member_id }))
record_origin _ = none

abbrev pub is_entry_point : RecordBodyV1 → Bool
is_entry_point (RecordBodyV1.entry_point e) = true
is_entry_point _ = false

-- The signers of the entry points.
unfoldable pub attested_users : List VerifiedRecord → BTreeSet UserId
attested_users [] = []
attested_users (r ∷ records) =
    let rest = attested_users records in
    if is_entry_point r.body then insert r.signer tt rest else rest

-- The `match` that decides whether a record counts, by the authority of its signer.
unfoldable pub body_admitted :
    BTreeSet UserId → BTreeSet HashValue → AuthoritySet → VerifiedRecord → RecordBodyV1 → Bool
body_admitted attested deletions auth r (RecordBodyV1.vault_root _) = true
body_admitted attested deletions auth r (RecordBodyV1.entry_point _) =
    contains_key attested r.signer
body_admitted attested deletions auth r (RecordBodyV1.user u) =
    auth.administer && contains_key attested u.id
body_admitted attested deletions auth r (RecordBodyV1.user_deleted _) =
    contains_key deletions r.record_hash
body_admitted attested deletions auth r (RecordBodyV1.group_deleted _) =
    contains_key deletions r.record_hash
body_admitted attested deletions auth r (RecordBodyV1.grant_deleted _) =
    contains_key deletions r.record_hash
body_admitted attested deletions auth r (RecordBodyV1.user_handle _) = auth.administer
body_admitted attested deletions auth r (RecordBodyV1.vault_handle _) = auth.administer
body_admitted attested deletions auth r (RecordBodyV1.group _) = auth.administer
body_admitted attested deletions auth r (RecordBodyV1.group_member _) = auth.administer
body_admitted attested deletions auth r (RecordBodyV1.group_member_deleted _) = auth.administer
body_admitted attested deletions auth r (RecordBodyV1.grant g) =
    can_create_permission auth g.permission
body_admitted attested deletions auth r (RecordBodyV1.secret s) = can_write auth s.selector
body_admitted attested deletions auth r (RecordBodyV1.secret_deleted s) = can_write auth s.selector

module _ (admitted : VerifiedRecord → Bool) where
  abbrev pub raise_by : RecordKey → Option ℕ → BTreeMap RecordKey ℕ → BTreeMap RecordKey ℕ
  raise_by key none watermarks = watermarks
  raise_by key (some counter) watermarks = raise key counter watermarks

  abbrev pub name_by :
      RecordKey → Option KeyOrigin → BTreeMap RecordKey KeyOrigin → BTreeMap RecordKey KeyOrigin
  name_by key none origins = origins
  name_by key (some origin) origins = or_insert key origin origins

  -- The loop, on each of the two maps that it fills.
  unfoldable pub watermarks_from : List VerifiedRecord → BTreeMap RecordKey ℕ → BTreeMap RecordKey ℕ
  watermarks_from [] watermarks = watermarks
  watermarks_from (r ∷ records) watermarks =
      watermarks_from records
        (if admitted r then raise_by r.key (lww_counter r.body) watermarks else watermarks)

  unfoldable pub origins_from :
      List VerifiedRecord → BTreeMap RecordKey KeyOrigin → BTreeMap RecordKey KeyOrigin
  origins_from [] origins = origins
  origins_from (r ∷ records) origins =
      origins_from records
        (if admitted r then name_by r.key (record_origin r.body) origins else origins)

unfoldable pub is_admitted :
    List VerifiedRecord → EffectiveState → BTreeSet HashValue → VerifiedRecord → Bool
is_admitted records effective deletions r =
    body_admitted (attested_users records) deletions (authority_for_user effective r.signer) r
      r.body

unfoldable pub admitted_watermarks :
    List VerifiedRecord
    → EffectiveState
    → BTreeSet HashValue
    → BTreeMap RecordKey ℕ × BTreeMap RecordKey KeyOrigin
admitted_watermarks records effective deletions = (
  watermarks_from (is_admitted records effective deletions) records [],
  origins_from (is_admitted records effective deletions) records [],
)

-- `current_watermarks.get(key).copied().unwrap_or(0)`
abbrev pub mark_at : BTreeMap RecordKey ℕ → RecordKey → ℕ
mark_at watermarks key = get_or (get watermarks key) 0

-- The remembered keys whose counter went backward.
unfoldable pub suspected : BTreeMap RecordKey ℕ → BTreeMap RecordKey ℕ → BTreeMap RecordKey ℕ
suspected current remembered = retain (λ key mark. ltb (mark_at current key) mark) remembered

-- The counters above what is remembered.
unfoldable pub raised : BTreeMap RecordKey ℕ → BTreeMap RecordKey ℕ → BTreeMap RecordKey ℕ
raised remembered current = retain (λ key mark. ltb (mark_at remembered key) mark) current

unfoldable pub new_origins :
    BTreeMap RecordKey KeyOrigin → BTreeMap RecordKey KeyOrigin → BTreeMap RecordKey KeyOrigin
new_origins remembered observed = retain (λ key _. not (contains_key remembered key)) observed

-- The reports of the keys suspected of a rollback.
module _ (serialize : VaultRecordV1 → Option (List ℕ)) (records : List VerifiedRecord)
    (current : BTreeMap RecordKey ℕ) (observed : BTreeMap RecordKey KeyOrigin)
    (remembered_origins : BTreeMap RecordKey KeyOrigin) where
  unfoldable pub survivors : RecordKey → ℕ → List VerifiedRecord → List VaultRecordV1
  survivors key counter [] = []
  survivors key counter (r ∷ rs) =
      let rest = survivors key counter rs in
      if r.key == key && nat_beq (counter_of r) counter then r.signed ∷ rest else rest

  abbrev first_of : Option KeyOrigin → Option KeyOrigin → Option KeyOrigin
  first_of none other = other
  first_of (some origin) other = some origin

  unfoldable pub rollback_report : RecordKey → ℕ → ConflictReport
  rollback_report key remembered = record {
    key = key;
    counter = mark_at current key;
    kind = rollback remembered;
    candidates = canonical serialize (survivors key (mark_at current key) records);
    origin = first_of (get observed key) (get remembered_origins key);
  }

  unfoldable pub report_rollbacks :
      BTreeMap RecordKey ℕ → BTreeMap RecordKey ConflictReport → BTreeMap RecordKey ConflictReport
  report_rollbacks [] conflicted = conflicted
  report_rollbacks ((key, remembered) ∷ rollback_keys) conflicted =
      report_rollbacks rollback_keys (insert key (rollback_report key remembered) conflicted)

-- `values().max()`
unfoldable pub highest : List ℕ → Option ℕ
highest [] = none
highest (counter ∷ counters) = some (max counter (get_or (highest counters) 0))

-- ===== src/Query/Secrets.antt =====
-- The queries on secrets (validate/state.rs) and on counters (validate/mod.rs). `none` is the error of
-- a derivation of an id.
use Prim.Native.Nat.{min, max}
use thorax.Prelude.{
  ℕ, ◌+◌, Bool, true, false, not, List, [], ◌∷◌, Option, none, some, ◌>>=◌, ◌==◌, any, ltb, find?,
  if◌then◌else◌, bytes_ord,
}
use thorax.Prelude.Map.{get, contains_key, is_some, values}
use thorax.Format.Selector.{SecretSelectorV1, bytes_eq}
use thorax.Format.Key.{HashValue, UserId, SecretId, RecordKey, key_ord}
use thorax.Format.Body.{VaultRecordV1, RecordBodyV1, SecretRecordV1, RecipientSlotV1}
use thorax.Authz.{can_read}
use thorax.Lww.{VerifiedRecord}
use thorax.Crypto.{CryptoProvider, derive_secret_id}
use thorax.Structure.Record.{distinct_slots}
use thorax.Effective.State.{EffectiveState, SecretSlot}
use thorax.Effective.Report.{ConflictReport, ConflictKind, tie, rollback}
use thorax.Query.{
  authority_for_user, latest_authorized_secret_record, current_reader_entries, get_elem?,
  secret_record_identity,
}

pub data SecretState : Type 0 where
  active_decryptable : SecretState
  not_encrypted_for_reader : SecretState
  unauthorized : SecretState
  missing : SecretState
  conflicted : SecretState
  invalid : SecretState

pub record ActiveSecretV1 : Type 0 where
  pub signed : VaultRecordV1
  pub value : SecretRecordV1

-- The value of a record that is live, as `filter` and `match` on the body keep it.
abbrev pub live_value : RecordBodyV1 → Option SecretRecordV1
live_value (RecordBodyV1.secret value) = some value
live_value _ = none

abbrev pub active_of : VerifiedRecord → Option ActiveSecretV1
active_of r = live_value r.body >>= λ value. some (record { signed = r.signed; value = value })

abbrev pub is_deletion_of : RecordBodyV1 → Bool
is_deletion_of (RecordBodyV1.secret_deleted d) = true
is_deletion_of _ = false

abbrev pub conflict_at : EffectiveState → SecretId → Option ConflictReport
conflict_at self secret = get self.conflicted (RecordKey.secret secret)

abbrev pub has_slot : SecretRecordV1 → UserId → Bool
has_slot value user =
    any (λ (slot : RecipientSlotV1). slot.recipient_id == user) value.sealed.recipient_slots

module _ (self : EffectiveState) where
  -- The winner at a secret, where it is a value.
  unfoldable pub live_at : SecretId → Option ActiveSecretV1
  live_at secret = latest_authorized_secret_record self secret >>= active_of

  -- What a value is to a user.
  unfoldable pub classify_value : SecretRecordV1 → UserId → SecretState
  classify_value value user =
      if not (can_read (authority_for_user self user) value.selector)
      then unauthorized
      else if not (distinct_slots [] value.sealed.recipient_slots)
      then invalid
      else if not (contains_key self.users user)
      then unauthorized
      else if has_slot value user
      then active_decryptable
      else not_encrypted_for_reader

  unfoldable pub classify_at : Option SecretId → UserId → SecretState
  classify_at none user = invalid
  classify_at (some secret) user =
      if is_some (conflict_at self secret)
      then conflicted
      else elim (live_at secret) [ none ↦ missing | some active ↦ classify_value active.value user ]

  module _ (crypto : CryptoProvider) (selector : SecretSelectorV1) where
    unfoldable pub classify_secret_for_user : UserId → SecretState
    classify_secret_for_user user =
        if self.authority_unresolved
        then invalid
        else classify_at (derive_secret_id crypto selector) user

    unfoldable pub secret_conflict : Option (Option ConflictReport)
    secret_conflict = derive_secret_id crypto selector >>= λ secret. some (conflict_at self secret)

    unfoldable pub secret_record : Option (Option ActiveSecretV1)
    secret_record = derive_secret_id crypto selector >>= λ secret.
        some (if is_some (conflict_at self secret) then none else live_at secret)

    abbrev pub lacks_reader : Option ActiveSecretV1 → Bool
    lacks_reader none = false
    lacks_reader (some active) =
        any (λ reader. not (has_slot active.value reader))
          (current_reader_entries self active.value.selector)

    unfoldable pub secret_missing_reader : Option Bool
    secret_missing_reader = secret_record >>= λ active. some (lacks_reader active)

    abbrev deletion_wins : Option VerifiedRecord → Bool
    deletion_wins none = false
    deletion_wins (some r) = is_deletion_of r.body

    unfoldable pub secret_is_deleted : Option Bool
    secret_is_deleted = derive_secret_id crypto selector >>= λ secret. some (
        if is_some (conflict_at self secret)
        then false
        else deletion_wins (latest_authorized_secret_record self secret))

  abbrev is_secret_key : RecordKey → Bool
  is_secret_key (RecordKey.secret secret) = true
  is_secret_key _ = false

  abbrev secret_reports : List ConflictReport → List ConflictReport
  secret_reports [] = []
  secret_reports (report ∷ reports) =
      let rest = secret_reports reports in if is_secret_key report.key then report ∷ rest else rest

  unfoldable pub secret_conflicts : List ConflictReport
  secret_conflicts = secret_reports (values self.conflicted)

  abbrev holds_hash : HashValue → Option VerifiedRecord → Bool
  holds_hash record_hash none = false
  holds_hash record_hash (some winner) = winner.record_hash == record_hash

  abbrev current_at : HashValue → Option (SecretId × SecretSelectorV1) → Bool
  current_at record_hash none = false
  current_at record_hash (some (secret, _)) =
      if is_some (conflict_at self secret)
      then false
      else holds_hash record_hash (latest_authorized_secret_record self secret)

  unfoldable pub secret_record_is_current : HashValue → Bool
  secret_record_is_current record_hash =
      elim (find? (λ (r : VerifiedRecord). r.record_hash == record_hash) self.verified_records) [
        | none ↦ false
        | some target ↦ current_at record_hash (secret_record_identity target.body)
      ]

  -- The slots of the keys without a conflict, sorted by the first position of the key.
  abbrev insert_slot : SecretSlot → List SecretSlot → List SecretSlot
  insert_slot slot [] = slot ∷ []
  insert_slot slot (x ∷ xs) =
      if ltb x.first_seen slot.first_seen then x ∷ insert_slot slot xs else slot ∷ x ∷ xs

  abbrev winner_at : SecretSlot → Option VerifiedRecord
  winner_at slot = get_elem? self.verified_records slot.winner

  abbrev in_conflict : Option VerifiedRecord → Bool
  in_conflict none = false
  in_conflict (some r) = contains_key self.conflicted r.key

  unfoldable pub listed_slots : List SecretSlot → List SecretSlot
  listed_slots [] = []
  listed_slots (slot ∷ slots) =
      let rest = listed_slots slots in
      if in_conflict (winner_at slot) then rest else insert_slot slot rest

  unfoldable pub active_slots : List SecretSlot → List ActiveSecretV1
  active_slots [] = []
  active_slots (slot ∷ slots) =
      let rest = active_slots slots in
      elim (winner_at slot >>= active_of) [ none ↦ rest | some active ↦ active ∷ rest ]

  unfoldable pub secret_records : List ActiveSecretV1
  secret_records = active_slots (listed_slots (values self.secret_index))

  -- `u64::saturating_add`
  abbrev pub next_after : ℕ → ℕ
  next_after counter = min (counter + 1) 18446744073709551615

  unfoldable pub next_counter : ℕ
  next_counter = elim self.admitted_counter_max [ none ↦ 0 | some highest ↦ next_after highest ]

  abbrev pub floor_of : ConflictKind → ℕ
  floor_of tie = 0
  floor_of (rollback remembered) = next_after remembered

  -- `max` of the remembered counters, where a tie counts as nothing.
  abbrev pub highest_floor : List ConflictReport → ℕ
  highest_floor [] = 0
  highest_floor (report ∷ reports) = max (floor_of report.kind) (highest_floor reports)

  unfoldable pub rollback_counter_floor : ℕ
  rollback_counter_floor = highest_floor (values self.conflicted)

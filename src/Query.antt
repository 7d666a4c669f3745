-- ===== src/Query.antt =====
-- crates/thorax-core/src/validate/state.rs: the queries on the effective state, and the index of the
-- winning secret records.
pub mod Secrets
pub mod Index
pub mod Greatest
pub mod Classify
mod Examples
use Prim.Native.Nat.Ordering.{gt}
use thorax.Prelude.{
  ℕ, suc, zero, Bool, true, false, not, List, [], ◌∷◌, Option, none, some, ◌>>=◌, ◌==◌,
  if◌then◌else◌, bytes_ord,
}
use thorax.Prelude.Map.{BTreeMap, update, get, keys}
use thorax.Format.Selector.{Bytes, SecretSelectorV1, bytes_eq}
use thorax.Format.Key.{UserId, GroupId, SecretId, PrincipalRefV1, principal_ord}
use thorax.Format.Body.{RecordBodyV1, UserRecordV1}
use thorax.Authz.{AuthoritySet, can_write, can_read}
use thorax.Authority.{Authorities, authority_of}
use thorax.Lww.{VerifiedRecord, compare_lww, sort}
use thorax.Effective.State.{EffectiveState, SecretSlot}

unfoldable pub authority_for_user : EffectiveState → UserId → AuthoritySet
authority_for_user self user = authority_of self.authorities (PrincipalRefV1.user user)

unfoldable pub authority_for_group : EffectiveState → GroupId → AuthoritySet
authority_for_group self group = authority_of self.authorities (PrincipalRefV1.group group)

-- `find_map` over the users, in the order of their ids.
abbrev find_key : Bytes → BTreeMap UserId UserRecordV1 → Option UserId
find_key signing_public_key [] = none
find_key signing_public_key ((id, u) ∷ users) =
    if u.signing_public_key == signing_public_key
    then some id
    else find_key signing_public_key users

unfoldable pub user_for_signing_key : EffectiveState → Bytes → Option UserId
user_for_signing_key self signing_public_key = find_key signing_public_key self.users

unfoldable pub readers_among : EffectiveState → SecretSelectorV1 → List UserId → List UserId
readers_among self selector [] = []
readers_among self selector (user ∷ users) =
    let rest = readers_among self selector users in
    if can_read (authority_for_user self user) selector then user ∷ rest else rest

unfoldable pub current_reader_entries : EffectiveState → SecretSelectorV1 → List UserId
current_reader_entries self selector = sort (readers_among self selector (keys self.users))

unfoldable pub secret_record_identity : RecordBodyV1 → Option (SecretId × SecretSelectorV1)
secret_record_identity (RecordBodyV1.secret s) = some (s.id, s.selector)
secret_record_identity (RecordBodyV1.secret_deleted d) = some (d.id, d.selector)
secret_record_identity _ = none

-- `self.verified_records[position]`, which is `none` where the source would panic.
unfoldable pub get_elem? {ℓ} : {A : Type ℓ} → List A → ℕ → Option A
get_elem? [] position = none
get_elem? (x ∷ xs) zero = some x
get_elem? (x ∷ xs) (suc position) = get_elem? xs position

abbrev pub outranks : VerifiedRecord → Option VerifiedRecord → Bool
outranks r none = false
outranks r (some winner) = elim (compare_lww r winner) [ gt ↦ true | _ ↦ false ]

module _ (authorities : Authorities) where
  -- The secret at which a record competes: its signer may write the selector that it claims.
  abbrev pub written_by : VerifiedRecord → Option (SecretId × SecretSelectorV1) → Option SecretId
  written_by r none = none
  written_by r (some (secret, selector)) =
      if can_write (authority_of authorities (PrincipalRefV1.user r.signer)) selector
      then some secret
      else none

  unfoldable pub authorized_secret : VerifiedRecord → Option SecretId
  authorized_secret r = written_by r (secret_record_identity r.body)

  -- The two arms of `match index.get_mut(secret)`.
  abbrev pub rank_slot : List VerifiedRecord → ℕ → VerifiedRecord → Option SecretSlot → SecretSlot
  rank_slot records position r none = record { winner = position; first_seen = position }
  rank_slot records position r (some slot) =
      if outranks r (get_elem? records slot.winner) then record slot { winner = position } else slot

  unfoldable pub index_record :
      List VerifiedRecord
      → ℕ
      → VerifiedRecord
      → BTreeMap SecretId SecretSlot
      → BTreeMap SecretId SecretSlot
  index_record records position r index = elim (authorized_secret r) [
    | none ↦ index
    | some secret ↦ update secret (rank_slot records position r) index
  ]

  -- The loop of `attach_verified_records`, at a position of the records.
  unfoldable pub index_from :
      List VerifiedRecord
      → ℕ
      → List VerifiedRecord
      → BTreeMap SecretId SecretSlot
      → BTreeMap SecretId SecretSlot
  index_from records position [] index = index
  index_from records position (r ∷ rest) index =
      index_from records (suc position) rest (index_record records position r index)

unfoldable pub attach_verified_records :
    EffectiveState → List VerifiedRecord → Option ℕ → EffectiveState
attach_verified_records self verified_records admitted_counter_max = record self {
  admitted_counter_max = admitted_counter_max;
  verified_records = verified_records;
  secret_index = index_from self.authorities verified_records 0 verified_records [];
}

unfoldable pub latest_authorized_secret_record : EffectiveState → SecretId → Option VerifiedRecord
latest_authorized_secret_record self secret =
    get self.secret_index secret >>= λ slot. get_elem? self.verified_records slot.winner

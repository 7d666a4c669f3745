-- ===== src/Lww.antt =====
-- crates/thorax-core/src/validate/effective.rs: last-writer-wins resolution of the records at each
-- key (`lww_resolution`, `partition_lww`, `compare_lww`), over the verified records of
-- validate/mod.rs.
pub mod Slot
pub mod Collect
pub mod Winner
pub mod Converge
pub mod Partition
mod Examples
use Prim.Native.Nat.{compare}
use Prim.Native.Nat.Ordering.{lt, eq, gt}
use thorax.Prelude.{
  ℕ, Bool, true, false, not, List, [], ◌∷◌, ◌++◌, map, Option, none, some, Ordering, Ord, Eq, ◌==◌,
  any, ltb, nat_beq, then_with, lex, if◌then◌else◌,
}
use thorax.Prelude.Map.{BTreeMap, get_or, update, insert, contains_key}
use thorax.Format.Key.{HashValue, UserId, RecordKey, key_ord}
use thorax.Format.Body.{RecordBodyV1, VaultRecordV1, lww_counter, body_eq}

pub record VerifiedRecord : Type 0 where
  pub signed : VaultRecordV1
  pub body : RecordBodyV1
  pub key : RecordKey
  pub record_hash : HashValue
  pub signer : UserId

-- `record.body.lww_counter().unwrap_or(0)`
unfoldable pub counter_of : VerifiedRecord → ℕ
counter_of record_ = get_or (lww_counter record_.body) 0

pub record ConflictSlot : Type 0 where
  pub counter : ℕ
  pub candidate_hashes : List HashValue

-- The `match slot.first()` of the first loop: a greater counter clears the slot, an equal one joins
-- it.
unfoldable pub slot_push : List VerifiedRecord → VerifiedRecord → List VerifiedRecord
slot_push [] r = r ∷ []
slot_push (leader ∷ rest) r =
    if ltb (counter_of leader) (counter_of r)
    then r ∷ []
    else if nat_beq (counter_of r) (counter_of leader)
    then leader ∷ rest ++ r ∷ []
    else leader ∷ rest

-- `slice::sort` of hashes, and `Vec::dedup`, which drops repetitions that stand together.
unfoldable pub sort_insert : HashValue → List HashValue → List HashValue
sort_insert h [] = h ∷ []
sort_insert h (x ∷ xs) = elim (lex h x) [ gt ↦ x ∷ sort_insert h xs | _ ↦ h ∷ x ∷ xs ]

unfoldable pub sort : List HashValue → List HashValue
unfolding sort_insert
sort [] = []
sort (x ∷ xs) = sort_insert x (sort xs)

unfoldable pub dedup_from : HashValue → List HashValue → List HashValue
dedup_from last [] = []
dedup_from last (x ∷ xs) = elim (lex x last) [ eq ↦ dedup_from last xs | _ ↦ x ∷ dedup_from x xs ]

unfoldable pub dedup : List HashValue → List HashValue
unfolding dedup_from
dedup [] = []
dedup (x ∷ xs) = x ∷ dedup_from x xs

-- `min_by` on the record hash, which keeps the first of equal ones.
unfoldable pub min_by_hash : VerifiedRecord → List VerifiedRecord → VerifiedRecord
min_by_hash best [] = best
min_by_hash best (r ∷ rest) =
    min_by_hash (elim (lex r.record_hash best.record_hash) [ lt ↦ r | _ ↦ best ]) rest

unfoldable pub diverging : VerifiedRecord → List VerifiedRecord → Bool
diverging leader rest = any (λ (r : VerifiedRecord). not (r.body == leader.body)) (leader ∷ rest)

-- What the second loop makes of the candidates of a slot.
unfoldable pub winner_of : List VerifiedRecord → Option VerifiedRecord
winner_of [] = none
winner_of (leader ∷ rest) = if diverging leader rest then none else some (min_by_hash leader rest)

unfoldable pub conflict_slot : VerifiedRecord → List VerifiedRecord → ConflictSlot
conflict_slot leader rest = record {
  counter = counter_of leader;
  candidate_hashes = dedup (sort (map (λ (r : VerifiedRecord). r.record_hash) (leader ∷ rest)));
}

unfoldable pub conflict_of : List VerifiedRecord → Option (RecordKey × ConflictSlot)
conflict_of [] = none
conflict_of (leader ∷ rest) =
    if diverging leader rest then some (leader.key, conflict_slot leader rest) else none

pub record LwwResolution {ℓ} (K : Type ℓ) : Type ℓ where
  pub winners : BTreeMap K VerifiedRecord
  pub conflicted : BTreeMap RecordKey ConflictSlot

module _ {ℓ} {K : Type ℓ} ⦃o : Ord K⦄ where
  -- The body of the first loop.
  unfoldable pub offer :
      BTreeMap RecordKey ℕ
      → (VerifiedRecord → Option K)
      → BTreeMap K (List VerifiedRecord)
      → VerifiedRecord
      → BTreeMap K (List VerifiedRecord)
  offer rollback_keys classify slots r =
      if contains_key rollback_keys r.key then slots else elim (classify r) [
        | none ↦ slots
        | some key ↦ update key (λ slot. slot_push (get_or slot []) r) slots
      ]

  unfoldable pub collect :
      BTreeMap RecordKey ℕ
      → (VerifiedRecord → Option K)
      → BTreeMap K (List VerifiedRecord)
      → List VerifiedRecord
      → BTreeMap K (List VerifiedRecord)
  collect rollback_keys classify slots [] = slots
  collect rollback_keys classify slots (r ∷ rest) =
      collect rollback_keys classify (offer rollback_keys classify slots r) rest

  -- The second loop, on each of the two maps that it fills.
  unfoldable pub settle_winners :
      BTreeMap K VerifiedRecord → BTreeMap K (List VerifiedRecord) → BTreeMap K VerifiedRecord
  settle_winners winners [] = winners
  settle_winners winners ((key, candidates) ∷ slots) =
      settle_winners
        (elim (winner_of candidates) [ none ↦ winners | some w ↦ insert key w winners ]) slots

  unfoldable pub settle_conflicts :
      BTreeMap RecordKey ConflictSlot
      → BTreeMap K (List VerifiedRecord)
      → BTreeMap RecordKey ConflictSlot
  settle_conflicts conflicted [] = conflicted
  settle_conflicts conflicted ((key, candidates) ∷ slots) =
      settle_conflicts
        (elim (conflict_of candidates) [
          | none ↦ conflicted
          | some (at, slot) ↦ insert at slot conflicted
        ])
        slots

  unfoldable pub lww_resolution :
      List VerifiedRecord → BTreeMap RecordKey ℕ → (VerifiedRecord → Option K) → LwwResolution K
  lww_resolution records rollback_keys classify =
      let slots = collect rollback_keys classify [] records in
      record { winners = settle_winners [] slots; conflicted = settle_conflicts [] slots }

  -- Winners that hold a live value, and the keys of the others, which were deleted.
  unfoldable pub live_of {κ} :
      {V : Type κ} → BTreeMap K VerifiedRecord → (RecordBodyV1 → Option V) → BTreeMap K V
  live_of [] value = []
  live_of ((key, r) ∷ winners) value =
      let rest = live_of winners value in
      elim (value r.body) [ none ↦ rest | some v ↦ insert key v rest ]

  unfoldable pub deleted_of {κ} :
      {V : Type κ} → BTreeMap K VerifiedRecord → (RecordBodyV1 → Option V) → BTreeMap K (Unit {0})
  deleted_of [] value = []
  deleted_of ((key, r) ∷ winners) value =
      let rest = deleted_of winners value in
      elim (value r.body) [ none ↦ insert key tt rest | some v ↦ rest ]

  unfoldable pub partition_lww {κ} :
      {V : Type κ}
      → BTreeMap K VerifiedRecord
      → (RecordBodyV1 → Option V)
      → BTreeMap K V × BTreeMap K (Unit {0})
  partition_lww winners value = (live_of winners value, deleted_of winners value)

-- The order in which deletions are considered for admission.
unfoldable pub compare_lww : VerifiedRecord → VerifiedRecord → Ordering
compare_lww a b =
    then_with (then_with (compare (counter_of a) (counter_of b)) (lex a.signer b.signer))
      (lex a.record_hash b.record_hash)

-- ===== src/Merge.antt =====
-- crates/thorax-core/src/merge.rs: the three-way merge of vault record sets. The set type and the
-- serialisation of the cord library are the parameters `RecordSet`.
pub mod Union
pub mod Anchor
pub mod Accept
mod Examples
use thorax.Prelude.{
  Bool, true, false, not, ◌&&◌, ◌||◌, if◌then◌else◌, ◌==◌, List, [], ◌∷◌, ◌++◌, Option, none, some,
  Memᴰ, ◌↔◌, bytes_ord,
}
use thorax.Prelude.Map.{BTreeMap, keys, insert}
use thorax.Format.Selector.{Bytes, texts_eq}
use thorax.Format.Body.{VaultRecordV1, RecordBodyV1, known}

-- `cord::Set` of records and `cord::serialize`, which gives nothing when it fails. A set collected
-- from an iterator has its elements.
pub record RecordSet : Type 1 where
  pub Set : Type 0
  pub elements : Set → List VaultRecordV1
  pub collect : List VaultRecordV1 → Set
  pub serialize : VaultRecordV1 → Option Bytes
  pub Memᴰ_of_collect :
      (vs : List VaultRecordV1) (v : VaultRecordV1) → Memᴰ v (elements (collect vs)) ↔ Memᴰ v vs

pub data MergeRefusal : Type 0 where
  missing_root : MergeRefusal
  root_mismatch : MergeRefusal

pub data MergeOutcome (Set : Type 0) : Type 0 where
  merged : Set → MergeOutcome Set
  refused : MergeRefusal → MergeOutcome Set

-- `BTreeSet<Vec<u8>>`
abbrev pub ByteSet : Type 0
ByteSet = BTreeMap Bytes (Unit {0})

abbrev pub is_empty : ByteSet → Bool
is_empty [] = true
is_empty (e ∷ s) = false

abbrev pub same_bytes : ByteSet → ByteSet → Bool
same_bytes a b = keys a == keys b

-- `matches!(signed.body.known(), Some(RecordBodyV1::VaultRoot(_)))`
abbrev is_root_body : Option RecordBodyV1 → Bool
is_root_body (some (RecordBodyV1.vault_root r)) = true
is_root_body _ = false

unfoldable pub is_root : VaultRecordV1 → Bool
is_root signed = is_root_body (known signed.body)

abbrev pub and_insert : Option Bytes → Option ByteSet → Option ByteSet
and_insert none rest = none
and_insert (some b) none = none
and_insert (some b) (some s) = some (insert b tt s)

-- An early return of a refusal.
unfoldable pub refused_or :
    {Set : Type 0} → Option MergeRefusal → Option (MergeOutcome Set) → Option (MergeOutcome Set)
refused_or (some refusal) next = some (refused refusal)
refused_or none next = next

-- The guards on the two sides, and the one on the ancestor.
unfoldable pub refuse_sides : ByteSet → ByteSet → Option MergeRefusal
refuse_sides ours_roots theirs_roots =
    if is_empty ours_roots || is_empty theirs_roots
    then some missing_root
    else (if not (same_bytes ours_roots theirs_roots) then some root_mismatch else none)

unfoldable pub refuse_base : ByteSet → ByteSet → Option MergeRefusal
refuse_base base_roots ours_roots =
    if not (is_empty base_roots) && not (same_bytes base_roots ours_roots)
    then some root_mismatch
    else none

module _ (cord : RecordSet) where
  -- The first record that cannot be serialised fails the whole collection.
  unfoldable pub root_records : List VaultRecordV1 → Option ByteSet
  root_records [] = some []
  root_records (signed ∷ records) =
      let rest = root_records records in
      if is_root signed then and_insert (cord.serialize signed) rest else rest

  -- The records of an absent ancestor.
  abbrev pub base_records : Option cord.Set → List VaultRecordV1
  base_records none = []
  base_records (some vault) = cord.elements vault

  abbrev pub union_of : Option cord.Set → cord.Set → cord.Set → cord.Set
  union_of base ours theirs =
      cord.collect (base_records base ++ (cord.elements ours ++ cord.elements theirs))

  unfoldable pub merge_checked :
      Option cord.Set
      → cord.Set
      → cord.Set
      → ByteSet
      → Option ByteSet
      → Option (MergeOutcome cord.Set)
  merge_checked base ours theirs ours_roots none = none
  merge_checked base ours theirs ours_roots (some base_roots) =
      refused_or (refuse_base base_roots ours_roots) (some (merged (union_of base ours theirs)))

  -- An absent ancestor and one without a root pass the same guard.
  unfoldable pub merge_roots :
      Option cord.Set
      → cord.Set
      → cord.Set
      → Option ByteSet
      → Option ByteSet
      → Option (MergeOutcome cord.Set)
  merge_roots base ours theirs (some ours_roots) (some theirs_roots) =
      refused_or (refuse_sides ours_roots theirs_roots)
        (merge_checked base ours theirs ours_roots (root_records (base_records base)))
  merge_roots base ours theirs _ _ = none

  unfoldable pub merge_vaults :
      Option cord.Set → cord.Set → cord.Set → Option (MergeOutcome cord.Set)
  merge_vaults base ours theirs =
      merge_roots base ours theirs (root_records (cord.elements ours))
        (root_records (cord.elements theirs))

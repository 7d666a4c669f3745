-- ===== src/Structure.antt =====
-- crates/thorax-core/src/validate/structure.rs: the structural checks of selectors and permissions. A
-- check gives the defect that its error message names, or none. The check of a record is in
-- Structure/Record.
pub mod Reflexive
pub mod Record
mod Examples
use Prim.Native.Nat.{compare}
use Prim.Native.Nat.Ordering.{lt, eq, gt}
use thorax.Prelude.{
  ℕ, Bool, true, false, if◌then◌else◌, List, [], ◌∷◌, map, Option, none, some, lex, ltb,
}
use thorax.Format.Selector.{
  Text, SecretLabelV1, SecretSelectorV1, TupleMatcherV1, LabelMatcherV1, KeyspaceLabelMatcherV1,
  KeyspaceSelectorV1, KeyspaceGrantClassV1, ManageKeyspaceGrantV1, GrantPermissionV1, read_keyspace,
  write_keyspace, manage_keyspace, administer, starting, one_of,
}

-- `ValidationIssue::InvalidStructure`, by its message.
pub data Defect : Type 0 where
  empty_prefix : Defect
  unsorted_labels : Defect
  empty_values : Defect
  unsorted_values : Defect
  empty_grantable : Defect
  unsorted_grantable : Defect
  counter_ceiling : Defect
  invalid_root : Defect
  invalid_entry_point : Defect
  invalid_user : Defect
  invalid_user_handle : Defect
  invalid_vault_handle : Defect
  invalid_group : Defect
  invalid_membership : Defect
  invalid_membership_deletion : Defect
  invalid_grant : Defect
  invalid_user_deletion : Defect
  invalid_secret_value : Defect
  duplicate_slot : Defect
  invalid_secret_deletion : Defect
  core_error : Defect

-- The `?` of a check.
abbrev pub and_then : Option Defect → Option Defect → Option Defect
and_then none next = next
and_then (some defect) next = some defect

abbrev pub ensure : Bool → Defect → Option Defect
ensure true defect = none
ensure false defect = some defect

-- The loop over strings that have to grow: `previous >= value` is an error.
unfoldable pub ascending : Text → List Text → Bool
ascending previous [] = true
ascending previous (value ∷ values) =
    let rest = ascending value values in elim (lex previous value) [ lt ↦ rest | _ ↦ false ]

unfoldable pub sorted_unique : List Text → Bool
sorted_unique [] = true
sorted_unique (value ∷ values) = ascending value values

unfoldable pub validate_sorted_unique_secret_labels : List SecretLabelV1 → Option Defect
validate_sorted_unique_secret_labels labels =
    ensure (sorted_unique (map (λ (label : SecretLabelV1). label.key) labels)) unsorted_labels

unfoldable pub validate_sorted_unique_keyspace_labels : List KeyspaceLabelMatcherV1 → Option Defect
validate_sorted_unique_keyspace_labels labels =
    ensure (sorted_unique (map (λ (label : KeyspaceLabelMatcherV1). label.key) labels))
      unsorted_labels

unfoldable pub validate_sorted_unique_strings : List Text → Option Defect
validate_sorted_unique_strings [] = some empty_values
validate_sorted_unique_strings (value ∷ values) = ensure (ascending value values) unsorted_values

-- The order of the variants.
abbrev class_code : KeyspaceGrantClassV1 → ℕ
class_code KeyspaceGrantClassV1.read = 0
class_code KeyspaceGrantClassV1.write = 1
class_code KeyspaceGrantClassV1.manage = 2

unfoldable pub ascending_classes : KeyspaceGrantClassV1 → List KeyspaceGrantClassV1 → Bool
ascending_classes previous [] = true
ascending_classes previous (value ∷ values) =
    let rest = ascending_classes value values in
    if ltb (class_code previous) (class_code value) then rest else false

unfoldable pub validate_sorted_unique_grantable : List KeyspaceGrantClassV1 → Option Defect
validate_sorted_unique_grantable [] = some empty_grantable
validate_sorted_unique_grantable (value ∷ values) =
    ensure (ascending_classes value values) unsorted_grantable

unfoldable pub validate_secret_selector : SecretSelectorV1 → Option Defect
validate_secret_selector selector = validate_sorted_unique_secret_labels selector.labels

abbrev validate_tuple : TupleMatcherV1 → Option Defect
validate_tuple (starting []) = some empty_prefix
validate_tuple _ = none

abbrev validate_values : LabelMatcherV1 → Option Defect
validate_values (one_of values) = validate_sorted_unique_strings values
validate_values _ = none

unfoldable pub validate_label_values : List KeyspaceLabelMatcherV1 → Option Defect
validate_label_values [] = none
validate_label_values (label ∷ labels) =
    and_then (validate_values label.matcher) (validate_label_values labels)

unfoldable pub validate_keyspace_selector : KeyspaceSelectorV1 → Option Defect
validate_keyspace_selector selector = and_then (validate_tuple selector.tuple) (
    and_then (validate_sorted_unique_keyspace_labels selector.labels)
      (validate_label_values selector.labels))

unfoldable pub validate_permission : GrantPermissionV1 → Option Defect
validate_permission (read_keyspace selector) = validate_keyspace_selector selector
validate_permission (write_keyspace selector) = validate_keyspace_selector selector
validate_permission (manage_keyspace manage) =
    and_then (validate_keyspace_selector manage.selector)
      (validate_sorted_unique_grantable manage.grantable)
validate_permission administer = none

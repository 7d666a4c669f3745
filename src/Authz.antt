-- ===== src/Authz.antt =====
-- crates/thorax-core/src/authz.rs: what an authority may do, and which keyspaces cover which.
-- A method on `&mut self` returns the new set beside its result.
pub mod Subsume
pub mod Cover
pub mod Delegate
pub mod Grow
pub mod Confer
mod Examples
use thorax.Prelude.{
  Eq, Bool, true, false, ◌&&◌, ◌||◌, not, List, [], ◌∷◌, ◌++◌, map, Option, none, some, ◌==◌,
  contains, any, all, find?, if◌then◌else◌,
}
use thorax.Format.Selector.{
  Text, SecretLabelV1, SecretSelectorV1, TupleMatcherV1, exact, starting, LabelMatcherV1, equals,
  one_of, absent, KeyspaceLabelMatcherV1, KeyspaceSelectorV1, keyspace_all, KeyspaceGrantClassV1,
  ManageKeyspaceGrantV1, GrantPermissionV1, read_keyspace, write_keyspace, manage_keyspace,
  administer, bytes_eq, texts_eq, selector_eq, class_eq, manage_eq,
}

-- `tuple.starts_with(prefix)` on slices
unfoldable pub starts_with : List Text → List Text → Bool
starts_with tuple [] = true
starts_with [] (p ∷ ps) = false
starts_with (t ∷ ts) (p ∷ ps) = t == p && starts_with ts ps

unfoldable pub tuple_matches : TupleMatcherV1 → List Text → Bool
tuple_matches TupleMatcherV1.any tuple = true
tuple_matches (exact parts) tuple = parts == tuple
tuple_matches (starting parts) tuple = starts_with tuple parts

unfoldable pub tuple_subsumes : TupleMatcherV1 → TupleMatcherV1 → Bool
tuple_subsumes TupleMatcherV1.any child = true
tuple_subsumes (starting parent) (starting child) = starts_with child parent
tuple_subsumes (starting parent) (exact child) = starts_with child parent
tuple_subsumes (exact parent) (exact child) = parent == child
tuple_subsumes parent child = false

unfoldable pub secret_label_value : SecretSelectorV1 → Text → Option Text
secret_label_value selector key =
    elim (find? (λ (label : SecretLabelV1). label.key == key) selector.labels) [
      | none ↦ none
      | some label ↦ some label.value
    ]

unfoldable pub child_label_matcher : KeyspaceSelectorV1 → Text → Option LabelMatcherV1
child_label_matcher selector key =
    elim (find? (λ (label : KeyspaceLabelMatcherV1). label.key == key) selector.labels) [
      | none ↦ none
      | some label ↦ some label.matcher
    ]

unfoldable pub label_matches : LabelMatcherV1 → Option Text → Bool
label_matches LabelMatcherV1.any none = false
label_matches LabelMatcherV1.any (some value) = true
label_matches (equals expected) none = false
label_matches (equals expected) (some value) = value == expected
label_matches (one_of values) none = false
label_matches (one_of values) (some actual) = contains values actual
label_matches absent none = true
label_matches absent (some value) = false

-- The `BTreeSet` that the source builds of the parent's values only answers `contains`.
unfoldable pub label_subsumes : LabelMatcherV1 → Option LabelMatcherV1 → Bool
label_subsumes parent none = false
label_subsumes LabelMatcherV1.any (some LabelMatcherV1.any) = true
label_subsumes LabelMatcherV1.any (some (equals child)) = true
label_subsumes LabelMatcherV1.any (some (one_of child)) = true
label_subsumes LabelMatcherV1.any (some absent) = false
label_subsumes (equals parent) (some (equals child)) = parent == child
label_subsumes (equals parent) (some (one_of child)) = all (λ value. value == parent) child
label_subsumes (one_of parent) (some (equals child)) = contains parent child
label_subsumes (one_of parent) (some (one_of child)) = all (λ value. contains parent value) child
label_subsumes absent (some absent) = true
label_subsumes parent child = false

unfoldable pub labels_subsume : KeyspaceSelectorV1 → KeyspaceSelectorV1 → Bool
labels_subsume parent child =
    all
      (λ (label : KeyspaceLabelMatcherV1).
        label_subsumes label.matcher (child_label_matcher child label.key))
      parent.labels

unfoldable pub selector_matches : KeyspaceSelectorV1 → SecretSelectorV1 → Bool
selector_matches grant secret =
    tuple_matches grant.tuple secret.tuple
    && all
        (λ (label : KeyspaceLabelMatcherV1).
          label_matches label.matcher (secret_label_value secret label.key))
        grant.labels

unfoldable pub selector_subsumes : KeyspaceSelectorV1 → KeyspaceSelectorV1 → Bool
selector_subsumes parent child =
    tuple_subsumes parent.tuple child.tuple && labels_subsume parent child

unfoldable pub has_grantable : List KeyspaceGrantClassV1 → KeyspaceGrantClassV1 → Bool
has_grantable items class = contains items class

unfoldable pub grantable_subset : List KeyspaceGrantClassV1 → List KeyspaceGrantClassV1 → Bool
grantable_subset child parent = all (λ class. has_grantable parent class) child

unfoldable pub push_unique {ℓ} : {A : Type ℓ} ⦃e : Eq A⦄ → List A → A → List A × Bool
push_unique items item = if contains items item then (items, false) else (items ++ item ∷ [], true)

pub record AuthoritySet : Type 0 where
  pub read : List KeyspaceSelectorV1
  pub write : List KeyspaceSelectorV1
  pub manage : List ManageKeyspaceGrantV1
  pub administer : Bool

-- `AuthoritySet::default`
unfoldable pub no_authority : AuthoritySet
no_authority = record { read = []; write = []; manage = []; administer = false }

-- `AuthoritySet::root`
unfoldable pub root : AuthoritySet
unfolding keyspace_all
root = record {
  read = keyspace_all ∷ [];
  write = keyspace_all ∷ [];
  manage =
      (record {
        selector = keyspace_all;
        grantable =
            KeyspaceGrantClassV1.read ∷ KeyspaceGrantClassV1.write ∷ KeyspaceGrantClassV1.manage
            ∷ [];
      })
      ∷ [];
  administer = true;
}

unfoldable pub add_permission : AuthoritySet → GrantPermissionV1 → AuthoritySet × Bool
add_permission self (read_keyspace selector) =
    let (items, changed) = push_unique self.read selector in (record self { read = items }, changed)
add_permission self (write_keyspace selector) =
    let (items, changed) = push_unique self.write selector in
    (record self { write = items }, changed)
add_permission self (manage_keyspace grant) =
    let (items, changed) = push_unique self.manage grant in
    (record self { manage = items }, changed)
add_permission self administer = (record self { administer = true }, not self.administer)

-- The three tests below read one keyspace of the set at a time.
unfoldable pub any_matches : List KeyspaceSelectorV1 → SecretSelectorV1 → Bool
any_matches held selector = any (λ g. selector_matches g selector) held

unfoldable pub any_manages : List ManageKeyspaceGrantV1 → SecretSelectorV1 → Bool
any_manages held selector =
    any (λ (m : ManageKeyspaceGrantV1). selector_matches m.selector selector) held

unfoldable pub can_read : AuthoritySet → SecretSelectorV1 → Bool
can_read self selector =
    self.administer
    || any_matches self.read selector
    || any_matches self.write selector
    || any_manages self.manage selector

unfoldable pub can_write : AuthoritySet → SecretSelectorV1 → Bool
can_write self selector =
    self.administer || any_matches self.write selector || any_manages self.manage selector

unfoldable pub can_manage : AuthoritySet → SecretSelectorV1 → Bool
can_manage self selector = self.administer || any_manages self.manage selector

unfoldable pub any_subsumes : List KeyspaceSelectorV1 → KeyspaceSelectorV1 → Bool
any_subsumes held selector = any (λ h. selector_subsumes h selector) held

unfoldable pub any_manages_over : List ManageKeyspaceGrantV1 → KeyspaceSelectorV1 → Bool
any_manages_over held selector =
    any (λ (m : ManageKeyspaceGrantV1). selector_subsumes m.selector selector) held

unfoldable pub holds_read_over : AuthoritySet → KeyspaceSelectorV1 → Bool
holds_read_over self selector =
    self.administer
    || any_subsumes self.read selector
    || any_subsumes self.write selector
    || any_manages_over self.manage selector

unfoldable pub holds_write_over : AuthoritySet → KeyspaceSelectorV1 → Bool
holds_write_over self selector =
    self.administer || any_subsumes self.write selector || any_manages_over self.manage selector

-- The `any` over the manage grants in `can_create_permission` for a use-permission of one class.
unfoldable pub may_hand_out :
    List ManageKeyspaceGrantV1 → KeyspaceGrantClassV1 → KeyspaceSelectorV1 → Bool
may_hand_out held class selector =
    any
      (λ (m : ManageKeyspaceGrantV1).
        has_grantable m.grantable class && selector_subsumes m.selector selector)
      held

unfoldable pub may_hand_out_manage : List ManageKeyspaceGrantV1 → ManageKeyspaceGrantV1 → Bool
may_hand_out_manage held target =
    any
      (λ (m : ManageKeyspaceGrantV1).
        has_grantable m.grantable KeyspaceGrantClassV1.manage
        && selector_subsumes m.selector target.selector
        && grantable_subset target.grantable m.grantable)
      held

unfoldable pub can_create_permission : AuthoritySet → GrantPermissionV1 → Bool
can_create_permission self (read_keyspace selector) =
    self.administer
    || holds_read_over self selector && may_hand_out self.manage KeyspaceGrantClassV1.read selector
can_create_permission self (write_keyspace selector) =
    self.administer
    || holds_write_over self selector
      && may_hand_out self.manage KeyspaceGrantClassV1.write selector
can_create_permission self (manage_keyspace target) =
    self.administer || may_hand_out_manage self.manage target
can_create_permission self administer = self.administer

unfoldable pub as_grant_permissions : AuthoritySet → List GrantPermissionV1
as_grant_permissions self =
    map read_keyspace self.read
    ++ map write_keyspace self.write
    ++ map manage_keyspace self.manage
    ++ (if self.administer then administer ∷ [] else [])

-- One of the loops of `merge_from`: pushes each item, and `|=`s into `changed`.
unfoldable pub push_all {ℓ} : {A : Type ℓ} ⦃e : Eq A⦄ → List A × Bool → List A → List A × Bool
push_all (items, changed) [] = (items, changed)
push_all (items, changed) (item ∷ rest) =
    let (items', pushed) = push_unique items item in push_all (items', changed || pushed) rest

unfoldable pub merge_from : AuthoritySet → AuthoritySet → AuthoritySet × Bool
merge_from self other =
    let (read', c1) = push_all (self.read, false) other.read in
    let (write', c2) = push_all (self.write, c1) other.write in
    let (manage', c3) = push_all (self.manage, c2) other.manage in
    let raised = other.administer && not self.administer in
    (
      record {
        read = read';
        write = write';
        manage = manage';
        administer = if raised then true else self.administer;
      },
      if raised then true else c3,
    )

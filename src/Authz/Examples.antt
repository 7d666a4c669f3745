-- ===== src/Authz/Examples.antt =====
-- Authorities of the tests of authz.rs, and the theorems at them.
use thorax.Prelude.{◌≡◌, refl, ◌||◌, true, false, List, [], ◌∷◌, contains, any, all, find?}
use thorax.Format.Selector.{
  text, SecretSelectorV1, selector_of_tuple, TupleMatcherV1, starting, equals, one_of,
  KeyspaceSelectorV1, keyspace_all, keyspace_prefix, KeyspaceGrantClassV1, ManageKeyspaceGrantV1,
  GrantPermissionV1, read_keyspace, write_keyspace, manage_keyspace, administer, bytes_eq, texts_eq,
  selector_eq, class_eq, manage_eq,
}
use thorax.Authz.{
  starts_with, tuple_matches, tuple_subsumes, secret_label_value, child_label_matcher,
  label_matches, label_subsumes, labels_subsume, selector_matches, selector_subsumes, has_grantable,
  grantable_subset, push_unique, push_all, AuthoritySet, no_authority, root, add_permission,
  any_matches, any_manages, can_read, can_write, can_manage, any_subsumes, any_manages_over,
  holds_read_over, holds_write_over, may_hand_out, may_hand_out_manage, can_create_permission,
  as_grant_permissions, merge_from,
}
use thorax.Authz.Subsume.{selector_subsumes_sound, selector_subsumes_trans}
use thorax.Authz.Delegate.{grant_all, delegation_bounded, delegation_transitive}
use thorax.Authz.Grow.{merge_from-union}
use thorax.Authz.Confer.{as_grant_permissions-roundtrip, conferred-bounded}

-- All that a run of authz.rs computes with.
runs : Unit {0}
unfolding starts_with tuple_matches tuple_subsumes secret_label_value child_label_matcher
    label_matches label_subsumes labels_subsume selector_matches selector_subsumes has_grantable
    grantable_subset push_unique push_all no_authority root add_permission any_matches any_manages
    can_read can_write can_manage any_subsumes any_manages_over holds_read_over holds_write_over
    may_hand_out may_hand_out_manage can_create_permission as_grant_permissions merge_from contains
    any all find? keyspace_all keyspace_prefix bytes_eq texts_eq selector_eq class_eq manage_eq
    grant_all selector_of_tuple
runs = tt

abbrev app : KeyspaceSelectorV1
app = record { tuple = starting (text "app" ∷ []); labels = [] }

abbrev app_api_prod : KeyspaceSelectorV1
app_api_prod = record {
  tuple = starting (text "app" ∷ text "api" ∷ []);
  labels = (record { key = text "env"; matcher = equals (text "prod") }) ∷ [];
}

abbrev app_api_key_prod : KeyspaceSelectorV1
app_api_key_prod = record {
  tuple = TupleMatcherV1.exact (text "app" ∷ text "api" ∷ text "key" ∷ []);
  labels = (record { key = text "env"; matcher = one_of (text "prod" ∷ []) }) ∷ [];
}

abbrev api_key : SecretSelectorV1
api_key = record {
  tuple = text "app" ∷ text "api" ∷ text "key" ∷ [];
  labels = (record { key = text "env"; value = text "prod" }) ∷ [];
}

abbrev manage_app : ManageKeyspaceGrantV1
manage_app = record {
  selector = app;
  grantable = KeyspaceGrantClassV1.read ∷ KeyspaceGrantClassV1.manage ∷ [];
}

abbrev manager : AuthoritySet
manager = record { read = []; write = []; manage = manage_app ∷ []; administer = false }

abbrev reader : AuthoritySet
reader = record { read = app ∷ []; write = []; manage = []; administer = false }

-- The tests of authz.rs.
test_prefix_subsumes_below_itself :
    (selector_subsumes app app_api_prod ≡ true) × (selector_subsumes app_api_prod app ≡ false)
unfolding runs
test_prefix_subsumes_below_itself = (refl, refl)

narrower_label : selector_subsumes app_api_prod app_api_key_prod ≡ true
unfolding runs
narrower_label = refl

test_administer :
    let auth = (add_permission no_authority administer).0 in
    let selector = selector_of_tuple (text "app" ∷ text "prod" ∷ text "db" ∷ []) in
    (can_read auth selector ≡ true)
    × (can_write auth selector ≡ true)
    × (can_manage auth selector ≡ true)
    × (can_create_permission auth (read_keyspace keyspace_all) ≡ true)
    × (can_create_permission auth administer ≡ true)
unfolding runs
test_administer = (refl, refl, refl, refl, refl)

test_manage_and_write :
    let selector = selector_of_tuple (text "app" ∷ text "prod" ∷ text "db" ∷ []) in
    let writer =
      (add_permission no_authority (write_keyspace (keyspace_prefix (text "app" ∷ [])))).0 in
    (can_manage manager selector ≡ true)
    × (can_write manager selector ≡ true)
    × (can_manage writer selector ≡ false)
    × (can_write writer selector ≡ true)
    × (can_read writer selector ≡ true)
unfolding runs
test_manage_and_write = (refl, refl, refl, refl, refl)

selector_subsumes_sound_example : selector_matches app_api_prod api_key ≡ true
unfolding runs
selector_subsumes_sound_example =
    selector_subsumes_sound app_api_prod app_api_key_prod api_key narrower_label refl

selector_subsumes_trans_example : selector_subsumes app app_api_key_prod ≡ true
unfolding runs
selector_subsumes_trans_example =
    selector_subsumes_trans app app_api_prod app_api_key_prod refl narrower_label

-- What the manager of `app` may hand out: reading below it, and managing it.
abbrev handed_out : List GrantPermissionV1
handed_out = read_keyspace app_api_prod ∷ manage_keyspace manage_app ∷ []

handed_out_allowed : all (can_create_permission manager) handed_out ≡ true
unfolding runs
handed_out_allowed = refl

test_write_not_handed_out : can_create_permission manager (write_keyspace app_api_prod) ≡ false
unfolding runs
test_write_not_handed_out = refl

delegation_bounded_example :
    let held = grant_all no_authority handed_out in
    (can_read held api_key ≡ true → can_read manager api_key ≡ true)
    × (can_write held api_key ≡ true → can_write manager api_key ≡ true)
    × (can_manage held api_key ≡ true → can_manage manager api_key ≡ true)
delegation_bounded_example = delegation_bounded manager handed_out api_key handed_out_allowed

delegation_transitive_example : can_create_permission manager (read_keyspace app_api_prod) ≡ true
unfolding runs
delegation_transitive_example =
    delegation_transitive manager handed_out (read_keyspace app_api_prod) handed_out_allowed refl

merge_from-union_example :
    let merged = (merge_from reader manager).0 in
    (can_read merged api_key ≡ (can_read reader api_key || can_read manager api_key))
    × (can_write merged api_key ≡ (can_write reader api_key || can_write manager api_key))
    × (can_manage merged api_key ≡ (can_manage reader api_key || can_manage manager api_key))
merge_from-union_example = merge_from-union reader manager api_key

as_grant_permissions-roundtrip_example :
    let again = grant_all no_authority (as_grant_permissions manager) in
    (can_read again api_key ≡ can_read manager api_key)
    × (can_write again api_key ≡ can_write manager api_key)
    × (can_manage again api_key ≡ can_manage manager api_key)
as_grant_permissions-roundtrip_example = as_grant_permissions-roundtrip manager api_key

abbrev manage_below : AuthoritySet
manage_below = record {
  read = app_api_prod ∷ [];
  write = [];
  manage = manage_app ∷ [];
  administer = false;
}

conferred-bounded_example :
    (can_read manage_below api_key ≡ true → can_read manager api_key ≡ true)
    × (can_write manage_below api_key ≡ true → can_write manager api_key ≡ true)
    × (can_manage manage_below api_key ≡ true → can_manage manager api_key ≡ true)
unfolding runs
conferred-bounded_example = conferred-bounded manager manage_below api_key refl

-- ===== src/Structure/Examples.antt =====
-- A selector that passes the checks, and one with a label twice, which does not subsume itself.
use thorax.Prelude.{◌≡◌, refl, [], ◌∷◌, none, some, true, false, lex, find?, all, contains}
use thorax.Format.Selector.{
  text, KeyspaceSelectorV1, KeyspaceLabelMatcherV1, LabelMatcherV1, starting, equals, one_of,
  bytes_eq, texts_eq,
}
use thorax.Authz.{
  starts_with, tuple_subsumes, child_label_matcher, label_subsumes, labels_subsume,
  selector_subsumes,
}
use thorax.Structure.{
  Defect, ascending, sorted_unique, validate_sorted_unique_keyspace_labels,
  validate_sorted_unique_strings, validate_label_values, validate_keyspace_selector,
}
use thorax.Structure.Reflexive.{validate_keyspace_selector-reflexive}

runs : Unit {0}
unfolding lex find? all contains bytes_eq texts_eq starts_with tuple_subsumes child_label_matcher
    label_subsumes labels_subsume selector_subsumes ascending sorted_unique
    validate_sorted_unique_keyspace_labels validate_sorted_unique_strings validate_label_values
    validate_keyspace_selector
runs = tt

abbrev env : LabelMatcherV1 → KeyspaceLabelMatcherV1
env matcher = record { key = text "env"; matcher = matcher }

abbrev zone : KeyspaceLabelMatcherV1
zone = record { key = text "zone"; matcher = one_of (text "a" ∷ text "b" ∷ []) }

abbrev app : KeyspaceSelectorV1
app = record { tuple = starting (text "app" ∷ []); labels = env (equals (text "dev")) ∷ zone ∷ [] }

abbrev twice : KeyspaceSelectorV1
twice = record {
  tuple = starting (text "app" ∷ []);
  labels = env (equals (text "dev")) ∷ env (equals (text "prod")) ∷ [];
}

app_valid : validate_keyspace_selector app ≡ none
unfolding runs
app_valid = refl

twice_unsorted : validate_keyspace_selector twice ≡ some Defect.unsorted_labels
unfolding runs
twice_unsorted = refl

twice_apart : selector_subsumes twice twice ≡ false
unfolding runs
twice_apart = refl

validate_keyspace_selector-reflexive_example : selector_subsumes app app ≡ true
validate_keyspace_selector-reflexive_example = validate_keyspace_selector-reflexive app app_valid

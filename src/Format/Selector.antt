-- ===== src/Format/Selector.antt =====
-- The selectors of secrets and of keyspaces, and the permissions that grants hand out
-- (format.rs, from `SecretSelectorV1` to the end).
use Prim.Native.Char.{code}
use Prim.Native.String.{String}
use native.Mathlib.Decide.{ℕ_discrete}
use thorax.Prelude.{ℕ, List, [], ◌∷◌, Eq, of_discrete}

abbrev pub Bytes : Type 0
Bytes = List ℕ

abbrev pub Text : Type 0
Text = List ℕ

-- A string whose characters count: its code points.
abbrev pub Chars : Type 0
Chars = List ℕ

-- An ASCII literal, whose bytes are its code points.
abbrev pub text : String → Text
text String.[] = []
text (String.◌∷◌ c s) = code c ∷ text s

pub record SecretLabelV1 : Type 0 where
  pub key : Text
  pub value : Text

pub record SecretSelectorV1 : Type 0 where
  pub tuple : List Text
  pub labels : List SecretLabelV1

-- `SecretSelectorV1::tuple`
unfoldable pub selector_of_tuple : List Text → SecretSelectorV1
selector_of_tuple parts = record { tuple = parts; labels = [] }

pub data TupleMatcherV1 : Type 0 where
  any : TupleMatcherV1
  exact : List Text → TupleMatcherV1
  starting : List Text → TupleMatcherV1

-- `one_of` is the source's `In`.
pub data LabelMatcherV1 : Type 0 where
  any : LabelMatcherV1
  equals : Text → LabelMatcherV1
  one_of : List Text → LabelMatcherV1
  absent : LabelMatcherV1

pub record KeyspaceLabelMatcherV1 : Type 0 where
  pub key : Text
  pub matcher : LabelMatcherV1

pub record KeyspaceSelectorV1 : Type 0 where
  pub tuple : TupleMatcherV1
  pub labels : List KeyspaceLabelMatcherV1

-- `KeyspaceSelectorV1::all`, `exact` and `prefix`
unfoldable pub keyspace_all : KeyspaceSelectorV1
keyspace_all = record { tuple = TupleMatcherV1.any; labels = [] }

unfoldable pub keyspace_exact : List Text → KeyspaceSelectorV1
keyspace_exact parts = record { tuple = exact parts; labels = [] }

unfoldable pub keyspace_prefix : List Text → KeyspaceSelectorV1
unfolding keyspace_all
keyspace_prefix [] = keyspace_all
keyspace_prefix (part ∷ parts) = record { tuple = starting (part ∷ parts); labels = [] }

pub data KeyspaceGrantClassV1 : Type 0 where
  read write manage : KeyspaceGrantClassV1

pub record ManageKeyspaceGrantV1 : Type 0 where
  pub selector : KeyspaceSelectorV1
  pub grantable : List KeyspaceGrantClassV1

pub data GrantPermissionV1 : Type 0 where
  read_keyspace : KeyspaceSelectorV1 → GrantPermissionV1
  write_keyspace : KeyspaceSelectorV1 → GrantPermissionV1
  manage_keyspace : ManageKeyspaceGrantV1 → GrantPermissionV1
  administer : GrantPermissionV1

-- The derived `PartialEq` of these types.
bytes_discrete : Discrete (List ℕ)
bytes_discrete = hlevel ℕ_discrete

texts_discrete : Discrete (List Text)
texts_discrete = hlevel ℕ_discrete

selector_discrete : Discrete KeyspaceSelectorV1
selector_discrete = hlevel ℕ_discrete

secret_selector_discrete : Discrete SecretSelectorV1
secret_selector_discrete = hlevel ℕ_discrete

class_discrete : Discrete KeyspaceGrantClassV1
class_discrete = hlevel

manage_discrete : Discrete ManageKeyspaceGrantV1
manage_discrete = hlevel ℕ_discrete

permission_discrete : Discrete GrantPermissionV1
permission_discrete = hlevel ℕ_discrete

instance unfoldable pub bytes_eq : Eq (List ℕ)
unfolding bytes_discrete ℕ_discrete
bytes_eq = of_discrete bytes_discrete

instance unfoldable pub texts_eq : Eq (List (List ℕ))
unfolding texts_discrete ℕ_discrete
texts_eq = of_discrete texts_discrete

instance unfoldable pub selector_eq : Eq KeyspaceSelectorV1
unfolding selector_discrete ℕ_discrete
selector_eq = of_discrete selector_discrete

instance unfoldable pub secret_selector_eq : Eq SecretSelectorV1
unfolding secret_selector_discrete ℕ_discrete
secret_selector_eq = of_discrete secret_selector_discrete

instance unfoldable pub class_eq : Eq KeyspaceGrantClassV1
unfolding class_discrete ℕ_discrete
class_eq = of_discrete class_discrete

instance unfoldable pub manage_eq : Eq ManageKeyspaceGrantV1
unfolding manage_discrete ℕ_discrete
manage_eq = of_discrete manage_discrete

instance unfoldable pub permission_eq : Eq GrantPermissionV1
unfolding permission_discrete ℕ_discrete
permission_eq = of_discrete permission_discrete

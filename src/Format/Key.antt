-- ===== src/Format/Key.antt =====
-- Principals and record keys (format.rs), with their derived order: the index of the variant, then
-- the id it holds.
use thorax.Prelude.{ℕ, ◌≡◌, List, Eq, of_discrete, Ord, code_cmp, code_cmp-IsTotal, IsTotal, arith}
use thorax.Format.Selector.{Bytes}
use native.Mathlib.Decide.{ℕ_discrete}

abbrev pub HashValue : Type 0
HashValue = Bytes

abbrev pub UserId : Type 0
UserId = HashValue

abbrev pub UserHandleId : Type 0
UserHandleId = HashValue

abbrev pub VaultHandleId : Type 0
VaultHandleId = HashValue

abbrev pub GroupId : Type 0
GroupId = HashValue

abbrev pub GroupMemberId : Type 0
GroupMemberId = HashValue

abbrev pub GrantId : Type 0
GrantId = HashValue

abbrev pub SecretId : Type 0
SecretId = HashValue

abbrev pub IdSeed : Type 0
IdSeed = Bytes

pub data PrincipalRefV1 : Type 0 where
  user : UserId → PrincipalRefV1
  group : GroupId → PrincipalRefV1

pub data RecordKey : Type 0 where
  vault_root : RecordKey
  entry_point : UserId → RecordKey
  user : UserId → RecordKey
  user_handle : UserHandleId → RecordKey
  group : GroupId → RecordKey
  group_member : GroupMemberId → RecordKey
  grant : GrantId → RecordKey
  secret : SecretId → RecordKey
  vault_handle : VaultHandleId → RecordKey

-- The cord index of a variant, and its field.
abbrev pub principal_code : PrincipalRefV1 → ℕ × Bytes
principal_code (PrincipalRefV1.user id) = (0, id)
principal_code (PrincipalRefV1.group id) = (1, id)

abbrev pub key_code : RecordKey → ℕ × Bytes
key_code vault_root = (0, List.[])
key_code (entry_point id) = (1, id)
key_code (RecordKey.user id) = (2, id)
key_code (user_handle id) = (3, id)
key_code (RecordKey.group id) = (4, id)
key_code (group_member id) = (5, id)
key_code (grant id) = (6, id)
key_code (secret id) = (7, id)
key_code (vault_handle id) = (8, id)

principal_code_injective :
    (a b : PrincipalRefV1)
    → (principal_code a).0 ≡ (principal_code b).0
    → (principal_code a).1 ≡ (principal_code b).1
    → a ≡ b
principal_code_injective a b p q = ground arith

key_code_injective :
    (a b : RecordKey) → (key_code a).0 ≡ (key_code b).0 → (key_code a).1 ≡ (key_code b).1 → a ≡ b
key_code_injective a b p q = ground arith

pub principal-IsTotal : IsTotal (code_cmp principal_code)
principal-IsTotal = code_cmp-IsTotal principal_code principal_code_injective

pub key-IsTotal : IsTotal (code_cmp key_code)
key-IsTotal = code_cmp-IsTotal key_code key_code_injective

instance unfoldable pub principal_ord : Ord PrincipalRefV1
principal_ord = record { cmp = code_cmp principal_code; total = principal-IsTotal }

instance unfoldable pub key_ord : Ord RecordKey
key_ord = record { cmp = code_cmp key_code; total = key-IsTotal }

principal_discrete : Discrete PrincipalRefV1
principal_discrete = hlevel ℕ_discrete

key_discrete : Discrete RecordKey
key_discrete = hlevel ℕ_discrete

instance unfoldable pub principal_eq : Eq PrincipalRefV1
unfolding principal_discrete ℕ_discrete
principal_eq = of_discrete principal_discrete

instance unfoldable pub key_eq : Eq RecordKey
unfolding key_discrete ℕ_discrete
key_eq = of_discrete key_discrete

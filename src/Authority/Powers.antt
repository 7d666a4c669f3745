-- ===== src/Authority/Powers.antt =====
-- The powers of an authority set: tests that merges and grants add up.
use thorax.Prelude.{◌≡◌, refl, Bool, true, false, ◌||◌, arith, any}
use thorax.Format.Selector.{
  SecretSelectorV1, GrantPermissionV1, read_keyspace, write_keyspace, manage_keyspace, administer,
}
use thorax.Format.Key.{principal_ord}
use thorax.Authz.{
  AuthoritySet, no_authority, root, add_permission, merge_from, can_read, can_write, can_manage,
  any_matches, any_manages,
}
use thorax.Authz.Grow.{
  merge_from-union, add_permission-union, grants_read, grants_write, grants_manage,
}

-- A test of authority sets that merges and grants add up.
pub record Power (φ : AuthoritySet → Bool) (confers : GrantPermissionV1 → Bool) : Type 0 where
  pub of_root : φ root ≡ true
  pub of_none : φ no_authority ≡ false
  pub of_merge : (a b : AuthoritySet) → φ (merge_from a b).0 ≡ (φ a || φ b)
  pub of_add :
      (a : AuthoritySet) (p : GrantPermissionV1) → φ (add_permission a p).0 ≡ (φ a || confers p)

pub Power-read : (s : SecretSelectorV1) → Power (λ a. can_read a s) (grants_read s)
unfolding root no_authority can_read any_matches any_manages any
Power-read s = record {
  of_root = refl;
  of_none = refl;
  of_merge = λ a b. (merge_from-union a b s).0;
  of_add = λ a p. (add_permission-union a s p).0;
}

pub Power-write : (s : SecretSelectorV1) → Power (λ a. can_write a s) (grants_write s)
unfolding root no_authority can_write any_matches any_manages any
Power-write s = record {
  of_root = refl;
  of_none = refl;
  of_merge = λ a b. (merge_from-union a b s).1;
  of_add = λ a p. (add_permission-union a s p).1;
}

pub Power-manage : (s : SecretSelectorV1) → Power (λ a. can_manage a s) (grants_manage s)
unfolding root no_authority can_manage any_manages any
Power-manage s = record {
  of_root = refl;
  of_none = refl;
  of_merge = λ a b. (merge_from-union a b s).2;
  of_add = λ a p. (add_permission-union a s p).2;
}

abbrev pub grants_administer : GrantPermissionV1 → Bool
grants_administer p = (add_permission no_authority p).0.administer

pub Power-administer : Power (λ (a : AuthoritySet). a.administer) grants_administer
unfolding root no_authority merge_from add_permission
Power-administer = record {
  of_root = refl;
  of_none = refl;
  of_merge = λ a b. ground arith;
  of_add = λ a p. elim p [
    | read_keyspace k ↦ ground arith
    | write_keyspace k ↦ ground arith
    | manage_keyspace t ↦ ground arith
    | administer ↦ ground arith
  ];
}

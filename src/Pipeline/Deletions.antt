-- ===== src/Pipeline/Deletions.antt =====
-- `resolve_effective_with_deletions` and `grant_deleted_authorized` (validate/pipeline.rs): the
-- effective state with the deletions that are admitted one by one.
pub mod Admit
pub mod Rule
pub mod Refine
use Prim.Native.Nat.Ordering.{gt}
use thorax.Prelude.{
  ℕ, zero, suc, Bool, true, false, not, ◌||◌, ◌&&◌, List, [], ◌∷◌, Option, none, some, length,
  find?, if◌then◌else◌, bytes_ord,
}
use thorax.Prelude.Map.{BTreeMap, BTreeSet, get, insert, contains_key}
use thorax.Format.Key.{HashValue, RecordKey}
use thorax.Format.Body.{RecordBodyV1, GrantRecordV1, GrantDeletedRecordV1}
use thorax.Authz.{AuthoritySet, can_create_permission}
use thorax.Lww.{VerifiedRecord, compare_lww}
use thorax.Effective.State.{EffectiveState, compute_effective_state}
use thorax.Query.{authority_for_user}
use thorax.Crypto.{CryptoProvider, vault_record}
use thorax.Pipeline.Root.{SelectedRoot, user_from_root}

abbrev pub deletes_principal_or_grant : RecordBodyV1 → Bool
deletes_principal_or_grant (RecordBodyV1.user_deleted d) = true
deletes_principal_or_grant (RecordBodyV1.group_deleted d) = true
deletes_principal_or_grant (RecordBodyV1.grant_deleted d) = true
deletes_principal_or_grant _ = false

-- `sort_by(compare_lww)`, which keeps the order of equals.
unfoldable pub sort_candidate : VerifiedRecord → List VerifiedRecord → List VerifiedRecord
sort_candidate r [] = r ∷ []
sort_candidate r (x ∷ xs) = elim (compare_lww r x) [ gt ↦ x ∷ sort_candidate r xs | _ ↦ r ∷ x ∷ xs ]

unfoldable pub deletion_candidates : List VerifiedRecord → List VerifiedRecord
deletion_candidates [] = []
deletion_candidates (r ∷ records) =
    let rest = deletion_candidates records in
    if deletes_principal_or_grant r.body then sort_candidate r rest else rest

-- The two arms, by the live grant at the key.
abbrev pub may_delete_grant : AuthoritySet → GrantDeletedRecordV1 → Option GrantRecordV1 → Bool
may_delete_grant auth deleted (some active) =
    can_create_permission auth deleted.permission && can_create_permission auth active.permission
may_delete_grant auth deleted none =
    auth.administer || can_create_permission auth deleted.permission

unfoldable pub grant_deleted_authorized :
    AuthoritySet → GrantDeletedRecordV1 → EffectiveState → Bool
grant_deleted_authorized auth deleted state =
    may_delete_grant auth deleted (get state.grants deleted.id)

unfoldable pub deletion_authorized : EffectiveState → AuthoritySet → RecordBodyV1 → Bool
deletion_authorized state auth (RecordBodyV1.user_deleted d) = auth.administer
deletion_authorized state auth (RecordBodyV1.group_deleted d) = auth.administer
deletion_authorized state auth (RecordBodyV1.grant_deleted d) =
    grant_deleted_authorized auth d state
deletion_authorized state auth _ = false

module _ (state : EffectiveState) (admitted_deletions : BTreeSet HashValue) where
  unfoldable pub admissible : VerifiedRecord → Bool
  admissible r =
      not (contains_key admitted_deletions r.record_hash)
      && deletion_authorized state (authority_for_user state r.signer) r.body

  -- `find_map` over the candidates.
  unfoldable pub newly_admitted : List VerifiedRecord → Option VerifiedRecord
  newly_admitted candidates = find? admissible candidates

module _ (crypto : CryptoProvider) (root : SelectedRoot) (records : List VerifiedRecord)
    (rollback_keys : BTreeMap RecordKey ℕ) where
  unfoldable pub state_with : BTreeSet HashValue → EffectiveState
  state_with admitted_deletions =
      compute_effective_state (λ signed. crypto.serialize (vault_record signed))
        (user_from_root root.root root.signing_public_key) root.root_signing_public_key_hash records
        admitted_deletions rollback_keys

  -- The `loop`, with the admissions that are left.
  unfoldable pub admit :
      List VerifiedRecord → ℕ → BTreeSet HashValue → EffectiveState × BTreeSet HashValue
  admit candidates zero admitted_deletions = (state_with admitted_deletions, admitted_deletions)
  admit candidates (suc left) admitted_deletions =
      let state = state_with admitted_deletions in
      elim (newly_admitted state admitted_deletions candidates) [
        | none ↦ (state, admitted_deletions)
        | some r ↦ admit candidates left (insert r.record_hash tt admitted_deletions)
      ]

  -- Each admission is of another candidate, so as many as there are candidates are enough.
  unfoldable pub resolve_effective_with_deletions : EffectiveState × BTreeSet HashValue
  resolve_effective_with_deletions =
      let candidates = deletion_candidates records in admit candidates (length candidates) []

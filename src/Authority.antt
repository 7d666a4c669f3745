-- ===== src/Authority.antt =====
-- The authorities of principals (crates/thorax-core/src/validate/effective.rs,
-- `compute_authorities_from_selected` and the functions around it).
pub mod Count
pub mod Settle
pub mod Powers
pub mod Sound
pub mod Complete
pub mod Holding
mod Examples
use thorax.Prelude.{
  ℕ, suc, zero, ◌+◌, ◌*◌, Bool, true, false, ◌||◌, List, [], ◌∷◌, ◌++◌, Option, none, some, length,
  bytes_ord,
}
use thorax.Prelude.Map.{BTreeMap, values, get, get_or, update, insert, contains_key}
use thorax.Format.Selector.{KeyspaceSelectorV1, ManageKeyspaceGrantV1}
use thorax.Format.Key.{UserId, GroupId, GroupMemberId, GrantId, PrincipalRefV1, principal_ord}
use thorax.Format.Body.{UserRecordV1, GroupRecordV1, GroupMemberRecordV1, GrantRecordV1}
use thorax.Authz.{AuthoritySet, no_authority, root, add_permission, merge_from}

abbrev pub Authorities : Type 0
Authorities = BTreeMap PrincipalRefV1 AuthoritySet

-- What a principal holds, `unwrap_or_default`.
abbrev pub authority_of : Authorities → PrincipalRefV1 → AuthoritySet
authority_of authorities principal = get_or (get authorities principal) no_authority

unfoldable pub root_authorities : UserId → Authorities
root_authorities root_user = insert (PrincipalRefV1.user root_user) root []

unfoldable pub signer_auth : Authorities → UserId → AuthoritySet
signer_auth authorities signer = authority_of authorities (PrincipalRefV1.user signer)

unfoldable pub principal_exists :
    PrincipalRefV1 → BTreeMap UserId UserRecordV1 → BTreeMap GroupId GroupRecordV1 → Bool
principal_exists (PrincipalRefV1.user user) users groups = contains_key users user
principal_exists (PrincipalRefV1.group group) users groups = contains_key groups group

-- The first loop, over the grants.
unfoldable pub confer : Authorities → GrantRecordV1 → Authorities
confer authorities grant =
    update grant.subject_id (λ old. (add_permission (get_or old no_authority) grant.permission).0)
      authorities

unfoldable pub confer_all : Authorities → List GrantRecordV1 → Authorities
confer_all authorities [] = authorities
confer_all authorities (grant ∷ grants) = confer_all (confer authorities grant) grants

-- The body of the inner loop: the member merges what the group holds.
unfoldable pub merge_into : Authorities → PrincipalRefV1 → AuthoritySet → Authorities
merge_into authorities member group_auth =
    update member (λ old. (merge_from (get_or old no_authority) group_auth).0) authorities

-- A group that holds nothing is skipped.
unfoldable pub inherit_from :
    Authorities → Bool → PrincipalRefV1 → Option AuthoritySet → Authorities × Bool
inherit_from authorities changed member none = (authorities, changed)
inherit_from authorities changed member (some group_auth) = (
  merge_into authorities member group_auth,
  changed || (merge_from (authority_of authorities member) group_auth).1,
)

unfoldable pub inherit : Authorities × Bool → GroupMemberRecordV1 → Authorities × Bool
inherit (authorities, changed) membership =
    inherit_from authorities changed membership.member_id
      (get authorities (PrincipalRefV1.group membership.group_id))

unfoldable pub inherit_all : Authorities × Bool → List GroupMemberRecordV1 → Authorities × Bool
inherit_all state [] = state
inherit_all state (membership ∷ memberships) = inherit_all (inherit state membership) memberships

-- The outer loop, on fuel.
unfoldable pub spread : ℕ → List GroupMemberRecordV1 → Authorities → Authorities
spread zero memberships authorities = authorities
spread (suc fuel) memberships authorities = elim (inherit_all (authorities, false) memberships).1 [
  | true ↦ spread fuel memberships (inherit_all (authorities, false) memberships).0
  | false ↦ (inherit_all (authorities, false) memberships).0
]

-- All that anyone holds, and how much of it a principal can hold.
abbrev pub all_read : Authorities → List KeyspaceSelectorV1
all_read [] = []
all_read ((k, a) ∷ rest) = a.read ++ all_read rest

abbrev pub all_write : Authorities → List KeyspaceSelectorV1
all_write [] = []
all_write ((k, a) ∷ rest) = a.write ++ all_write rest

abbrev pub all_manage : Authorities → List ManageKeyspaceGrantV1
all_manage [] = []
all_manage ((k, a) ∷ rest) = a.manage ++ all_manage rest

abbrev pub capacity : Authorities → ℕ
capacity a = length (all_read a) + length (all_write a) + length (all_manage a) + 1

-- Each round but the last lets some member hold more.
abbrev pub rounds : List GroupMemberRecordV1 → Authorities → ℕ
rounds memberships authorities = suc (length memberships * capacity authorities)

abbrev pub granted : UserId → List GrantRecordV1 → Authorities
granted root_user grants = confer_all (root_authorities root_user) grants

unfoldable pub compute_authorities_from_selected :
    UserId
    → BTreeMap GroupMemberId GroupMemberRecordV1
    → BTreeMap GrantId GrantRecordV1
    → Authorities
compute_authorities_from_selected root_user memberships grants =
    spread (rounds (values memberships) (granted root_user (values grants))) (values memberships)
      (granted root_user (values grants))

-- ===== src/Pipeline/Deletions/Rule.antt =====
-- Who may delete a user, a group or a grant, as a relation, and that `deletion_authorized` decides it.
use thorax.Prelude.{
  ◌≡◌, refl, true, none, some, arith, Bool-cases, Option-cases, inl, inr, bytes_ord,
}
use thorax.Prelude.Map.{get}
use thorax.Format.Body.{
  RecordBodyV1, UserDeletedRecordV1, GroupDeletedRecordV1, GrantDeletedRecordV1, GrantRecordV1,
}
use thorax.Authz.{AuthoritySet, can_create_permission}
use thorax.Effective.State.{EffectiveState}
use thorax.Pipeline.Deletions.{
  deletes_principal_or_grant, deletion_authorized, grant_deleted_authorized,
}

-- The deletions that a signer with this authority may make in this state.
pub data MayDelete (state : EffectiveState) (auth : AuthoritySet) : RecordBodyV1 → Type 0 where
  -- Users and groups are deleted by those who administer.
  a_user :
      (d : UserDeletedRecordV1)
      → auth.administer ≡ true
      → MayDelete state auth (RecordBodyV1.user_deleted d)
  a_group :
      (d : GroupDeletedRecordV1)
      → auth.administer ≡ true
      → MayDelete state auth (RecordBodyV1.group_deleted d)
  -- A live grant is deleted by those who could have created what it grants, and what the deletion
  -- says that it grants.
  a_live_grant :
      (d : GrantDeletedRecordV1) (active : GrantRecordV1)
      → get state.grants d.id ≡ some active
      → can_create_permission auth active.permission ≡ true
      → can_create_permission auth d.permission ≡ true
      → MayDelete state auth (RecordBodyV1.grant_deleted d)
  -- Where no grant is live, also by those who administer.
  no_grant_administered :
      (d : GrantDeletedRecordV1)
      → get state.grants d.id ≡ none
      → auth.administer ≡ true
      → MayDelete state auth (RecordBodyV1.grant_deleted d)
  no_grant_created :
      (d : GrantDeletedRecordV1)
      → get state.grants d.id ≡ none
      → can_create_permission auth d.permission ≡ true
      → MayDelete state auth (RecordBodyV1.grant_deleted d)

MayDelete-grant :
    (state : EffectiveState) (auth : AuthoritySet) (d : GrantDeletedRecordV1)
    → grant_deleted_authorized auth d state ≡ true
    → MayDelete state auth (RecordBodyV1.grant_deleted d)
unfolding grant_deleted_authorized
MayDelete-grant state auth d h = elim (Option-cases (get state.grants d.id)) [
  | inl n ↦ elim (Bool-cases auth.administer) [
    | inl a ↦ MayDelete.no_grant_administered d n a
    | inr a ↦ MayDelete.no_grant_created d n (ground arith)
  ]
  | inr (active, s) ↦ MayDelete.a_live_grant d active s (ground arith) (ground arith)
]

pub deletion_authorized-MayDelete :
    (state : EffectiveState) (auth : AuthoritySet) (body : RecordBodyV1)
    → deletion_authorized state auth body ≡ true
    → MayDelete state auth body
unfolding deletion_authorized
deletion_authorized-MayDelete state auth (RecordBodyV1.user_deleted d) h = MayDelete.a_user d h
deletion_authorized-MayDelete state auth (RecordBodyV1.group_deleted d) h = MayDelete.a_group d h
deletion_authorized-MayDelete state auth (RecordBodyV1.grant_deleted d) h =
    MayDelete-grant state auth d h
deletion_authorized-MayDelete state auth (RecordBodyV1.vault_root _) h = absurd (ground arith)
deletion_authorized-MayDelete state auth (RecordBodyV1.entry_point _) h = absurd (ground arith)
deletion_authorized-MayDelete state auth (RecordBodyV1.user _) h = absurd (ground arith)
deletion_authorized-MayDelete state auth (RecordBodyV1.user_handle _) h = absurd (ground arith)
deletion_authorized-MayDelete state auth (RecordBodyV1.group _) h = absurd (ground arith)
deletion_authorized-MayDelete state auth (RecordBodyV1.group_member _) h = absurd (ground arith)
deletion_authorized-MayDelete state auth (RecordBodyV1.group_member_deleted _) h =
    absurd (ground arith)
deletion_authorized-MayDelete state auth (RecordBodyV1.grant _) h = absurd (ground arith)
deletion_authorized-MayDelete state auth (RecordBodyV1.secret _) h = absurd (ground arith)
deletion_authorized-MayDelete state auth (RecordBodyV1.secret_deleted _) h = absurd (ground arith)
deletion_authorized-MayDelete state auth (RecordBodyV1.vault_handle _) h = absurd (ground arith)

pub MayDelete-authorized :
    (state : EffectiveState) (auth : AuthoritySet) (body : RecordBodyV1)
    → MayDelete state auth body
    → (deletion_authorized state auth body ≡ true) × (deletes_principal_or_grant body ≡ true)
unfolding deletion_authorized grant_deleted_authorized
MayDelete-authorized state auth _ (MayDelete.a_user d a) = (a, refl)
MayDelete-authorized state auth _ (MayDelete.a_group d a) = (a, refl)
MayDelete-authorized state auth _ (MayDelete.a_live_grant d active s c p) = (ground arith, refl)
MayDelete-authorized state auth _ (MayDelete.no_grant_administered d n a) = (ground arith, refl)
MayDelete-authorized state auth _ (MayDelete.no_grant_created d n c) = (ground arith, refl)

-- ===== src/Invitation/File.antt =====
-- An invitation that is written to a file is claimed as the same one, with no baseline made up.
use thorax.Prelude.{
  ◌≤◌, ◌≡◌, Bool, true, false, refl, ap, ◌∙◌, ◌++◌, Option, none, some, length, if◌then◌else◌,
  arith, ◌&&◌,
}
use thorax.Format.Selector.{Bytes}
use thorax.Envelope.{strip_prefix}
use thorax.Envelope.Limits.{strip_prefix-append}
use thorax.Join.{ArtifactCodec}
use thorax.Invitation.{
  InvitationMaterial, Invite, InviteBaselinePolicy, FrontendResult, into_material, to_v2, is_some,
  has_rollback_baseline, includes, wire_invite, invite_magic, max_invite_bytes, prefixed_invite,
  material_of, invite_bytes, decode_invite_payload, decode_invite_bytes,
}

prefixed_invite-ok :
    (x : Option Bytes) (bytes : Bytes)
    → prefixed_invite x ≡ FrontendResult.ok bytes
    → (payload : Bytes) × (x ≡ some payload)
      × (bytes ≡ invite_magic ++ payload)
      × (length bytes ≤ max_invite_bytes)
unfolding prefixed_invite
prefixed_invite-ok none bytes h = cc
prefixed_invite-ok (some payload) bytes h = (payload, refl, ground arith, ground arith)

-- What a claim of the wire form starts from.
abbrev claimed : InvitationMaterial → InviteBaselinePolicy → InvitationMaterial
claimed invite policy = into_material (wire_invite invite policy)

is_some-if :
    {A : Type 0} (b : Bool) (x : Option A) → is_some (if b then x else none) ≡ (b && is_some x)
unfolding is_some
is_some-if true x = refl
is_some-if false x = refl

has_rollback_baseline-claimed :
    (invite : InvitationMaterial) (policy : InviteBaselinePolicy)
    → has_rollback_baseline (claimed invite policy)
      ≡ (includes policy && has_rollback_baseline invite)
unfolding has_rollback_baseline into_material wire_invite to_v2
has_rollback_baseline-claimed invite policy = is_some-if (includes policy) invite.rollback_baseline

module _ (cord : ArtifactCodec Invite) where
  decode_invite_bytes-written :
      (invite : InvitationMaterial) (policy : InviteBaselinePolicy) (bytes : Bytes)
      → invite_bytes cord invite policy ≡ FrontendResult.ok bytes
      → (decode_invite_bytes cord bytes ≡ FrontendResult.ok (claimed invite policy))
        × (length bytes ≤ max_invite_bytes)
  unfolding invite_bytes decode_invite_bytes decode_invite_payload material_of
  decode_invite_bytes-written invite policy bytes h =
      let (payload, x, e, le) = prefixed_invite-ok _ bytes h in
      let s = ap (strip_prefix invite_magic) e ∙ strip_prefix-append invite_magic payload in
      let d = cord.deserialize-serialize (wire_invite invite policy) payload x in
      (ap (decode_invite_payload cord) s ∙ ap material_of d, le)

  -- An invitation file that is written without an error is at most max_invite_bytes long and is
  -- read back as an invitation of the same seed and trusted root, which has a rollback baseline
  -- exactly if the policy includes one and the invitation had one. Under the policy that includes
  -- it, the invitation is read back unchanged.
  pub invite_bytes-roundtrip :
      (invite : InvitationMaterial) (policy : InviteBaselinePolicy) (bytes : Bytes)
      → invite_bytes cord invite policy ≡ FrontendResult.ok bytes
      → (length bytes ≤ max_invite_bytes)
        × (m : InvitationMaterial) × (decode_invite_bytes cord bytes ≡ FrontendResult.ok m)
        × (m.master_seed ≡ invite.master_seed)
        × (m.trusted_root ≡ invite.trusted_root)
        × (has_rollback_baseline m ≡ (includes policy && has_rollback_baseline invite))
        × (includes policy ≡ true → m ≡ invite)
  unfolding into_material wire_invite to_v2
  invite_bytes-roundtrip invite policy bytes h =
      let (r, le) = decode_invite_bytes-written invite policy bytes h in
      (
        le,
        claimed invite policy,
        r,
        refl,
        refl,
        has_rollback_baseline-claimed invite policy,
        λ on. ap (λ b. into_material (Invite.invite_v2 (to_v2 invite b))) on,
      )

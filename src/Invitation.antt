-- ===== src/Invitation.antt =====
-- Invitations (crates/thorax-core/src/format.rs, `Invite` to `MAX_INVITE_BYTES`) and their files
-- (crates/thorax-frontend/src/runtime.rs, `wire_invite` to `decode_invite_bytes`).
pub mod File
mod Examples
use thorax.Prelude.{
  ℕ, Bool, true, false, if◌then◌else◌, List, [], ◌∷◌, ◌++◌, Option, none, some, length, ltb,
}
use thorax.Format.Selector.{Bytes, text}
use thorax.Format.Key.{HashValue}
use thorax.Format.RatchetRecord.{RatchetRecordV1}
use thorax.Envelope.{strip_prefix}
use thorax.Join.{ArtifactCodec}

pub record RatchetBaselineV1 : Type 0 where
  pub records : List RatchetRecordV1

pub record InviteV1 : Type 0 where
  pub master_seed : Bytes
  pub trusted_root : HashValue
  pub rollback_baseline : RatchetBaselineV1

pub record InviteV2 : Type 0 where
  pub master_seed : Bytes
  pub trusted_root : HashValue
  pub rollback_baseline : Option RatchetBaselineV1

pub data Invite : Type 0 where
  invite_v1 : InviteV1 → Invite
  invite_v2 : InviteV2 → Invite

pub record InvitationMaterial : Type 0 where
  pub master_seed : Bytes
  pub trusted_root : HashValue
  pub rollback_baseline : Option RatchetBaselineV1

unfoldable pub into_material : Invite → InvitationMaterial
into_material (Invite.invite_v1 invite) = record {
  master_seed = invite.master_seed;
  trusted_root = invite.trusted_root;
  rollback_baseline = some invite.rollback_baseline;
}
into_material (Invite.invite_v2 invite) = record {
  master_seed = invite.master_seed;
  trusted_root = invite.trusted_root;
  rollback_baseline = invite.rollback_baseline;
}

unfoldable pub to_v2 : InvitationMaterial → Bool → InviteV2
to_v2 material include_baseline = record {
  master_seed = material.master_seed;
  trusted_root = material.trusted_root;
  rollback_baseline = if include_baseline then material.rollback_baseline else none;
}

-- `Option::is_some`
unfoldable pub is_some : {A : Type 0} → Option A → Bool
is_some none = false
is_some (some a) = true

unfoldable pub has_rollback_baseline : InvitationMaterial → Bool
has_rollback_baseline material = is_some material.rollback_baseline

pub data InviteBaselinePolicy : Type 0 where
  include_it : InviteBaselinePolicy
  omit_it : InviteBaselinePolicy

unfoldable pub includes : InviteBaselinePolicy → Bool
includes InviteBaselinePolicy.include_it = true
includes InviteBaselinePolicy.omit_it = false

unfoldable pub wire_invite : InvitationMaterial → InviteBaselinePolicy → Invite
wire_invite invite policy = Invite.invite_v2 (to_v2 invite (includes policy))

-- The errors of `FrontendError` that these functions give.
pub data FrontendError : Type 0 where
  cord_error : FrontendError
  invalid_bundle_string : FrontendError
  secret_input_too_large : ℕ → FrontendError

pub data FrontendResult (A : Type 0) : Type 0 where
  ok : A → FrontendResult A
  err : FrontendError → FrontendResult A

abbrev pub invite_magic : Bytes
invite_magic = text "thorax-invite" ++ 0 ∷ []

abbrev pub max_invite_bytes : ℕ
max_invite_bytes = 269484032

-- What `invite_bytes` does with the serialised invite.
unfoldable pub prefixed_invite : Option Bytes → FrontendResult Bytes
prefixed_invite none = FrontendResult.err FrontendError.cord_error
prefixed_invite (some payload) =
    let bytes = invite_magic ++ payload in
    if ltb max_invite_bytes (length bytes)
    then FrontendResult.err (FrontendError.secret_input_too_large max_invite_bytes)
    else FrontendResult.ok bytes

unfoldable pub material_of : Option Invite → FrontendResult InvitationMaterial
material_of none = FrontendResult.err FrontendError.cord_error
material_of (some invite) = FrontendResult.ok (into_material invite)

module _ (cord : ArtifactCodec Invite) where
  unfoldable pub invite_bytes : InvitationMaterial → InviteBaselinePolicy → FrontendResult Bytes
  invite_bytes invite policy = prefixed_invite (cord.serialize (wire_invite invite policy))

  -- What `decode_invite_bytes` does with the payload.
  unfoldable pub decode_invite_payload : Option Bytes → FrontendResult InvitationMaterial
  decode_invite_payload none = FrontendResult.err FrontendError.invalid_bundle_string
  decode_invite_payload (some payload) = material_of (cord.deserialize payload)

  unfoldable pub decode_invite_bytes : Bytes → FrontendResult InvitationMaterial
  decode_invite_bytes bytes = decode_invite_payload (strip_prefix invite_magic bytes)

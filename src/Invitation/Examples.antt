-- ===== src/Invitation/Examples.antt =====
-- An invitation with a baseline, written and read under both policies.
use native.Mathlib.Decide.{ℕ_discrete}
use thorax.Prelude.{◌≤◌, ◌≡◌, true, refl, ap, [], ◌∷◌, ◌++◌, none, some, length, ◌&&◌}
use thorax.Format.Selector.{Bytes}
use thorax.Envelope.{strip_prefix}
use thorax.Join.{ArtifactCodec}
use thorax.Join.OneValue.{written_as_self, only}
use thorax.Invitation.{
  InvitationMaterial, Invite, InviteBaselinePolicy, FrontendError, FrontendResult, into_material,
  to_v2, is_some, has_rollback_baseline, includes, wire_invite, invite_magic, max_invite_bytes,
  prefixed_invite, material_of, invite_bytes, decode_invite_payload, decode_invite_bytes,
}
use thorax.Invitation.File.{invite_bytes-roundtrip}

runs : Unit {0}
unfolding strip_prefix into_material to_v2 is_some has_rollback_baseline includes wire_invite
    prefixed_invite material_of invite_bytes decode_invite_payload decode_invite_bytes
runs = tt

abbrev invited : InvitationMaterial
invited = record {
  master_seed = 1 ∷ 2 ∷ [];
  trusted_root = 3 ∷ [];
  rollback_baseline = some (record { records = [] });
}

invite_discrete : Discrete Invite
invite_discrete = hlevel ℕ_discrete

abbrev compact : Invite
compact =
    Invite.invite_v2
      (record { master_seed = 1 ∷ 2 ∷ []; trusted_root = 3 ∷ []; rollback_baseline = none })

abbrev cord : ArtifactCodec Invite
cord = only invite_discrete compact (5 ∷ 6 ∷ [])

omitted :
    invite_bytes cord invited InviteBaselinePolicy.omit_it
    ≡ FrontendResult.ok (invite_magic ++ 5 ∷ 6 ∷ [])
unfolding runs
omitted = ap prefixed_invite (written_as_self (invite_discrete compact compact) _)

-- An invite of the first version has a baseline.
first_version :
    (seed : Bytes)
    → has_rollback_baseline (
        into_material (
          Invite.invite_v1 (record {
            master_seed = seed;
            trusted_root = 3 ∷ [];
            rollback_baseline = record { records = [] };
          })))
      ≡ true
unfolding runs
first_version seed = refl

-- Bytes without the magic are refused.
unmarked :
    decode_invite_bytes cord (5 ∷ 6 ∷ []) ≡ FrontendResult.err FrontendError.invalid_bundle_string
unfolding runs
unmarked = refl

invite_bytes-roundtrip_example :
    let bytes = invite_magic ++ 5 ∷ 6 ∷ [] in
    let policy = InviteBaselinePolicy.omit_it in
    (length bytes ≤ max_invite_bytes)
    × (m : InvitationMaterial) × (decode_invite_bytes cord bytes ≡ FrontendResult.ok m)
    × (m.master_seed ≡ invited.master_seed)
    × (m.trusted_root ≡ invited.trusted_root)
    × (has_rollback_baseline m ≡ (includes policy && has_rollback_baseline invited))
    × (includes policy ≡ true → m ≡ invited)
invite_bytes-roundtrip_example =
    invite_bytes-roundtrip cord invited InviteBaselinePolicy.omit_it (invite_magic ++ 5 ∷ 6 ∷ [])
      omitted

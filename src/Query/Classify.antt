-- ===== src/Query/Classify.antt =====
-- When a secret is decryptable for a user.
use thorax.Prelude.{
  ◌≡◌, ◌↔◌, refl, Bool, true, false, not, if◌then◌else◌, Option, none, some, arith, Option-cases,
  inl, inr, bytes_ord, [],
}
use thorax.Prelude.Map.{contains_key}
use thorax.Format.Selector.{SecretSelectorV1}
use thorax.Format.Key.{UserId, SecretId, key_ord}
use thorax.Format.Body.{SecretRecordV1}
use thorax.Authz.{can_read}
use thorax.Crypto.{CryptoProvider, derive_secret_id}
use thorax.Structure.Record.{distinct_slots}
use thorax.Effective.State.{EffectiveState}
use thorax.Query.{authority_for_user}
use thorax.Query.Secrets.{
  SecretState, active_decryptable, unauthorized, invalid, not_encrypted_for_reader, ActiveSecretV1,
  conflict_at, live_at, has_slot, classify_value, classify_at, classify_secret_for_user,
}

-- The tests in the order of the source.
abbrev tests : Bool → Bool → Bool → Bool → SecretState
tests reads distinct exists slot =
    if not reads
    then unauthorized
    else if not distinct
    then invalid
    else if not exists
    then unauthorized
    else if slot
    then active_decryptable
    else not_encrypted_for_reader

tests-elim :
    (reads distinct exists slot : Bool)
    → tests reads distinct exists slot ≡ active_decryptable
    → (reads ≡ true) × (distinct ≡ true) × (exists ≡ true) × (slot ≡ true)
tests-elim true true true true h = (refl, refl, refl, refl)
tests-elim true true true false h = absurd (ground arith)
tests-elim true true false slot h = absurd (ground arith)
tests-elim true false exists slot h = absurd (ground arith)
tests-elim false distinct exists slot h = absurd (ground arith)

unless-elim :
    (unresolved : Bool) (rest : SecretState)
    → (if unresolved then invalid else rest) ≡ active_decryptable
    → (unresolved ≡ false) × (rest ≡ active_decryptable)
unless-elim true rest h = absurd (ground arith)
unless-elim false rest h = (refl, h)

unless-intro :
    (unresolved : Bool) (rest : SecretState)
    → unresolved ≡ false
    → rest ≡ active_decryptable
    → (if unresolved then invalid else rest) ≡ active_decryptable
unless-intro true rest h e = absurd (ground arith)
unless-intro false rest h e = e

module _ (self : EffectiveState) (user : UserId) where
  -- The user may read the value, exists, and has a slot in it; no slot is doubled.
  abbrev pub Opens : SecretRecordV1 → Type 0
  Opens value =
      (can_read (authority_for_user self user) value.selector ≡ true)
      × (distinct_slots [] value.sealed.recipient_slots ≡ true)
      × (contains_key self.users user ≡ true)
      × (has_slot value user ≡ true)

  classify_value_iff :
      (value : SecretRecordV1) → (classify_value self value user ≡ active_decryptable) ↔ Opens value
  unfolding classify_value
  classify_value_iff value = (tests-elim _ _ _ _, λ (r, d, u, s). rw (r, d, u, s) refl)

  -- The conditions under which a value is exposed.
  abbrev pub Exposed : Option SecretId → Type 0
  Exposed derived =
      (self.authority_unresolved ≡ false)
      × ((secret : SecretId) × (active : ActiveSecretV1) × (derived ≡ some secret)
          × (conflict_at self secret ≡ none)
          × (live_at self secret ≡ some active)
          × Opens active.value)

  classify_at_iff :
      (derived : Option SecretId)
      → self.authority_unresolved ≡ false
      → (classify_at self derived user ≡ active_decryptable)
      → Exposed derived
  unfolding classify_at
  classify_at_iff none r = λ h. absurd (ground arith)
  classify_at_iff (some secret) r = elim (Option-cases (conflict_at self secret)) [
    | inr (report, c) ↦ rw c (λ h. absurd (ground arith))
    | inl c ↦ elim (Option-cases (live_at self secret)) [
      | inl n ↦ rw (c, n) (λ h. absurd (ground arith))
      | inr (active, a) ↦
          rw (c, a) (λ h. (r, (secret, active, refl, c, a, (classify_value_iff active.value).0 h)))
    ]
  ]

  -- A secret is decryptable for a user exactly if the state is resolved, its id is derived, its
  -- key is not in conflict, its winner is a value whose slots are distinct, and the user exists,
  -- may read the value's selector and has a slot in it.
  pub classify_secret_for_user_iff :
      (crypto : CryptoProvider) (selector : SecretSelectorV1)
      → (classify_secret_for_user self crypto selector user ≡ active_decryptable)
        ↔ Exposed (derive_secret_id crypto selector)
  unfolding classify_secret_for_user classify_at
  classify_secret_for_user_iff crypto selector = (
    λ h.
        let (r, e) = unless-elim self.authority_unresolved _ h in
        classify_at_iff (derive_secret_id crypto selector) r e,
    λ (r, (secret, active, d, c, a, o)).
        unless-intro self.authority_unresolved _ r
          (rw (d, c, a) ((classify_value_iff active.value).1 o)),
  )

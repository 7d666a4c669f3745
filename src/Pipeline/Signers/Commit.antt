-- ===== src/Pipeline/Signers/Commit.antt =====
-- An identity that is claimed for a key is derived from that key.
use thorax.Prelude.{
  ◌≡◌, sym, ap, ◌∙◌, subst, List, [], ◌∷◌, Option, none, some, arith, Bool-cases, Option-cases, inl,
  inr, Memᴰ, Memᴰ-cons_elim, ◌==◌, eq_of_==, some_injective,
}
use thorax.Prelude.Map.{BTreeSet}
use thorax.Format.Selector.{Bytes, bytes_eq}
use thorax.Format.Key.{HashValue, UserId}
use thorax.Format.Body.{RecordBodyV1, known}
use thorax.Crypto.{CryptoProvider, derive_user_id}
use thorax.Structure.{Defect}
use thorax.Structure.Record.{structurally_valid_user, check_id}
use thorax.Pipeline.Root.{Hashed}
use thorax.Pipeline.Signers.{UserBody, user_body_of, user_bodies}
use thorax.Pipeline.Signers.Claims.{Claims}

check_id-none :
    (id : HashValue) (derived : Option HashValue) (defect : Defect)
    → check_id id derived defect ≡ none
    → derived ≡ some id
check_id-none id none defect e = absurd (ground arith)
check_id-none id (some d) defect e = elim (Bool-cases (id == d)) [
  | inl same ↦ ap some (sym (eq_of_== id d same))
  | inr other ↦ absurd (ground arith)
]

module _ (crypto : CryptoProvider) where
  -- The identity is derived from the key and some HPKE key.
  abbrev pub Commits : Bytes → UserId → Type 0
  Commits key id = (hpke_public_key : Bytes) × (derive_user_id crypto key hpke_public_key ≡ some id)

  user_body_of-valid :
      (h : Hashed) (body : Option RecordBodyV1) (b : UserBody)
      → user_body_of crypto h body ≡ some b
      → structurally_valid_user crypto b.1 ≡ none
  unfolding user_body_of
  user_body_of-valid h none b = λ e. absurd (ground arith)
  user_body_of-valid h (some (RecordBodyV1.user u)) b =
      elim (Option-cases (structurally_valid_user crypto u)) [
        | inl v ↦
            rw (v, user_body_of)
              (λ e.
                subst (λ (c : UserBody). structurally_valid_user crypto c.1 ≡ none)
                  (some_injective e) v)
        | inr (defect, d) ↦ rw (d, user_body_of) (λ e. absurd (ground arith))
      ]
  user_body_of-valid h (some (RecordBodyV1.vault_root _)) b = λ e. absurd (ground arith)
  user_body_of-valid h (some (RecordBodyV1.entry_point _)) b = λ e. absurd (ground arith)
  user_body_of-valid h (some (RecordBodyV1.user_handle _)) b = λ e. absurd (ground arith)
  user_body_of-valid h (some (RecordBodyV1.group _)) b = λ e. absurd (ground arith)
  user_body_of-valid h (some (RecordBodyV1.group_deleted _)) b = λ e. absurd (ground arith)
  user_body_of-valid h (some (RecordBodyV1.group_member _)) b = λ e. absurd (ground arith)
  user_body_of-valid h (some (RecordBodyV1.group_member_deleted _)) b = λ e. absurd (ground arith)
  user_body_of-valid h (some (RecordBodyV1.grant _)) b = λ e. absurd (ground arith)
  user_body_of-valid h (some (RecordBodyV1.grant_deleted _)) b = λ e. absurd (ground arith)
  user_body_of-valid h (some (RecordBodyV1.user_deleted _)) b = λ e. absurd (ground arith)
  user_body_of-valid h (some (RecordBodyV1.secret _)) b = λ e. absurd (ground arith)
  user_body_of-valid h (some (RecordBodyV1.secret_deleted _)) b = λ e. absurd (ground arith)
  user_body_of-valid h (some (RecordBodyV1.vault_handle _)) b = λ e. absurd (ground arith)

  user_bodies-valid :
      (records : List Hashed) (b : UserBody)
      → Memᴰ b (user_bodies crypto records)
      → structurally_valid_user crypto b.1 ≡ none
  unfolding user_bodies
  user_bodies-valid [] b = λ m. elim m [ ]
  user_bodies-valid ((signed, hash) ∷ records) b =
      elim (Option-cases (user_body_of crypto (signed, hash) (known signed.body))) [
        | inl n ↦ rw (n, user_bodies) (user_bodies-valid records b)
        | inr (c, e) ↦
            rw (e, user_bodies)
              (Memᴰ-cons_elim (λ (b : UserBody). structurally_valid_user crypto b.1 ≡ none)
                (user_body_of-valid (signed, hash) (known signed.body) c e)
                (user_bodies-valid records) b)
      ]

  pub Claims-Commits :
      (verified : BTreeSet HashValue) (records : List Hashed) (key : Bytes) (id : UserId)
      → Claims crypto verified (user_bodies crypto records) key id
      → Commits key id
  unfolding structurally_valid_user
  Claims-Commits verified records key id (b, m, k, i, _) =
      let u = b.1 in
      let d =
        check_id-none u.id (derive_user_id crypto u.signing_public_key u.hpke_public_key)
          Defect.invalid_user (user_bodies-valid records b m) in
      (
        u.hpke_public_key,
        ap (λ k. derive_user_id crypto k u.hpke_public_key) (sym k) ∙ d ∙ ap some i,
      )

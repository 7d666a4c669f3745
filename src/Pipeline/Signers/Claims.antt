-- ===== src/Pipeline/Signers/Claims.antt =====
-- The claims on signing keys: every one is of a user record that verifies.
use thorax.Prelude.{
  ℕ, zero, suc, ◌≡◌, refl, sym, Bool, true, false, List, [], ◌∷◌, some, some_injective, arith,
  Bool-cases, inl, inr, bytes_ord, Memᴰ, Memᴰ-cons_elim,
}
use thorax.Prelude.Map.{BTreeSet, insert, contains_key, update-All, All}
use thorax.Format.Selector.{Bytes, bytes_eq}
use thorax.Format.Key.{HashValue, UserId}
use thorax.Crypto.{CryptoProvider}
use thorax.Pipeline.Signers.{
  Introduced, UserBody, resolution, sole, attested_among, introduce, introduce_pass, introduce_all,
  skips, verifies,
}

-- The resolved identity is one of the claimants.
attested_among-Memᴰ :
    (attested : BTreeSet UserId) (ids : List UserId) (id : UserId)
    → Memᴰ id (attested_among attested ids)
    → Memᴰ id ids
unfolding attested_among
attested_among-Memᴰ attested [] id = λ m. m
attested_among-Memᴰ attested (x ∷ ids) id = elim (Bool-cases (contains_key attested x)) [
  | inl a ↦ rw a (
      Memᴰ-cons_elim (λ z. Memᴰ z (x ∷ ids)) (Memᴰ.head refl)
        (λ z m. Memᴰ.tail (attested_among-Memᴰ attested ids z m)) id)
  | inr a ↦ rw a (λ m. Memᴰ.tail (attested_among-Memᴰ attested ids id m))
]

sole-Memᴰ : (ids : List UserId) (id : UserId) → sole ids ≡ some id → Memᴰ id ids
sole-Memᴰ [] id h = absurd (ground arith)
sole-Memᴰ (x ∷ []) id h = Memᴰ.head (sym (some_injective h))
sole-Memᴰ (x ∷ y ∷ ids) id h = absurd (ground arith)

pub resolution-Memᴰ :
    (attested : BTreeSet UserId) (ids : List UserId) (id : UserId)
    → resolution attested ids ≡ some id
    → Memᴰ id ids
unfolding resolution
resolution-Memᴰ attested [] id h = attested_among-Memᴰ attested [] id (sole-Memᴰ _ id h)
resolution-Memᴰ attested (x ∷ []) id h = Memᴰ.head (sym (some_injective h))
resolution-Memᴰ attested (x ∷ y ∷ ids) id h =
    attested_among-Memᴰ attested (x ∷ y ∷ ids) id (sole-Memᴰ _ id h)

-- A claim of a user on a key, in a record that verifies.
module _ (crypto : CryptoProvider) (verified : BTreeSet HashValue) (bodies : List UserBody) where
  abbrev pub Claims : Bytes → UserId → Type 0
  Claims key id =
      (b : UserBody) × Memᴰ b bodies
      × (b.1.signing_public_key ≡ key)
      × (b.1.id ≡ id)
      × (verifies crypto verified b.0 ≡ true)

  abbrev pub ClaimsAll : Bytes × BTreeSet UserId → Type 0
  ClaimsAll (key, claimants) = All (λ (e : UserId × Unit {0}). Claims key e.0) claimants

  claim_inserted :
      (key : Bytes) (id : UserId) (claimants : BTreeSet UserId)
      → Claims key id
      → ClaimsAll (key, claimants)
      → ClaimsAll (key, insert id tt claimants)
  claim_inserted key id claimants claim all =
      update-All (λ (e : UserId × Unit {0}). Claims key e.0) id (λ _. tt) claimants claim
        (λ _ _. claim) all

  introduce-ClaimsAll :
      (st : Introduced) (b : UserBody)
      → Memᴰ b bodies
      → skips crypto verified st b ≡ false
      → All ClaimsAll st.claims
      → All ClaimsAll (introduce crypto verified st b.1).claims
  introduce-ClaimsAll st b m s all =
      let claim : Claims b.1.signing_public_key b.1.id = (b, m, refl, refl, ground arith) in
      update-All ClaimsAll b.1.signing_public_key _ st.claims
        (claim_inserted b.1.signing_public_key b.1.id [] claim (λ e n. elim n [ ]))
        (λ v old. claim_inserted b.1.signing_public_key b.1.id v claim old) all

  pass-ClaimsAll :
      (rest : List UserBody) (st : Introduced) (changed : Bool)
      → ((b : UserBody) → Memᴰ b rest → Memᴰ b bodies)
      → All ClaimsAll st.claims
      → All ClaimsAll (introduce_pass crypto verified rest st changed).0.claims
  unfolding introduce_pass
  pass-ClaimsAll [] st changed sub all = all
  pass-ClaimsAll (b ∷ rest) st changed sub all =
      let below : (c : UserBody) → Memᴰ c rest → Memᴰ c bodies = λ c m. sub c (Memᴰ.tail m) in
      elim (Bool-cases (skips crypto verified st b)) [
        | inl s ↦ rw (s, introduce_pass) (pass-ClaimsAll rest st changed below all)
        | inr s ↦
            rw (s, introduce_pass)
              (pass-ClaimsAll rest (introduce crypto verified st b.1) true below
                (introduce-ClaimsAll st b (sub b (Memᴰ.head refl)) s all))
      ]

  pub introduce_all-ClaimsAll :
      (left : ℕ) (st : Introduced)
      → All ClaimsAll st.claims
      → All ClaimsAll (introduce_all crypto verified left bodies st).claims
  unfolding introduce_all
  introduce_all-ClaimsAll zero st all = all
  introduce_all-ClaimsAll (suc left) st all =
      let next = pass-ClaimsAll bodies st false (λ _ m. m) all in
      elim (Bool-cases (introduce_pass crypto verified bodies st false).1) [
        | inl on ↦ rw (on, introduce_all) (introduce_all-ClaimsAll left _ next)
        | inr off ↦ rw (off, introduce_all) next
      ]

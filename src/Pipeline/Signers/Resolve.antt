-- ===== src/Pipeline/Signers/Resolve.antt =====
-- Who holds a signing key: the key of the root stays the root's, and every other key is held by an
-- identity that commits to it.
use thorax.Prelude.{
  ◌≡◌, ◌≢◌, refl, sym, ap, ◌∙◌, subst, false, List, [], ◌∷◌, some, bind-some, some_injective, ◌==◌,
  ne_of_==, arith, Bool-cases, Option-cases, inl, inr, bytes_ord, ord_discrete, Memᴰ,
}
use thorax.Prelude.Map.{
  BTreeMap, BTreeSet, get, insert, contains_key, get-update_self, get-update_ne, keys,
  get-cons_self, get-cons_ne, is_some, All, Memᴰ_of_keys,
}
use thorax.Format.Selector.{Bytes, bytes_eq}
use thorax.Format.Key.{HashValue, UserId}
use thorax.Crypto.{CryptoProvider, key_hash}
use thorax.Pipeline.Root.{Hashed, SelectedRoot}
use thorax.Pipeline.Signers.{
  Signers, UserBody, resolution, settle_claim, settle_claims, resolve_signers, root_signer,
  introductions, user_bodies, attest_all,
}
use thorax.Pipeline.Signers.Commit.{Commits, Claims-Commits}
use thorax.Pipeline.Signers.Claims.{Claims, ClaimsAll, resolution-Memᴰ, introduce_all-ClaimsAll}

module _ (crypto : CryptoProvider) (verified : BTreeSet HashValue) (bodies : List UserBody)
    (root_key : Bytes) (root_id : UserId) where
  -- The root holds its key, which is not contested, and every other key is held by a claimant.
  abbrev pub Held : Signers → Type 0
  Held signers =
      (get signers.signer_for_key root_key ≡ some root_id)
      × (contains_key signers.contested_keys root_key ≡ false)
      × ((key : Bytes) (id : UserId)
          → key ≢ root_key
          → get signers.signer_for_key key ≡ some id
          → Claims crypto verified bodies key id)

  -- What a resolution adds.
  held_inserted :
      (signers : Signers) (key : Bytes) (id : UserId)
      → Claims crypto verified bodies key id
      → ((k : Bytes) (i : UserId)
          → k ≢ root_key
          → get signers.signer_for_key k ≡ some i
          → Claims crypto verified bodies k i)
      → (k : Bytes) (i : UserId) → k ≢ root_key
      → get (insert key id signers.signer_for_key) k ≡ some i
      → Claims crypto verified bodies k i
  held_inserted signers key id claim old k i n g = elim (ord_discrete k key) [
    | yes e ↦
        let at = get-update_self key (λ _. id) signers.signer_for_key in
        let same : id ≡ i =
          some_injective
            (sym at ∙ ap (λ k. get (insert key id signers.signer_for_key) k) (sym e) ∙ g) in
        subst (λ i. Claims crypto verified bodies k i) same
          (subst (λ k. Claims crypto verified bodies k id) (sym e) claim)
    | no other ↦ old k i n (sym (get-update_ne k key (λ _. id) signers.signer_for_key other) ∙ g)
  ]

module _ (crypto : CryptoProvider) (verified : BTreeSet HashValue) (bodies : List UserBody)
    (attested : BTreeSet UserId) (root_key : Bytes) (root_id : UserId) where
  abbrev Holding : Signers → Type 0
  Holding = Held crypto verified bodies root_key root_id

  settle_claim-Held :
      (key : Bytes) (claimants : BTreeSet UserId) (signers next : Signers)
      → ClaimsAll crypto verified bodies (key, claimants)
      → Holding signers
      → settle_claim crypto attested root_key key claimants signers ≡ some next
      → Holding next
  unfolding settle_claim
  settle_claim-Held key claimants signers next all h = elim (Bool-cases (key == root_key)) [
    | inl same ↦ rw same (λ e. subst Holding (some_injective e) h)
    | inr other ↦
        let ne : root_key ≢ key = λ q. ne_of_== key root_key other (sym q) in
        elim (Option-cases (resolution attested (keys claimants))) [
          | inl n ↦
              rw (other, n)
                (λ e.
                  let (hash, _, f) = bind-some (key_hash crypto key) _ e in
                  subst Holding (some_injective f) (
                    h.0,
                    ap is_some (get-update_ne root_key key (λ _. tt) signers.contested_keys ne)
                        ∙ h.1,
                    h.2,
                  ))
          | inr (id, r) ↦
              rw (other, r)
                (λ e. subst Holding (some_injective e) (
                  get-update_ne root_key key (λ _. id) signers.signer_for_key ne ∙ h.0,
                  h.1,
                  held_inserted crypto verified bodies root_key root_id signers key id
                      (let (v, m) = Memᴰ_of_keys claimants id (resolution-Memᴰ attested _ id r) in
                        all (id, v) m)
                      h.2,
                ))
        ]
  ]

  settle_claims-Held :
      (claims : BTreeMap Bytes (BTreeSet UserId)) (signers next : Signers)
      → All (ClaimsAll crypto verified bodies) claims
      → Holding signers
      → settle_claims crypto attested root_key claims signers ≡ some next
      → Holding next
  unfolding settle_claims
  settle_claims-Held [] signers next all h e = subst Holding (some_injective e) h
  settle_claims-Held ((key, claimants) ∷ claims) signers next all h e =
      let (mid, p, q) =
        bind-some (settle_claim crypto attested root_key key claimants signers) _ e in
      settle_claims-Held claims mid next (λ e m. all e (Memᴰ.tail m))
        (settle_claim-Held key claimants signers mid (all (key, claimants) (Memᴰ.head refl)) h p) q

only_root-none :
    (root_key key : Bytes) (root_id id : UserId)
    → key ≢ root_key
    → ¬ get ((root_key, root_id) ∷ []) key ≡ some id
unfolding get
only_root-none root_key key root_id id n g =
    let z = get-cons_ne key root_key root_id [] tt n in ground (arith, sym z ∙ g)

signers_hold :
    (crypto : CryptoProvider) (verified : BTreeSet HashValue) (root : SelectedRoot)
    (records : List Hashed) (signers : Signers)
    → resolve_signers crypto verified root records ≡ some signers
    → Held crypto verified (user_bodies crypto records) root.signing_public_key root.root.id signers
unfolding resolve_signers introductions get
signers_hold crypto verified root records signers e =
    let (attested, p, q) = bind-some (attest_all crypto verified root.root.id records []) _ e in
    settle_claims-Held crypto verified (user_bodies crypto records) attested root.signing_public_key
      root.root.id (introductions crypto verified root records).claims
      (root_signer crypto root.root.id root.signing_public_key) signers
      (introduce_all-ClaimsAll crypto verified (user_bodies crypto records) _ _ (λ e n. elim n [ ]))
      (
        get-cons_self root.signing_public_key root.root.id [],
        refl,
        λ k i n g. absurd (only_root-none root.signing_public_key k root.root.id i n g),
      )
      q

-- If the signers resolve without an error, then the root holds its own key, which is not
-- contested, and whoever holds another key is claimed for it by a well-formed user record that
-- verifies, and has an id that is derived from that key and an HPKE key.
pub resolve_signers-Held :
    (crypto : CryptoProvider) (verified : BTreeSet HashValue) (root : SelectedRoot)
    (records : List Hashed) (signers : Signers)
    → resolve_signers crypto verified root records ≡ some signers
    → Held crypto verified (user_bodies crypto records) root.signing_public_key root.root.id signers
      × ((key : Bytes) (id : UserId)
          → key ≢ root.signing_public_key
          → get signers.signer_for_key key ≡ some id
          → Commits crypto key id)
resolve_signers-Held crypto verified root records signers e =
    let held = signers_hold crypto verified root records signers e in
    (held, λ key id n g. Claims-Commits crypto verified records key id (held.2 key id n g))

-- ===== src/Pipeline/Signers.antt =====
-- The resolution of signing keys to identities in `validate_v1` (validate/pipeline.rs): which users
-- are introduced, which pairings are attested, and who holds each key.
pub mod Introduce
pub mod Claims
pub mod Commit
pub mod Resolve
use thorax.Prelude.{
  ℕ, zero, suc, Bool, true, false, not, ◌||◌, ◌&&◌, List, [], ◌∷◌, ◌++◌, Option, none, some, ◌>>=◌,
  ◌==◌, if◌then◌else◌, length, bytes_ord,
}
use thorax.Prelude.Map.{BTreeMap, BTreeSet, contains_key, insert, update, get_or, keys}
use thorax.Format.Selector.{Bytes, bytes_eq}
use thorax.Format.Key.{HashValue, UserId}
use thorax.Format.Body.{VaultRecordV1, RecordBodyV1, UserRecordV1, Evolving, known}
use thorax.Crypto.{CryptoProvider, derive_user_id, key_hash, signed_record_message}
use thorax.Structure.Record.{structurally_valid_user}
use thorax.Pipeline.Root.{Hashed, SelectedRoot, signature_verifies, try_verify}

abbrev pub UserBody : Type 0
UserBody = Hashed × UserRecordV1

pub record Introduced : Type 0 where
  pub claims : BTreeMap Bytes (BTreeSet UserId)
  pub introduced : BTreeMap UserId Bytes
  pub introduced_keys : BTreeSet Bytes

pub record Signers : Type 0 where
  pub signer_for_key : BTreeMap Bytes UserId
  pub contested_keys : BTreeSet Bytes
  pub ambiguous_keys : List HashValue

-- The claimants that are attested.
unfoldable pub attested_among : BTreeSet UserId → List UserId → List UserId
attested_among attested [] = []
attested_among attested (id ∷ ids) =
    let rest = attested_among attested ids in if contains_key attested id then id ∷ rest else rest

abbrev pub sole : List UserId → Option UserId
sole (id ∷ []) = some id
sole _ = none

-- `resolved`: a sole claimant, or the unique attested one.
unfoldable pub resolution : BTreeSet UserId → List UserId → Option UserId
resolution attested (id ∷ []) = some id
resolution attested claimants = sole (attested_among attested claimants)

module _ (crypto : CryptoProvider) where
  unfoldable pub user_body_of : Hashed → Option RecordBodyV1 → Option UserBody
  user_body_of hashed (some (RecordBodyV1.user u)) = elim (structurally_valid_user crypto u) [
    | none ↦ some (hashed, u)
    | some defect ↦ none
  ]
  user_body_of hashed _ = none

  unfoldable pub user_bodies : List Hashed → List UserBody
  user_bodies [] = []
  user_bodies ((signed, hash) ∷ records) =
      let rest = user_bodies records in
      elim (user_body_of (signed, hash) (known signed.body)) [
        | none ↦ rest
        | some found ↦ found ∷ rest
      ]

  module _ (verified : BTreeSet HashValue) where
    -- The check where a message that cannot be serialised counts as unverified.
    abbrev pub verifies : Hashed → Bool
    verifies hashed = get_or (try_verify crypto verified hashed) false

    -- The body of the `for` loop, and whether it set `changed`.
    abbrev pub skips : Introduced → UserBody → Bool
    skips st ((signed, hash), u) =
        contains_key st.introduced u.id
        || not (contains_key st.introduced_keys signed.signing_public_key)
        || not (verifies (signed, hash))

    abbrev pub introduce : Introduced → UserRecordV1 → Introduced
    introduce st u = record {
      claims =
          update u.signing_public_key (λ claimants. insert u.id tt (get_or claimants [])) st.claims;
      introduced = insert u.id u.signing_public_key st.introduced;
      introduced_keys = insert u.signing_public_key tt st.introduced_keys;
    }

    unfoldable pub introduce_pass : List UserBody → Introduced → Bool → Introduced × Bool
    introduce_pass [] st changed = (st, changed)
    introduce_pass (body ∷ bodies) st changed = elim (skips st body) [
      | true ↦ introduce_pass bodies st changed
      | false ↦ introduce_pass bodies (introduce st body.1) true
    ]

    -- `loop { … if !changed { break } }`, with the passes that are left.
    unfoldable pub introduce_all : ℕ → List UserBody → Introduced → Introduced
    introduce_all zero bodies st = st
    introduce_all (suc left) bodies st =
        let (next, changed) = introduce_pass bodies st false in
        elim changed [ true ↦ introduce_all left bodies next | false ↦ next ]

    abbrev pub only_root : UserId → Bytes → Introduced
    only_root root_id root_signing_key = record {
      claims = [];
      introduced = (root_id, root_signing_key) ∷ [];
      introduced_keys = (root_signing_key, tt) ∷ [];
    }

    -- Each pass but the last introduces a user, so one more than there are user records is enough.
    unfoldable pub introductions : SelectedRoot → List Hashed → Introduced
    introductions root records =
        let bodies = user_bodies records in
        introduce_all (suc (length bodies)) bodies (only_root root.root.id root.signing_public_key)

    -- The loop over the entry points.
    unfoldable pub attest :
        UserId → Hashed → Option RecordBodyV1 → BTreeSet UserId → Option (BTreeSet UserId)
    attest root_id (signed, hash) (some (RecordBodyV1.entry_point e)) attested =
        if e.trusted_root_user_id == root_id && verifies (signed, hash)
        then (derive_user_id crypto signed.signing_public_key e.hpke_public_key >>= λ id.
            some (insert id tt attested))
        else some attested
    attest root_id hashed _ attested = some attested

    unfoldable pub attest_all : UserId → List Hashed → BTreeSet UserId → Option (BTreeSet UserId)
    attest_all root_id [] attested = some attested
    attest_all root_id ((signed, hash) ∷ records) attested =
        attest root_id (signed, hash) (known signed.body) attested >>= λ next.
        attest_all root_id records next

  -- The loop over the claims.
  unfoldable pub settle_claim :
      BTreeSet UserId → Bytes → Bytes → BTreeSet UserId → Signers → Option Signers
  settle_claim attested root_signing_key signing_key claimants signers =
      if signing_key == root_signing_key
      then some signers
      else elim (resolution attested (keys claimants)) [
        | some signer ↦
            some
              (record signers { signer_for_key = insert signing_key signer signers.signer_for_key })
        | none ↦ key_hash crypto signing_key >>= λ hash. some (record signers {
          contested_keys = insert signing_key tt signers.contested_keys;
          ambiguous_keys = signers.ambiguous_keys ++ hash ∷ [];
        })
      ]

  unfoldable pub settle_claims :
      BTreeSet UserId → Bytes → BTreeMap Bytes (BTreeSet UserId) → Signers → Option Signers
  settle_claims attested root_signing_key [] signers = some signers
  settle_claims attested root_signing_key ((signing_key, claimants) ∷ claims) signers =
      settle_claim attested root_signing_key signing_key claimants signers >>= λ next.
      settle_claims attested root_signing_key claims next

  abbrev pub root_signer : UserId → Bytes → Signers
  root_signer root_id root_signing_key = record {
    signer_for_key = (root_signing_key, root_id) ∷ [];
    contested_keys = [];
    ambiguous_keys = [];
  }

  unfoldable pub resolve_signers : BTreeSet HashValue → SelectedRoot → List Hashed → Option Signers
  resolve_signers verified root records =
      let introduced = introductions verified root records in
      attest_all verified root.root.id records [] >>= λ attested.
      settle_claims attested root.signing_public_key introduced.claims
        (root_signer root.root.id root.signing_public_key)

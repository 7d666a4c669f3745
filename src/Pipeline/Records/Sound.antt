-- ===== src/Pipeline/Records/Sound.antt =====
-- What is known of the records that the validation takes as verified.
use thorax.Prelude.{
  ℕ, ◌≡◌, ◌≤◌, refl, sym, ap, ◌∙◌, subst, true, false, List, [], ◌∷◌, ◌++◌, Option, none, some,
  bind-some, some_injective, arith, Bool-cases, Option-cases, inl, inr, ◌⊎◌, bytes_ord, Memᴰ, not,
  ltb,
}
use thorax.Prelude.Map.{BTreeSet, get, get_or, contains_key}
use thorax.Format.Key.{HashValue, UserId}
use thorax.Format.Body.{VaultRecordV1, RecordBodyV1, known, lww_counter}
use thorax.Lww.{VerifiedRecord, counter_of}
use thorax.Crypto.{CryptoProvider, key_hash}
use thorax.Structure.{Defect, and_then, ensure}
use thorax.Structure.Record.{structurally_validate_record, max_lww_counter, above_ceiling}
use thorax.Pipeline.Report.{record_key_for}
use thorax.Pipeline.Root.{Hashed, SelectedRoot, try_verify}
use thorax.Pipeline.Signers.{Signers}
use thorax.Pipeline.Records.{
  Outcome, issue, dropped, accepted, unknown_record, Checked, check_signature, check_signer,
  check_record, take_in, verify_records, nothing_checked,
}

Memᴰ-append {ℓ} : {A : Type ℓ} (xs : List A) (y x : A) → Memᴰ x (xs ++ y ∷ []) → Memᴰ x xs ⊎ (x ≡ y)
Memᴰ-append [] y x (Memᴰ.head e) = inr e
Memᴰ-append [] y x (Memᴰ.tail m) = elim m [ ]
Memᴰ-append (z ∷ xs) y x (Memᴰ.head e) = inl (Memᴰ.head e)
Memᴰ-append (z ∷ xs) y x (Memᴰ.tail m) = elim (Memᴰ-append xs y x m) [
  | inl n ↦ inl (Memᴰ.tail n)
  | inr e ↦ inr e
]

below_ceiling :
    (counter : Option ℕ) (next : Option Defect)
    → and_then (ensure (not (above_ceiling counter)) Defect.counter_ceiling) next ≡ none
    → get_or counter 0 ≤ max_lww_counter
below_ceiling none next h = omega arith
below_ceiling (some c) next h = elim (Bool-cases (ltb max_lww_counter c)) [
  | inl t ↦ absurd (ground arith)
  | inr f ↦ ground arith
]

module _ (crypto : CryptoProvider) (verified : BTreeSet HashValue) (root : SelectedRoot)
    (signers : Signers) (records : List Hashed) where
  -- A record of the vault that is well formed, with the identity that its key resolves to, the key that
  -- its body gives, and a signature that verifies or was known to verify.
  pub record IsVerified (r : VerifiedRecord) : Type 0 where
    pub stored : Memᴰ (r.signed, r.record_hash) records
    pub body_known : known r.signed.body ≡ some r.body
    pub well_formed : structurally_validate_record crypto r.signed r.body root.root ≡ none
    pub uncontested : contains_key signers.contested_keys r.signed.signing_public_key ≡ false
    pub signed_by : get signers.signer_for_key r.signed.signing_public_key ≡ some r.signer
    pub keyed : record_key_for r.body r.signer ≡ r.key
    pub signature : try_verify crypto verified (r.signed, r.record_hash) ≡ some true

  abbrev AllVerified : Checked → Type 0
  AllVerified checked = (r : VerifiedRecord) → Memᴰ r checked.verified_records → IsVerified r

  abbrev verified_as : VaultRecordV1 → HashValue → RecordBodyV1 → UserId → VerifiedRecord
  verified_as signed hash body signer = record {
    signed = signed;
    body = body;
    key = record_key_for body signer;
    record_hash = hash;
    signer = signer;
  }

  abbrev Accepts : Option Outcome → VerifiedRecord → Type 0
  Accepts outcome r = outcome ≡ some (accepted r)

  check_signature-accepted :
      (signed : VaultRecordV1) (hash : HashValue) (body : RecordBodyV1) (signer : UserId)
      (r : VerifiedRecord)
      → Accepts (check_signature crypto verified root signers (signed, hash) body signer) r
      → (try_verify crypto verified (signed, hash) ≡ some true)
        × (verified_as signed hash body signer ≡ r)
  unfolding check_signature
  check_signature-accepted signed hash body signer r e =
      let (ok, v, f) = bind-some (try_verify crypto verified (signed, hash)) _ e in
      elim (Bool-cases ok) [ inl t ↦ (v ∙ ap some t, ground arith) | inr t ↦ absurd (ground arith) ]

  check_signer-accepted :
      (signed : VaultRecordV1) (hash : HashValue) (body : RecordBodyV1) (r : VerifiedRecord)
      → Accepts (check_signer crypto verified root signers (signed, hash) body) r
      → (signer : UserId) × (contains_key signers.contested_keys signed.signing_public_key ≡ false)
        × (get signers.signer_for_key signed.signing_public_key ≡ some signer)
        × (try_verify crypto verified (signed, hash) ≡ some true)
        × (verified_as signed hash body signer ≡ r)
  unfolding check_signer
  check_signer-accepted signed hash body r =
      elim (Bool-cases (contains_key signers.contested_keys signed.signing_public_key)) [
        | inl c ↦ rw (c, check_signer) (λ e. absurd (ground arith))
        | inr c ↦ elim (Option-cases (get signers.signer_for_key signed.signing_public_key)) [
          | inl n ↦
              rw (c, n, check_signer)
                (λ e.
                  let (_, _, f) = bind-some (key_hash crypto signed.signing_public_key) _ e in
                  absurd (ground arith))
          | inr (signer, s) ↦
              rw (c, s, check_signer)
                (λ e.
                  let (v, q) = check_signature-accepted signed hash body signer r e in
                  (signer, refl, refl, v, q))
        ]
      ]

  check_record-accepted :
      (signed : VaultRecordV1) (hash : HashValue) (r : VerifiedRecord)
      → Memᴰ (signed, hash) records
      → Accepts (check_record crypto verified root signers (signed, hash) (known signed.body)) r
      → IsVerified r
  unfolding check_record
  check_record-accepted signed hash r m = elim (Option-cases (known signed.body)) [
    | inl n ↦ rw n (λ e. absurd (ground arith))
    | inr (body, k) ↦
        elim (Option-cases (structurally_validate_record crypto signed body root.root)) [
          | inr (defect, d) ↦ rw (k, d, check_record) (λ e. absurd (ground arith))
          | inl w ↦
              rw (k, w, check_record)
                (λ e.
                  let (signer, c, s, v, q) = check_signer-accepted signed hash body r e in
                  subst IsVerified q (record {
                    stored = m;
                    body_known = k;
                    well_formed = w;
                    uncontested = c;
                    signed_by = s;
                    keyed = refl;
                    signature = v;
                  }))
        ]
  ]

  take_in-AllVerified :
      (checked : Checked) (outcome : Outcome)
      → ((r : VerifiedRecord) → outcome ≡ accepted r → IsVerified r)
      → AllVerified checked
      → AllVerified (take_in crypto verified root signers checked outcome)
  unfolding take_in
  take_in-AllVerified checked unknown_record h all = all
  take_in-AllVerified checked dropped h all = all
  take_in-AllVerified checked (issue i) h all = all
  take_in-AllVerified checked (accepted x) h all = λ r m.
      elim (Memᴰ-append checked.verified_records x r m) [
        | inl n ↦ all r n
        | inr e ↦ h r (ap accepted (sym e))
      ]

  verify_records-AllVerified :
      (rest : List Hashed) (checked last : Checked)
      → ((h : Hashed) → Memᴰ h rest → Memᴰ h records)
      → AllVerified checked
      → verify_records crypto verified root signers rest checked ≡ some last
      → AllVerified last
  unfolding verify_records
  verify_records-AllVerified [] checked last sub all e = subst AllVerified (some_injective e) all
  verify_records-AllVerified ((signed, hash) ∷ rest) checked last sub all e =
      let (outcome, p, q) =
        bind-some (check_record crypto verified root signers (signed, hash) (known signed.body)) _
          e in
      verify_records-AllVerified rest (take_in crypto verified root signers checked outcome) last
        (λ h m. sub h (Memᴰ.tail m))
        (take_in-AllVerified checked outcome
          (λ r a.
            check_record-accepted signed hash r (sub (signed, hash) (Memᴰ.head refl))
              (p ∙ ap some a))
          all)
        q

  -- If the records are checked without an error, then each that is taken as verified is a record
  -- of the vault of a known kind that is well formed, its key is not contested and resolves to its
  -- signer, its logical key is that of its body and signer, and its signature verifies or was
  -- known to verify.
  pub verify_records-IsVerified :
      (checked : Checked)
      → verify_records crypto verified root signers records nothing_checked ≡ some checked
      → (r : VerifiedRecord) → Memᴰ r checked.verified_records
      → IsVerified r
  verify_records-IsVerified checked e =
      verify_records-AllVerified records nothing_checked checked (λ h m. m) (λ r m. elim m [ ]) e

  -- No verified counter is above the ceiling.
  pub IsVerified-ceiling : (r : VerifiedRecord) → IsVerified r → counter_of r ≤ max_lww_counter
  unfolding structurally_validate_record counter_of
  IsVerified-ceiling r v = below_ceiling (lww_counter r.body) _ v.well_formed

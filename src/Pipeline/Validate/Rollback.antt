-- ===== src/Pipeline/Validate/Rollback.antt =====
-- A key whose counter fell below what the ratchet remembers is in conflict, and the update makes the
-- ratchet remember the greatest counter of both.
use Prim.Native.Nat.{max}
use thorax.Prelude.{
  ℕ, ◌≤◌, ◌<◌, ◌≡◌, refl, sym, ap, ◌∙◌, true, List, [], ◌∷◌, Option, none, some, arith, Bool-cases,
  inl, inr, ltb, ord_discrete, some_injective,
}
use thorax.Prelude.Map.{
  BTreeMap, get, get_or, Sorted, get-retain, retain-Sorted, kept, insert, get-update_self,
  get-update_ne, get-cons_self, get-cons_ne, get_of_Above,
}
use thorax.Format.Key.{RecordKey, key_ord}
use thorax.Format.RatchetRecord.{KeyOrigin}
use thorax.Format.Body.{VaultRecordV1}
use thorax.Ratchet.{Ratchet, apply_update}
use thorax.Ratchet.Monotone.{watermark, apply_update-raises}
use thorax.Lww.{VerifiedRecord}
use thorax.Crypto.{CryptoProvider, vault_record}
use thorax.Effective.Report.{ConflictReport}
use thorax.Query.{attach_verified_records}
use thorax.Pipeline.Root.{SelectedRoot}
use thorax.Pipeline.Watermarks.{mark_at, suspected, raised, report_rollbacks, rollback_report}
use thorax.Pipeline.Watermarks.Remember.{marks-Sorted}
use thorax.Pipeline.Validate.{current_watermarks, rollback_keys, effective_state, ratchet_update}

-- The report at a key, whatever was there.
module _ (serialize : VaultRecordV1 → Option (List ℕ)) (records : List VerifiedRecord)
    (current : BTreeMap RecordKey ℕ) (observed remembered : BTreeMap RecordKey KeyOrigin) where
  abbrev reports :
      BTreeMap RecordKey ℕ → BTreeMap RecordKey ConflictReport → BTreeMap RecordKey ConflictReport
  reports = report_rollbacks serialize records current observed remembered

  abbrev report : RecordKey → ℕ → ConflictReport
  report = rollback_report serialize records current observed remembered

  report_rollbacks-other :
      (keys : BTreeMap RecordKey ℕ) (m : BTreeMap RecordKey ConflictReport) (k : RecordKey)
      → get keys k ≡ none
      → Sorted keys
      → get (reports keys m) k ≡ get m k
  unfolding report_rollbacks
  report_rollbacks-other [] m k h s = refl
  report_rollbacks-other ((j, c) ∷ keys) m k h (a, s) = elim (ord_discrete k j) [
    | yes e ↦ absurd (some_none (sym (ap (get ((j, c) ∷ keys)) e ∙ get-cons_self j c keys) ∙ h))
    | no n ↦
        report_rollbacks-other keys (insert j (report j c) m) k
          (sym (get-cons_ne k j c keys a n) ∙ h) s
        ∙ get-update_ne k j (λ _. report j c) m n
  ]
    where
      some_none : ¬ Path (Option ℕ) (some c) none
      some_none p = cc

  report_rollbacks-at :
      (keys : BTreeMap RecordKey ℕ) (m : BTreeMap RecordKey ConflictReport) (k : RecordKey) (c : ℕ)
      → get keys k ≡ some c
      → Sorted keys
      → get (reports keys m) k ≡ some (report k c)
  unfolding report_rollbacks get
  report_rollbacks-at [] m k c h s = cc
  report_rollbacks-at ((j, d) ∷ keys) m k c h (a, s) = elim (ord_discrete k j) [
    | yes e ↦
        let same : d ≡ c =
          some_injective (sym (ap (get ((j, d) ∷ keys)) e ∙ get-cons_self j d keys) ∙ h) in
        ap (get (reports keys (insert j (report j d) m))) e
        ∙ report_rollbacks-other keys (insert j (report j d) m) j (get_of_Above j keys a) s
        ∙ get-update_self j (λ _. report j d) m
        ∙ ap some (ap (report j) same ∙ ap (λ j. report j c) (sym e))
    | no n ↦
        report_rollbacks-at keys (insert j (report j d) m) k c
          (sym (get-cons_ne k j d keys a n) ∙ h) s
  ]

-- A counter that is not above another does not change their maximum.
max-kept :
    (mark : RecordKey → ℕ) (key : RecordKey) (o : Option ℕ)
    → max (mark key) (get_or (kept (λ k c. ltb (mark k) c) key o) 0) ≡ max (mark key) (get_or o 0)
max-kept mark key none = refl
max-kept mark key (some c) = elim (Bool-cases (ltb (mark key) c)) [
  | inl t ↦ rw t refl
  | inr f ↦ rw f (let le : c ≤ mark key = ground arith in omega arith)
]

module _ (crypto : CryptoProvider) (ratchet : Ratchet) (root : SelectedRoot)
    (records : List VerifiedRecord) where
  abbrev pub current : BTreeMap RecordKey ℕ
  current = (current_watermarks crypto ratchet root records).0

  current-Sorted : Sorted current
  unfolding current_watermarks
  current-Sorted = marks-Sorted records _ _

  -- If the watermarks of the ratchet are in the order of their keys, and the counter remembered at
  -- a key is greater than the watermark that the vault's admitted records give, then the key is in
  -- conflict in the effective state, by a report that names the remembered counter.
  pub effective_state-rollback :
      (key : RecordKey) (remembered : ℕ)
      → Sorted ratchet.watermarks
      → get ratchet.watermarks key ≡ some remembered
      → mark_at current key < remembered
      → get (effective_state crypto ratchet root records).conflicted key
        ≡ some (
            rollback_report
              (λ signed. crypto.serialize (vault_record signed))
              records
              current
              (current_watermarks crypto ratchet root records).1
              ratchet.origins
              key
              remembered)
  unfolding effective_state attach_verified_records rollback_keys suspected
  effective_state-rollback key remembered s at low =
      let above : ltb (mark_at current key) remembered ≡ true = ground arith in
      report_rollbacks-at _ records current _ ratchet.origins _ _ key remembered
        (get-retain _ key ratchet.watermarks s ∙ rw (at, above) refl)
        (retain-Sorted _ ratchet.watermarks s)

  -- When the update of a validation is applied to the ratchet, the counter remembered at a key is
  -- the greater of the one remembered before and the watermark of the vault's admitted records.
  pub apply_update-ratchet_update :
      (key : RecordKey)
      → watermark (apply_update ratchet (ratchet_update crypto ratchet root records)) key
        ≡ max (watermark ratchet key) (mark_at current key)
  unfolding ratchet_update raised
  apply_update-ratchet_update key =
      let (h, _, _) =
        apply_update-raises ratchet (ratchet_update crypto ratchet root records)
          (retain-Sorted _ current current-Sorted) in
      h key
      ∙ ap (λ o. max (watermark ratchet key) (get_or o 0)) (get-retain _ key current current-Sorted)
      ∙ max-kept (mark_at ratchet.watermarks) key (get current key)

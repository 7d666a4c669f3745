-- ===== src/Query/Index.antt =====
-- The index of the winning secret records gives what a scan of all records gives.
use thorax.Prelude.{
  ℕ, suc, ◌+◌, ◌≡◌, refl, sym, ap, ◌∙◌, subst, List, [], ◌∷◌, Option, none, some, ◌>>=◌, arith,
  Bool-cases, Option-cases, inl, inr, bytes_ord, if◌then◌else◌, ◌==◌, eq_of_==, ne_of_==,
}
use thorax.Prelude.Map.{BTreeMap, get, update, get-update_self, get-update_ne}
use thorax.Format.Selector.{bytes_eq}
use thorax.Format.Key.{SecretId}
use thorax.Authority.{Authorities}
use thorax.Lww.{VerifiedRecord}
use thorax.Effective.State.{EffectiveState, SecretSlot}
use thorax.Query.{
  get_elem?, outranks, authorized_secret, rank_slot, index_record, index_from,
  attach_verified_records, latest_authorized_secret_record,
}

-- The scan that the index replaced: the authorised records of the secret, the greater one kept.
module _ (authorities : Authorities) (secret : SecretId) where
  abbrev pub better : VerifiedRecord → Option VerifiedRecord → VerifiedRecord
  better r none = r
  better r (some best) = if outranks r (some best) then r else best

  abbrev pub offered :
      VerifiedRecord → Option SecretId → Option VerifiedRecord → Option VerifiedRecord
  offered r none best = best
  offered r (some s) best = if s == secret then some (better r best) else best

  unfoldable pub scan : List VerifiedRecord → Option VerifiedRecord → Option VerifiedRecord
  scan [] best = best
  scan (r ∷ records) best = scan records (offered r (authorized_secret authorities r) best)

  module _ (records : List VerifiedRecord) where
    -- The slot of the secret holds the best record so far.
    abbrev Agrees : Option SecretSlot → Option VerifiedRecord → Type 0
    Agrees none best = best ≡ none
    Agrees (some slot) best =
        (b : VerifiedRecord) × (get_elem? records slot.winner ≡ some b) × (best ≡ some b)

    -- The rest of the records stands at the position.
    abbrev StandsAt : ℕ → List VerifiedRecord → Type 0
    StandsAt position rest = (i : ℕ) → get_elem? records (position + i) ≡ get_elem? rest i

    rank_slot-Agrees :
        (position : ℕ) (r : VerifiedRecord) (slot : Option SecretSlot)
        (best : Option VerifiedRecord)
        → get_elem? records position ≡ some r
        → Agrees slot best
        → Agrees (some (rank_slot authorities records position r slot)) (some (better r best))
    rank_slot-Agrees position r none best at h = (r, at, ap (λ b. some (better r b)) h)
    rank_slot-Agrees position r (some slot) best at (b, e, q) =
        elim (Bool-cases (outranks r (some b))) [
          | inl t ↦ rw (e, q, t) (r, at, refl)
          | inr f ↦ rw (e, q, f) (b, e, refl)
        ]

    index_record-Agrees :
        (position : ℕ) (r : VerifiedRecord) (index : BTreeMap SecretId SecretSlot)
        (best : Option VerifiedRecord)
        → get_elem? records position ≡ some r
        → Agrees (get index secret) best
        → Agrees
            (get (index_record authorities records position r index) secret)
            (offered r (authorized_secret authorities r) best)
    unfolding index_record
    index_record-Agrees position r index best at h =
        elim (Option-cases (authorized_secret authorities r)) [
          | inl n ↦ rw (n, index_record) h
          | inr (s, e) ↦
              let rank = rank_slot authorities records position r in
              elim (Bool-cases (s == secret)) [
                | inl same ↦
                    let q : get (update s rank index) secret ≡ some (rank (get index secret)) =
                      subst (λ k. get (update k rank index) secret ≡ some (rank (get index secret)))
                        (sym (eq_of_== s secret same)) (get-update_self secret rank index) in
                    rw (e, same, index_record)
                      (subst (λ o. Agrees o (some (better r best))) (sym q)
                        (rank_slot-Agrees position r (get index secret) best at h))
                | inr other ↦
                    let q : get (update s rank index) secret ≡ get index secret =
                      get-update_ne secret s rank index (λ p. ne_of_== s secret other (sym p)) in
                    rw (e, other, index_record) (subst (λ o. Agrees o best) (sym q) h)
              ]
        ]

    index_from-Agrees :
        (position : ℕ) (rest : List VerifiedRecord) (index : BTreeMap SecretId SecretSlot)
        (best : Option VerifiedRecord)
        → StandsAt position rest
        → Agrees (get index secret) best
        → Agrees (get (index_from authorities records position rest index) secret) (scan rest best)
    unfolding index_from scan get_elem?
    index_from-Agrees position [] index best stands h = h
    index_from-Agrees position (r ∷ rest) index best stands h =
        let at : get_elem? records position ≡ some r =
          ap (get_elem? records) (the_sum position) ∙ stands 0 in
        index_from-Agrees (suc position) rest (index_record authorities records position r index)
          (offered r (authorized_secret authorities r) best)
          (λ i. ap (get_elem? records) (next_sum position i) ∙ stands (suc i))
          (index_record-Agrees position r index best at h)
      where
        the_sum : (p : ℕ) → p ≡ p + 0
        the_sum p = omega arith

        next_sum : (p i : ℕ) → suc p + i ≡ p + suc i
        next_sum p i = omega arith

    Agrees-winner :
        (slot : Option SecretSlot) (best : Option VerifiedRecord)
        → Agrees slot best
        → (slot >>= λ s. get_elem? records s.winner) ≡ best
    Agrees-winner none best h = sym h
    Agrees-winner (some slot) best (b, e, q) = e ∙ sym q

zero_sum : (i : ℕ) → 0 + i ≡ i
zero_sum i = omega arith

-- The index of winning secret records gives for every secret the record that a scan of all records
-- gives, which keeps the greater of the authorised ones.
pub latest_authorized_secret_record-scan :
    (self : EffectiveState) (records : List VerifiedRecord) (highest : Option ℕ) (secret : SecretId)
    → latest_authorized_secret_record (attach_verified_records self records highest) secret
      ≡ scan self.authorities secret records none
unfolding latest_authorized_secret_record attach_verified_records get
latest_authorized_secret_record-scan self records highest secret =
    Agrees-winner self.authorities secret records _ _ (
      index_from-Agrees self.authorities secret records 0 records [] none
        (λ i. ap (get_elem? records) (zero_sum i)) refl)

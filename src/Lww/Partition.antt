-- ===== src/Lww/Partition.antt =====
-- The live values of a partition are those of winners.
use thorax.Prelude.{
  ℕ, ◌≡◌, ◌≢◌, refl, sym, ap, ◌∙◌, List, [], ◌∷◌, Option, none, some, Option-cases, inl, inr, Ord,
  ord_discrete,
}
use thorax.Prelude.Map.{
  BTreeMap, get, insert, Sorted, update-Sorted, get-update_self, get-update_ne, get-cons_self,
  get-cons_ne, Above, ne_of_cmp,
}
use thorax.Format.Body.{RecordBodyV1}
use thorax.Format.Key.{RecordKey}
use thorax.Lww.{VerifiedRecord, winner_of, settle_winners, lww_resolution, live_of}

module _ {K : Type 0} ⦃o : Ord K⦄ where
  settle_winners-Sorted :
      (winners : BTreeMap K VerifiedRecord) (slots : BTreeMap K (List VerifiedRecord))
      → Sorted winners
      → Sorted (settle_winners winners slots)
  unfolding settle_winners
  settle_winners-Sorted winners [] s = s
  settle_winners-Sorted winners ((k, candidates) ∷ slots) s =
      elim (Option-cases (winner_of candidates)) [
        | inl e ↦ rw (e, settle_winners) (settle_winners-Sorted winners slots s)
        | inr (w, e) ↦
            rw (e, settle_winners)
              (settle_winners-Sorted (insert k w winners) slots
                (update-Sorted k (λ _. w) winners s))
      ]

  pub winners-Sorted :
      (rs : List VerifiedRecord) (rollback_keys : BTreeMap RecordKey ℕ)
      (classify : VerifiedRecord → Option K)
      → Sorted (lww_resolution rs rollback_keys classify).winners
  unfolding lww_resolution
  winners-Sorted rs rollback_keys classify = settle_winners-Sorted [] _ tt

  -- A value comes from the winner at its key.
  abbrev From :
      {V : Type 0} → BTreeMap K VerifiedRecord → (RecordBodyV1 → Option V) → K → V → Type 0
  From winners value k v = (r : VerifiedRecord) × (get winners k ≡ some r) × (value r.body ≡ some v)

  From-tail :
      {V : Type 0} (j : K) (r : VerifiedRecord) (winners : BTreeMap K VerifiedRecord)
      (value : RecordBodyV1 → Option V) (k : K) (v : V)
      → Above j winners
      → k ≢ j
      → From winners value k v
      → From ((j, r) ∷ winners) value k v
  From-tail j r winners value k v a n (w, e, q) = (w, get-cons_ne k j r winners a n ∙ e, q)

  live_of-absent :
      {V : Type 0} (winners : BTreeMap K VerifiedRecord) (value : RecordBodyV1 → Option V) (k : K)
      → Above k winners
      → get (live_of winners value) k ≡ none
  unfolding live_of get
  live_of-absent [] value k a = refl
  live_of-absent ((j, r) ∷ winners) value k (l, a) = elim (Option-cases (value r.body)) [
    | inl e ↦ rw (e, live_of) (live_of-absent winners value k a)
    | inr (v, e) ↦
        rw (e, live_of)
          (get-update_ne k j (λ _. v) (live_of winners value) (ne_of_cmp k j l)
            ∙ live_of-absent winners value k a)
  ]

  live_of-cons :
      {V : Type 0} (j : K) (r : VerifiedRecord) (winners : BTreeMap K VerifiedRecord)
      (value : RecordBodyV1 → Option V)
      → Above j winners
      → ((k : K) → k ≢ j → get (live_of ((j, r) ∷ winners) value) k ≡ get (live_of winners value) k)
        × (get (live_of ((j, r) ∷ winners) value) j ≡ value r.body)
  unfolding live_of
  live_of-cons j r winners value a = elim (Option-cases (value r.body)) [
    | inl e ↦ rw (e, live_of) (λ k n. refl, live_of-absent winners value j a)
    | inr (v, e) ↦
        rw (e, live_of)
          (
            λ k n. get-update_ne k j (λ _. v) (live_of winners value) n,
            get-update_self j (λ _. v) (live_of winners value),
          )
  ]

  pub live_of-some :
      {V : Type 0} (winners : BTreeMap K VerifiedRecord) (value : RecordBodyV1 → Option V) (k : K)
      (v : V)
      → Sorted winners
      → get (live_of winners value) k ≡ some v
      → From winners value k v
  unfolding live_of get
  live_of-some [] value k v s h = cc
  live_of-some ((j, r) ∷ winners) value k v (a, s) h =
      let (other, here) = live_of-cons j r winners value a in
      elim (ord_discrete k j) [
        | yes e ↦ (
          r,
          ap (get ((j, r) ∷ winners)) e ∙ get-cons_self j r winners,
          sym here ∙ sym (ap (get (live_of ((j, r) ∷ winners) value)) e) ∙ h,
        )
        | no n ↦
            From-tail j r winners value k v a n
              (live_of-some winners value k v s (sym (other k n) ∙ h))
      ]

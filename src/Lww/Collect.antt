-- ===== src/Lww/Collect.antt =====
-- The first loop of `lww_resolution`: the slot of a key keeps what competes there.
use thorax.Prelude.{
  ℕ, ◌≡◌, sym, ap, ◌∙◌, ◌⊎◌, inl, inr, false, List, [], ◌∷◌, Option, some, arith, Ord, Memᴰ,
  Bool-cases, Option-cases, subst, ord_discrete,
}
use thorax.Prelude.Map.{
  BTreeMap, get, get_or, contains_key, get-update_self, get-update_ne, Sorted, update-Sorted,
}
use thorax.Format.Key.{RecordKey, key_ord}
use thorax.Format.Body.{body_eq}
use thorax.Lww.{VerifiedRecord, slot_push, offer, collect}
use thorax.Lww.Slot.{Keeps, OrIs, Keeps-iff, Keeps-slot_push, Keeps-nil}

-- A record competes at a key if its own key is not suspected of a rollback and it is classified
-- there.
pub record Competes {K : Type 0} (rollback_keys : BTreeMap RecordKey ℕ)
    (classify : VerifiedRecord → Option K) (k : K) (x : VerifiedRecord) : Type 0 where
  pub no_rollback : contains_key rollback_keys x.key ≡ false
  pub classified : classify x ≡ some k

abbrev pub slot_at :
    {K : Type 0} ⦃o : Ord K⦄ → BTreeMap K (List VerifiedRecord) → K → List VerifiedRecord
slot_at slots k = get_or (get slots k) []

module _ {K : Type 0} ⦃o : Ord K⦄ (rollback_keys : BTreeMap RecordKey ℕ)
    (classify : VerifiedRecord → Option K) where
  abbrev Offered : (VerifiedRecord → Type 0) → List VerifiedRecord → K → VerifiedRecord → Type 0
  Offered P rs k x = P x ⊎ (Memᴰ x rs × Competes rollback_keys classify k x)

  offer_competing :
      (k : K) (P : VerifiedRecord → Type 0) (slots : BTreeMap K (List VerifiedRecord))
      (r : VerifiedRecord)
      → Competes rollback_keys classify k r
      → Keeps P (slot_at slots k)
      → Keeps (OrIs P r) (slot_at (offer rollback_keys classify slots r) k)
  unfolding offer
  offer_competing k P slots r c h =
      rw
        (
          c.no_rollback,
          c.classified,
          get-update_self k (λ slot. slot_push (get_or slot []) r) slots,
        )
        (Keeps-slot_push h r)

  offer_other :
      (k : K) (slots : BTreeMap K (List VerifiedRecord)) (r : VerifiedRecord)
      → ¬ Competes rollback_keys classify k r
      → get (offer rollback_keys classify slots r) k ≡ get slots k
  unfolding offer
  offer_other k slots r h = elim (Bool-cases (contains_key rollback_keys r.key)) [
    | inl held ↦ rw held
    | inr free ↦ elim (Option-cases (classify r)) [
      | inl e ↦ rw (free, e)
      | inr (j, e) ↦
          rw (free, e)
            (get-update_ne k j (λ slot. slot_push (get_or slot []) r) slots
              (λ same. h (record { no_rollback = free; classified = e ∙ ap some (sym same) })))
    ]
  ]

  competes_dec : (k : K) (x : VerifiedRecord) → Dec (Competes rollback_keys classify k x)
  competes_dec k x = elim (Bool-cases (contains_key rollback_keys x.key)) [
    | inl held ↦ no (λ c. ground (arith, c.no_rollback))
    | inr free ↦ elim (Option-cases (classify x)) [
      | inl e ↦ no (λ c. ground (arith, c.classified))
      | inr (j, e) ↦ elim (ord_discrete j k) [
        | yes p ↦ yes (record { no_rollback = free; classified = e ∙ ap some p })
        | no n ↦ no (λ c. n (ground (arith, c.classified)))
      ]
    ]
  ]

  -- The slot of a key keeps what competes there.
  collect-Keeps :
      (k : K) (P : VerifiedRecord → Type 0) (slots : BTreeMap K (List VerifiedRecord))
      (rs : List VerifiedRecord)
      → Keeps P (slot_at slots k)
      → Keeps (Offered P rs k) (slot_at (collect rollback_keys classify slots rs) k)
  unfolding collect
  collect-Keeps k P slots [] h =
      Keeps-iff (slot_at slots k) (λ x p. inl p)
        (λ x q. elim q [ inl p ↦ p | inr n ↦ elim n.0 [ ] ]) h
  collect-Keeps k P slots (r ∷ rs) h = elim (competes_dec k r) [
    | yes c ↦
        Keeps-iff (slot_at (collect rollback_keys classify slots (r ∷ rs)) k)
          (λ x q. elim q [
            | inl (inl p) ↦ inl p
            | inl (inr e) ↦ inr (Memᴰ.head e, subst (Competes rollback_keys classify k) (sym e) c)
            | inr (m, d) ↦ inr (Memᴰ.tail m, d)
          ])
          (λ x q. elim q [
            | inl p ↦ inl (inl p)
            | inr (Memᴰ.head e, d) ↦ inl (inr e)
            | inr (Memᴰ.tail m, d) ↦ inr (m, d)
          ])
          (collect-Keeps k (OrIs P r) (offer rollback_keys classify slots r) rs
            (offer_competing k P slots r c h))
    | no n ↦
        Keeps-iff (slot_at (collect rollback_keys classify slots (r ∷ rs)) k)
          (λ x q. elim q [ inl p ↦ inl p | inr (m, d) ↦ inr (Memᴰ.tail m, d) ])
          (λ x q. elim q [
            | inl p ↦ inl p
            | inr (Memᴰ.head e, d) ↦ absurd (n (subst (Competes rollback_keys classify k) e d))
            | inr (Memᴰ.tail m, d) ↦ inr (m, d)
          ])
          (collect-Keeps k P (offer rollback_keys classify slots r) rs (
            subst (λ (s : Option (List VerifiedRecord)). Keeps P (get_or s []))
              (sym (offer_other k slots r n)) h))
  ]

  offer-Sorted :
      (slots : BTreeMap K (List VerifiedRecord)) (r : VerifiedRecord)
      → Sorted slots
      → Sorted (offer rollback_keys classify slots r)
  unfolding offer
  offer-Sorted slots r s = elim (Bool-cases (contains_key rollback_keys r.key)) [
    | inl held ↦ rw held s
    | inr free ↦ elim (Option-cases (classify r)) [
      | inl e ↦ rw (free, e) s
      | inr (j, e) ↦ rw (free, e) (update-Sorted j (λ slot. slot_push (get_or slot []) r) slots s)
    ]
  ]

  collect-Sorted :
      (slots : BTreeMap K (List VerifiedRecord)) (rs : List VerifiedRecord)
      → Sorted slots
      → Sorted (collect rollback_keys classify slots rs)
  unfolding collect
  collect-Sorted slots [] s = s
  collect-Sorted slots (r ∷ rs) s =
      collect-Sorted (offer rollback_keys classify slots r) rs (offer-Sorted slots r s)

  pub slots-Sorted : (rs : List VerifiedRecord) → Sorted (collect rollback_keys classify [] rs)
  slots-Sorted rs = collect-Sorted [] rs tt

  -- After the loop, a slot keeps exactly what of the records competes at its key.
  pub collected :
      (k : K) (rs : List VerifiedRecord)
      → Keeps
          (λ x. Memᴰ x rs × Competes rollback_keys classify k x)
          (slot_at (collect rollback_keys classify [] rs) k)
  collected k rs =
      Keeps-iff (slot_at (collect rollback_keys classify [] rs) k)
        (λ x q. elim q [ inl p ↦ absurd p | inr m ↦ m ]) (λ x m. inr m)
        (collect-Keeps k (λ _. ⊥) [] rs (unfold get in Keeps-nil))

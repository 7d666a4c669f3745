-- ===== src/Lww/Converge.antt =====
-- No silent choice and no dependence on order: a key that records compete at has a winner or is in
-- conflict, and lists of the same records settle it alike.
use thorax.Prelude.{
  ℕ, ◌≤◌, ◌≡◌, ◌≢◌, sym, ap, ◌∙◌, ◌↔◌, ◌⊎◌, inl, inr, true, List, [], ◌∷◌, Option, none, some,
  arith, Ord, Memᴰ, Option-cases, subst,
}
use thorax.Prelude.Map.{
  BTreeMap, get, get_or, insert, contains_key, is_some, get-update_self, get-update_ne, Memᴰ_of_get,
}
use thorax.Prelude.{ord_discrete}
use thorax.Format.Key.{RecordKey, key_ord}
use thorax.Lww.{
  VerifiedRecord, counter_of, ConflictSlot, winner_of, conflict_of, collect, settle_conflicts,
  lww_resolution,
}
use thorax.Lww.Slot.{Keeps-le}
use thorax.Lww.Collect.{Competes, slot_at, collected}
use thorax.Lww.Winner.{winner_of-none, get-winners, winner_highest}

contains-insert :
    (k j : RecordKey) (v : ConflictSlot) (m : BTreeMap RecordKey ConflictSlot)
    → contains_key m k ≡ true
    → contains_key (insert j v m) k ≡ true
contains-insert k j v m h = elim (ord_discrete k j) [
  | yes e ↦
      subst (λ x. contains_key (insert j v m) x ≡ true) (sym e)
        (ap is_some (get-update_self j (λ _. v) m))
  | no n ↦ ap is_some (get-update_ne k j (λ _. v) m n) ∙ h
]

abbrev next_conflicts :
    BTreeMap RecordKey ConflictSlot
    → Option (RecordKey × ConflictSlot)
    → BTreeMap RecordKey ConflictSlot
next_conflicts conflicted none = conflicted
next_conflicts conflicted (some (at, slot)) = insert at slot conflicted

module _ {K : Type 0} ⦃o : Ord K⦄ where
  settle_conflicts-keeps :
      (conflicted : BTreeMap RecordKey ConflictSlot) (slots : BTreeMap K (List VerifiedRecord))
      (k : RecordKey)
      → contains_key conflicted k ≡ true
      → contains_key (settle_conflicts conflicted slots) k ≡ true
  unfolding settle_conflicts
  settle_conflicts-keeps conflicted [] k h = h
  settle_conflicts-keeps conflicted ((j, c) ∷ slots) k h = elim (Option-cases (conflict_of c)) [
    | inl e ↦ rw (e, settle_conflicts) (settle_conflicts-keeps conflicted slots k h)
    | inr ((at, slot), e) ↦
        rw (e, settle_conflicts)
          (settle_conflicts-keeps (insert at slot conflicted) slots k
            (contains-insert k at slot conflicted h))
  ]

  settle_conflicts-has :
      (conflicted : BTreeMap RecordKey ConflictSlot) (j : K) (c : List VerifiedRecord)
      (slots : BTreeMap K (List VerifiedRecord)) (k : RecordKey) (v : ConflictSlot)
      → Memᴰ (j, c) slots
      → conflict_of c ≡ some (k, v)
      → contains_key (settle_conflicts conflicted slots) k ≡ true
  unfolding settle_conflicts
  settle_conflicts-has conflicted j c [] k v m h = elim m [ ]
  settle_conflicts-has conflicted j c ((i, d) ∷ slots) k v (Memᴰ.head p) h =
      rw (sym (ap (λ (e : K × List VerifiedRecord). conflict_of e.1) p) ∙ h, settle_conflicts)
        (settle_conflicts-keeps (insert k v conflicted) slots k
          (ap is_some (get-update_self k (λ _. v) conflicted)))
  settle_conflicts-has conflicted j c ((i, d) ∷ slots) k v (Memᴰ.tail m) h =
      elim (Option-cases (conflict_of d)) [
        | inl e ↦ rw (e, settle_conflicts) (settle_conflicts-has conflicted j c slots k v m h)
        | inr ((at, slot), e) ↦
            rw (e, settle_conflicts)
              (settle_conflicts-has (insert at slot conflicted) j c slots k v m h)
      ]

module _ {K : Type 0} ⦃o : Ord K⦄ (rollback_keys : BTreeMap RecordKey ℕ)
    (classify : VerifiedRecord → Option K) where
  abbrev pub IsHighest : K → List VerifiedRecord → VerifiedRecord → Type 0
  IsHighest k rs y =
      Memᴰ y rs
      × Competes rollback_keys classify k y
      × ((x : VerifiedRecord)
          → Memᴰ x rs
          → Competes rollback_keys classify k x
          → counter_of x ≤ counter_of y)

  IsHighest-of_slot :
      (k : K) (rs : List VerifiedRecord) (y : VerifiedRecord)
      → Memᴰ y (slot_at (collect rollback_keys classify [] rs) k)
      → IsHighest k rs y
  IsHighest-of_slot k rs y m =
      let kept = collected rollback_keys classify k rs in
      let (my, cy) = kept.sound y m in (my, cy, λ x mx cx. Keeps-le kept y x m (mx, cx))

  -- A key that some record competes at has a winner, or two records of the greatest counter there
  -- have different bodies, and the key of one of them is reported as in conflict.
  pub winner_or_conflict :
      (k : K) (rs : List VerifiedRecord) (x : VerifiedRecord)
      → Memᴰ x rs
      → Competes rollback_keys classify k x
      → ((w : VerifiedRecord) × (get (lww_resolution rs rollback_keys classify).winners k ≡ some w))
        ⊎ ((y z : VerifiedRecord) × IsHighest k rs y
            × IsHighest k rs z
            × (y.body ≢ z.body)
            × (contains_key (lww_resolution rs rollback_keys classify).conflicted z.key ≡ true))
  unfolding lww_resolution
  winner_or_conflict k rs x m c = elim (Option-cases (winner_of (slot_at slots k))) [
    | inr (w, e) ↦ inl (w, get-winners rollback_keys classify k rs ∙ e)
    | inl e ↦
        let (t, mt) = in_slot in
        let (y, z, my, mz, ne, (at, found)) = winner_of-none (slot_at slots k) e mt in
        inr (
          y,
          z,
          IsHighest-of_slot k rs y my,
          IsHighest-of_slot k rs z mz,
          ne,
          elim (Option-cases (get slots k)) [
            | inl n ↦ absurd (empty_slot y n my)
            | inr (c, g) ↦ settle_conflicts-has [] k c slots z.key at (Memᴰ_of_get k slots g) (
                subst
                  (λ (s : Option (List VerifiedRecord)).
                    conflict_of (get_or s []) ≡ some (z.key, at))
                  g found)
          ],
        )
  ]
    where
      slots : BTreeMap K (List VerifiedRecord)
      slots = collect rollback_keys classify [] rs

      in_slot : (t : VerifiedRecord) × Memᴰ t (slot_at slots k)
      in_slot = elim ((collected rollback_keys classify k rs).full x (m, c)) [
        | inl (t, n, l) ↦ (t, n)
        | inr n ↦ (x, n)
      ]

      empty_slot : (y : VerifiedRecord) → get slots k ≡ none → ¬ Memᴰ y (slot_at slots k)
      empty_slot y n my =
          elim (subst (λ (s : Option (List VerifiedRecord)). Memᴰ y (get_or s [])) n my) [ ]

  -- If one list of records has a winner at a key, then any list of the same records, in any order
  -- and with any repetition, has one there too, and the two have the same body.
  pub winner_converges :
      (k : K) (rs ss : List VerifiedRecord) (w : VerifiedRecord)
      → ((x : VerifiedRecord) → Memᴰ x rs ↔ Memᴰ x ss)
      → get (lww_resolution rs rollback_keys classify).winners k ≡ some w
      → (v : VerifiedRecord) × (get (lww_resolution ss rollback_keys classify).winners k ≡ some v)
        × (v.body ≡ w.body)
  winner_converges k rs ss w same h =
      let (mw, cw, top) = winner_highest rollback_keys classify k rs w h in
      elim (winner_or_conflict k ss w ((same w).0 mw) cw) [
        | inl (v, e) ↦
            let (mv, cv, topv) = winner_highest rollback_keys classify k ss v e in
            let (le, body) = top v ((same v).1 mv) cv in
            (v, e, body (omega (arith, (topv w ((same w).0 mw) cw).0)))
        | inr (y, z, hy, hz, ne, _) ↦ absurd (ne (level y hy ∙ sym (level z hz)))
      ]
    where
      level : (y : VerifiedRecord) → IsHighest k ss y → y.body ≡ w.body
      level y (my, cy, hy) =
          let (mw, cw, top) = winner_highest rollback_keys classify k rs w h in
          let (le, body) = top y ((same y).1 my) cy in body (omega (arith, hy w ((same w).0 mw) cw))

-- ===== src/Lww/Winner.antt =====
-- What `lww_resolution` decides at a key, against the records that compete there.
use Prim.Native.Nat.Ordering.{lt, gt}
use thorax.Prelude.{
  ℕ, ◌≤◌, ◌≡◌, ◌≢◌, refl, sym, ap, ap₂, ◌∙◌, inl, inr, false, not, List, [], ◌∷◌, Option, none,
  some, arith, Ord, Memᴰ, Bool-cases, Option-cases, Ordering-cases, subst, any-elim, any-intro,
  ◌==◌, eq_of_==, ==_refl, lex,
}
use thorax.Prelude.Map.{
  BTreeMap, get, get_or, insert, get-update_self, get-update_ne, get-cons_lt, get-cons_eq,
  get-cons_gt, Above, Above-trans, Sorted, get_of_Above,
}
use thorax.Format.Key.{RecordKey, key_ord}
use thorax.Format.Body.{body_eq}
use thorax.Lww.{
  VerifiedRecord, counter_of, ConflictSlot, min_by_hash, diverging, winner_of, conflict_slot,
  conflict_of, collect, settle_winners, lww_resolution,
}
use thorax.Lww.Slot.{Keeps-le}
use thorax.Lww.Collect.{Competes, slot_at, slots-Sorted, collected}

min_by_hash-Memᴰ :
    (best : VerifiedRecord) (rest : List VerifiedRecord)
    → Memᴰ (min_by_hash best rest) (best ∷ rest)
unfolding min_by_hash
min_by_hash-Memᴰ best [] = Memᴰ.head refl
min_by_hash-Memᴰ best (r ∷ rest) = elim (Ordering-cases (lex r.record_hash best.record_hash)) [
  | inl (inl l) ↦ rw l (Memᴰ.tail (min_by_hash-Memᴰ r rest))
  | inl (inr e) ↦ rw e (skip (min_by_hash-Memᴰ best rest))
  | inr g ↦ rw g (skip (min_by_hash-Memᴰ best rest))
]
  where
    skip : {x : VerifiedRecord} → Memᴰ x (best ∷ rest) → Memᴰ x (best ∷ r ∷ rest)
    skip (Memᴰ.head e) = Memᴰ.head e
    skip (Memᴰ.tail m) = Memᴰ.tail (Memᴰ.tail m)

-- Candidates that do not diverge have one body.
one_body :
    (leader : VerifiedRecord) (rest : List VerifiedRecord)
    → diverging leader rest ≡ false
    → (x : VerifiedRecord) → Memᴰ x (leader ∷ rest)
    → x.body ≡ leader.body
unfolding diverging
one_body leader rest h x m = elim (Bool-cases (x.body == leader.body)) [
  | inl e ↦ eq_of_== x.body leader.body e
  | inr n ↦ absurd (
      ground
        (arith, any-intro (λ (r : VerifiedRecord). not (r.body == leader.body)) m (ground arith)))
]

winner_of-some :
    (slot : List VerifiedRecord) (w : VerifiedRecord)
    → winner_of slot ≡ some w
    → Memᴰ w slot × ((x : VerifiedRecord) → Memᴰ x slot → x.body ≡ w.body)
unfolding winner_of
winner_of-some [] w h = absurd (ground arith)
winner_of-some (leader ∷ rest) w h = elim (Bool-cases (diverging leader rest)) [
  | inl d ↦ absurd (ground arith)
  | inr d ↦
      let e : min_by_hash leader rest ≡ w = ground arith in
      let m : Memᴰ w (leader ∷ rest) =
        subst (λ z. Memᴰ z (leader ∷ rest)) e (min_by_hash-Memᴰ leader rest) in
      (m, λ x mx. one_body leader rest d x mx ∙ sym (one_body leader rest d w m))
]

-- A slot with no winner is empty or holds two bodies.
pub winner_of-none :
    (slot : List VerifiedRecord) {x : VerifiedRecord}
    → winner_of slot ≡ none
    → Memᴰ x slot
    → (y z : VerifiedRecord) × Memᴰ y slot
      × Memᴰ z slot
      × (y.body ≢ z.body)
      × ((at : ConflictSlot) × (conflict_of slot ≡ some (z.key, at)))
unfolding winner_of conflict_of
winner_of-none [] h m = elim m [ ]
winner_of-none (leader ∷ rest) h m = elim (Bool-cases (diverging leader rest)) [
  | inl d ↦
      let (y, my, p) =
        any-elim (λ (r : VerifiedRecord). not (r.body == leader.body)) (leader ∷ rest)
          (unfold diverging in d) in
      (
        y,
        leader,
        my,
        Memᴰ.head refl,
        λ e. ground (arith, p, ==_refl leader.body, ap (λ b. b == leader.body) e),
        (conflict_slot leader rest, rw d),
      )
  | inr d ↦ absurd (ground arith)
]

abbrev pick : Option (List VerifiedRecord) → Option VerifiedRecord → Option VerifiedRecord
pick none other = other
pick (some slot) other = elim (winner_of slot) [ none ↦ other | some w ↦ some w ]

pick-slot : (slot : Option (List VerifiedRecord)) → pick slot none ≡ winner_of (get_or slot [])
pick-slot none = unfold winner_of in refl
pick-slot (some slot) = elim (Option-cases (winner_of slot)) [
  | inl e ↦ rw (e, pick)
  | inr (w, e) ↦ rw (e, pick)
]

module _ {K : Type 0} ⦃o : Ord K⦄ where
  abbrev next_winners :
      BTreeMap K VerifiedRecord → K → List VerifiedRecord → BTreeMap K VerifiedRecord
  next_winners winners j c = elim (winner_of c) [ none ↦ winners | some w ↦ insert j w winners ]

  get-next_self :
      (winners : BTreeMap K VerifiedRecord) (k : K) (c : List VerifiedRecord)
      → get (next_winners winners k c) k ≡ pick (some c) (get winners k)
  get-next_self winners k c = elim (Option-cases (winner_of c)) [
    | inl e ↦ rw (e, next_winners, pick)
    | inr (w, e) ↦ rw (e, next_winners, pick) (get-update_self k (λ _. w) winners)
  ]

  get-next_ne :
      (winners : BTreeMap K VerifiedRecord) (k j : K) (c : List VerifiedRecord)
      → k ≢ j
      → get (next_winners winners j c) k ≡ get winners k
  get-next_ne winners k j c h = elim (Option-cases (winner_of c)) [
    | inl e ↦ rw (e, next_winners)
    | inr (w, e) ↦ rw (e, next_winners) (get-update_ne k j (λ _. w) winners h)
  ]

  ne_of_lt : (k j : K) → o.cmp k j ≡ lt → k ≢ j
  ne_of_lt k j l e = ground (arith, o.cmp_self k, ap (λ x. o.cmp k x) e)

  ne_of_gt : (k j : K) → o.cmp k j ≡ gt → k ≢ j
  ne_of_gt k j g e = ground (arith, o.cmp_self k, ap (λ x. o.cmp k x) e)

  get-settle_winners :
      (k : K) (winners : BTreeMap K VerifiedRecord) (slots : BTreeMap K (List VerifiedRecord))
      → Sorted slots
      → get (settle_winners winners slots) k ≡ pick (get slots k) (get winners k)
  unfolding settle_winners get
  get-settle_winners k winners [] s = refl
  get-settle_winners k winners ((j, c) ∷ slots) s =
      get-settle_winners k (next_winners winners j c) slots s.1
      ∙ elim (Ordering-cases (o.cmp k j)) [
        | inl (inl l) ↦
            ap₂ pick (get_of_Above k slots (Above-trans k j slots l s.0))
              (get-next_ne winners k j c (ne_of_lt k j l))
            ∙ ap (λ x. pick x (get winners k)) (sym (get-cons_lt k j c slots l))
        | inl (inr e) ↦
            let p : k ≡ j = o.eq_of_cmp k j e in
            ap (λ x. pick x (get (next_winners winners j c) k))
              (get_of_Above k slots (subst (λ x. Above x slots) (sym p) s.0))
            ∙ subst (λ x. get (next_winners winners x c) k ≡ pick (some c) (get winners k)) p
                (get-next_self winners k c)
            ∙ ap (λ x. pick x (get winners k)) (sym (get-cons_eq k j c slots e))
        | inr g ↦
            ap₂ pick (sym (get-cons_gt k j c slots g)) (get-next_ne winners k j c (ne_of_gt k j g))
      ]

module _ {K : Type 0} ⦃o : Ord K⦄ (rollback_keys : BTreeMap RecordKey ℕ)
    (classify : VerifiedRecord → Option K) where
  -- The winner at a key is the winner of the key's slot.
  pub get-winners :
      (k : K) (rs : List VerifiedRecord)
      → get (lww_resolution rs rollback_keys classify).winners k
        ≡ winner_of (slot_at (collect rollback_keys classify [] rs) k)
  unfolding lww_resolution get
  get-winners k rs =
      get-settle_winners k [] (collect rollback_keys classify [] rs)
        (slots-Sorted rollback_keys classify rs)
      ∙ pick-slot (get (collect rollback_keys classify [] rs) k)

  -- The winner at a key is one of the records that compete there, none of these has a greater
  -- counter, and those with the same counter have the winner's body.
  pub winner_highest :
      (k : K) (rs : List VerifiedRecord) (w : VerifiedRecord)
      → get (lww_resolution rs rollback_keys classify).winners k ≡ some w
      → Memᴰ w rs
        × Competes rollback_keys classify k w
        × ((y : VerifiedRecord)
            → Memᴰ y rs
            → Competes rollback_keys classify k y
            → (counter_of y ≤ counter_of w) × (counter_of y ≡ counter_of w → y.body ≡ w.body))
  winner_highest k rs w h =
      let kept = collected rollback_keys classify k rs in
      let slot = slot_at (collect rollback_keys classify [] rs) k in
      let (m, same) = winner_of-some slot w (sym (get-winners k rs) ∙ h) in
      let (mw, cw) = kept.sound w m in
      (
        mw,
        cw,
        λ y my cy. (
          Keeps-le kept w y m (my, cy),
          λ e. elim (kept.full y (my, cy)) [
            | inl (x, n, l) ↦ absurd (omega (arith, Keeps-le kept w x m (kept.sound x n)))
            | inr n ↦ same y n
          ],
        ),
      )

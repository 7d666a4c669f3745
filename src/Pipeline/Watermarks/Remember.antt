-- ===== src/Pipeline/Watermarks/Remember.antt =====
-- The watermark of a key is the greatest counter of the admitted records at it, and the ratchet
-- remembers the greatest that it ever saw.
use Prim.Native.Nat.{max}
use thorax.Prelude.{
  ℕ, ◌≤◌, ◌<◌, ◌≡◌, refl, sym, ap, ◌∙◌, subst, Bool, true, List, [], ◌∷◌, some, arith, Bool-cases,
  Option-cases, inl, inr, ◌⊎◌, Memᴰ, ltb, ord_discrete,
}
use thorax.Prelude.Map.{BTreeMap, BTreeSet, get, Sorted}
use thorax.Format.Key.{RecordKey, HashValue, key_ord}
use thorax.Format.Body.{lww_counter}
use thorax.Ratchet.{raise}
use thorax.Ratchet.Monotone.{level, level-raise_self, level-raise_ne, raise-Sorted}
use thorax.Lww.{VerifiedRecord}
use thorax.Effective.State.{EffectiveState}
use thorax.Pipeline.Watermarks.{watermarks_from, is_admitted, admitted_watermarks, mark_at}

max_cases : (a b : ℕ) → (max a b ≡ a) ⊎ (max a b ≡ b)
max_cases a b = elim (Bool-cases (ltb a b)) [
  | inl l ↦ inr (let l' : a < b = ground arith in omega arith)
  | inr g ↦ inl (let g' : b ≤ a = ground arith in omega arith)
]

module _ (admitted : VerifiedRecord → Bool) where
  -- The counter that an admitted record claims at its key.
  abbrev pub CountedAt : List VerifiedRecord → RecordKey → ℕ → Type 0
  CountedAt records key counter =
      (r : VerifiedRecord) × Memᴰ r records
      × (admitted r ≡ true)
      × (r.key ≡ key)
      × (lww_counter r.body ≡ some counter)

  -- One step of the loop.
  abbrev step : VerifiedRecord → BTreeMap RecordKey ℕ → BTreeMap RecordKey ℕ
  step r watermarks = watermarks_from admitted (r ∷ []) watermarks

  step-level :
      (r : VerifiedRecord) (watermarks : BTreeMap RecordKey ℕ) (key : RecordKey)
      → (level (step r watermarks) key ≡ level watermarks key)
        ⊎ ((c : ℕ) × (admitted r ≡ true)
            × (r.key ≡ key)
            × (lww_counter r.body ≡ some c)
            × (level (step r watermarks) key ≡ max (level watermarks key) c))
  unfolding watermarks_from
  step-level r watermarks key = elim (Bool-cases (admitted r)) [
    | inr no_ ↦ rw no_ (inl refl)
    | inl ok ↦ elim (Option-cases (lww_counter r.body)) [
      | inl n ↦ rw (ok, n) (inl refl)
      | inr (c, e) ↦ elim (ord_discrete key r.key) [
        | yes k ↦
            rw (ok, e)
              (inr (
                c,
                refl,
                sym k,
                refl,
                subst (λ j. level (raise r.key c watermarks) j ≡ max (level watermarks j) c) (sym k)
                    (level-raise_self r.key c watermarks),
              ))
        | no n ↦ rw (ok, e) (inl (level-raise_ne key r.key c watermarks n))
      ]
    ]
  ]

  step-Sorted :
      (r : VerifiedRecord) (watermarks : BTreeMap RecordKey ℕ)
      → Sorted watermarks
      → Sorted (step r watermarks)
  unfolding watermarks_from
  step-Sorted r watermarks s = elim (Bool-cases (admitted r)) [
    | inr no_ ↦ rw no_ s
    | inl ok ↦ elim (Option-cases (lww_counter r.body)) [
      | inl n ↦ rw (ok, n) s
      | inr (c, e) ↦ rw (ok, e) (raise-Sorted r.key c watermarks s)
    ]
  ]

  watermarks_from-Sorted :
      (records : List VerifiedRecord) (watermarks : BTreeMap RecordKey ℕ)
      → Sorted watermarks
      → Sorted (watermarks_from admitted records watermarks)
  unfolding watermarks_from
  watermarks_from-Sorted [] watermarks s = s
  watermarks_from-Sorted (r ∷ records) watermarks s =
      watermarks_from-Sorted records (step r watermarks) (step-Sorted r watermarks s)

  step-le :
      (r : VerifiedRecord) (watermarks : BTreeMap RecordKey ℕ) (key : RecordKey)
      → level watermarks key ≤ level (step r watermarks) key
  step-le r watermarks key = elim (step-level r watermarks key) [
    | inl e ↦ omega arith
    | inr (c, _, _, _, e) ↦ omega arith
  ]

  watermarks_from-le :
      (records : List VerifiedRecord) (watermarks : BTreeMap RecordKey ℕ) (key : RecordKey)
      → level watermarks key ≤ level (watermarks_from admitted records watermarks) key
  unfolding watermarks_from
  watermarks_from-le [] watermarks key = omega arith
  watermarks_from-le (r ∷ records) watermarks key =
      omega (arith, step-le r watermarks key, watermarks_from-le records (step r watermarks) key)

  step-counts :
      (r : VerifiedRecord) (watermarks : BTreeMap RecordKey ℕ) (c : ℕ)
      → admitted r ≡ true
      → lww_counter r.body ≡ some c
      → c ≤ level (step r watermarks) r.key
  unfolding watermarks_from
  step-counts r watermarks c a e = rw (a, e) (omega (arith, level-raise_self r.key c watermarks))

  -- Every counted record is at most the watermark of its key.
  watermarks_from-bounds :
      (records : List VerifiedRecord) (watermarks : BTreeMap RecordKey ℕ) (r : VerifiedRecord)
      (c : ℕ)
      → Memᴰ r records
      → admitted r ≡ true
      → lww_counter r.body ≡ some c
      → c ≤ level (watermarks_from admitted records watermarks) r.key
  unfolding watermarks_from
  watermarks_from-bounds [] watermarks r c m a e = elim m [ ]
  watermarks_from-bounds (x ∷ records) watermarks r c (Memᴰ.head q) a e =
      let here : c ≤ level (step x watermarks) r.key =
        subst (λ x. c ≤ level (step x watermarks) r.key) q (step-counts r watermarks c a e) in
      omega (arith, here, watermarks_from-le records (step x watermarks) r.key)
  watermarks_from-bounds (x ∷ records) watermarks r c (Memᴰ.tail m) a e =
      watermarks_from-bounds records (step x watermarks) r c m a e

  -- A watermark is that of before or the counter of a counted record.
  watermarks_from-CountedAt :
      (records : List VerifiedRecord) (watermarks : BTreeMap RecordKey ℕ) (key : RecordKey)
      → (level (watermarks_from admitted records watermarks) key ≡ level watermarks key)
        ⊎ CountedAt records key (level (watermarks_from admitted records watermarks) key)
  unfolding watermarks_from
  watermarks_from-CountedAt [] watermarks key = inl refl
  watermarks_from-CountedAt (x ∷ records) watermarks key =
      elim (watermarks_from-CountedAt records (step x watermarks) key) [
        | inr (r, m, a, k, e) ↦ inr (r, Memᴰ.tail m, a, k, e)
        | inl same ↦ elim (step-level x watermarks key) [
          | inl e ↦ inl (same ∙ e)
          | inr (c, a, k, e, q) ↦ elim (max_cases (level watermarks key) c) [
            | inl old ↦ inl (same ∙ q ∙ old)
            | inr new ↦ inr (x, Memᴰ.head refl, a, k, e ∙ ap some (sym (same ∙ q ∙ new)))
          ]
        ]
      ]

module _ (records : List VerifiedRecord) (effective : EffectiveState)
    (deletions : BTreeSet HashValue) where
  abbrev pub counts : VerifiedRecord → Bool
  counts = is_admitted records effective deletions

  abbrev pub marks : BTreeMap RecordKey ℕ
  marks = (admitted_watermarks records effective deletions).0

  pub marks-Sorted : Sorted marks
  unfolding admitted_watermarks
  marks-Sorted = watermarks_from-Sorted counts records [] tt

  -- The watermark of a key is at least the counter of every admitted record at that key, and where
  -- it is not 0 it is the counter of one of them.
  pub admitted_watermarks-greatest :
      ((r : VerifiedRecord) (c : ℕ)
        → Memᴰ r records
        → counts r ≡ true
        → lww_counter r.body ≡ some c
        → c ≤ mark_at marks r.key)
      × ((key : RecordKey)
          → (mark_at marks key ≡ 0) ⊎ CountedAt counts records key (mark_at marks key))
  unfolding admitted_watermarks get
  admitted_watermarks-greatest =
      (watermarks_from-bounds counts records [], watermarks_from-CountedAt counts records [])

-- ===== src/Pipeline/Validate/Lamport.antt =====
-- The next counter is above every admitted counter, since no verified counter is above the ceiling.
use Prim.Native.Nat.{max}
use thorax.Prelude.{
  ℕ, ◌+◌, ◌≤◌, ◌<◌, ◌≡◌, refl, sym, ap, ◌∙◌, subst, Bool, true, List, [], ◌∷◌, Option, none, some,
  arith, Bool-cases, Option-cases, inl, inr, Memᴰ,
}
use thorax.Prelude.Map.{
  BTreeMap, BTreeSet, get, get_or, values, All, update-All, Memᴰ_of_get, contains_key,
  contains_key-update_self, contains_key-update_keeps,
}
use thorax.Format.Key.{RecordKey, HashValue, key_ord}
use thorax.Format.Body.{lww_counter}
use thorax.Ratchet.{Ratchet, raise}
use thorax.Lww.{VerifiedRecord, counter_of}
use thorax.Crypto.{CryptoProvider}
use thorax.Structure.Record.{max_lww_counter}
use thorax.Query.{attach_verified_records}
use thorax.Query.Secrets.{next_counter}
use thorax.Pipeline.Root.{Hashed, SelectedRoot}
use thorax.Pipeline.Signers.{Signers}
use thorax.Pipeline.Records.{Checked, verify_records, nothing_checked}
use thorax.Pipeline.Records.Sound.{verify_records-IsVerified, IsVerified-ceiling}
use thorax.Pipeline.Deletions.{resolve_effective_with_deletions}
use thorax.Pipeline.Watermarks.{watermarks_from, raise_by, admitted_watermarks, mark_at, highest}
use thorax.Pipeline.Watermarks.Remember.{admitted_watermarks-greatest, counts}
use thorax.Pipeline.Validate.{current_watermarks, effective_state, report_of}

-- `values().max()` against the entries of the map.
highest-le :
    (m : BTreeMap RecordKey ℕ) (k : RecordKey) (c : ℕ)
    → Memᴰ (k, c) m
    → (h : ℕ) × (highest (values m) ≡ some h) × (c ≤ h)
unfolding highest
highest-le [] k c m = elim m [ ]
highest-le ((j, d) ∷ rest) k c (Memᴰ.head e) =
    let q : c ≡ d = ap (λ (e : RecordKey × ℕ). e.1) e in
    (max d (get_or (highest (values rest)) 0), refl, omega arith)
highest-le ((j, d) ∷ rest) k c (Memᴰ.tail m) =
    let (h, e, le) = highest-le rest k c m in
    (max d h, ap (λ o. some (max d (get_or o 0))) e, omega arith)

highest-bounded :
    (bound : ℕ) (m : BTreeMap RecordKey ℕ)
    → All (λ (e : RecordKey × ℕ). e.1 ≤ bound) m
    → get_or (highest (values m)) 0 ≤ bound
unfolding highest
highest-bounded bound [] all = omega arith
highest-bounded bound ((j, d) ∷ rest) all =
    omega
      (arith, all (j, d) (Memᴰ.head refl), highest-bounded bound rest (λ e m. all e (Memᴰ.tail m)))

module _ (admitted : VerifiedRecord → Bool) (bound : ℕ) where
  abbrev Bounded : BTreeMap RecordKey ℕ → Type 0
  Bounded m = All (λ (e : RecordKey × ℕ). e.1 ≤ bound) m

  raise_by-Bounded :
      (k : RecordKey) (o : Option ℕ) (m : BTreeMap RecordKey ℕ)
      → get_or o 0 ≤ bound
      → Bounded m
      → Bounded (raise_by admitted k o m)
  unfolding raise
  raise_by-Bounded k none m le all = all
  raise_by-Bounded k (some c) m le all =
      update-All (λ (e : RecordKey × ℕ). e.1 ≤ bound) k _ m (omega arith) (λ v h. omega arith) all

  watermarks_from-Bounded :
      (records : List VerifiedRecord) (m : BTreeMap RecordKey ℕ)
      → ((r : VerifiedRecord) → Memᴰ r records → counter_of r ≤ bound)
      → Bounded m
      → Bounded (watermarks_from admitted records m)
  unfolding watermarks_from counter_of
  watermarks_from-Bounded [] m below all = all
  watermarks_from-Bounded (r ∷ records) m below all =
      let rest : (x : VerifiedRecord) → Memᴰ x records → counter_of x ≤ bound =
        λ x n. below x (Memᴰ.tail n) in
      elim (Bool-cases (admitted r)) [
        | inl ok ↦ rw ok (
            watermarks_from-Bounded records _ rest
              (raise_by-Bounded r.key (lww_counter r.body) m (below r (Memᴰ.head refl)) all))
        | inr no_ ↦ rw no_ (watermarks_from-Bounded records m rest all)
      ]

-- The key of a counted record is in the map.
module _ (admitted : VerifiedRecord → Bool) where
  raise_by-keeps :
      (q k : RecordKey) (o : Option ℕ) (m : BTreeMap RecordKey ℕ)
      → contains_key m q ≡ true
      → contains_key (raise_by admitted k o m) q ≡ true
  unfolding raise
  raise_by-keeps q k none m h = h
  raise_by-keeps q k (some c) m h = contains_key-update_keeps q k _ m h

  watermarks_from-keeps :
      (records : List VerifiedRecord) (m : BTreeMap RecordKey ℕ) (q : RecordKey)
      → contains_key m q ≡ true
      → contains_key (watermarks_from admitted records m) q ≡ true
  unfolding watermarks_from
  watermarks_from-keeps [] m q h = h
  watermarks_from-keeps (r ∷ records) m q h = elim (Bool-cases (admitted r)) [
    | inl ok ↦
        rw ok (watermarks_from-keeps records _ q (raise_by-keeps q r.key (lww_counter r.body) m h))
    | inr no_ ↦ rw no_ (watermarks_from-keeps records m q h)
  ]

  watermarks_from-contains_key :
      (records : List VerifiedRecord) (m : BTreeMap RecordKey ℕ) (r : VerifiedRecord) (c : ℕ)
      → Memᴰ r records
      → admitted r ≡ true
      → lww_counter r.body ≡ some c
      → contains_key (watermarks_from admitted records m) r.key ≡ true
  unfolding watermarks_from raise
  watermarks_from-contains_key [] m r c n a e = elim n [ ]
  watermarks_from-contains_key (x ∷ records) m r c (Memᴰ.head q) a e =
      let a' : admitted x ≡ true = ap admitted (sym q) ∙ a in
      let e' : lww_counter x.body ≡ some c =
        ap (λ (x : VerifiedRecord). lww_counter x.body) (sym q) ∙ e in
      subst
        (λ (r : VerifiedRecord).
          contains_key (watermarks_from admitted (x ∷ records) m) r.key ≡ true)
        (sym q)
        (rw (a', e') (watermarks_from-keeps records _ x.key (contains_key-update_self x.key _ m)))
  watermarks_from-contains_key (x ∷ records) m r c (Memᴰ.tail n) a e =
      watermarks_from-contains_key records _ r c n a e

-- The step of the clock, from the greatest watermark.
clock_step :
    (m : BTreeMap RecordKey ℕ) (k : RecordKey) (c : ℕ)
    → contains_key m k ≡ true
    → c ≤ mark_at m k
    → All (λ (e : RecordKey × ℕ). e.1 ≤ max_lww_counter) m
    → (h : ℕ) × (highest (values m) ≡ some h) × (c ≤ h) × (h ≤ max_lww_counter)
clock_step m k c present le all = elim (Option-cases (get m k)) [
  | inl n ↦ absurd (ground arith)
  | inr (d, e) ↦
      let (h, q, l) = highest-le m k d (Memᴰ_of_get k m e) in
      let bound = highest-bounded max_lww_counter m all in
      let c≤d : c ≤ d = subst (λ o. c ≤ get_or o 0) e le in
      let h≤ : h ≤ max_lww_counter = subst (λ o. get_or o 0 ≤ max_lww_counter) q bound in
      (h, q, omega arith, h≤)
]

module _ (crypto : CryptoProvider) (ratchet : Ratchet) (root : SelectedRoot)
    (records : List VerifiedRecord) where
  -- The test by which a record counts, in the view without rollback exclusions.
  abbrev pub provisionally_admitted : VerifiedRecord → Bool
  provisionally_admitted =
      let (provisional, deletions) = resolve_effective_with_deletions crypto root records [] in
      counts records provisional deletions

  next_counter-exceeds :
      ((r : VerifiedRecord) → Memᴰ r records → counter_of r ≤ max_lww_counter)
      → (r : VerifiedRecord) (c : ℕ) → Memᴰ r records
      → provisionally_admitted r ≡ true
      → lww_counter r.body ≡ some c
      → (c < next_counter (effective_state crypto ratchet root records))
        × (next_counter (effective_state crypto ratchet root records) ≤ max_lww_counter + 1)
  unfolding effective_state attach_verified_records next_counter current_watermarks
      admitted_watermarks
  next_counter-exceeds below r c m ok e =
      let (h, q, l, top) =
        clock_step (current_watermarks crypto ratchet root records).0 r.key c
          (watermarks_from-contains_key provisionally_admitted records [] r c m ok e)
          ((admitted_watermarks-greatest records _ _).0 r c m ok e)
          (watermarks_from-Bounded provisionally_admitted max_lww_counter records [] below
            (λ e n. elim n [ ])) in
      rw (q, next_counter) (omega arith, omega arith)

-- If the records are checked without an error, then the next counter of the report is greater than
-- the counter of every verified record that the view without rollback exclusions admits, and at
-- most one more than the ceiling, where there is such a record.
pub report_of-next_counter :
    (crypto : CryptoProvider) (ratchet : Ratchet) (root : SelectedRoot)
    (verified : BTreeSet HashValue) (signers : Signers) (hashed : List Hashed) (checked : Checked)
    → verify_records crypto verified root signers hashed nothing_checked ≡ some checked
    → (r : VerifiedRecord) (c : ℕ) → Memᴰ r checked.verified_records
    → provisionally_admitted crypto ratchet root checked.verified_records r ≡ true
    → lww_counter r.body ≡ some c
    → let next =
        next_counter (report_of crypto ratchet root signers.ambiguous_keys checked).effective in
      (c < next) × (next ≤ max_lww_counter + 1)
unfolding report_of
report_of-next_counter crypto ratchet root verified signers hashed checked h =
    next_counter-exceeds crypto ratchet root checked.verified_records (λ r m.
      IsVerified-ceiling crypto verified root signers hashed r
        (verify_records-IsVerified crypto verified root signers hashed checked h r m))

-- ===== src/Ratchet/Restore.antt =====
-- A ratchet written as records and read back.
use Prim.Native.Nat.{max}
use thorax.Prelude.{
  ℕ, ◌≡◌, ◌≢◌, refl, sym, ap, ap₂, ◌∙◌, List, [], ◌∷◌, ◌++◌, Option, none, some, arith,
  ord_discrete, subst, Bool, true, false, ltb, if◌then◌else◌,
}
use thorax.Format.Selector.{Text, SecretSelectorV1}
use thorax.Prelude.Map.{
  BTreeMap, get, get_or, get-update_self, get-update_ne, Sorted, Above, get-cons_self, get-cons_ne,
  ne_of_cmp,
}
use thorax.Format.Key.{HashValue, RecordKey, key_ord}
use thorax.Format.RatchetRecord.{
  KeyOrigin, RatchetRecordV1, for_key, origin, key_of, counter, user_handle_of, vault_handle_of,
  membership_of, selector_of, selector_origin,
}
use thorax.Ratchet.{
  Ratchet, new, raise, watermark_records, version_records, to_records, absorb_keyed, absorb_at,
  absorb_origin, absorb_record, absorb_all,
}

-- The origin that a record for a key keeps of an origin.
abbrev kept : RecordKey → Option KeyOrigin → Option KeyOrigin
kept key o = elim (for_key key 0 o) [ none ↦ none | some r ↦ origin r ]

-- A record made for a key holds the key, the counter and the origin, and is read as a keyed one.
abbrev Holds : RecordKey → ℕ → Option KeyOrigin → RatchetRecordV1 → Type 0
Holds key c o r =
    (for_key key c o ≡ some r)
    × (key_of r ≡ some key)
    × (counter r ≡ c)
    × (origin r ≡ kept key o)
    × ((s : Ratchet) → absorb_record s r ≡ absorb_keyed s r)

for_key-Holds :
    (key : RecordKey) (c : ℕ) (o : Option KeyOrigin)
    → key ≢ RecordKey.vault_root
    → (r : RatchetRecordV1) × Holds key c o r
unfolding for_key key_of counter origin absorb_record
for_key-Holds RecordKey.vault_root c o n = absurd (n refl)
for_key-Holds (RecordKey.entry_point id) c o n = (_, (refl, refl, refl, refl, λ s. refl))
for_key-Holds (RecordKey.user id) c o n = (_, (refl, refl, refl, refl, λ s. refl))
for_key-Holds (RecordKey.user_handle id) c o n = (_, (refl, refl, refl, refl, λ s. refl))
for_key-Holds (RecordKey.vault_handle id) c o n = (_, (refl, refl, refl, refl, λ s. refl))
for_key-Holds (RecordKey.group id) c o n = (_, (refl, refl, refl, refl, λ s. refl))
for_key-Holds (RecordKey.group_member id) c o n = (_, (refl, refl, refl, refl, λ s. refl))
for_key-Holds (RecordKey.grant id) c o n = (_, (refl, refl, refl, refl, λ s. refl))
for_key-Holds (RecordKey.secret id) c o n = (_, (refl, refl, refl, refl, λ s. refl))

-- One watermark written and read back.
abbrev step : Ratchet → RecordKey → ℕ → Option KeyOrigin → Ratchet
step s key c o = elim (for_key key c o) [ none ↦ s | some r ↦ absorb_record s r ]

absorb_all-option :
    (s : Ratchet) (x : Option RatchetRecordV1) (rest : List RatchetRecordV1)
    → absorb_all s (elim x [ none ↦ rest | some r ↦ r ∷ rest ])
      ≡ absorb_all (elim x [ none ↦ s | some r ↦ absorb_record s r ]) rest
unfolding absorb_all
absorb_all-option s none rest = refl
absorb_all-option s (some r) rest = refl

absorb_all-step :
    (s : Ratchet) (origins : BTreeMap RecordKey KeyOrigin) (key : RecordKey) (c : ℕ)
    (w : BTreeMap RecordKey ℕ)
    → absorb_all s (watermark_records origins ((key, c) ∷ w))
      ≡ absorb_all (step s key c (get origins key)) (watermark_records origins w)
unfolding watermark_records
absorb_all-step s origins key c w =
    absorb_all-option s (for_key key c (get origins key)) (watermark_records origins w)

-- What one step leaves in the three fields.
step-fields :
    (s : Ratchet) (key : RecordKey) (c : ℕ) (o : Option KeyOrigin)
    → key ≢ RecordKey.vault_root
    → step s key c o ≡ record s {
      watermarks = raise key c s.watermarks;
      origins = absorb_origin key (kept key o) s.origins;
    }
unfolding absorb_keyed absorb_at
step-fields s key c o n =
    let (r, (f, k, m, g, a)) = for_key-Holds key c o n in
    ap (λ x. elim x [ none ↦ s | some r ↦ absorb_record s r ]) f
    ∙ a s
    ∙ ap (λ k. absorb_at s k (counter r) (origin r)) k
    ∙ ap₂ (absorb_at s (some key)) m g

step_root : (s : Ratchet) (c : ℕ) (o : Option KeyOrigin) → step s RecordKey.vault_root c o ≡ s
unfolding for_key
step_root s c o = refl

-- A step at one key leaves the rest alone, and an absent entry of its own key becomes the written one.
step-watermarks_self :
    (s : Ratchet) (key : RecordKey) (c : ℕ) (o : Option KeyOrigin)
    → key ≢ RecordKey.vault_root
    → get s.watermarks key ≡ none
    → get (step s key c o).watermarks key ≡ some c
unfolding raise
step-watermarks_self s key c o n e =
    ap (λ s. get s.watermarks key) (step-fields s key c o n)
    ∙ get-update_self key (λ entry. max (get_or entry 0) c) s.watermarks
    ∙ ap (λ x. some (max (get_or x 0) c)) e
    ∙ ap some (omega arith)

step-watermarks_ne :
    (s : Ratchet) (k key : RecordKey) (c : ℕ) (o : Option KeyOrigin)
    → k ≢ key
    → get (step s key c o).watermarks k ≡ get s.watermarks k
unfolding raise
step-watermarks_ne s k key c o ne = elim (ord_discrete key RecordKey.vault_root) [
  | yes e ↦ ap (λ s. get s.watermarks k) (ap (λ key. step s key c o) e ∙ step_root s c o)
  | no n ↦
      ap (λ s. get s.watermarks k) (step-fields s key c o n)
      ∙ get-update_ne k key (λ entry. max (get_or entry 0) c) s.watermarks ne
]

absorb_origin_self :
    (key : RecordKey) (o : Option KeyOrigin) (m : BTreeMap RecordKey KeyOrigin)
    → get m key ≡ none
    → get (absorb_origin key o m) key ≡ o
unfolding absorb_origin
absorb_origin_self key none m e = e
absorb_origin_self key (some o) m e =
    get-update_self key (λ old. get_or old o) m ∙ ap (λ x. some (get_or x o)) e

absorb_origin_ne :
    (k key : RecordKey) (o : Option KeyOrigin) (m : BTreeMap RecordKey KeyOrigin)
    → k ≢ key
    → get (absorb_origin key o m) k ≡ get m k
unfolding absorb_origin
absorb_origin_ne k key none m ne = refl
absorb_origin_ne k key (some o) m ne = get-update_ne k key (λ old. get_or old o) m ne

step-origins_self :
    (s : Ratchet) (key : RecordKey) (c : ℕ) (o : Option KeyOrigin)
    → key ≢ RecordKey.vault_root
    → get s.origins key ≡ none
    → get (step s key c o).origins key ≡ kept key o
step-origins_self s key c o n e =
    ap (λ s. get s.origins key) (step-fields s key c o n)
    ∙ absorb_origin_self key (kept key o) s.origins e

step-origins_ne :
    (s : Ratchet) (k key : RecordKey) (c : ℕ) (o : Option KeyOrigin)
    → k ≢ key
    → get (step s key c o).origins k ≡ get s.origins k
step-origins_ne s k key c o ne = elim (ord_discrete key RecordKey.vault_root) [
  | yes e ↦ ap (λ s. get s.origins k) (ap (λ key. step s key c o) e ∙ step_root s c o)
  | no n ↦
      ap (λ s. get s.origins k) (step-fields s key c o n)
      ∙ absorb_origin_ne k key (kept key o) s.origins ne
]

step-rest :
    (s : Ratchet) (key : RecordKey) (c : ℕ) (o : Option KeyOrigin)
    → ((step s key c o).format_version ≡ s.format_version)
      × ((step s key c o).trusted_root ≡ s.trusted_root)
step-rest s key c o = elim (ord_discrete key RecordKey.vault_root) [
  | yes e ↦
      let q = ap (λ key. step s key c o) e ∙ step_root s c o in
      (ap (λ s. s.format_version) q, ap (λ s. s.trusted_root) q)
  | no n ↦
      let q = step-fields s key c o n in (ap (λ s. s.format_version) q, ap (λ s. s.trusted_root) q)
]

-- An origin that the record of its key has a field for; the others are not written.
abbrev pub Fits : RecordKey → KeyOrigin → Type 0
Fits (RecordKey.user_handle id) (KeyOrigin.user_handle handle) = handle ≢ []
Fits (RecordKey.vault_handle id) (KeyOrigin.vault_handle handle) = handle ≢ []
Fits (RecordKey.group_member id) (KeyOrigin.group_member input) = Unit
Fits (RecordKey.secret id) (KeyOrigin.secret selector) = selector.tuple ≢ []
Fits _ _ = ⊥

selector_origin_lem :
    (parts : List Text) (selector : SecretSelectorV1)
    → parts ≢ []
    → selector_origin parts selector ≡ some (KeyOrigin.secret selector)
selector_origin_lem [] selector n = absurd (n refl)
selector_origin_lem (part ∷ parts) selector n = refl

kept_of_Fits : (key : RecordKey) (o : KeyOrigin) → Fits key o → kept key (some o) ≡ some o
unfolding for_key user_handle_of vault_handle_of membership_of selector_of origin
kept_of_Fits (RecordKey.user_handle id) (KeyOrigin.user_handle []) f = absurd (f refl)
kept_of_Fits (RecordKey.user_handle id) (KeyOrigin.user_handle (c ∷ cs)) f = refl
kept_of_Fits (RecordKey.vault_handle id) (KeyOrigin.vault_handle []) f = absurd (f refl)
kept_of_Fits (RecordKey.vault_handle id) (KeyOrigin.vault_handle (c ∷ cs)) f = refl
kept_of_Fits (RecordKey.group_member id) (KeyOrigin.group_member input) f = refl
kept_of_Fits (RecordKey.secret id) (KeyOrigin.secret selector) f =
    selector_origin_lem selector.tuple selector f
kept_of_Fits key o f = absurd f

kept-none : (key : RecordKey) → kept key none ≡ none
unfolding for_key user_handle_of vault_handle_of membership_of selector_of origin
kept-none RecordKey.vault_root = refl
kept-none (RecordKey.entry_point id) = refl
kept-none (RecordKey.user id) = refl
kept-none (RecordKey.user_handle id) = refl
kept-none (RecordKey.vault_handle id) = refl
kept-none (RecordKey.group id) = refl
kept-none (RecordKey.group_member id) = refl
kept-none (RecordKey.grant id) = refl
kept-none (RecordKey.secret id) = refl

-- What is read back of a list of watermarks at a key, from a state that has nothing there.
abbrev written : BTreeMap RecordKey KeyOrigin → BTreeMap RecordKey ℕ → RecordKey → Option KeyOrigin
written origins w k = elim (get w k) [ none ↦ none | some c ↦ kept k (get origins k) ]

-- Reading the records of watermarks: a key below them all stays as it was.
absorb_all-absent :
    (s : Ratchet) (origins : BTreeMap RecordKey KeyOrigin) (k : RecordKey)
    (w : BTreeMap RecordKey ℕ)
    → Above k w
    → (get (absorb_all s (watermark_records origins w)).watermarks k ≡ get s.watermarks k)
      × (get (absorb_all s (watermark_records origins w)).origins k ≡ get s.origins k)
unfolding absorb_all watermark_records
absorb_all-absent s origins k [] a = (refl, refl)
absorb_all-absent s origins k ((j, c) ∷ w) (l, a) =
    let n = ne_of_cmp k j l in
    let e = absorb_all-step s origins j c w in
    let (hw, ho) = absorb_all-absent (step s j c (get origins j)) origins k w a in
    (
      ap (λ s. get s.watermarks k) e ∙ hw ∙ step-watermarks_ne s k j c (get origins j) n,
      ap (λ s. get s.origins k) e ∙ ho ∙ step-origins_ne s k j c (get origins j) n,
    )

-- The entries at a key after the records of watermarks are read into `s`.
abbrev Reads : Ratchet → BTreeMap RecordKey KeyOrigin → BTreeMap RecordKey ℕ → RecordKey → Type 0
Reads s origins w k =
    (get (absorb_all s (watermark_records origins w)).watermarks k ≡ get w k)
    × (get (absorb_all s (watermark_records origins w)).origins k ≡ written origins w k)

Reads-head :
    (s : Ratchet) (origins : BTreeMap RecordKey KeyOrigin) (j : RecordKey) (c : ℕ)
    (w : BTreeMap RecordKey ℕ)
    → Above j w
    → j ≢ RecordKey.vault_root
    → get s.watermarks j ≡ none
    → get s.origins j ≡ none
    → Reads s origins ((j, c) ∷ w) j
Reads-head s origins j c w a n hw ho =
    let e = absorb_all-step s origins j c w in
    let (iw, io) = absorb_all-absent (step s j c (get origins j)) origins j w a in
    let g = get-cons_self j c w in
    (
      ap (λ s. get s.watermarks j) e ∙ iw ∙ step-watermarks_self s j c (get origins j) n hw ∙ sym g,
      ap (λ s. get s.origins j) e
          ∙ io
          ∙ step-origins_self s j c (get origins j) n ho
          ∙ sym (ap (λ x. elim x [ none ↦ none | some c ↦ kept j (get origins j) ]) g),
    )

Reads-of_Sorted :
    (s : Ratchet) (origins : BTreeMap RecordKey KeyOrigin) (k : RecordKey)
    (w : BTreeMap RecordKey ℕ)
    → Sorted w
    → (k ≡ RecordKey.vault_root → get w k ≡ none)
    → get s.watermarks k ≡ none
    → get s.origins k ≡ none
    → Reads s origins w k
unfolding absorb_all watermark_records get
Reads-of_Sorted s origins k [] t n hw ho = (hw, ho)
Reads-of_Sorted s origins k ((j, c) ∷ w) (a, t) n hw ho = elim (ord_discrete k j) [
  | yes e ↦ subst (Reads s origins ((j, c) ∷ w)) (sym e) (
      Reads-head s origins j c w a
        (λ h. absurd (ground (arith, n (e ∙ h), ap (get ((j, c) ∷ w)) e, get-cons_self j c w)))
        (subst (λ k. get s.watermarks k ≡ none) e hw) (subst (λ k. get s.origins k ≡ none) e ho))
  | no m ↦
      let o = get origins j in
      let q = absorb_all-step s origins j c w in
      let g = get-cons_ne k j c w a m in
      let (iw, io) =
        Reads-of_Sorted (step s j c o) origins k w t (λ h. sym g ∙ n h)
          (step-watermarks_ne s k j c o m ∙ hw) (step-origins_ne s k j c o m ∙ ho) in
      (
        ap (λ s. get s.watermarks k) q ∙ iw ∙ sym g,
        ap (λ s. get s.origins k) q
            ∙ io
            ∙ sym (ap (λ x. elim x [ none ↦ none | some c ↦ kept k (get origins k) ]) g),
      )
]

-- The records after the watermarks.
absorb_all-append :
    (s : Ratchet) (xs ys : List RatchetRecordV1)
    → absorb_all s (xs ++ ys) ≡ absorb_all (absorb_all s xs) ys
unfolding absorb_all
absorb_all-append s [] ys = refl
absorb_all-append s (x ∷ xs) ys = absorb_all-append (absorb_record s x) xs ys

absorb_all-rest :
    (s : Ratchet) (origins : BTreeMap RecordKey KeyOrigin) (w : BTreeMap RecordKey ℕ)
    → ((absorb_all s (watermark_records origins w)).format_version ≡ s.format_version)
      × ((absorb_all s (watermark_records origins w)).trusted_root ≡ s.trusted_root)
unfolding absorb_all watermark_records
absorb_all-rest s origins [] = (refl, refl)
absorb_all-rest s origins ((j, c) ∷ w) =
    let q = absorb_all-step s origins j c w in
    let (v, t) = absorb_all-rest (step s j c (get origins j)) origins w in
    let (v', t') = step-rest s j c (get origins j) in
    (ap (λ s. s.format_version) q ∙ v ∙ v', ap (λ s. s.trusted_root) q ∙ t ∙ t')

-- The last two records touch the format version only.
absorb_all-last :
    (s : Ratchet) (v : ℕ) (h : HashValue) (b : Bool)
    → (b ≡ false → v ≡ 0)
    → absorb_all s (
        (if b then RatchetRecordV1.format_version (record { version = v }) ∷ [] else [])
        ++ RatchetRecordV1.trusted_root (record { trusted_root = h }) ∷ [])
      ≡ record s { format_version = max s.format_version v }
unfolding absorb_all absorb_record
absorb_all-last s v h true z = refl
absorb_all-last s v h false z = ap (λ n. record s { format_version = n }) (omega (arith, z refl))

absorb_all-to_records :
    (r s : Ratchet)
    → absorb_all s (to_records r)
      ≡ record (absorb_all s (watermark_records r.origins r.watermarks)) {
        format_version =
            max
              (absorb_all s (watermark_records r.origins r.watermarks)).format_version
              r.format_version;
      }
unfolding to_records version_records
absorb_all-to_records r s =
    absorb_all-append s (watermark_records r.origins r.watermarks) _
    ∙ absorb_all-last (absorb_all s (watermark_records r.origins r.watermarks)) r.format_version
        r.trusted_root (ltb 0 r.format_version) (λ e. ground arith)

-- Every remembered origin stands at a key with a watermark and is of the kind that the key's record
-- has a field for; the vault root has no watermark.
abbrev pub IsRestorable : Ratchet → Type 0
IsRestorable r =
    Sorted r.watermarks
    × (get r.watermarks RecordKey.vault_root ≡ none)
    × ((k : RecordKey) (o : KeyOrigin)
        → get r.origins k ≡ some o
        → Fits k o × (get r.watermarks k ≢ none))

written_lem :
    (k : RecordKey) (w : Option ℕ) (g : Option KeyOrigin)
    → ((o : KeyOrigin) → g ≡ some o → Fits k o × (w ≢ none))
    → elim w [ none ↦ none | some c ↦ kept k g ] ≡ g
written_lem k none none f = refl
written_lem k none (some o) f = absurd ((f o refl).1 refl)
written_lem k (some c) none f = kept-none k
written_lem k (some c) (some o) f = kept_of_Fits k o (f o refl).0

-- Take a ratchet whose watermarks are in the order of the keys, with none at the vault root, and
-- whose origins each stand at a key with a watermark and are not empty and of the kind that the
-- key's record has a field for. Written as records and read back into a new ratchet of the same
-- trusted root, it remembers at every key the same counter and the same origin, and the same
-- format version.
pub to_records-roundtrip :
    (r : Ratchet)
    → IsRestorable r
    → ((k : RecordKey)
        → (get (absorb_all (new r.trusted_root) (to_records r)).watermarks k ≡ get r.watermarks k)
          × (get (absorb_all (new r.trusted_root) (to_records r)).origins k ≡ get r.origins k))
      × ((absorb_all (new r.trusted_root) (to_records r)).format_version ≡ r.format_version)
      × ((absorb_all (new r.trusted_root) (to_records r)).trusted_root ≡ r.trusted_root)
unfolding new get
to_records-roundtrip r (s, v, f) =
    let q = absorb_all-to_records r (new r.trusted_root) in
    let (fv, tr) = absorb_all-rest (new r.trusted_root) r.origins r.watermarks in
    let reads = λ (k : RecordKey).
      Reads-of_Sorted (new r.trusted_root) r.origins k r.watermarks s
        (λ e. subst (λ k. get r.watermarks k ≡ none) (sym e) v) refl refl in
    (
      λ k. (
        ap (λ s. get s.watermarks k) q ∙ (reads k).0,
        ap (λ s. get s.origins k) q
            ∙ (reads k).1
            ∙ written_lem k (get r.watermarks k) (get r.origins k) (f k),
      ),
      ap (λ s. s.format_version) q ∙ omega (arith, fv),
      ap (λ s. s.trusted_root) q ∙ tr,
    )

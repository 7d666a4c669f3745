-- ===== src/Merge/Anchor.antt =====
-- A merge never brings in a trust anchor.
use thorax.Prelude.{
  true, false, eq_of_==, List, [], ◌∷◌, Option, none, some, Memᴰ, ◌≡◌, ◌⊎◌, inl, inr, refl, sym, ap,
  ap₂, ◌∙◌, subst, arith, Bool-cases, bytes_ord, ord_discrete,
}
use thorax.Prelude.Map.{keys, get, insert, get-update_self, get-update_ne}
use thorax.Format.Selector.{Bytes, texts_eq}
use thorax.Format.Body.{VaultRecordV1}
use thorax.Merge.{
  RecordSet, MergeOutcome, ByteSet, is_root, same_bytes, is_empty, and_insert, root_records,
  refuse_sides, refuse_base, merge_vaults,
}
use thorax.Merge.Union.{Passed-of_merged, merge_vaults-union}

-- A byte string is in a set.
abbrev In : Bytes → ByteSet → Type 0
In b s = get s b ≡ some tt

In-insert_self : (b : Bytes) (s : ByteSet) → In b (insert b tt s)
In-insert_self b s = get-update_self b (λ _. tt) s

In-insert : (b c : Bytes) (s : ByteSet) → In b s → In b (insert c tt s)
In-insert b c s h = elim (ord_discrete b c) [
  | yes e ↦ subst (λ b. In b (insert c tt s)) (sym e) (In-insert_self c s)
  | no n ↦ get-update_ne b c (λ _. tt) s n ∙ h
]

In-insert_cases : (b c : Bytes) (s : ByteSet) → In b (insert c tt s) → (b ≡ c) ⊎ In b s
In-insert_cases b c s h = elim (ord_discrete b c) [
  | yes e ↦ inl e
  | no n ↦ inr (sym (get-update_ne b c (λ _. tt) s n) ∙ h)
]

not-In_empty : (b : Bytes) (s : ByteSet) → some [] ≡ some s → In b s → ⊥
unfolding get
not-In_empty b [] h i = cc
not-In_empty b (e ∷ s) h i = cc

refuse_sides-none :
    (a b : ByteSet)
    → refuse_sides a b ≡ none
    → (is_empty a ≡ false) × (is_empty b ≡ false) × (same_bytes a b ≡ true)
unfolding refuse_sides
refuse_sides-none a b h = (ground arith, ground arith, ground arith)

refuse_base-none :
    (c a : ByteSet) → refuse_base c a ≡ none → (is_empty c ≡ true) ⊎ (same_bytes c a ≡ true)
unfolding refuse_base
refuse_base-none c a h = ground arith

empty_lem : (c : ByteSet) → is_empty c ≡ true → c ≡ []
empty_lem [] h = refl
empty_lem (e ∷ c) h = cc

cons_inj : (c d : Bytes) (s t : List Bytes) → c ∷ s ≡ d ∷ t → (c ≡ d) × (s ≡ t)
cons_inj c d s t e = (cc, cc)

-- Sets with the same keys are the same.
keys_inj : (s t : ByteSet) → keys s ≡ keys t → s ≡ t
keys_inj [] [] e = refl
keys_inj [] ((d, v) ∷ t) e = cc
keys_inj ((c, u) ∷ s) [] e = cc
keys_inj ((c, u) ∷ s) ((d, v) ∷ t) e =
    let (h, r) = cons_inj c d (keys s) (keys t) e in ap₂ (λ c s. (c, tt) ∷ s) h (keys_inj s t r)

same_bytes_lem : (s t : ByteSet) → same_bytes s t ≡ true → s ≡ t
same_bytes_lem s t h = keys_inj s t (eq_of_== (keys s) (keys t) h)

and_insert-some :
    (x : Option Bytes) (y : Option ByteSet) (s : ByteSet)
    → and_insert x y ≡ some s
    → (b : Bytes) × (t : ByteSet) × (x ≡ some b) × (y ≡ some t) × (s ≡ insert b tt t)
and_insert-some none y s h = cc
and_insert-some (some b) none s h = cc
and_insert-some (some b) (some t) s h = (b, t, refl, refl, cc)

module _ (cord : RecordSet) where
  -- A root record that serialises to the bytes.
  abbrev pub Anchors : List VaultRecordV1 → Bytes → Type 0
  Anchors vs b = (v : VaultRecordV1) × Memᴰ v vs × (is_root v ≡ true) × (cord.serialize v ≡ some b)

  -- One record of `root_records`.
  abbrev Adds : VaultRecordV1 → ByteSet → ByteSet → Type 0
  Adds w t s =
      ((is_root w ≡ true) × (b : Bytes) × (cord.serialize w ≡ some b) × (s ≡ insert b tt t))
      ⊎ ((is_root w ≡ false) × (s ≡ t))

  root_records-cons :
      (w : VaultRecordV1) (vs : List VaultRecordV1) (s : ByteSet)
      → root_records cord (w ∷ vs) ≡ some s
      → (t : ByteSet) × (root_records cord vs ≡ some t) × Adds w t s
  unfolding root_records
  root_records-cons w vs s h = elim (Bool-cases (is_root w)) [
    | inl r ↦
        let (b, t, x, y, e) =
          and_insert-some (cord.serialize w) (root_records cord vs) s (ground arith) in
        (t, y, inl (r, b, x, e))
    | inr r ↦ (s, ground arith, inr (r, refl))
  ]

  -- The bytes that `root_records` collects are those of the root records.
  pub root_records-intro :
      (vs : List VaultRecordV1) (s : ByteSet) (v : VaultRecordV1)
      → root_records cord vs ≡ some s
      → Memᴰ v vs
      → is_root v ≡ true
      → (b : Bytes) × (cord.serialize v ≡ some b) × In b s
  root_records-intro [] s v h m r = elim m [ ]
  root_records-intro (w ∷ vs) s v h (Memᴰ.head e) r = elim (root_records-cons w vs s h).2 [
    | inl (q, b, x, i) ↦ (b, ap cord.serialize e ∙ x, subst (In b) (sym i) (In-insert_self b _))
    | inr (q, i) ↦ absurd (ground (arith, r, q, ap is_root e))
  ]
  root_records-intro (w ∷ vs) s v h (Memᴰ.tail m) r =
      let (t, y, a) = root_records-cons w vs s h in
      let (b, x, i) = root_records-intro vs t v y m r in
      (
        b,
        x,
        (elim a [
          | inl (q, c, z, j) ↦ subst (In b) (sym j) (In-insert b c t i)
          | inr (q, j) ↦ subst (In b) (sym j) i
        ]),
      )

  pub root_records-elim :
      (vs : List VaultRecordV1) (s : ByteSet) (b : Bytes)
      → root_records cord vs ≡ some s
      → In b s
      → Anchors vs b
  unfolding root_records get
  root_records-elim [] s b h i = absurd (not-In_empty b s h i)
  root_records-elim (w ∷ vs) s b h i =
      let (t, y, a) = root_records-cons w vs s h in
      elim a [
        | inl (q, c, z, j) ↦ elim (In-insert_cases b c t (subst (In b) j i)) [
          | inl e ↦ (w, Memᴰ.head refl, q, z ∙ ap some (sym e))
          | inr k ↦ let (v, m, r, x) = root_records-elim vs t b y k in (v, Memᴰ.tail m, r, x)
        ]
        | inr (q, j) ↦
            let (v, m, r, x) = root_records-elim vs t b y (subst (In b) j i) in
            (v, Memᴰ.tail m, r, x)
      ]

  -- Every root record of a merged vault is byte for byte, signature included, a root record of
  -- ours, and of theirs.
  pub merge_vaults-Anchors :
      (base : Option cord.Set) (ours theirs m : cord.Set)
      → merge_vaults cord base ours theirs ≡ some (MergeOutcome.merged m)
      → (v : VaultRecordV1) → Memᴰ v (cord.elements m)
      → is_root v ≡ true
      → (b : Bytes) × (cord.serialize v ≡ some b)
        × Anchors (cord.elements ours) b
        × Anchors (cord.elements theirs) b
  merge_vaults-Anchors base ours theirs m h v k r =
      let (a, s, c, ea, es, ec, f, g, u) = Passed-of_merged cord base ours theirs m h in
      let (_, _, w) = refuse_sides-none a s f in
      let q = same_bytes_lem a s w in
      elim ((merge_vaults-union cord base ours theirs m h v).0 k) [
        | inl j ↦
            let (b, x, i) = root_records-intro _ c v ec j r in
            elim (refuse_base-none c a g) [
              | inl e ↦ absurd (not-In_empty b c (ap some (sym (empty_lem c e))) i)
              | inr e ↦
                  let l = subst (In b) (same_bytes_lem c a e) i in
                  (
                    b,
                    x,
                    root_records-elim _ a b ea l,
                    root_records-elim _ s b es (subst (In b) q l),
                  )
            ]
        | inr (inl j) ↦
            let (b, x, i) = root_records-intro _ a v ea j r in
            (b, x, root_records-elim _ a b ea i, root_records-elim _ s b es (subst (In b) q i))
        | inr (inr j) ↦
            let (b, x, i) = root_records-intro _ s v es j r in
            (
              b,
              x,
              root_records-elim _ a b ea (subst (In b) (sym q) i),
              root_records-elim _ s b es i,
            )
      ]

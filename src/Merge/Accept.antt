-- ===== src/Merge/Accept.antt =====
-- Vaults of one root merge.
use thorax.Prelude.{
  Bool, true, false, if◌then◌else◌, any, ◌||◌, ==_refl, List, [], ◌∷◌, Option, none, some, Memᴰ,
  ◌≡◌, refl, ap, ap₂, ◌∙◌, arith, bytes_ord,
}
use thorax.Prelude.Map.{insert, update, update-cons_self}
use thorax.Format.Selector.{Bytes, texts_eq}
use thorax.Format.Body.{VaultRecordV1}
use thorax.Merge.{
  RecordSet, MergeOutcome, ByteSet, is_root, and_insert, root_records, base_records, union_of,
  refused_or, refuse_sides, refuse_base, merge_checked, merge_roots, merge_vaults,
}

-- The root bytes of records whose only root serialises to `b`.
abbrev only : Bytes → Bool → ByteSet
only b has_root = if has_root then (b, tt) ∷ [] else []

insert-only : (b : Bytes) (has_root : Bool) → insert b tt (only b has_root) ≡ (b, tt) ∷ []
unfolding update
insert-only b true = update-cons_self b (λ _. tt) tt []
insert-only b false = refl

refuse_sides_lem : (b : Bytes) → refuse_sides ((b, tt) ∷ []) ((b, tt) ∷ []) ≡ none
unfolding refuse_sides
refuse_sides_lem b = ground (arith, ==_refl ⦃e = texts_eq⦄ (b ∷ []))

refuse_base_lem :
    (b : Bytes) (has_root : Bool) → refuse_base (only b has_root) ((b, tt) ∷ []) ≡ none
unfolding refuse_base
refuse_base_lem b true = ground (arith, ==_refl ⦃e = texts_eq⦄ (b ∷ []))
refuse_base_lem b false = refl

add_only :
    (b : Bytes) (r q : Bool) (x : Option Bytes) (y : Option ByteSet)
    → (r ≡ true → x ≡ some b)
    → y ≡ some (only b q)
    → (if r then and_insert x y else y) ≡ some (only b (r || q))
add_only b true q x y h e = ap₂ and_insert (h refl) e ∙ ap some (insert-only b q)
add_only b false q x y h e = e

module _ (cord : RecordSet) where
  -- All root records serialise to the bytes.
  abbrev pub RootsAre : Bytes → List VaultRecordV1 → Type 0
  RootsAre b vs = (v : VaultRecordV1) → Memᴰ v vs → is_root v ≡ true → cord.serialize v ≡ some b

  root_records-only :
      (b : Bytes) (vs : List VaultRecordV1)
      → RootsAre b vs
      → root_records cord vs ≡ some (only b (any is_root vs))
  unfolding root_records any
  root_records-only b [] h = refl
  root_records-only b (w ∷ vs) h =
      add_only b (is_root w) (any is_root vs) (cord.serialize w) (root_records cord vs)
        (h w (Memᴰ.head refl)) (root_records-only b vs (λ v m. h v (Memᴰ.tail m)))

  -- Two vaults that each hold a root record, all their root records and those of the ancestor
  -- being the same bytes, merge to the union of the records: there is no error and no refusal.
  pub merge_vaults-accepts :
      (base : Option cord.Set) (ours theirs : cord.Set) (b : Bytes)
      → RootsAre b (base_records cord base)
      → RootsAre b (cord.elements ours)
      → RootsAre b (cord.elements theirs)
      → any is_root (cord.elements ours) ≡ true
      → any is_root (cord.elements theirs) ≡ true
      → merge_vaults cord base ours theirs
        ≡ some (MergeOutcome.merged (union_of cord base ours theirs))
  unfolding merge_vaults merge_roots merge_checked refused_or
  merge_vaults-accepts base ours theirs b hb ho ht o t =
      let qo = root_records-only b (cord.elements ours) ho ∙ ap (λ q. some (only b q)) o in
      let qt = root_records-only b (cord.elements theirs) ht ∙ ap (λ q. some (only b q)) t in
      let qb = root_records-only b (base_records cord base) hb in
      ap₂ (merge_roots cord base ours theirs) qo qt
      ∙ ap₂ refused_or (refuse_sides_lem b) (
          ap (merge_checked cord base ours theirs ((b, tt) ∷ [])) qb
          ∙ ap (λ x. refused_or x (some (MergeOutcome.merged (union_of cord base ours theirs))))
              (refuse_base_lem b (any is_root (base_records cord base))))

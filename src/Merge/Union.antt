-- ===== src/Merge/Union.antt =====
-- A merge is the union of the records of all sides.
use thorax.Prelude.{List, ◌++◌, Option, none, some, Memᴰ, ◌↔◌, ◌⊎◌, inl, inr, ◌≡◌, refl, sym, subst}
use mathlib.Core.List.Memᴰ
use thorax.Format.Body.{VaultRecordV1}
use thorax.Merge.{
  RecordSet, refused_or, MergeRefusal, MergeOutcome, ByteSet, root_records, base_records,
  refuse_sides, refuse_base, union_of, merge_checked, merge_roots, merge_vaults,
}

refused_or-merged :
    {Set : Type 0} (x : Option MergeRefusal) (next : Option (MergeOutcome Set)) (m : Set)
    → refused_or x next ≡ some (MergeOutcome.merged m)
    → (x ≡ none) × (next ≡ some (MergeOutcome.merged m))
unfolding refused_or
refused_or-merged none next m h = (refl, h)
refused_or-merged (some r) next m h = cc

Memᴰ-append3 :
    (xs ys zs : List VaultRecordV1) (v : VaultRecordV1)
    → Memᴰ v (xs ++ (ys ++ zs)) ↔ (Memᴰ v xs ⊎ (Memᴰ v ys ⊎ Memᴰ v zs))
Memᴰ-append3 xs ys zs v = (
  λ m. elim (Memᴰ.append_cases xs m) [ inl h ↦ inl h | inr h ↦ inr (Memᴰ.append_cases ys h) ],
  λ s. elim s [
    | inl h ↦ Memᴰ.append_left (ys ++ zs) h
    | inr (inl h) ↦ Memᴰ.append_right xs (Memᴰ.append_left zs h)
    | inr (inr h) ↦ Memᴰ.append_right xs (Memᴰ.append_right ys h)
  ],
)

merged_inj :
    {Set : Type 0} (m n : Set) → some (MergeOutcome.merged n) ≡ some (MergeOutcome.merged m) → m ≡ n
merged_inj m n h = cc

module _ (cord : RecordSet) where
  -- What a merge that is not refused has passed.
  abbrev pub Passed : Option cord.Set → cord.Set → cord.Set → cord.Set → Type 0
  Passed base ours theirs m =
      (a : ByteSet) × (b : ByteSet) × (c : ByteSet) × (root_records cord (cord.elements ours)
        ≡ some a)
      × (root_records cord (cord.elements theirs) ≡ some b)
      × (root_records cord (base_records cord base) ≡ some c)
      × (refuse_sides a b ≡ none)
      × (refuse_base c a ≡ none)
      × (m ≡ union_of cord base ours theirs)

  merge_checked-elim :
      (base : Option cord.Set) (ours theirs m : cord.Set) (a : ByteSet) (c : Option ByteSet)
      → merge_checked cord base ours theirs a c ≡ some (MergeOutcome.merged m)
      → (r : ByteSet) × (c ≡ some r)
        × (refuse_base r a ≡ none)
        × (m ≡ union_of cord base ours theirs)
  unfolding merge_checked
  merge_checked-elim base ours theirs m a none h = cc
  merge_checked-elim base ours theirs m a (some r) h =
      let (e, q) = refused_or-merged (refuse_base r a) _ m h in (r, refl, e, merged_inj m _ q)

  merge_roots-elim :
      (base : Option cord.Set) (ours theirs m : cord.Set) (a b : Option ByteSet)
      → merge_roots cord base ours theirs a b ≡ some (MergeOutcome.merged m)
      → (r : ByteSet) × (s : ByteSet) × (t : ByteSet) × (a ≡ some r)
        × (b ≡ some s)
        × (root_records cord (base_records cord base) ≡ some t)
        × (refuse_sides r s ≡ none)
        × (refuse_base t r ≡ none)
        × (m ≡ union_of cord base ours theirs)
  unfolding merge_roots
  merge_roots-elim base ours theirs m none b h = cc
  merge_roots-elim base ours theirs m (some r) none h = cc
  merge_roots-elim base ours theirs m (some r) (some s) h =
      let (e, q) = refused_or-merged (refuse_sides r s) _ m h in
      let (t, c, f, u) =
        merge_checked-elim base ours theirs m r (root_records cord (base_records cord base)) q in
      (r, s, t, refl, refl, c, e, f, u)

  pub Passed-of_merged :
      (base : Option cord.Set) (ours theirs m : cord.Set)
      → merge_vaults cord base ours theirs ≡ some (MergeOutcome.merged m)
      → Passed base ours theirs m
  unfolding merge_vaults
  Passed-of_merged base ours theirs m h = merge_roots-elim base ours theirs m _ _ h

  members :
      (base : Option cord.Set) (ours theirs : cord.Set) (v : VaultRecordV1)
      → Memᴰ v (cord.elements (union_of cord base ours theirs)) ↔ (
          Memᴰ v (base_records cord base)
          ⊎ (Memᴰ v (cord.elements ours) ⊎ Memᴰ v (cord.elements theirs)))
  members base ours theirs v =
      let all = base_records cord base ++ (cord.elements ours ++ cord.elements theirs) in
      let h = cord.Memᴰ_of_collect all v in
      let g = Memᴰ-append3 (base_records cord base) (cord.elements ours) (cord.elements theirs) v in
      (λ m. g.0 (h.0 m), λ m. h.1 (g.1 m))

  -- The records of a merged vault are the records of the ancestor, of ours and of theirs, each of
  -- them and no other.
  pub merge_vaults-union :
      (base : Option cord.Set) (ours theirs m : cord.Set)
      → merge_vaults cord base ours theirs ≡ some (MergeOutcome.merged m)
      → (v : VaultRecordV1)
      → Memᴰ v (cord.elements m) ↔ (
          Memᴰ v (base_records cord base)
          ⊎ (Memᴰ v (cord.elements ours) ⊎ Memᴰ v (cord.elements theirs)))
  merge_vaults-union base ours theirs m h v =
      let (a, b, c, ea, eb, ec, f, g, u) = Passed-of_merged base ours theirs m h in
      subst
        (λ m. Memᴰ v (cord.elements m) ↔ (
          Memᴰ v (base_records cord base)
          ⊎ (Memᴰ v (cord.elements ours) ⊎ Memᴰ v (cord.elements theirs))))
        (sym u) (members base ours theirs v)

-- ===== src/Merge/Examples.antt =====
-- Two branches of one vault, and the theorems at them.
use thorax.Prelude.{
  ℕ, any, List, [], ◌∷◌, ◌++◌, none, some, Memᴰ, ◌↔◌, ◌⊎◌, ◌≡◌, refl, lex, map, ap, arith,
}
use thorax.Prelude.Map.{update}
use thorax.Format.Selector.{Bytes, texts_eq}
use thorax.Format.Body.{VaultRecordV1, RecordBodyV1, known_kind, unknown_kind, known}
use thorax.Merge.{
  RecordSet, MergeOutcome, MergeRefusal, is_root, root_records, refused_or, refuse_sides,
  refuse_base, merge_checked, merge_roots, merge_vaults,
}
use thorax.Merge.Union.{merge_vaults-union}
use thorax.Merge.Anchor.{Anchors, merge_vaults-Anchors}
use thorax.Merge.Accept.{RootsAre, merge_vaults-accepts}

runs : Unit {0}
unfolding lex update known is_root any root_records refused_or refuse_sides refuse_base
    merge_checked merge_roots merge_vaults texts_eq
runs = tt

-- Sets as lists, and records by their signatures.
abbrev lists : RecordSet
lists = record {
  Set = List VaultRecordV1;
  elements = λ vs. vs;
  collect = λ vs. vs;
  serialize = λ v. some v.signature;
  Memᴰ_of_collect = λ vs v. (λ m. m, λ m. m);
}

abbrev root_signed : ℕ → VaultRecordV1
root_signed signature = record {
  body = known_kind (RecordBodyV1.vault_root (record { id = 8 ∷ []; hpke_public_key = [] }));
  signing_public_key = [];
  signature = signature ∷ [];
}

abbrev future : ℕ → VaultRecordV1
future signature = record {
  body = unknown_kind [];
  signing_public_key = [];
  signature = signature ∷ [];
}

abbrev base : List VaultRecordV1
base = root_signed 1 ∷ future 2 ∷ []

abbrev ours : List VaultRecordV1
ours = root_signed 1 ∷ future 3 ∷ []

abbrev theirs : List VaultRecordV1
theirs = root_signed 1 ∷ future 2 ∷ future 4 ∷ []

abbrev both : List VaultRecordV1
both = base ++ (ours ++ theirs)

merges : merge_vaults lists (some base) ours theirs ≡ some (MergeOutcome.merged both)
unfolding runs
merges = refl

substituted :
    merge_vaults lists none ours (root_signed 9 ∷ [])
    ≡ some (MergeOutcome.refused MergeRefusal.root_mismatch)
unfolding runs
substituted = refl

rootless :
    merge_vaults lists none (future 3 ∷ []) theirs
    ≡ some (MergeOutcome.refused MergeRefusal.missing_root)
unfolding runs
rootless = refl

merge_vaults-union_example :
    Memᴰ (future 3) both ↔ (Memᴰ (future 3) base ⊎ (Memᴰ (future 3) ours ⊎ Memᴰ (future 3) theirs))
merge_vaults-union_example = merge_vaults-union lists (some base) ours theirs both merges (future 3)

merge_vaults-Anchors_example :
    (b : Bytes) × (some (1 ∷ []) ≡ some b) × Anchors lists ours b × Anchors lists theirs b
unfolding runs
merge_vaults-Anchors_example =
    merge_vaults-Anchors lists (some base) ours theirs both merges (root_signed 1) (Memᴰ.head refl)
      refl

futures-RootsAre : (ns : List ℕ) → RootsAre lists (1 ∷ []) (map future ns)
unfolding runs
futures-RootsAre [] v m r = elim m [ ]
futures-RootsAre (n ∷ ns) v (Memᴰ.head e) r = absurd (ground (arith, r, ap is_root e))
futures-RootsAre (n ∷ ns) v (Memᴰ.tail m) r = futures-RootsAre ns v m r

rooted-RootsAre : (ns : List ℕ) → RootsAre lists (1 ∷ []) (root_signed 1 ∷ map future ns)
rooted-RootsAre ns v (Memᴰ.head e) r = ap (λ v. some v.signature) e
rooted-RootsAre ns v (Memᴰ.tail m) r = futures-RootsAre ns v m r

merge_vaults-accepts_example :
    merge_vaults lists (some base) ours theirs ≡ some (MergeOutcome.merged both)
unfolding any is_root known
merge_vaults-accepts_example =
    merge_vaults-accepts lists (some base) ours theirs (1 ∷ []) (rooted-RootsAre (2 ∷ []))
      (rooted-RootsAre (3 ∷ [])) (rooted-RootsAre (2 ∷ 4 ∷ [])) refl refl

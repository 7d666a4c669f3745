-- ===== src/Pipeline/Deletions/Admit.antt =====
-- The loop that admits deletions ends when no candidate can be admitted any more.
use thorax.Prelude.{
  ℕ, zero, suc, ◌+◌, ◌≤◌, ◌<◌, ◌≡◌, refl, subst, Bool, true, false, &&-elim, List, [], ◌∷◌, none,
  some, length, find?-elim, count, count-le, count_strict, Memᴰ, Memᴰ-cons_elim, arith, Bool-cases,
  Option-cases, Ordering-cases, inl, inr, bytes_ord,
}
use thorax.Prelude.Map.{
  BTreeMap, BTreeSet, contains_key, insert, contains_key-insert_self, contains_key-insert_keeps,
}
use thorax.Format.Key.{HashValue, RecordKey}
use thorax.Lww.{VerifiedRecord, compare_lww}
use thorax.Effective.State.{EffectiveState}
use thorax.Crypto.{CryptoProvider}
use thorax.Query.{authority_for_user}
use thorax.Pipeline.Root.{SelectedRoot}
use thorax.Pipeline.Deletions.{
  admissible, newly_admitted, state_with, admit, deletion_candidates, sort_candidate,
  deletes_principal_or_grant, deletion_authorized, resolve_effective_with_deletions,
}

abbrev admitted_test : BTreeSet HashValue → VerifiedRecord → Bool
admitted_test admitted r = contains_key admitted r.record_hash

pub newly_admitted-some :
    (state : EffectiveState) (admitted : BTreeSet HashValue) (candidates : List VerifiedRecord)
    (r : VerifiedRecord)
    → newly_admitted state admitted candidates ≡ some r
    → Memᴰ r candidates
      × (admitted_test admitted r ≡ false)
      × (deletion_authorized state (authority_for_user state r.signer) r.body ≡ true)
unfolding newly_admitted admissible
newly_admitted-some state admitted candidates r h =
    let (m, t) = find?-elim (admissible state admitted) candidates h in
    let (p, q) = &&-elim _ _ t in (m, ground arith, q)

-- A candidate that can be admitted was not counted.
admits-lt :
    (state : EffectiveState) (admitted : BTreeSet HashValue) (candidates : List VerifiedRecord)
    (r : VerifiedRecord)
    → newly_admitted state admitted candidates ≡ some r
    → count (admitted_test admitted) candidates < length candidates
admits-lt state admitted candidates r h =
    let (m, f, _) = newly_admitted-some state admitted candidates r h in
    omega (
      arith,
      count_strict (admitted_test admitted) (λ _. true) candidates r (λ _ _. refl) m f refl,
      count-le (λ (_ : VerifiedRecord). true) candidates,
    )

admits-more :
    (state : EffectiveState) (admitted : BTreeSet HashValue) (candidates : List VerifiedRecord)
    (r : VerifiedRecord)
    → newly_admitted state admitted candidates ≡ some r
    → count (admitted_test admitted) candidates
      < count (admitted_test (insert r.record_hash tt admitted)) candidates
admits-more state admitted candidates r h =
    let (m, f, _) = newly_admitted-some state admitted candidates r h in
    count_strict (admitted_test admitted) (admitted_test (insert r.record_hash tt admitted))
      candidates r (λ x t. contains_key-insert_keeps x.record_hash r.record_hash tt admitted t) m f
      (contains_key-insert_self r.record_hash tt admitted)

sort_candidate-Memᴰ :
    (r : VerifiedRecord) (xs : List VerifiedRecord) (x : VerifiedRecord)
    → Memᴰ x (sort_candidate r xs)
    → Memᴰ x (r ∷ xs)
unfolding sort_candidate
sort_candidate-Memᴰ r [] x m = m
sort_candidate-Memᴰ r (y ∷ ys) x m = elim (Ordering-cases (compare_lww r y)) [
  | inl (inl l) ↦
      let e : sort_candidate r (y ∷ ys) ≡ r ∷ y ∷ ys = rw (l, sort_candidate) refl in
      subst (Memᴰ x) e m
  | inl (inr q) ↦
      let e : sort_candidate r (y ∷ ys) ≡ r ∷ y ∷ ys = rw (q, sort_candidate) refl in
      subst (Memᴰ x) e m
  | inr g ↦
      let e : sort_candidate r (y ∷ ys) ≡ y ∷ sort_candidate r ys = rw (g, sort_candidate) refl in
      Memᴰ-cons_elim (λ z. Memᴰ z (r ∷ y ∷ ys)) (Memᴰ.tail (Memᴰ.head refl))
        (λ z k.
          Memᴰ-cons_elim (λ z. Memᴰ z (r ∷ y ∷ ys)) (Memᴰ.head refl)
            (λ _ n. Memᴰ.tail (Memᴰ.tail n)) z (sort_candidate-Memᴰ r ys z k))
        x (subst (Memᴰ x) e m)
]

pub candidates-Memᴰ :
    (records : List VerifiedRecord) (x : VerifiedRecord)
    → Memᴰ x (deletion_candidates records)
    → Memᴰ x records × (deletes_principal_or_grant x.body ≡ true)
unfolding deletion_candidates
candidates-Memᴰ [] x m = elim m [ ]
candidates-Memᴰ (r ∷ records) x m =
    let below : (z : VerifiedRecord)
        → Memᴰ z (deletion_candidates records)
        → Memᴰ z (r ∷ records) × (deletes_principal_or_grant z.body ≡ true) =
      λ z k. let (n, d) = candidates-Memᴰ records z k in (Memᴰ.tail n, d) in
    elim (Bool-cases (deletes_principal_or_grant r.body)) [
      | inl d ↦
          let e : deletion_candidates (r ∷ records)
              ≡ sort_candidate r (deletion_candidates records) =
            rw d refl in
          Memᴰ-cons_elim (λ z. Memᴰ z (r ∷ records) × (deletes_principal_or_grant z.body ≡ true))
            (Memᴰ.head refl, d) below x
            (sort_candidate-Memᴰ r (deletion_candidates records) x (subst (Memᴰ x) e m))
      | inr n ↦
          let e : deletion_candidates (r ∷ records) ≡ deletion_candidates records = rw n refl in
          below x (subst (Memᴰ x) e m)
    ]

module _ (crypto : CryptoProvider) (root : SelectedRoot) (records : List VerifiedRecord)
    (rollback_keys : BTreeMap RecordKey ℕ) where
  abbrev with_deletions : BTreeSet HashValue → EffectiveState
  with_deletions = state_with crypto root records rollback_keys

  -- The state is that of the admitted deletions, and admits no other.
  abbrev pub Settled : EffectiveState × BTreeSet HashValue → Type 0
  Settled (state, admitted) =
      (with_deletions admitted ≡ state)
      × (newly_admitted state admitted (deletion_candidates records) ≡ none)

  admit-Settled :
      (left : ℕ) (admitted : BTreeSet HashValue)
      → length (deletion_candidates records)
        ≤ count (admitted_test admitted) (deletion_candidates records) + left
      → Settled
          (admit crypto root records rollback_keys (deletion_candidates records) left admitted)
  unfolding admit
  admit-Settled zero admitted le =
      elim (Option-cases
        (newly_admitted (with_deletions admitted) admitted (deletion_candidates records))) [
          | inl n ↦ (refl, n)
          | inr (r, s) ↦ absurd (omega (arith, admits-lt _ admitted _ r s))
        ]
  admit-Settled (suc left) admitted le =
      elim (Option-cases
        (newly_admitted (with_deletions admitted) admitted (deletion_candidates records))) [
          | inl n ↦ rw (n, admit) (refl, n)
          | inr (r, s) ↦
              rw (s, admit)
                (admit-Settled left (insert r.record_hash tt admitted)
                  (omega (arith, admits-more _ admitted _ r s)))
        ]

  -- The loop that admits deletions ends within as many rounds as there are candidates: the state
  -- is the one computed with the admitted deletions, and no further candidate is authorised in it.
  pub resolve_effective_with_deletions-Settled :
      Settled (resolve_effective_with_deletions crypto root records rollback_keys)
  unfolding resolve_effective_with_deletions
  resolve_effective_with_deletions-Settled =
      admit-Settled (length (deletion_candidates records)) [] (omega arith)

-- ===== src/Pipeline/Deletions/Refine.antt =====
-- The loop that admits deletions implements the admission of one deletion after another: each is
-- judged in the state that the ones before it leave, until no other may be made.
use thorax.Prelude.{
  ℕ, zero, suc, ◌≡◌, refl, sym, subst, true, false, List, [], ◌∷◌, none, some, length, find?-none,
  Memᴰ, Memᴰ-cons_elim, arith, Bool-cases, Option-cases, Ordering-cases, inl, inr, bytes_ord,
}
use thorax.Prelude.Map.{BTreeMap, BTreeSet, contains_key, insert}
use thorax.Format.Key.{HashValue, RecordKey}
use thorax.Lww.{VerifiedRecord, compare_lww}
use thorax.Effective.State.{EffectiveState}
use thorax.Crypto.{CryptoProvider}
use thorax.Query.{authority_for_user}
use thorax.Pipeline.Root.{SelectedRoot}
use thorax.Pipeline.Deletions.{
  admissible, newly_admitted, state_with, admit, deletion_candidates, sort_candidate,
  deletes_principal_or_grant, resolve_effective_with_deletions,
}
use thorax.Pipeline.Deletions.Admit.{
  newly_admitted-some, candidates-Memᴰ, resolve_effective_with_deletions-Settled,
}
use thorax.Pipeline.Deletions.Rule.{MayDelete, deletion_authorized-MayDelete, MayDelete-authorized}

sort_candidate-keeps :
    (r : VerifiedRecord) (xs : List VerifiedRecord) (x : VerifiedRecord)
    → Memᴰ x (r ∷ xs)
    → Memᴰ x (sort_candidate r xs)
unfolding sort_candidate
sort_candidate-keeps r [] x m = m
sort_candidate-keeps r (y ∷ ys) x m = elim (Ordering-cases (compare_lww r y)) [
  | inl (inl l) ↦
      let e : sort_candidate r (y ∷ ys) ≡ r ∷ y ∷ ys = rw (l, sort_candidate) refl in
      subst (Memᴰ x) (sym e) m
  | inl (inr q) ↦
      let e : sort_candidate r (y ∷ ys) ≡ r ∷ y ∷ ys = rw (q, sort_candidate) refl in
      subst (Memᴰ x) (sym e) m
  | inr g ↦
      let e : sort_candidate r (y ∷ ys) ≡ y ∷ sort_candidate r ys = rw (g, sort_candidate) refl in
      let sorted : (z : VerifiedRecord) → Memᴰ z (r ∷ ys) → Memᴰ z (y ∷ sort_candidate r ys) =
        λ z k. Memᴰ.tail (sort_candidate-keeps r ys z k) in
      subst (Memᴰ x) (sym e) (
        Memᴰ-cons_elim (λ z. Memᴰ z (y ∷ sort_candidate r ys)) (sorted r (Memᴰ.head refl))
          (Memᴰ-cons_elim (λ z. Memᴰ z (y ∷ sort_candidate r ys)) (Memᴰ.head refl)
            (λ z k. sorted z (Memᴰ.tail k)))
          x m)
]

candidates-complete :
    (records : List VerifiedRecord) (x : VerifiedRecord)
    → Memᴰ x records
    → deletes_principal_or_grant x.body ≡ true
    → Memᴰ x (deletion_candidates records)
unfolding deletion_candidates
candidates-complete [] x m d = elim m [ ]
candidates-complete (r ∷ records) x m d = elim (Bool-cases (deletes_principal_or_grant r.body)) [
  | inl now ↦
      let e : deletion_candidates (r ∷ records) ≡ sort_candidate r (deletion_candidates records) =
        rw now refl in
      subst (Memᴰ x) (sym e) (
        sort_candidate-keeps r (deletion_candidates records) x (elim m [
          | Memᴰ.head q ↦ Memᴰ.head q
          | Memᴰ.tail k ↦ Memᴰ.tail (candidates-complete records x k d)
        ]))
  | inr other ↦
      let e : deletion_candidates (r ∷ records) ≡ deletion_candidates records = rw other refl in
      subst (Memᴰ x) (sym e) (
        Memᴰ-cons_elim
          (λ z. deletes_principal_or_grant z.body ≡ true → Memᴰ z (deletion_candidates records))
          (λ t. absurd (ground arith)) (λ z k t. candidates-complete records z k t) x m d)
]

module _ (crypto : CryptoProvider) (root : SelectedRoot) (records : List VerifiedRecord)
    (rollback_keys : BTreeMap RecordKey ℕ) where
  abbrev with_deletions : BTreeSet HashValue → EffectiveState
  with_deletions = state_with crypto root records rollback_keys

  -- One more deletion, by a record of the vault whose signer may make it in the state that the
  -- deletions so far leave.
  pub data Admits (before after : BTreeSet HashValue) : Type 0 where
    admits :
        (r : VerifiedRecord)
        → Memᴰ r records
        → contains_key before r.record_hash ≡ false
        → MayDelete
            (with_deletions before)
            (authority_for_user (with_deletions before) r.signer)
            r.body
        → after ≡ insert r.record_hash tt before
        → Admits before after

  pub data Reach (start : BTreeSet HashValue) : BTreeSet HashValue → Type 0 where
    here : Reach start start
    next : {t u : BTreeSet HashValue} → Reach start t → Admits t u → Reach start u

  newly_admitted-Admits :
      (before : BTreeSet HashValue) (r : VerifiedRecord)
      → newly_admitted (with_deletions before) before (deletion_candidates records) ≡ some r
      → Admits before (insert r.record_hash tt before)
  newly_admitted-Admits before r h =
      let (m, f, a) = newly_admitted-some (with_deletions before) before _ r h in
      Admits.admits r (candidates-Memᴰ records r m).0 f (deletion_authorized-MayDelete _ _ r.body a)
        refl

  admit-Reach :
      (left : ℕ) (admitted : BTreeSet HashValue)
      → Reach [] admitted
      → Reach []
          (admit crypto root records rollback_keys (deletion_candidates records) left admitted).1
  unfolding admit
  admit-Reach zero admitted so_far = so_far
  admit-Reach (suc left) admitted so_far =
      elim (Option-cases
        (newly_admitted (with_deletions admitted) admitted (deletion_candidates records))) [
          | inl n ↦ rw (n, admit) so_far
          | inr (r, s) ↦
              rw (s, admit)
                (admit-Reach left (insert r.record_hash tt admitted)
                  (Reach.next so_far (newly_admitted-Admits admitted r s)))
        ]

  newly_admitted-none :
      (admitted after : BTreeSet HashValue)
      → newly_admitted (with_deletions admitted) admitted (deletion_candidates records) ≡ none
      → ¬ Admits admitted after
  unfolding newly_admitted admissible
  newly_admitted-none admitted after n (Admits.admits r m f may e) =
      let (a, d) = MayDelete-authorized _ _ r.body may in
      let refused =
        find?-none (admissible (with_deletions admitted) admitted) (deletion_candidates records) n r
          (candidates-complete records r m d) in
      ground (arith, refused, a, f)

  -- The admitted deletions are made one after another, starting from none, each by a record of the
  -- vault whose signer may make it in the state that the ones before leave: a user or a group is
  -- deleted by a signer who administers, a live grant by one who could have created it and what
  -- the deletion names, and a grant that is not live by one who administers or could have created
  -- what the deletion names. No record of the vault may make one more, and the resulting state is
  -- the one that the admitted deletions leave.
  pub resolve_effective_with_deletions-refines :
      let (state, admitted) = resolve_effective_with_deletions crypto root records rollback_keys in
      Reach [] admitted
      × ((after : BTreeSet HashValue) → ¬ Admits admitted after)
      × (state ≡ with_deletions admitted)
  unfolding resolve_effective_with_deletions
  resolve_effective_with_deletions-refines =
      let (same, n) = resolve_effective_with_deletions-Settled crypto root records rollback_keys in
      let admitted = (resolve_effective_with_deletions crypto root records rollback_keys).1 in
      (
        admit-Reach (length (deletion_candidates records)) [] Reach.here,
        λ after step.
            newly_admitted-none _ after
              (subst (λ s. newly_admitted s admitted (deletion_candidates records) ≡ none)
                (sym same) n)
              step,
        sym same,
      )

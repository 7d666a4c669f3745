-- ===== src/Pipeline/Signers/Introduce.antt =====
-- The loop that introduces users ends when a further pass would introduce none.
use thorax.Prelude.{
  ℕ, zero, suc, ◌+◌, ◌<◌, ◌≡◌, refl, sym, ap₂, subst, Bool, true, false, List, [], ◌∷◌, length,
  count, count-le, count_strict, Memᴰ, arith, Bool-cases, inl, inr, bytes_ord,
}
use thorax.Prelude.Map.{BTreeSet, contains_key, contains_key-insert_self, contains_key-insert_keeps}
use thorax.Format.Key.{HashValue}
use thorax.Crypto.{CryptoProvider}
use thorax.Pipeline.Root.{Hashed, SelectedRoot}
use thorax.Pipeline.Signers.{
  UserBody, Introduced, skips, introduce, introduce_pass, introduce_all, introductions, user_bodies,
  only_root,
}

abbrev pub is_introduced : Introduced → UserBody → Bool
is_introduced st body = contains_key st.introduced body.1.id

module _ (crypto : CryptoProvider) (verified : BTreeSet HashValue) where
  abbrev pass : List UserBody → Introduced → Bool → Introduced × Bool
  pass = introduce_pass crypto verified

  pass-keeps :
      (bodies : List UserBody) (st : Introduced) (c : Bool) (x : UserBody)
      → is_introduced st x ≡ true
      → is_introduced (pass bodies st c).0 x ≡ true
  unfolding introduce_pass
  pass-keeps [] st c x h = h
  pass-keeps (b ∷ bodies) st c x h = elim (Bool-cases (skips crypto verified st b)) [
    | inl s ↦ rw (s, introduce_pass) (pass-keeps bodies st c x h)
    | inr s ↦
        rw (s, introduce_pass)
          (pass-keeps bodies (introduce crypto verified st b.1) true x
            (contains_key-insert_keeps x.1.id b.1.id b.1.signing_public_key st.introduced h))
  ]

  pass-true : (bodies : List UserBody) (st : Introduced) → (pass bodies st true).1 ≡ true
  unfolding introduce_pass
  pass-true [] st = refl
  pass-true (b ∷ bodies) st = elim (Bool-cases (skips crypto verified st b)) [
    | inl s ↦ rw (s, introduce_pass) (pass-true bodies st)
    | inr s ↦ rw (s, introduce_pass) (pass-true bodies (introduce crypto verified st b.1))
  ]

  -- A pass without a change leaves the state.
  pass-unchanged :
      (bodies : List UserBody) (st : Introduced)
      → (pass bodies st false).1 ≡ false
      → (pass bodies st false).0 ≡ st
  unfolding introduce_pass
  pass-unchanged [] st = λ h. refl
  pass-unchanged (b ∷ bodies) st = elim (Bool-cases (skips crypto verified st b)) [
    | inl s ↦ rw (s, introduce_pass) (pass-unchanged bodies st)
    | inr s ↦
        rw (s, introduce_pass)
          (λ h. absurd (ground (arith, pass-true bodies (introduce crypto verified st b.1))))
  ]

  -- A pass with a change introduces a user.
  abbrev Newly : List UserBody → Introduced → Introduced → Type 0
  Newly bodies st next =
      (b : UserBody) × Memᴰ b bodies × (is_introduced st b ≡ false) × (is_introduced next b ≡ true)

  pass-Newly :
      (bodies : List UserBody) (st : Introduced)
      → (pass bodies st false).1 ≡ true
      → Newly bodies st (pass bodies st false).0
  unfolding introduce_pass
  pass-Newly [] st = λ h. absurd (ground arith)
  pass-Newly (b ∷ bodies) st = elim (Bool-cases (skips crypto verified st b)) [
    | inl s ↦
        rw (s, introduce_pass)
          (λ h. let (x, m, p, q) = pass-Newly bodies st h in (x, Memᴰ.tail m, p, q))
    | inr s ↦
        rw (s, introduce_pass)
          (λ h. (
            b,
            Memᴰ.head refl,
            ground arith,
            pass-keeps bodies (introduce crypto verified st b.1) true b
                (contains_key-insert_self b.1.id b.1.signing_public_key st.introduced),
          ))
  ]

  introduce_all-fixed :
      (bodies : List UserBody) (left : ℕ) (st : Introduced)
      → length bodies < count (is_introduced st) bodies + left
      → let last = introduce_all crypto verified left bodies st in
        pass bodies last false ≡ (last, false)
  unfolding introduce_all
  introduce_all-fixed bodies zero st h = absurd (omega (arith, count-le (is_introduced st) bodies))
  introduce_all-fixed bodies (suc left) st h =
      let next = (pass bodies st false).0 in
      elim (Bool-cases (pass bodies st false).1) [
        | inl on ↦
            let (b, m, p, q) = pass-Newly bodies st on in
            rw (on, introduce_all)
              (introduce_all-fixed bodies left next (
                omega (
                  arith,
                  count_strict (is_introduced st) (is_introduced next) bodies b
                      (pass-keeps bodies st false) m p q,
                )))
        | inr off ↦
            let e = pass-unchanged bodies st off in
            rw (off, introduce_all)
              (subst (λ s. pass bodies s false ≡ (s, false)) (sym e) (ap₂ (λ s c. (s, c)) e off))
      ]

  -- The loop that introduces users ends within one more pass than there are well-formed user
  -- records: a further pass over these records introduces nobody and changes nothing.
  pub introductions-settled :
      (root : SelectedRoot) (records : List Hashed)
      → let last = introductions crypto verified root records in
        introduce_pass crypto verified (user_bodies crypto records) last false ≡ (last, false)
  unfolding introductions
  introductions-settled root records =
      introduce_all-fixed (user_bodies crypto records) (suc (length (user_bodies crypto records)))
        (only_root crypto verified root.root.id root.signing_public_key) (omega arith)

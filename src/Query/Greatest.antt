-- ===== src/Query/Greatest.antt =====
-- The winner of a secret is a record that may compete there, and none that may is greater.
use Prim.Native.Nat.Ordering.{lt, gt}
use thorax.Prelude.{
  ℕ, ◌≡◌, ◌≢◌, ne_of_==, Memᴰ-cons_elim, refl, sym, ap, ◌∙◌, subst, true, false, List, [], ◌∷◌,
  Option, none, some, arith, Bool-cases, Option-cases, Ordering-cases, inl, inr, ◌⊎◌, Memᴰ,
  some_injective, bytes_ord, ◌==◌, lex, lex-IsTotal, eq_of_==, flip,
}
use thorax.Format.Selector.{bytes_eq}
use thorax.Format.Key.{SecretId}
use thorax.Authority.{Authorities}
use thorax.Lww.{VerifiedRecord, compare_lww}
use thorax.Effective.State.{EffectiveState}
use thorax.Query.{
  outranks, authorized_secret, attach_verified_records, latest_authorized_secret_record,
}
use thorax.Query.Index.{better, offered, scan, latest_authorized_secret_record-scan}

lex-gt_trans : (x y z : List ℕ) → lex x y ≡ gt → lex y z ≡ gt → lex x z ≡ gt
lex-gt_trans x y z p q =
    let t = lex-IsTotal in
    let a : lex y x ≡ lt = t.cmp_flip x y ∙ ap flip p in
    let b : lex z y ≡ lt = t.cmp_flip y z ∙ ap flip q in
    t.cmp_flip z x ∙ ap flip (t.cmp_trans z y x b a)

compare_lww-gt_trans :
    (x y z : VerifiedRecord) → compare_lww x y ≡ gt → compare_lww y z ≡ gt → compare_lww x z ≡ gt
unfolding compare_lww
compare_lww-gt_trans x y z p q = ground (
  arith,
  lex-gt_trans x.signer y.signer z.signer,
  lex-gt_trans x.record_hash y.record_hash z.record_hash,
  lex-IsTotal.eq_of_cmp x.signer y.signer,
  lex-IsTotal.eq_of_cmp y.signer z.signer,
  lex-IsTotal.eq_of_cmp x.record_hash y.record_hash,
  lex-IsTotal.eq_of_cmp y.record_hash z.record_hash,
)

-- What is not greater than another is not greater than what that is not greater than.
compare_lww-le_trans :
    (x y z : VerifiedRecord) → compare_lww x y ≢ gt → compare_lww y z ≢ gt → compare_lww x z ≢ gt
unfolding compare_lww
compare_lww-le_trans x y z p q h = ground (
  arith,
  p,
  q,
  lex-gt_trans x.signer z.signer y.signer,
  lex-gt_trans x.record_hash z.record_hash y.record_hash,
  lex-IsTotal.cmp_flip y.signer z.signer,
  lex-IsTotal.cmp_flip y.record_hash z.record_hash,
  lex-IsTotal.eq_of_cmp x.signer z.signer,
  lex-IsTotal.eq_of_cmp y.signer z.signer,
  lex-IsTotal.eq_of_cmp x.signer y.signer,
  lex-IsTotal.eq_of_cmp y.record_hash z.record_hash,
  lex-IsTotal.cmp_self y.signer,
)

outranks-false : (x y : VerifiedRecord) → outranks x (some y) ≡ false → compare_lww x y ≢ gt
outranks-false x y h e = ground arith

outranks-true : (x y : VerifiedRecord) → outranks x (some y) ≡ true → compare_lww x y ≡ gt
outranks-true x y h = elim (Ordering-cases (compare_lww x y)) [
  | inl (inl l) ↦ absurd (ground arith)
  | inl (inr e) ↦ absurd (ground arith)
  | inr g ↦ g
]

compare_lww_self : (x : VerifiedRecord) → compare_lww x x ≢ gt
unfolding compare_lww
compare_lww_self x h =
    ground (arith, lex-IsTotal.cmp_self x.signer, lex-IsTotal.cmp_self x.record_hash)

module _ (authorities : Authorities) (secret : SecretId) where
  -- A record that was compared is not greater than what is kept.
  abbrev Below : Option VerifiedRecord → VerifiedRecord → Type 0
  Below none w = Unit
  Below (some b) w = compare_lww b w ≢ gt

  better-Below :
      (r : VerifiedRecord) (best : Option VerifiedRecord) (w : VerifiedRecord)
      → Below (some (better authorities secret r best)) w
      → Below (some r) w × Below best w
  better-Below r none w = λ h. (h, tt)
  better-Below r (some b) w = elim (Bool-cases (outranks r (some b))) [
    | inl t ↦ rw t (λ h. (h, λ g. h (compare_lww-gt_trans r b w (outranks-true r b t) g)))
    | inr f ↦ rw f (λ h. (compare_lww-le_trans r b w (outranks-false r b f) h, h))
  ]

  -- The winner of a scan: where it comes from, and what it is not below.
  abbrev Wins : List VerifiedRecord → Option VerifiedRecord → VerifiedRecord → Type 0
  Wins records best w =
      ((best ≡ some w) ⊎ (Memᴰ w records × (authorized_secret authorities w ≡ some secret)))
      × ((x : VerifiedRecord)
          → Memᴰ x records
          → authorized_secret authorities x ≡ some secret
          → compare_lww x w ≢ gt)
      × Below best w

  better-some :
      (r : VerifiedRecord) (best : Option VerifiedRecord) (w : VerifiedRecord)
      → better authorities secret r best ≡ w
      → (best ≡ some w) ⊎ (r ≡ w)
  better-some r none w h = inr h
  better-some r (some b) w h = elim (Bool-cases (outranks r (some b))) [
    | inl t ↦ inr (let q : better authorities secret r (some b) ≡ r = rw t refl in sym q ∙ h)
    | inr f ↦
        inl (let q : better authorities secret r (some b) ≡ b = rw f refl in ap some (sym q ∙ h))
  ]

  abbrev offer_to : VerifiedRecord → Option VerifiedRecord → Option VerifiedRecord
  offer_to r best = offered authorities secret r (authorized_secret authorities r) best

  offered-facts :
      (r : VerifiedRecord) (best : Option VerifiedRecord) (w : VerifiedRecord)
      → (offer_to r best ≡ some w
          → (best ≡ some w) ⊎ ((r ≡ w) × (authorized_secret authorities r ≡ some secret)))
        × (Below (offer_to r best) w
            → (authorized_secret authorities r ≡ some secret → compare_lww r w ≢ gt) × Below best w)
  offered-facts r best w = elim (Option-cases (authorized_secret authorities r)) [
    | inl n ↦ rw n (λ e. inl e, λ h. (λ a. absurd (ground arith), h))
    | inr (s, e) ↦ elim (Bool-cases (s == secret)) [
      | inl same ↦
          rw (e, same)
            (
              λ q. elim (better-some r best w (some_injective q)) [
                | inl b ↦ inl b
                | inr i ↦ inr (i, ap some (eq_of_== s secret same))
              ],
              λ h. let (now, before) = better-Below r best w h in (λ _. now, before),
            )
      | inr other ↦
          rw (e, other)
            (λ q. inl q, λ h. (λ a. absurd (ne_of_== s secret other (some_injective a)), h))
    ]
  ]

  scan-Wins :
      (records : List VerifiedRecord) (best : Option VerifiedRecord) (w : VerifiedRecord)
      → scan authorities secret records best ≡ some w
      → Wins records best w
  unfolding scan
  scan-Wins [] best w h =
      (inl h, λ x m. elim m [ ], subst (λ o. Below o w) (sym h) (compare_lww_self w))
  scan-Wins (r ∷ records) best w h =
      let (from, above, below) = scan-Wins records (offer_to r best) w h in
      let (source, bounds) = offered-facts r best w in
      let (now, before) = bounds below in
      (
        elim from [
          | inr (m, a) ↦ inr (Memᴰ.tail m, a)
          | inl e ↦ elim (source e) [
            | inl b ↦ inl b
            | inr (i, a) ↦ inr (Memᴰ.head (sym i), ap (authorized_secret authorities) (sym i) ∙ a)
          ]
        ],
        Memᴰ-cons_elim (λ x. authorized_secret authorities x ≡ some secret → compare_lww x w ≢ gt)
            now above,
        before,
      )

-- The indexed winner of a secret is one of the records whose signer may write the secret that they
-- name, and no other of these is greater in the order of counter, signer and hash.
pub latest_authorized_secret_record-greatest :
    (self : EffectiveState) (records : List VerifiedRecord) (highest : Option ℕ) (secret : SecretId)
    (w : VerifiedRecord)
    → latest_authorized_secret_record (attach_verified_records self records highest) secret ≡ some w
    → Memᴰ w records
      × (authorized_secret self.authorities w ≡ some secret)
      × ((x : VerifiedRecord)
          → Memᴰ x records
          → authorized_secret self.authorities x ≡ some secret
          → compare_lww x w ≢ gt)
latest_authorized_secret_record-greatest self records highest secret w h =
    let (from, above, _) =
      scan-Wins self.authorities secret records none w
        (sym (latest_authorized_secret_record-scan self records highest secret) ∙ h) in
    elim from [ inl e ↦ absurd (ground arith) | inr (m, a) ↦ (m, a, above) ]

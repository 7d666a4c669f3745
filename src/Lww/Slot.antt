-- ===== src/Lww/Slot.antt =====
-- The slot of one key: after any run of pushes it holds exactly the records of the greatest counter.
use thorax.Prelude.{
  ◌≤◌, ◌<◌, ◌≡◌, refl, sym, ap, ◌∙◌, ◌⊎◌, inl, inr, List, [], ◌∷◌, ◌++◌, arith, Memᴰ, Bool-cases,
  ltb, nat_beq, subst,
}
use thorax.Lww.{VerifiedRecord, counter_of, slot_push}

abbrev pub OneLevel : List VerifiedRecord → Type 0
OneLevel slot = (x y : VerifiedRecord) → Memᴰ x slot → Memᴰ y slot → counter_of x ≡ counter_of y

Memᴰ-snoc {ℓ} :
    {A : Type ℓ} {x : A} (xs : List A) (z : A) → Memᴰ x (xs ++ z ∷ []) → Memᴰ x xs ⊎ (x ≡ z)
Memᴰ-snoc [] z (Memᴰ.head e) = inr e
Memᴰ-snoc [] z (Memᴰ.tail m) = elim m [ ]
Memᴰ-snoc (y ∷ xs) z (Memᴰ.head e) = inl (Memᴰ.head e)
Memᴰ-snoc (y ∷ xs) z (Memᴰ.tail m) = elim (Memᴰ-snoc xs z m) [
  | inl l ↦ inl (Memᴰ.tail l)
  | inr r ↦ inr r
]

Memᴰ-snoc_old {ℓ} : {A : Type ℓ} {x : A} {xs : List A} (z : A) → Memᴰ x xs → Memᴰ x (xs ++ z ∷ [])
Memᴰ-snoc_old z (Memᴰ.head e) = Memᴰ.head e
Memᴰ-snoc_old z (Memᴰ.tail m) = Memᴰ.tail (Memᴰ-snoc_old z m)

Memᴰ-snoc_new {ℓ} : {A : Type ℓ} (xs : List A) (z : A) → Memᴰ z (xs ++ z ∷ [])
Memᴰ-snoc_new [] z = Memᴰ.head refl
Memᴰ-snoc_new (x ∷ xs) z = Memᴰ.tail (Memᴰ-snoc_new xs z)

-- The three outcomes of a push onto a slot of one level.
data Pushed (slot : List VerifiedRecord) (r : VerifiedRecord) : List VerifiedRecord → Type 0 where
  cleared :
      ((x : VerifiedRecord) → Memᴰ x slot → counter_of x < counter_of r) → Pushed slot r (r ∷ [])
  joined :
      ((x : VerifiedRecord) → Memᴰ x slot → counter_of x ≡ counter_of r)
      → Pushed slot r (slot ++ r ∷ [])
  passed :
      (x : VerifiedRecord)
      → Memᴰ x slot
      → ((y : VerifiedRecord) → Memᴰ y slot → counter_of r < counter_of y)
      → Pushed slot r slot

slot_push-Pushed :
    (slot : List VerifiedRecord) (r : VerifiedRecord)
    → OneLevel slot
    → Pushed slot r (slot_push slot r)
unfolding slot_push
slot_push-Pushed [] r one = cleared (λ x m. elim m [ ])
slot_push-Pushed (leader ∷ rest) r one =
    elim (Bool-cases (ltb (counter_of leader) (counter_of r))) [
      | inl above ↦ rw above (cleared (λ x m. ground (arith, one x leader m (Memᴰ.head refl))))
      | inr not_above ↦ elim (Bool-cases (nat_beq (counter_of r) (counter_of leader))) [
        | inl same ↦
            rw (not_above, same) (joined (λ x m. ground (arith, one x leader m (Memᴰ.head refl))))
        | inr differs ↦
            rw (not_above, differs)
              (passed leader (Memᴰ.head refl)
                (λ y m. ground (arith, one y leader m (Memᴰ.head refl))))
      ]
    ]

-- What a slot keeps of the records it was offered.
pub record Keeps (offered : VerifiedRecord → Type 0) (slot : List VerifiedRecord) : Type 0 where
  pub sound : (x : VerifiedRecord) → Memᴰ x slot → offered x
  pub one_level : OneLevel slot
  pub full :
      (y : VerifiedRecord)
      → offered y
      → ((x : VerifiedRecord) × Memᴰ x slot × (counter_of y < counter_of x)) ⊎ Memᴰ y slot

abbrev pub OrIs : (VerifiedRecord → Type 0) → VerifiedRecord → VerifiedRecord → Type 0
OrIs offered r x = offered x ⊎ (x ≡ r)

-- `Keeps` speaks of the offered records only up to equivalence.
pub Keeps-iff :
    {P Q : VerifiedRecord → Type 0} (slot : List VerifiedRecord)
    → ((x : VerifiedRecord) → P x → Q x)
    → ((x : VerifiedRecord) → Q x → P x)
    → Keeps P slot
    → Keeps Q slot
Keeps-iff slot f g k = record {
  sound = λ x m. f x (k.sound x m);
  one_level = k.one_level;
  full = λ y q. k.full y (g y q);
}

module _ {offered : VerifiedRecord → Type 0} {slot : List VerifiedRecord}
    (k : Keeps offered slot) where
  level_snoc :
      (r : VerifiedRecord)
      → ((x : VerifiedRecord) → Memᴰ x slot → counter_of x ≡ counter_of r)
      → (x : VerifiedRecord) → Memᴰ x (slot ++ r ∷ [])
      → counter_of x ≡ counter_of r
  level_snoc r level x m = elim (Memᴰ-snoc slot r m) [ inl l ↦ level x l | inr e ↦ ap counter_of e ]

  alone : (r x : VerifiedRecord) → Memᴰ x (r ∷ []) → x ≡ r
  alone r x (Memᴰ.head e) = e
  alone r x (Memᴰ.tail m) = elim m [ ]

  Keeps-Pushed :
      (r : VerifiedRecord) {slot' : List VerifiedRecord}
      → Pushed slot r slot'
      → Keeps (OrIs offered r) slot'
  Keeps-Pushed r (cleared below) = record {
    sound = λ x m. inr (alone r x m);
    one_level = λ x y mx my. ap counter_of (alone r x mx ∙ sym (alone r y my));
    full = λ y h. elim h [
      | inl old ↦ inl (
        r,
        Memᴰ.head refl,
        elim (k.full y old) [ inl (x, m, l) ↦ omega (arith, below x m) | inr m ↦ below y m ],
      )
      | inr new ↦ inr (Memᴰ.head new)
    ];
  }
  Keeps-Pushed r (joined level) = record {
    sound = λ x m. elim (Memᴰ-snoc slot r m) [ inl l ↦ inl (k.sound x l) | inr e ↦ inr e ];
    one_level = λ x y mx my. level_snoc r level x mx ∙ sym (level_snoc r level y my);
    full = λ y h. elim h [
      | inl old ↦ elim (k.full y old) [
        | inl (x, m, l) ↦ inl (x, Memᴰ-snoc_old r m, l)
        | inr m ↦ inr (Memᴰ-snoc_old r m)
      ]
      | inr new ↦ inr (subst (λ z. Memᴰ z (slot ++ r ∷ [])) (sym new) (Memᴰ-snoc_new slot r))
    ];
  }
  Keeps-Pushed r (passed x m above) = record {
    sound = λ y n. inl (k.sound y n);
    one_level = k.one_level;
    full = λ y h. elim h [
      | inl old ↦ k.full y old
      | inr new ↦ inl (x, m, ground (arith, above x m, ap counter_of new))
    ];
  }

  -- A push keeps the records of the greatest counter, the new one counted in.
  pub Keeps-slot_push : (r : VerifiedRecord) → Keeps (OrIs offered r) (slot_push slot r)
  Keeps-slot_push r = Keeps-Pushed r (slot_push-Pushed slot r k.one_level)

  -- Nothing offered is above a kept record.
  pub Keeps-le : (x y : VerifiedRecord) → Memᴰ x slot → offered y → counter_of y ≤ counter_of x
  Keeps-le x y m h = elim (k.full y h) [
    | inl (z, n, l) ↦ omega (arith, k.one_level x z m n)
    | inr n ↦ omega (arith, k.one_level x y m n)
  ]

pub Keeps-nil : Keeps (λ _. ⊥) []
Keeps-nil = record {
  sound = λ x m. elim m [ ];
  one_level = λ x y m n. elim m [ ];
  full = λ y h. absurd h;
}

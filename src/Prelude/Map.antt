-- ===== src/Prelude/Map.antt =====
-- `BTreeMap` and `BTreeSet`: a map is its entries in the order of the keys, and a lookup stops at
-- the first greater key. `update k f` is `entry(k)` with `f` computing what is stored from what
-- was there; `insert`, `or_insert` and the rest are its instances.
use Prim.Native.Nat.Ordering.{lt, eq, gt}
use thorax.Prelude.Order.{Ord, Ordering-cases, ord_discrete}
use mathlib.Core.Path.{◌≡◌, refl, sym, ap₂, ap, ◌∙◌, subst}
use mathlib.Core.Logic.{◌≢◌, inl, inr}
use mathlib.Core.Bool.{Bool, true, false}
use mathlib.Core.Option.{Option, none, some}
use mathlib.Core.List.{List, [], ◌∷◌, map, Memᴰ}
use native.Mathlib.Omega.{arith}
use thorax.Prelude.Lists.{Memᴰ-cons_elim}
use thorax.Prelude.Tests.{Bool-cases, if◌then◌else◌}

abbrev pub BTreeMap {ℓ κ} : Type ℓ → Type κ → Type (ℓ ⊔ κ)
BTreeMap K V = List (K × V)

abbrev pub keys {ℓ κ} : {K : Type ℓ} {V : Type κ} → BTreeMap K V → List K
keys m = map (λ e. e.0) m

abbrev pub values {ℓ κ} : {K : Type ℓ} {V : Type κ} → BTreeMap K V → List V
values m = map (λ e. e.1) m

abbrev pub get_or {ℓ} : {A : Type ℓ} → Option A → A → A
get_or none d = d
get_or (some a) d = a

abbrev pub is_some {ℓ} : {A : Type ℓ} → Option A → Bool
is_some none = false
is_some (some a) = true

-- `BTreeSet` is the map with nothing at its keys.
abbrev pub BTreeSet {ℓ} : Type ℓ → Type ℓ
BTreeSet K = BTreeMap K (Unit {0})

module _ {ℓ κ} {K : Type ℓ} {V : Type κ} ⦃o : Ord K⦄ where
  unfoldable pub get : BTreeMap K V → K → Option V
  get [] q = none
  get ((j, w) ∷ m) q = elim (o.cmp q j) [ lt ↦ none | eq ↦ some w | gt ↦ get m q ]

  unfoldable pub update : K → (Option V → V) → BTreeMap K V → BTreeMap K V
  update k f [] = (k, f none) ∷ []
  update k f ((j, w) ∷ m) = elim (o.cmp k j) [
    | lt ↦ (k, f none) ∷ (j, w) ∷ m
    | eq ↦ (j, f (some w)) ∷ m
    | gt ↦ (j, w) ∷ update k f m
  ]

  abbrev pub insert : K → V → BTreeMap K V → BTreeMap K V
  insert k v = update k (λ _. v)

  -- `entry(k).or_insert(v)` where the entry is not changed further
  abbrev pub or_insert : K → V → BTreeMap K V → BTreeMap K V
  or_insert k v = update k (λ old. get_or old v)

  abbrev pub contains_key : BTreeMap K V → K → Bool
  contains_key m q = is_some (get m q)

  -- `BTreeMap::extend`
  unfoldable pub extend : BTreeMap K V → BTreeMap K V → BTreeMap K V
  extend m [] = m
  extend m ((k, v) ∷ more) = extend (insert k v m) more

  pub get-cons_lt :
      (k j : K) (w : V) (m : BTreeMap K V) → o.cmp k j ≡ lt → get ((j, w) ∷ m) k ≡ none
  unfolding get
  get-cons_lt k j w m h = ground arith

  pub get-cons_eq :
      (k j : K) (w : V) (m : BTreeMap K V) → o.cmp k j ≡ eq → get ((j, w) ∷ m) k ≡ some w
  unfolding get
  get-cons_eq k j w m h = ground arith

  pub get-cons_gt :
      (k j : K) (w : V) (m : BTreeMap K V) → o.cmp k j ≡ gt → get ((j, w) ∷ m) k ≡ get m k
  unfolding get
  get-cons_gt k j w m h = ground arith

  pub update-cons_self :
      (k : K) (f : Option V → V) (w : V) (m : BTreeMap K V)
      → update k f ((k, w) ∷ m) ≡ (k, f (some w)) ∷ m
  unfolding update
  update-cons_self k f w m = ground (arith, o.cmp_self k)

  -- A lookup after an update: at the key what was computed, elsewhere what was there.
  pub get-update_self :
      (k : K) (f : Option V → V) (m : BTreeMap K V) → get (update k f m) k ≡ some (f (get m k))
  unfolding get update
  get-update_self k f [] = ground (arith, o.cmp_self k)
  get-update_self k f ((j, w) ∷ m) =
      ground (arith, o.cmp_self k, o.eq_of_cmp k j, get-update_self k f m)

  pub get-update_ne :
      (q k : K) (f : Option V → V) (m : BTreeMap K V) → q ≢ k → get (update k f m) q ≡ get m q
  unfolding get update
  get-update_ne q k f [] ne = ground (arith, o.eq_of_cmp q k)
  get-update_ne q k f ((j, w) ∷ m) ne = ground (
    arith,
    o.eq_of_cmp q k,
    o.eq_of_cmp q j,
    o.eq_of_cmp k j,
    o.cmp_trans q k j,
    get-update_ne q k f m ne,
  )

pub ne_of_cmp {ℓ} : {K : Type ℓ} ⦃o : Ord K⦄ (k j : K) → o.cmp k j ≡ lt → k ≢ j
ne_of_cmp ⦃o⦄ k j h e = ground (arith, o.cmp_self j, ap (λ k. o.cmp k j) e)

-- The order of the keys, which every operation keeps.
module _ {ℓ κ} {K : Type ℓ} {V : Type κ} ⦃o : Ord K⦄ where
  abbrev pub Above : K → BTreeMap K V → Type 0
  Above k [] = Unit
  Above k ((j, w) ∷ m) = (o.cmp k j ≡ lt) × Above k m

  abbrev pub Sorted : BTreeMap K V → Type 0
  Sorted [] = Unit
  Sorted ((j, w) ∷ m) = Above j m × Sorted m

  pub Above-trans : (k j : K) (m : BTreeMap K V) → o.cmp k j ≡ lt → Above j m → Above k m
  Above-trans k j [] h a = tt
  Above-trans k j ((i, w) ∷ m) h a = (o.cmp_trans k j i h a.0, Above-trans k j m h a.1)

  Above-update :
      (k j : K) (f : Option V → V) (m : BTreeMap K V)
      → o.cmp j k ≡ lt
      → Above j m
      → Above j (update k f m)
  unfolding update
  Above-update k j f [] h a = (h, tt)
  Above-update k j f ((i, w) ∷ m) h a = ground (arith, Above-update k j f m h a.1)

  pub update-Sorted :
      (k : K) (f : Option V → V) (m : BTreeMap K V) → Sorted m → Sorted (update k f m)
  unfolding update
  update-Sorted k f [] s = (tt, tt)
  update-Sorted k f ((j, w) ∷ m) s =
      ground
        (arith, o.cmp_flip k j, Above-trans k j m, Above-update k j f m, update-Sorted k f m s.1)

  pub get_of_Above : (k : K) (m : BTreeMap K V) → Above k m → get m k ≡ none
  unfolding get
  get_of_Above k [] a = refl
  get_of_Above k ((j, w) ∷ m) a = ground arith

  pub Memᴰ_of_get : (k : K) {v : V} (m : BTreeMap K V) → get m k ≡ some v → Memᴰ (k, v) m
  unfolding get
  Memᴰ_of_get k [] h = cc
  Memᴰ_of_get k {v} ((j, w) ∷ m) h = elim (Ordering-cases (o.cmp k j)) [
    | inl (inl l) ↦ absurd (ground arith)
    | inl (inr e) ↦ Memᴰ.head (ap₂ (λ a b. (a, b)) (o.eq_of_cmp k j e) (ground arith))
    | inr g ↦ Memᴰ.tail (Memᴰ_of_get k m (ground arith))
  ]

  pub get-cons_self : (j : K) (w : V) (m : BTreeMap K V) → get ((j, w) ∷ m) j ≡ some w
  get-cons_self j w m = get-cons_eq j j w m (o.cmp_self j)

  pub get-cons_ne :
      (k j : K) (w : V) (m : BTreeMap K V) → Above j m → k ≢ j → get ((j, w) ∷ m) k ≡ get m k
  get-cons_ne k j w m a n = elim (Ordering-cases (o.cmp k j)) [
    | inl (inl l) ↦ get-cons_lt k j w m l ∙ sym (get_of_Above k m (Above-trans k j m l a))
    | inl (inr e) ↦ absurd (n (o.eq_of_cmp k j e))
    | inr g ↦ get-cons_gt k j w m g
  ]

  -- The keys of a map after an update.
  pub contains_key-update_self :
      (k : K) (f : Option V → V) (m : BTreeMap K V) → contains_key (update k f m) k ≡ true
  contains_key-update_self k f m = ap is_some (get-update_self k f m)

  pub contains_key-update_keeps :
      (q k : K) (f : Option V → V) (m : BTreeMap K V)
      → contains_key m q ≡ true
      → contains_key (update k f m) q ≡ true
  contains_key-update_keeps q k f m h = elim (ord_discrete q k) [
    | yes e ↦
        subst (λ q. contains_key (update k f m) q ≡ true) (sym e) (contains_key-update_self k f m)
    | no n ↦ ap is_some (get-update_ne q k f m n) ∙ h
  ]

  pub contains_key-insert_self :
      (k : K) (v : V) (m : BTreeMap K V) → contains_key (insert k v m) k ≡ true
  contains_key-insert_self k v m = contains_key-update_self k (λ _. v) m

  pub contains_key-insert_keeps :
      (q k : K) (v : V) (m : BTreeMap K V)
      → contains_key m q ≡ true
      → contains_key (insert k v m) q ≡ true
  contains_key-insert_keeps q k v m = contains_key-update_keeps q k (λ _. v) m

-- What holds of every entry, after an update that keeps it.
module _ {ℓ κ ι} {K : Type ℓ} {V : Type κ} ⦃o : Ord K⦄ (P : K × V → Type ι) where
  abbrev pub All : BTreeMap K V → Type (ℓ ⊔ κ ⊔ ι)
  All m = (e : K × V) → Memᴰ e m → P e

  pub update-All :
      (k : K) (f : Option V → V) (m : BTreeMap K V)
      → P (k, f none)
      → ((v : V) → P (k, v) → P (k, f (some v)))
      → All m
      → All (update k f m)
  unfolding update
  update-All k f [] fresh changed all = Memᴰ-cons_elim P fresh all
  update-All k f ((j, w) ∷ m) fresh changed all =
      let rest : All m = λ e n. all e (Memᴰ.tail n) in
      elim (Ordering-cases (o.cmp k j)) [
        | inl (inl l) ↦ rw (l, update) (Memᴰ-cons_elim P fresh all)
        | inl (inr q) ↦
            let here =
              subst (λ j. P (j, w) → P (j, f (some w))) (o.eq_of_cmp k j q) (changed w)
                (all (j, w) (Memᴰ.head refl)) in
            rw (q, update) (Memᴰ-cons_elim P here rest)
        | inr g ↦
            rw (g, update)
              (Memᴰ-cons_elim P (all (j, w) (Memᴰ.head refl)) (update-All k f m fresh changed rest))
      ]

pub Memᴰ_of_keys {ℓ κ} :
    {K : Type ℓ} {V : Type κ} (m : BTreeMap K V) (k : K) → Memᴰ k (keys m) → (v : V) × Memᴰ (k, v) m
Memᴰ_of_keys [] k h = elim h [ ]
Memᴰ_of_keys ((j, w) ∷ m) k (Memᴰ.head e) = (w, Memᴰ.head (ap (λ k. (k, w)) e))
Memᴰ_of_keys ((j, w) ∷ m) k (Memᴰ.tail h) = let (v, n) = Memᴰ_of_keys m k h in (v, Memᴰ.tail n)

-- The entries that pass a test.
module _ {ℓ κ} {K : Type ℓ} {V : Type κ} ⦃o : Ord K⦄ (keep : K → V → Bool) where
  unfoldable pub retain : BTreeMap K V → BTreeMap K V
  retain [] = []
  retain ((k, v) ∷ m) = let rest = retain m in if keep k v then insert k v rest else rest

  abbrev pub kept : K → Option V → Option V
  kept k none = none
  kept k (some v) = if keep k v then some v else none

  pub retain-Sorted : (m : BTreeMap K V) → Sorted m → Sorted (retain m)
  unfolding retain
  retain-Sorted [] s = tt
  retain-Sorted ((k, v) ∷ m) s = elim (Bool-cases (keep k v)) [
    | inl y ↦ rw (y, retain) (update-Sorted k (λ _. v) (retain m) (retain-Sorted m s.1))
    | inr n ↦ rw (n, retain) (retain-Sorted m s.1)
  ]

  get-retain_self :
      (k : K) (v : V) (m : BTreeMap K V)
      → get (retain m) k ≡ none
      → get (retain ((k, v) ∷ m)) k ≡ kept k (some v)
  unfolding retain
  get-retain_self k v m h = elim (Bool-cases (keep k v)) [
    | inl y ↦ rw (y, retain) (get-update_self k (λ _. v) (retain m))
    | inr n ↦ rw (n, retain) h
  ]

  get-retain_ne :
      (q k : K) (v : V) (m : BTreeMap K V) → q ≢ k → get (retain ((k, v) ∷ m)) q ≡ get (retain m) q
  unfolding retain
  get-retain_ne q k v m ne = elim (Bool-cases (keep k v)) [
    | inl y ↦ rw (y, retain) (get-update_ne q k (λ _. v) (retain m) ne)
    | inr n ↦ rw (n, retain) refl
  ]

  pub get-retain : (q : K) (m : BTreeMap K V) → Sorted m → get (retain m) q ≡ kept q (get m q)
  unfolding retain get
  get-retain q [] s = refl
  get-retain q ((k, v) ∷ m) (a, s) = elim (ord_discrete q k) [
    | yes e ↦
        let below : get (retain m) k ≡ none = get-retain k m s ∙ ap (kept k) (get_of_Above k m a) in
        subst (λ q. get (retain ((k, v) ∷ m)) q ≡ kept q (get ((k, v) ∷ m) q)) (sym e)
          (get-retain_self k v m below ∙ ap (kept k) (sym (get-cons_self k v m)))
    | no n ↦
        get-retain_ne q k v m n ∙ get-retain q m s ∙ ap (kept q) (sym (get-cons_ne q k v m a n))
  ]

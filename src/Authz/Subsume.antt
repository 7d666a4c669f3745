-- ===== src/Authz/Subsume.antt =====
-- When one keyspace covers another (`selector_subsumes` of authz.rs).
use thorax.Prelude.{
  ◌≡◌, refl, ap, sym, Bool, true, List, [], ◌∷◌, Option, none, some, arith, ◌==◌, eq_of_==, ==_refl,
  Memᴰ, contains, Memᴰ_of_contains, all, all-elim, all-intro, find?, find?-elim, &&-elim, &&-intro,
  subst,
}
use thorax.Format.Selector.{
  Text, SecretSelectorV1, TupleMatcherV1, exact, starting, LabelMatcherV1, equals, one_of,
  KeyspaceLabelMatcherV1, KeyspaceSelectorV1, bytes_eq, texts_eq,
}
use thorax.Authz.{
  starts_with, tuple_matches, tuple_subsumes, secret_label_value, child_label_matcher,
  label_matches, label_subsumes, labels_subsume, selector_matches, selector_subsumes,
}

pub starts_with_self : (a : List Text) → starts_with a a ≡ true
unfolding starts_with
starts_with_self [] = refl
starts_with_self (x ∷ xs) = ground (arith, ==_refl x, starts_with_self xs)

pub starts_with_trans :
    (a b c : List Text) → starts_with b a ≡ true → starts_with c b ≡ true → starts_with c a ≡ true
unfolding starts_with
starts_with_trans [] b [] p q = refl
starts_with_trans [] b (z ∷ zs) p q = refl
starts_with_trans (x ∷ xs) [] c p q = cc
starts_with_trans (x ∷ xs) (y ∷ ys) [] p q = cc
starts_with_trans (x ∷ xs) (y ∷ ys) (z ∷ zs) p q =
    ground (arith, eq_of_== y x, eq_of_== z y, ==_refl x, starts_with_trans xs ys zs)

tuple_subsumes_sound :
    (parent child : TupleMatcherV1) (tuple : List Text)
    → tuple_subsumes parent child ≡ true
    → tuple_matches child tuple ≡ true
    → tuple_matches parent tuple ≡ true
unfolding tuple_subsumes tuple_matches
tuple_subsumes_sound TupleMatcherV1.any c t p q = refl
tuple_subsumes_sound (starting ps) TupleMatcherV1.any t p q = cc
tuple_subsumes_sound (starting ps) (exact cs) t p q =
    ground (arith, eq_of_== cs t, ap (λ l. starts_with l ps) (eq_of_== cs t q))
tuple_subsumes_sound (starting ps) (starting cs) t p q = starts_with_trans ps cs t p q
tuple_subsumes_sound (exact ps) TupleMatcherV1.any t p q = cc
tuple_subsumes_sound (exact ps) (starting cs) t p q = cc
tuple_subsumes_sound (exact ps) (exact cs) t p q =
    ground (arith, eq_of_== ps cs, eq_of_== cs t, ==_refl ps)

-- What every value of a list satisfies, one that the list contains satisfies.
contained :
    (P : Text → Bool) (values : List Text) (v : Text)
    → all P values ≡ true
    → contains values v ≡ true
    → P v ≡ true
contained P values v h m = all-elim P h (Memᴰ_of_contains values v m)

label_subsumes_sound :
    (parent child : LabelMatcherV1) (value : Option Text)
    → label_subsumes parent (some child) ≡ true
    → label_matches child value ≡ true
    → label_matches parent value ≡ true
unfolding label_subsumes label_matches
label_subsumes_sound (equals a) (equals b) (some v) p q = ground (arith, eq_of_== a b, ==_refl a)
label_subsumes_sound (equals a) (one_of bs) (some v) p q = contained (λ x. x == a) bs v p q
label_subsumes_sound (one_of as_) (equals b) (some v) p q =
    ground (arith, ap (contains as_) (eq_of_== v b q))
label_subsumes_sound (one_of as_) (one_of bs) (some v) p q = contained (contains as_) bs v p q
label_subsumes_sound _ _ none p q = ground arith
label_subsumes_sound _ _ _ p q = ground arith

label_subsumes_trans :
    (a b : LabelMatcherV1) (c : Option LabelMatcherV1)
    → label_subsumes a (some b) ≡ true
    → label_subsumes b c ≡ true
    → label_subsumes a c ≡ true
unfolding label_subsumes
label_subsumes_trans (equals a) (equals b) (some (equals c)) p q =
    ground (arith, eq_of_== a b, eq_of_== b c, ==_refl a)
label_subsumes_trans (equals a) (equals b) (some (one_of cs)) p q =
    subst (λ x. all (λ v. v == x) cs ≡ true) (sym (eq_of_== a b p)) q
label_subsumes_trans (equals a) (one_of bs) (some (equals c)) p q =
    ground (arith, eq_of_== c a (contained (λ x. x == a) bs c p q), ==_refl c)
label_subsumes_trans (equals a) (one_of bs) (some (one_of cs)) p q =
    all-intro _ cs (λ v m. contained (λ x. x == a) bs v p (all-elim (contains bs) q m))
label_subsumes_trans (one_of as_) (equals b) (some (equals c)) p q =
    subst (λ x. contains as_ x ≡ true) (eq_of_== b c q) p
label_subsumes_trans (one_of as_) (equals b) (some (one_of cs)) p q =
    all-intro _ cs (λ v m.
      subst (λ x. contains as_ x ≡ true) (sym (eq_of_== v b (all-elim (λ x. x == b) q m))) p)
label_subsumes_trans (one_of as_) (one_of bs) (some (equals c)) p q =
    contained (contains as_) bs c p q
label_subsumes_trans (one_of as_) (one_of bs) (some (one_of cs)) p q =
    all-intro _ cs (λ v m. contained (contains as_) bs v p (all-elim (contains bs) q m))
label_subsumes_trans a b none p q = q
label_subsumes_trans _ _ (some _) p q = ground arith

-- A label of a covering selector finds, in the covered one, a label of its key that it covers.
covering_label :
    (parent child : KeyspaceSelectorV1) (l : KeyspaceLabelMatcherV1)
    → labels_subsume parent child ≡ true
    → Memᴰ l parent.labels
    → (c : KeyspaceLabelMatcherV1) × Memᴰ c child.labels
      × (c.key ≡ l.key)
      × (label_subsumes l.matcher (some c.matcher) ≡ true)
unfolding labels_subsume child_label_matcher
covering_label parent child l p m =
    go (find? (λ (c : KeyspaceLabelMatcherV1). c.key == l.key) child.labels) refl (all-elim _ p m)
  where
    go :
        (o : Option KeyspaceLabelMatcherV1)
        → find? (λ (c : KeyspaceLabelMatcherV1). c.key == l.key) child.labels ≡ o
        → label_subsumes l.matcher (child_label_matcher child l.key) ≡ true
        → (c : KeyspaceLabelMatcherV1) × Memᴰ c child.labels
          × (c.key ≡ l.key)
          × (label_subsumes l.matcher (some c.matcher) ≡ true)
    go none e q = absurd (unfold label_subsumes in ground (arith, e, q))
    go (some c) e q =
        let (mc, k) = find?-elim _ child.labels e in
        (c, mc, eq_of_== c.key l.key k, ground (arith, e, q))

labels_sound :
    (parent child : KeyspaceSelectorV1) (secret : SecretSelectorV1)
    → labels_subsume parent child ≡ true
    → all
        (λ (l : KeyspaceLabelMatcherV1). label_matches l.matcher (secret_label_value secret l.key))
        child.labels
      ≡ true
    → all
        (λ (l : KeyspaceLabelMatcherV1). label_matches l.matcher (secret_label_value secret l.key))
        parent.labels
      ≡ true
labels_sound parent child secret p q = all-intro _ parent.labels (λ l m.
    let (c, mc, k, s) = covering_label parent child l p m in
    label_subsumes_sound l.matcher c.matcher (secret_label_value secret l.key) s (
      subst (λ key. label_matches c.matcher (secret_label_value secret key) ≡ true) k
        (all-elim _ q mc)))

labels_trans :
    (a b c : KeyspaceSelectorV1)
    → labels_subsume a b ≡ true
    → labels_subsume b c ≡ true
    → labels_subsume a c ≡ true
unfolding labels_subsume
labels_trans a b c p q = all-intro _ a.labels (λ l m.
    let (lb, mb, k, s) = covering_label a b l p m in
    label_subsumes_trans l.matcher lb.matcher (child_label_matcher c l.key) s (
      subst (λ key. label_subsumes lb.matcher (child_label_matcher c key) ≡ true) k
        (all-elim _ q mb)))

tuple_subsumes_trans :
    (a b c : TupleMatcherV1)
    → tuple_subsumes a b ≡ true
    → tuple_subsumes b c ≡ true
    → tuple_subsumes a c ≡ true
unfolding tuple_subsumes
tuple_subsumes_trans TupleMatcherV1.any b c p q = refl
tuple_subsumes_trans (starting a) (starting b) (starting c) p q = starts_with_trans a b c p q
tuple_subsumes_trans (starting a) (starting b) (exact c) p q = starts_with_trans a b c p q
tuple_subsumes_trans (starting a) (exact b) (exact c) p q =
    subst (λ x. starts_with x a ≡ true) (eq_of_== b c q) p
tuple_subsumes_trans (exact a) (exact b) (exact c) p q =
    subst (λ x. (a == x) ≡ true) (eq_of_== b c q) p
tuple_subsumes_trans _ _ _ p q = ground arith

-- A keyspace selector that subsumes another matches every secret that the other matches: labels
-- and tuple, with no condition on how either selector was written.
pub selector_subsumes_sound :
    (parent child : KeyspaceSelectorV1) (secret : SecretSelectorV1)
    → selector_subsumes parent child ≡ true
    → selector_matches child secret ≡ true
    → selector_matches parent secret ≡ true
unfolding selector_subsumes selector_matches
selector_subsumes_sound parent child secret p q =
    let (pt, pl) = &&-elim _ _ p in
    let (qt, ql) = &&-elim _ _ q in
    &&-intro _ _ (tuple_subsumes_sound parent.tuple child.tuple secret.tuple pt qt)
      (labels_sound parent child secret pl ql)

-- Subsumption of keyspace selectors is transitive.
pub selector_subsumes_trans :
    (a b c : KeyspaceSelectorV1)
    → selector_subsumes a b ≡ true
    → selector_subsumes b c ≡ true
    → selector_subsumes a c ≡ true
unfolding selector_subsumes
selector_subsumes_trans a b c p q =
    let (pt, pl) = &&-elim _ _ p in
    let (qt, ql) = &&-elim _ _ q in
    &&-intro _ _ (tuple_subsumes_trans a.tuple b.tuple c.tuple pt qt) (labels_trans a b c pl ql)

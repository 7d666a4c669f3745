-- ===== src/Structure/Reflexive.antt =====
-- A selector that passes the checks subsumes itself.
use Prim.Native.Nat.Ordering.{lt}
use thorax.Prelude.{
  Bool, true, false, &&-intro, List, [], ◌∷◌, map, Option, none, some, lex, ◌≡◌, refl, sym, ap, ◌∙◌,
  Memᴰ, arith, find?, all-intro, ◌==◌, ==_refl, ==_of_ne, contains, contains_of_Memᴰ, bytes_ord,
  lex-IsTotal, subst,
}
use thorax.Prelude.Map.{ne_of_cmp}
use thorax.Format.Selector.{
  Text, TupleMatcherV1, LabelMatcherV1, KeyspaceLabelMatcherV1, KeyspaceSelectorV1, starting, exact,
  equals, one_of, absent, bytes_eq, texts_eq,
}
use thorax.Authz.{
  tuple_subsumes, child_label_matcher, label_subsumes, labels_subsume, selector_subsumes,
}
use thorax.Authz.Subsume.{starts_with_self}
use thorax.Structure.{
  Defect, and_then, ensure, ascending, sorted_unique, validate_sorted_unique_keyspace_labels,
  validate_keyspace_selector,
}

ascending-cons :
    (k x : Text) (xs : List Text)
    → ascending k (x ∷ xs) ≡ true
    → (lex k x ≡ lt) × (ascending x xs ≡ true)
unfolding ascending
ascending-cons k x xs h = (ground arith, ground arith)

ascending-lt :
    (k : Text) (ks : List Text) (j : Text) → ascending k ks ≡ true → Memᴰ j ks → lex k j ≡ lt
ascending-lt k [] j h m = elim m [ ]
ascending-lt k (x ∷ xs) j h (Memᴰ.head e) =
    subst (λ j. lex k j ≡ lt) (sym e) (ascending-cons k x xs h).0
ascending-lt k (x ∷ xs) j h (Memᴰ.tail m) =
    let (l, r) = ascending-cons k x xs h in lex-IsTotal.cmp_trans k x j l (ascending-lt x xs j r m)

tuple_subsumes_self : (t : TupleMatcherV1) → tuple_subsumes t t ≡ true
unfolding tuple_subsumes
tuple_subsumes_self TupleMatcherV1.any = refl
tuple_subsumes_self (exact parts) = ==_refl parts
tuple_subsumes_self (starting parts) = starts_with_self parts

label_subsumes_self : (m : LabelMatcherV1) → label_subsumes m (some m) ≡ true
unfolding label_subsumes
label_subsumes_self LabelMatcherV1.any = refl
label_subsumes_self (equals value) = ==_refl value
label_subsumes_self (one_of values) =
    all-intro (λ value. contains values value) values (λ x m. contains_of_Memᴰ m)
label_subsumes_self absent = refl

abbrev key_of_label : KeyspaceLabelMatcherV1 → Text
key_of_label label = label.key

Memᴰ-keys :
    (l : KeyspaceLabelMatcherV1) (ls : List KeyspaceLabelMatcherV1)
    → Memᴰ l ls
    → Memᴰ l.key (map key_of_label ls)
Memᴰ-keys l [] m = elim m [ ]
Memᴰ-keys l (x ∷ ls) (Memᴰ.head e) = Memᴰ.head (ap key_of_label e)
Memᴰ-keys l (x ∷ ls) (Memᴰ.tail m) = Memᴰ.tail (Memᴰ-keys l ls m)

sorted_of_ascending : (k : Text) (ks : List Text) → ascending k ks ≡ true → sorted_unique ks ≡ true
unfolding sorted_unique
sorted_of_ascending k [] h = refl
sorted_of_ascending k (x ∷ xs) h = (ascending-cons k x xs h).1

-- Under ascending keys the first label with a label's key is that label.
find?-own :
    (l : KeyspaceLabelMatcherV1) (ls : List KeyspaceLabelMatcherV1)
    → sorted_unique (map key_of_label ls) ≡ true
    → Memᴰ l ls
    → find? (λ (x : KeyspaceLabelMatcherV1). x.key == l.key) ls ≡ some l
unfolding find? sorted_unique
find?-own l [] h m = elim m [ ]
find?-own l (x ∷ ls) h (Memᴰ.head e) =
    subst (λ x. find? (λ (x : KeyspaceLabelMatcherV1). x.key == l.key) (x ∷ ls) ≡ some l) e
      (ground (arith, ==_refl l.key))
find?-own l (x ∷ ls) h (Memᴰ.tail m) =
    let ks = map key_of_label ls in
    let n = ne_of_cmp x.key l.key (ascending-lt x.key ks l.key h (Memᴰ-keys l ls m)) in
    let rest = find?-own l ls (sorted_of_ascending x.key ks h) m in
    ground (arith, ==_of_ne x.key l.key n, rest)

abbrev matcher_of : Option KeyspaceLabelMatcherV1 → Option LabelMatcherV1
matcher_of x = elim x [ none ↦ none | some label ↦ some label.matcher ]

labels_subsume_self :
    (s : KeyspaceSelectorV1)
    → sorted_unique (map key_of_label s.labels) ≡ true
    → labels_subsume s s ≡ true
unfolding labels_subsume child_label_matcher
labels_subsume_self s h = all-intro _ s.labels (λ (l : KeyspaceLabelMatcherV1) m.
    ap (λ x. label_subsumes l.matcher (matcher_of x)) (find?-own l s.labels h m)
    ∙ label_subsumes_self l.matcher)

and_then-none : (a b : Option Defect) → and_then a b ≡ none → (a ≡ none) × (b ≡ none)
and_then-none none b h = (refl, h)
and_then-none (some d) b h = cc

ensure-none : (b : Bool) (d : Defect) → ensure b d ≡ none → b ≡ true
ensure-none true d h = refl
ensure-none false d h = cc

-- A keyspace selector that passes the structural checks subsumes itself.
pub validate_keyspace_selector-reflexive :
    (s : KeyspaceSelectorV1) → validate_keyspace_selector s ≡ none → selector_subsumes s s ≡ true
unfolding validate_keyspace_selector validate_sorted_unique_keyspace_labels selector_subsumes
validate_keyspace_selector-reflexive s h =
    let (_, q) = and_then-none _ _ h in
    let (l, _) = and_then-none _ _ q in
    &&-intro _ _ (tuple_subsumes_self s.tuple) (labels_subsume_self s (ensure-none _ _ l))

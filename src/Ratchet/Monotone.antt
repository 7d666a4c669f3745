-- ===== src/Ratchet/Monotone.antt =====
-- `apply_update` never lowers what a ratchet remembers, and raises it exactly to the update.
use Prim.Native.Nat.{max}
use thorax.Prelude.{
  ℕ, ◌≡◌, ◌≢◌, refl, sym, ap, ap₂, ◌∙◌, [], ◌∷◌, Option, none, some, arith, ord_discrete, subst,
}
use thorax.Prelude.Map.{
  BTreeMap, get, get_or, or_insert, get-update_self, get-update_ne, Sorted, Above, get_of_Above,
  get-cons_self, get-cons_ne, update-Sorted,
}
use thorax.Format.Key.{RecordKey, key_ord}
use thorax.Format.RatchetRecord.{KeyOrigin}
use thorax.Ratchet.{
  Ratchet, RatchetUpdate, raise, raise_all, remember_all, raise_version, apply_update,
}

abbrev pub level : BTreeMap RecordKey ℕ → RecordKey → ℕ
level watermarks k = get_or (get watermarks k) 0

-- The counter remembered at a key, 0 if there is none.
abbrev pub watermark : Ratchet → RecordKey → ℕ
watermark r k = level r.watermarks k

pub level-raise_self :
    (k : RecordKey) (c : ℕ) (m : BTreeMap RecordKey ℕ) → level (raise k c m) k ≡ max (level m k) c
unfolding raise
level-raise_self k c m =
    ap (λ o. get_or o 0) (get-update_self k (λ entry. max (get_or entry 0) c) m)

pub level-raise_ne :
    (k j : RecordKey) (c : ℕ) (m : BTreeMap RecordKey ℕ) → k ≢ j → level (raise j c m) k ≡ level m k
unfolding raise
level-raise_ne k j c m n =
    ap (λ o. get_or o 0) (get-update_ne k j (λ entry. max (get_or entry 0) c) m n)

pub raise-Sorted :
    (k : RecordKey) (c : ℕ) (m : BTreeMap RecordKey ℕ) → Sorted m → Sorted (raise k c m)
unfolding raise
raise-Sorted k c m s = update-Sorted k (λ entry. max (get_or entry 0) c) m s

pub level-cons_self : (j : RecordKey) (c : ℕ) (m : BTreeMap RecordKey ℕ) → level ((j, c) ∷ m) j ≡ c
level-cons_self j c m = ap (λ o. get_or o 0) (get-cons_self j c m)

pub level-cons_ne :
    (k j : RecordKey) (c : ℕ) (m : BTreeMap RecordKey ℕ)
    → Above j m
    → k ≢ j
    → level ((j, c) ∷ m) k ≡ level m k
level-cons_ne k j c m a n = ap (λ o. get_or o 0) (get-cons_ne k j c m a n)

pub level_of_Above : (k : RecordKey) (m : BTreeMap RecordKey ℕ) → Above k m → level m k ≡ 0
level_of_Above k m a = ap (λ o. get_or o 0) (get_of_Above k m a)

level-raise_all_head :
    (j : RecordKey) (c : ℕ) (m raised : BTreeMap RecordKey ℕ)
    → Above j raised
    → level (raise_all (raise j c m) raised) j ≡ max (level (raise j c m) j) (level raised j)
    → level (raise_all (raise j c m) raised) j ≡ max (level m j) (level ((j, c) ∷ raised) j)
level-raise_all_head j c m raised a h =
    omega (arith, h, level_of_Above j raised a, level-raise_self j c m, level-cons_self j c raised)

pub level-raise_all :
    (k : RecordKey) (m raised : BTreeMap RecordKey ℕ)
    → Sorted raised
    → level (raise_all m raised) k ≡ max (level m k) (level raised k)
unfolding raise_all
level-raise_all k m [] s = unfold get in omega arith
level-raise_all k m ((j, c) ∷ raised) s = elim (ord_discrete k j) [
  | yes e ↦
      subst
        (λ k.
          level (raise_all (raise j c m) raised) k ≡ max (level m k) (level ((j, c) ∷ raised) k))
        (sym e) (level-raise_all_head j c m raised s.0 (level-raise_all j (raise j c m) raised s.1))
  | no n ↦ omega (
    arith,
    level-raise_all k (raise j c m) raised s.1,
    level-raise_ne k j c m n,
    level-cons_ne k j c raised s.0 n,
  )
]

raise_all-Sorted : (m raised : BTreeMap RecordKey ℕ) → Sorted m → Sorted (raise_all m raised)
unfolding raise_all
raise_all-Sorted m [] s = s
raise_all-Sorted m ((j, c) ∷ raised) s =
    raise_all-Sorted (raise j c m) raised (raise-Sorted j c m s)

raise_version_lem : (n : ℕ) (o : Option ℕ) → raise_version n o ≡ max n (get_or o 0)
unfolding raise_version
raise_version_lem n none = omega arith
raise_version_lem n (some v) = refl

-- If the update's watermarks are in the order of the keys, then applying it leaves at every key
-- the larger of the counter remembered before and the counter of the update (0 where there is
-- none), the format version is raised in the same way, and the watermarks stay in the order of the
-- keys.
pub apply_update-raises :
    (r : Ratchet) (u : RatchetUpdate)
    → Sorted u.raised_watermarks
    → ((k : RecordKey)
        → watermark (apply_update r u) k ≡ max (watermark r k) (level u.raised_watermarks k))
      × ((apply_update r u).format_version
          ≡ max r.format_version (get_or u.raised_format_version 0))
      × (Sorted r.watermarks → Sorted (apply_update r u).watermarks)
unfolding apply_update
apply_update-raises r u s = (
  λ k. level-raise_all k r.watermarks u.raised_watermarks s,
  raise_version_lem r.format_version u.raised_format_version,
  λ t. raise_all-Sorted r.watermarks u.raised_watermarks t,
)

abbrev pub or_else {ℓ} : {A : Type ℓ} → Option A → Option A → Option A
or_else none b = b
or_else (some a) b = some a

or_else-none {ℓ} : {A : Type ℓ} (x : Option A) → x ≡ or_else x none
or_else-none none = refl
or_else-none (some a) = refl

or_else-some {ℓ} :
    {A : Type ℓ} (x y : Option A) (o : A) → or_else (some (get_or x o)) y ≡ or_else x (some o)
or_else-some none y o = refl
or_else-some (some a) y o = refl

or_insert-head :
    (k : RecordKey) (o : KeyOrigin) (m rest : BTreeMap RecordKey KeyOrigin)
    → or_else (get (or_insert k o m) k) (get rest k) ≡ or_else (get m k) (get ((k, o) ∷ rest) k)
or_insert-head k o m rest =
    ap (λ x. or_else x (get rest k)) (get-update_self k (λ old. get_or old o) m)
    ∙ or_else-some (get m k) (get rest k) o
    ∙ sym (ap (or_else (get m k)) (get-cons_self k o rest))

remember_all_lem :
    (k : RecordKey) (m rest : BTreeMap RecordKey KeyOrigin)
    → Sorted rest
    → get (remember_all m rest) k ≡ or_else (get m k) (get rest k)
unfolding remember_all
remember_all_lem k m [] s = unfold get in or_else-none (get m k)
remember_all_lem k m ((j, o) ∷ rest) s = elim (ord_discrete k j) [
  | yes e ↦
      remember_all_lem k (or_insert j o m) rest s.1
      ∙ subst
          (λ k.
            or_else (get (or_insert j o m) k) (get rest k)
            ≡ or_else (get m k) (get ((j, o) ∷ rest) k))
          (sym e) (or_insert-head j o m rest)
  | no n ↦
      remember_all_lem k (or_insert j o m) rest s.1
      ∙ ap₂ or_else (get-update_ne k j (λ old. get_or old o) m n)
          (sym (get-cons_ne k j o rest s.0 n))
]

-- If the update's origins are in the order of the keys, then an origin once remembered is never
-- replaced: after the update the origin at a key is the one that was there before, else the one
-- the update brings. The trusted root and the records of a newer version are not touched.
pub apply_update-origins :
    (r : Ratchet) (u : RatchetUpdate)
    → Sorted u.origins
    → ((k : RecordKey)
        → get (apply_update r u).origins k ≡ or_else (get r.origins k) (get u.origins k))
      × ((apply_update r u).trusted_root ≡ r.trusted_root)
      × ((apply_update r u).unknown_records ≡ r.unknown_records)
unfolding apply_update
apply_update-origins r u s = (λ k. remember_all_lem k r.origins u.origins s, refl, refl)

-- ===== src/Join/OneValue.antt =====
-- A serialisation of one value, for the tests of encodings.
use thorax.Prelude.{◌≡◌, refl, sym, ap, Option, none, some}
use thorax.Format.Selector.{Bytes}
use thorax.Join.{ArtifactCodec}

unfoldable pub written_as : {A : Type 0} {x y : A} → Dec (x ≡ y) → Bytes → Option Bytes
written_as (yes e) payload = some payload
written_as (no ne) payload = none

pub written_as-some :
    {A : Type 0} {x y : A} (d : Dec (x ≡ y)) (payload read_from : Bytes)
    → written_as d payload ≡ some read_from
    → some y ≡ some x
unfolding written_as
written_as-some (yes e) payload read_from h = ap some (sym e)
written_as-some (no ne) payload read_from h = cc

pub written_as_self :
    {A : Type 0} {x : A} (d : Dec (x ≡ x)) (payload : Bytes) → written_as d payload ≡ some payload
unfolding written_as
written_as_self (yes e) payload = refl
written_as_self (no ne) payload = absurd (ne refl)

-- A serialisation of one value.
abbrev pub only : {A : Type 0} → Discrete A → A → Bytes → ArtifactCodec A
only eq value payload = record {
  serialize = λ a. written_as (eq a value) payload;
  deserialize = λ p. some value;
  deserialize-serialize = λ a p h. written_as-some (eq a value) payload p h;
}

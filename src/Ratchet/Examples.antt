-- ===== src/Ratchet/Examples.antt =====
-- A ratchet of a user, a handle and a secret, and the theorems at it.
use Prim.Native.Nat.{max}
use thorax.Prelude.{◌≡◌, ◌≢◌, refl, [], ◌∷◌, none, some, bytes_ord, lex, Memᴰ, subst, sym, arith}
use thorax.Prelude.Map.{get, get_or, update, Sorted, Memᴰ_of_get}
use thorax.Format.Selector.{text}
use thorax.Format.Key.{RecordKey, key_ord}
use thorax.Format.RatchetRecord.{
  KeyOrigin, for_key, user_handle_of, vault_handle_of, membership_of, selector_of, key_of, counter,
  origin,
}
use thorax.Ratchet.{
  Ratchet, RatchetUpdate, new, raise, raise_all, remember_all, raise_version, apply_update,
  watermark_records, version_records, to_records, absorb_origin, absorb_at, absorb_keyed,
  absorb_record, absorb_all,
}
use thorax.Ratchet.Monotone.{level, watermark, or_else, apply_update-raises, apply_update-origins}
use thorax.Ratchet.Restore.{Fits, IsRestorable, to_records-roundtrip}

runs : Unit {0}
unfolding lex key_ord get update for_key user_handle_of vault_handle_of membership_of selector_of
    key_of counter origin new raise raise_all remember_all raise_version apply_update
    watermark_records version_records to_records absorb_origin absorb_at absorb_keyed absorb_record
    absorb_all
runs = tt

abbrev ann : RecordKey
ann = RecordKey.user (1 ∷ [])

abbrev ann_handle : RecordKey
ann_handle = RecordKey.user_handle (4 ∷ [])

abbrev password : RecordKey
password = RecordKey.secret (9 ∷ [])

abbrev remembered : Ratchet
remembered = record {
  trusted_root = 0 ∷ [];
  watermarks = (ann, 3) ∷ (ann_handle, 2) ∷ (password, 5) ∷ [];
  origins = (ann_handle, KeyOrigin.user_handle (text "ann")) ∷ [];
  format_version = 1;
  unknown_records = [];
}

-- The user is read at a lower counter, the secret at a higher one, under another name.
abbrev update_seen : RatchetUpdate
update_seen = record {
  raised_watermarks = (ann, 2) ∷ (password, 8) ∷ [];
  origins = (ann_handle, KeyOrigin.user_handle (text "bob")) ∷ [];
  raised_format_version = some 2;
}

only_raised :
    (apply_update remembered update_seen).watermarks
    ≡ (ann, 3) ∷ (ann_handle, 2) ∷ (password, 8) ∷ []
unfolding runs
only_raised = refl

apply_update-raises_example :
    ((k : RecordKey)
      → watermark (apply_update remembered update_seen) k
        ≡ max (watermark remembered k) (level update_seen.raised_watermarks k))
    × ((apply_update remembered update_seen).format_version
        ≡ max remembered.format_version (get_or update_seen.raised_format_version 0))
    × (Sorted remembered.watermarks → Sorted (apply_update remembered update_seen).watermarks)
unfolding runs
apply_update-raises_example = apply_update-raises remembered update_seen (((refl, tt), (tt, tt)))

apply_update-origins_example :
    ((k : RecordKey)
      → get (apply_update remembered update_seen).origins k
        ≡ or_else (get remembered.origins k) (get update_seen.origins k))
    × ((apply_update remembered update_seen).trusted_root ≡ remembered.trusted_root)
    × ((apply_update remembered update_seen).unknown_records ≡ remembered.unknown_records)
apply_update-origins_example = apply_update-origins remembered update_seen (tt, tt)

-- The only origin, with its key.
only_origin : (p q : RecordKey × KeyOrigin) → Memᴰ p (q ∷ []) → p ≡ q
only_origin p q (Memᴰ.head e) = e
only_origin p q (Memᴰ.tail m) = elim m [ ]

origin_cases :
    (k : RecordKey) (o : KeyOrigin)
    → get remembered.origins k ≡ some o
    → Fits k o × (get remembered.watermarks k ≢ none)
unfolding runs
origin_cases k o h =
    subst (λ p. Fits p.0 p.1 × (get remembered.watermarks p.0 ≢ none))
      (sym (
        only_origin (k, o) (ann_handle, KeyOrigin.user_handle (text "ann"))
          (Memᴰ_of_get k remembered.origins h)))
      (λ e. ground (arith, e), λ e. ground (arith, e))

remembered-IsRestorable : IsRestorable remembered
unfolding runs
remembered-IsRestorable = (((refl, (refl, tt)), ((refl, tt), (tt, tt))), refl, origin_cases)

to_records-roundtrip_example :
    ((k : RecordKey)
      → (get (absorb_all (new (0 ∷ [])) (to_records remembered)).watermarks k
          ≡ get remembered.watermarks k)
        × (get (absorb_all (new (0 ∷ [])) (to_records remembered)).origins k
            ≡ get remembered.origins k))
    × ((absorb_all (new (0 ∷ [])) (to_records remembered)).format_version ≡ 1)
    × ((absorb_all (new (0 ∷ [])) (to_records remembered)).trusted_root ≡ 0 ∷ [])
to_records-roundtrip_example = to_records-roundtrip remembered remembered-IsRestorable

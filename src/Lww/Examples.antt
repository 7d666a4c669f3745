-- ===== src/Lww/Examples.antt =====
-- Two writes and a deletion of one secret, and the theorems at them.
use thorax.Prelude.{
  bytes_ord, ℕ, ◌≤◌, ◌≡◌, ◌≢◌, ◌↔◌, ◌⊎◌, refl, List, [], ◌∷◌, Option, none, some, Memᴰ, true, any,
  lex,
}
use thorax.Prelude.Map.{get, contains_key, update}
use thorax.Format.Selector.{text}
use thorax.Format.Key.{RecordKey, SecretId, key_ord}
use thorax.Format.Body.{secret_deleted, unknown_kind, lww_counter, body_eq}
use thorax.Lww.{
  VerifiedRecord, counter_of, slot_push, min_by_hash, diverging, winner_of, conflict_slot,
  conflict_of, sort, dedup, offer, collect, settle_winners, settle_conflicts, lww_resolution,
}
use thorax.Lww.Collect.{Competes}
use thorax.Lww.Winner.{winner_highest}
use thorax.Lww.Converge.{IsHighest, winner_or_conflict, winner_converges}

runs : Unit {0}
unfolding lww_counter counter_of slot_push min_by_hash diverging winner_of conflict_slot conflict_of
    sort dedup offer collect settle_winners settle_conflicts lww_resolution get update any lex
    key_ord body_eq
runs = tt

-- A deletion of the secret 7, by its counter and record hash.
abbrev deletion : ℕ → ℕ → VerifiedRecord
deletion counter hash = record {
  signed = record { body = unknown_kind []; signing_public_key = []; signature = [] };
  body = secret_deleted (record {
    id = 7 ∷ [];
    selector = record { tuple = text "app" ∷ []; labels = [] };
    counter = counter;
  });
  key = RecordKey.secret (7 ∷ []);
  record_hash = hash ∷ [];
  signer = 1 ∷ [];
}

abbrev classify : VerifiedRecord → Option SecretId
classify r = elim r.key [ RecordKey.secret id ↦ some id | _ ↦ none ]

abbrev log : List VerifiedRecord
log = deletion 2 5 ∷ deletion 3 8 ∷ deletion 3 6 ∷ []

abbrev reversed : List VerifiedRecord
reversed = deletion 3 6 ∷ deletion 3 8 ∷ deletion 2 5 ∷ []

-- The higher counter wins; of equal bodies, the lower hash.
log_winner : get (lww_resolution log [] classify).winners (7 ∷ []) ≡ some (deletion 3 6)
unfolding runs
log_winner = refl

winner_highest_example :
    Memᴰ (deletion 3 6) log
    × Competes [] classify (7 ∷ []) (deletion 3 6)
    × ((y : VerifiedRecord)
        → Memᴰ y log
        → Competes [] classify (7 ∷ []) y
        → (counter_of y ≤ counter_of (deletion 3 6))
          × (counter_of y ≡ counter_of (deletion 3 6) → y.body ≡ (deletion 3 6).body))
winner_highest_example = winner_highest [] classify (7 ∷ []) log (deletion 3 6) log_winner

winner_or_conflict_example :
    ((w : VerifiedRecord) × (get (lww_resolution log [] classify).winners (7 ∷ []) ≡ some w))
    ⊎ ((y z : VerifiedRecord) × IsHighest [] classify (7 ∷ []) log y
        × IsHighest [] classify (7 ∷ []) log z
        × (y.body ≢ z.body)
        × (contains_key (lww_resolution log [] classify).conflicted z.key ≡ true))
unfolding runs
winner_or_conflict_example =
    winner_or_conflict [] classify (7 ∷ []) log (deletion 2 5) (Memᴰ.head refl)
      (record { no_rollback = refl; classified = refl })

same_records : (x : VerifiedRecord) → Memᴰ x log ↔ Memᴰ x reversed
same_records x = (there, back)
  where
    there : Memᴰ x log → Memᴰ x reversed
    there (Memᴰ.head p) = Memᴰ.tail (Memᴰ.tail (Memᴰ.head p))
    there (Memᴰ.tail (Memᴰ.head p)) = Memᴰ.tail (Memᴰ.head p)
    there (Memᴰ.tail (Memᴰ.tail (Memᴰ.head p))) = Memᴰ.head p
    there (Memᴰ.tail (Memᴰ.tail (Memᴰ.tail m))) = elim m [ ]

    back : Memᴰ x reversed → Memᴰ x log
    back (Memᴰ.head p) = Memᴰ.tail (Memᴰ.tail (Memᴰ.head p))
    back (Memᴰ.tail (Memᴰ.head p)) = Memᴰ.tail (Memᴰ.head p)
    back (Memᴰ.tail (Memᴰ.tail (Memᴰ.head p))) = Memᴰ.head p
    back (Memᴰ.tail (Memᴰ.tail (Memᴰ.tail m))) = elim m [ ]

winner_converges_example :
    (v : VerifiedRecord) × (get (lww_resolution reversed [] classify).winners (7 ∷ []) ≡ some v)
    × (v.body ≡ (deletion 3 6).body)
winner_converges_example =
    winner_converges [] classify (7 ∷ []) log reversed (deletion 3 6) same_records log_winner

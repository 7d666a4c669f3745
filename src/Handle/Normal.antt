-- ===== src/Handle/Normal.antt =====
-- Normalisation and validity of handles.
use Prim.Native.Nat.{◌/◌}
use thorax.Prelude.{
  ℕ, ◌≤◌, ◌+◌, Bool, true, false, List, [], ◌∷◌, ◌++◌, map, length, all, ◌≡◌, refl, sym, ap, ap₂,
  ◌∙◌, arith, Bool-cases, inl, inr, ltb,
}
use thorax.Handle.{
  is_whitespace, trim_start, push_front, trim_end, to_ascii_lowercase, normalize_handle, utf8_char,
  as_bytes, max_handle_len, is_alnum, is_inner, is_valid_bytes, is_valid_handle,
}

-- A character that normalisation leaves alone.
abbrev Clean : ℕ → Type 0
Clean c = (is_whitespace c ≡ false) × (to_ascii_lowercase c ≡ c)

abbrev AllClean : List ℕ → Type 0
AllClean [] = Unit
AllClean (c ∷ cs) = Clean c × AllClean cs

Clean-inner : (c : ℕ) → is_inner c ≡ true → Clean c
unfolding is_inner is_alnum is_whitespace to_ascii_lowercase
Clean-inner c h = (ground arith, ground arith)

-- A byte of a character beyond ASCII is not in a handle.
high-outer : (b : ℕ) → 128 ≤ b → is_inner b ≡ false
unfolding is_inner is_alnum
high-outer b h = ground arith

inner-utf8 :
    (c : ℕ) (rest : List ℕ)
    → all is_inner (utf8_char c ++ rest) ≡ true
    → (is_inner c ≡ true) × (all is_inner rest ≡ true)
unfolding utf8_char all
inner-utf8 c rest h = elim (Bool-cases (ltb c 128)) [
  | inl e ↦ (ground arith, ground arith)
  | inr e ↦ absurd (
      ground (
        arith,
        high-outer (192 + c / 64) (omega arith),
        high-outer (224 + c / 4096) (omega arith),
        high-outer (240 + c / 262144) (omega arith),
      ))
]

AllClean-bytes : (h : List ℕ) → all is_inner (as_bytes h) ≡ true → AllClean h
unfolding as_bytes
AllClean-bytes [] e = tt
AllClean-bytes (c ∷ cs) e =
    let (i, r) = inner-utf8 c (as_bytes cs) e in (Clean-inner c i, AllClean-bytes cs r)

trim_start-AllClean : (h : List ℕ) → AllClean h → trim_start h ≡ h
unfolding trim_start
trim_start-AllClean [] a = refl
trim_start-AllClean (c ∷ cs) a = ground (arith, a.0.0)

push_front-false : (b : Bool) (c : ℕ) (cs : List ℕ) → b ≡ false → push_front b c cs ≡ c ∷ cs
push_front-false false c cs e = refl
push_front-false true c cs e = cc

trim_end-AllClean : (h : List ℕ) → AllClean h → trim_end h ≡ h
unfolding trim_end
trim_end-AllClean [] a = refl
trim_end-AllClean (c ∷ cs) a =
    push_front-false (is_whitespace c) c (trim_end cs) a.0.0
    ∙ ap (λ cs. c ∷ cs) (trim_end-AllClean cs a.1)

lowercase-AllClean : (h : List ℕ) → AllClean h → map to_ascii_lowercase h ≡ h
lowercase-AllClean [] a = refl
lowercase-AllClean (c ∷ cs) a = ap₂ (λ c cs. c ∷ cs) a.0.1 (lowercase-AllClean cs a.1)

normalize_handle-AllClean : (h : List ℕ) → AllClean h → normalize_handle h ≡ h
unfolding normalize_handle
normalize_handle-AllClean h a =
    ap (λ h. map to_ascii_lowercase (trim_end h)) (trim_start-AllClean h a)
    ∙ ap (map to_ascii_lowercase) (trim_end-AllClean h a)
    ∙ lowercase-AllClean h a

is_valid_bytes-elim :
    (bytes : List ℕ)
    → is_valid_bytes bytes ≡ true
    → (all is_inner bytes ≡ true) × (length bytes ≤ max_handle_len) × (1 ≤ length bytes)
unfolding is_valid_bytes
is_valid_bytes-elim [] h = cc
is_valid_bytes-elim (b ∷ bytes) h = (ground arith, ground arith, ground arith)

-- A valid handle is its own normal form, and its UTF-8 encoding is at least 1 byte long and at
-- most 64 bytes long.
pub is_valid_handle-normal :
    (handle : List ℕ)
    → is_valid_handle handle ≡ true
    → (normalize_handle handle ≡ handle)
      × (length (as_bytes handle) ≤ max_handle_len)
      × (1 ≤ length (as_bytes handle))
unfolding is_valid_handle
is_valid_handle-normal handle h =
    let (i, u, l) = is_valid_bytes-elim (as_bytes handle) h in
    (normalize_handle-AllClean handle (AllClean-bytes handle i), u, l)

is_whitespace-lower : (c : ℕ) → is_whitespace (to_ascii_lowercase c) ≡ is_whitespace c
unfolding is_whitespace to_ascii_lowercase
is_whitespace-lower c = ground arith

lower_again : (c : ℕ) → to_ascii_lowercase (to_ascii_lowercase c) ≡ to_ascii_lowercase c
unfolding to_ascii_lowercase
lower_again c = ground arith

map-lower_again :
    (h : List ℕ) → map to_ascii_lowercase (map to_ascii_lowercase h) ≡ map to_ascii_lowercase h
map-lower_again [] = refl
map-lower_again (c ∷ cs) = ap₂ (λ c cs. c ∷ cs) (lower_again c) (map-lower_again cs)

trim_start-map :
    (h : List ℕ) → trim_start (map to_ascii_lowercase h) ≡ map to_ascii_lowercase (trim_start h)
unfolding trim_start
trim_start-map [] = refl
trim_start-map (c ∷ cs) = ground (arith, is_whitespace-lower c, trim_start-map cs)

push_front-map :
    (b : Bool) (c : ℕ) (rest : List ℕ)
    → push_front b (to_ascii_lowercase c) (map to_ascii_lowercase rest)
      ≡ map to_ascii_lowercase (push_front b c rest)
push_front-map true c [] = refl
push_front-map true c (r ∷ rs) = refl
push_front-map false c rest = refl

trim_end-map :
    (h : List ℕ) → trim_end (map to_ascii_lowercase h) ≡ map to_ascii_lowercase (trim_end h)
unfolding trim_end
trim_end-map [] = refl
trim_end-map (c ∷ cs) =
    ap₂ (λ b t. push_front b (to_ascii_lowercase c) t) (is_whitespace-lower c) (trim_end-map cs)
    ∙ push_front-map (is_whitespace c) c (trim_end cs)

trim_end-push_front :
    (b : Bool) (c : ℕ) (rest : List ℕ)
    → is_whitespace c ≡ b
    → trim_end rest ≡ rest
    → trim_end (push_front b c rest) ≡ push_front b c rest
unfolding trim_end
trim_end-push_front true c [] w e = refl
trim_end-push_front true c (r ∷ rs) w e = ap₂ (λ b t. push_front b c t) w e
trim_end-push_front false c rest w e = ap₂ (λ b t. push_front b c t) w e

trim_end_again : (h : List ℕ) → trim_end (trim_end h) ≡ trim_end h
unfolding trim_end
trim_end_again [] = refl
trim_end_again (c ∷ cs) =
    trim_end-push_front (is_whitespace c) c (trim_end cs) refl (trim_end_again cs)

trim_start-kept : (c : ℕ) (t : List ℕ) → is_whitespace c ≡ false → trim_start (c ∷ t) ≡ c ∷ t
unfolding trim_start
trim_start-kept c t w = ground arith

trim_end-kept : (c : ℕ) (t : List ℕ) → is_whitespace c ≡ false → trim_end (c ∷ t) ≡ c ∷ trim_end t
unfolding trim_end
trim_end-kept c t w = push_front-false (is_whitespace c) c (trim_end t) w

trim_start-skipped :
    (c : ℕ) (t : List ℕ) → is_whitespace c ≡ true → trim_start (c ∷ t) ≡ trim_start t
unfolding trim_start
trim_start-skipped c t w = ground arith

-- Neither side of a trimmed string has anything left to trim.
trim_start-trimmed : (h : List ℕ) → trim_start (trim_end (trim_start h)) ≡ trim_end (trim_start h)
unfolding trim_start trim_end
trim_start-trimmed [] = refl
trim_start-trimmed (c ∷ cs) = elim (Bool-cases (is_whitespace c)) [
  | inl w ↦
      let e = trim_start-skipped c cs w in
      ap (λ h. trim_start (trim_end h)) e ∙ trim_start-trimmed cs ∙ sym (ap trim_end e)
  | inr w ↦
      let e = ap trim_end (trim_start-kept c cs w) ∙ trim_end-kept c cs w in
      ap trim_start e ∙ trim_start-kept c (trim_end cs) w ∙ sym e
]

-- Normalising a handle a second time changes nothing, whatever characters it has.
normalize_handle_again :
    (handle : List ℕ) → normalize_handle (normalize_handle handle) ≡ normalize_handle handle
unfolding normalize_handle
normalize_handle_again handle =
    let t = trim_end (trim_start handle) in
    ap (λ h. map to_ascii_lowercase (trim_end h)) (trim_start-map t)
    ∙ ap (map to_ascii_lowercase) (trim_end-map (trim_start t))
    ∙ map-lower_again (trim_end (trim_start t))
    ∙ ap (λ h. map to_ascii_lowercase (trim_end h)) (trim_start-trimmed handle)
    ∙ ap (map to_ascii_lowercase) (trim_end_again (trim_start handle))

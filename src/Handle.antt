-- ===== src/Handle.antt =====
-- Handles (crates/thorax-core/src/ids.rs). A handle is its code points, as in the records that hold
-- one, and `as_bytes` is its UTF-8 encoding.
pub mod Normal
mod Examples
use Prim.Native.Nat.{◌/◌, ◌%◌}
use thorax.Prelude.{
  ℕ, ◌+◌, Bool, true, false, ◌&&◌, ◌||◌, if◌then◌else◌, List, [], ◌∷◌, ◌++◌, map, length, all, ltb,
  leb, nat_beq,
}
use thorax.Format.Selector.{Bytes, Chars}

-- `char::is_whitespace`, the property White_Space.
unfoldable pub is_whitespace : ℕ → Bool
is_whitespace c =
    leb 9 c && leb c 13
    || nat_beq c 32
    || nat_beq c 133
    || nat_beq c 160
    || nat_beq c 5760
    || leb 8192 c && leb c 8202
    || nat_beq c 8232
    || nat_beq c 8233
    || nat_beq c 8239
    || nat_beq c 8287
    || nat_beq c 12288

-- The two sides of `str::trim`.
unfoldable pub trim_start : Chars → Chars
trim_start [] = []
trim_start (c ∷ cs) = if is_whitespace c then trim_start cs else c ∷ cs

abbrev pub push_front : Bool → ℕ → Chars → Chars
push_front true c [] = []
push_front _ c rest = c ∷ rest

unfoldable pub trim_end : Chars → Chars
trim_end [] = []
trim_end (c ∷ cs) = push_front (is_whitespace c) c (trim_end cs)

unfoldable pub to_ascii_lowercase : ℕ → ℕ
to_ascii_lowercase c = if leb 65 c && leb c 90 then c + 32 else c

unfoldable pub normalize_handle : Chars → Chars
normalize_handle handle = map to_ascii_lowercase (trim_end (trim_start handle))

unfoldable pub utf8_char : ℕ → Bytes
utf8_char c =
    if ltb c 128
    then c ∷ []
    else if ltb c 2048
    then (192 + c / 64) ∷ (128 + c % 64) ∷ []
    else if ltb c 65536
    then (224 + c / 4096) ∷ (128 + (c / 64) % 64) ∷ (128 + c % 64) ∷ []
    else ((240 + c / 262144)
        ∷ (128 + (c / 4096) % 64)
        ∷ (128 + (c / 64) % 64)
        ∷ (128 + c % 64)
        ∷ [])

unfoldable pub as_bytes : Chars → Bytes
as_bytes [] = []
as_bytes (c ∷ cs) = utf8_char c ++ as_bytes cs

abbrev pub max_handle_len : ℕ
max_handle_len = 64

unfoldable pub is_alnum : ℕ → Bool
is_alnum b = leb 97 b && leb b 122 || leb 48 b && leb b 57

unfoldable pub is_inner : ℕ → Bool
is_inner b = is_alnum b || nat_beq b 45 || nat_beq b 95

abbrev last_or : ℕ → Bytes → ℕ
last_or b [] = b
last_or b (c ∷ cs) = last_or c cs

unfoldable pub is_valid_bytes : Bytes → Bool
is_valid_bytes [] = false
is_valid_bytes (b ∷ bytes) =
    if ltb max_handle_len (length (b ∷ bytes))
    then false
    else (is_alnum b && is_alnum (last_or b bytes) && all is_inner (b ∷ bytes))

unfoldable pub is_valid_handle : Chars → Bool
is_valid_handle handle = is_valid_bytes (as_bytes handle)

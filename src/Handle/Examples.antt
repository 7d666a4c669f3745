-- ===== src/Handle/Examples.antt =====
-- Handles that are valid, and one that is normalised.
use thorax.Prelude.{◌≤◌, ◌≡◌, refl, [], ◌∷◌, true, false, length, all}
use thorax.Format.Selector.{text}
use thorax.Handle.{
  is_whitespace, trim_start, trim_end, to_ascii_lowercase, normalize_handle, utf8_char, as_bytes,
  is_alnum, is_inner, is_valid_bytes, is_valid_handle, max_handle_len,
}
use thorax.Handle.Normal.{is_valid_handle-normal}

runs : Unit {0}
unfolding is_whitespace trim_start trim_end to_ascii_lowercase normalize_handle utf8_char as_bytes
    is_alnum is_inner is_valid_bytes is_valid_handle all
runs = tt

deploy_bot : is_valid_handle (text "deploy-bot") ≡ true
unfolding runs
deploy_bot = refl

accented : is_valid_handle (99 ∷ 97 ∷ 102 ∷ 233 ∷ []) ≡ false
unfolding runs
accented = refl

trimmed : normalize_handle (text " Alice ") ≡ text "alice"
unfolding runs
trimmed = refl

is_valid_handle-normal_example :
    (normalize_handle (text "deploy-bot") ≡ text "deploy-bot")
    × (length (as_bytes (text "deploy-bot")) ≤ max_handle_len)
    × (1 ≤ length (as_bytes (text "deploy-bot")))
is_valid_handle-normal_example = is_valid_handle-normal (text "deploy-bot") deploy_bot

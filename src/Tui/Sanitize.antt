-- ===== src/Tui/Sanitize.antt =====
-- The scrubbing of control characters (crates/muxtop-tui/src/ui/sanitize.rs).
-- A string is the list of its code points, and `bytes` is its UTF-8 encoding.
pub mod Clean
use muxtop.Base.{
  ℕ, ◌+◌, ◌/◌, ◌%◌, ◌^◌, Bool, true, false, not, ◌&&◌, ◌||◌, List, [], ◌∷◌, ◌++◌, ltb, ◌==◌,
  if◌then◌else◌,
}

abbrev pub utf8 : ℕ → List ℕ
utf8 c =
    if ltb c 128
    then c ∷ []
    else if ltb c 2048
    then (192 + c / 64) ∷ (128 + c % 64) ∷ []
    else if ltb c 65536
    then (224 + c / 4096) ∷ (128 + (c / 64) % 64) ∷ (128 + c % 64) ∷ []
    else (240 + c / 262144) ∷ (128 + (c / 4096) % 64) ∷ (128 + (c / 64) % 64) ∷ (128 + c % 64) ∷ []

abbrev pub bytes : List ℕ → List ℕ
bytes [] = []
bytes (c ∷ cs) = utf8 c ++ bytes cs

unfoldable pub is_offending : ℕ → Bool
is_offending b = (ltb b 32 && not (b == 9)) || (b == 127)

unfoldable pub any_offending : List ℕ → Bool
any_offending [] = false
any_offending (b ∷ bs) = is_offending b || any_offending bs

unfoldable pub scrub_char : ℕ → ℕ
unfolding is_offending
scrub_char code = if ltb code 128 && is_offending (code % 2 ^ 8) then 63 else code

-- The loop over the characters.
unfoldable pub scrub_chars : List ℕ → List ℕ
unfolding scrub_char
scrub_chars [] = []
scrub_chars (c ∷ cs) = scrub_char c ∷ scrub_chars cs

-- A string without an offending byte is returned as it is.
unfoldable pub scrub_ctrl : List ℕ → List ℕ
unfolding any_offending scrub_chars
scrub_ctrl s = if not (any_offending (bytes s)) then s else scrub_chars s

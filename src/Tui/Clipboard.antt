-- ===== src/Tui/Clipboard.antt =====
-- The clipboard over OSC 52 (crates/muxtop-tui/src/clipboard.rs). Writing to the terminal is a
-- parameter; its state is passed explicitly.
pub mod Decode
use muxtop.Base.{
  ℕ, ◌+◌, ◌*◌, ◌/◌, ◌%◌, Bool, true, false, List, [], ◌∷◌, ◌++◌, Result, ok, err, length, ltb, ◌==◌,
  if◌then◌else◌, get_or,
}
use muxtop.Base.Texts.{codes}
use muxtop.Core.Process.{Text}
use muxtop.Tui.Sanitize.{bytes}

abbrev pub max_payload : ℕ
max_payload = 4096

abbrev pub alphabet : List ℕ
alphabet = codes "ABCDEFGHIJKLMNOPQRSTUVWXYZabcdefghijklmnopqrstuvwxyz0123456789+/"

unfoldable pub symbol : ℕ → ℕ
symbol i = get_or alphabet (i % 64) 0

-- The three bytes of a chunk as one number.
abbrev pub word : ℕ → ℕ → ℕ → ℕ
word a b c = a * 65536 + b * 256 + c

-- The loop over the chunks of three bytes; a short last chunk is padded.
unfoldable pub base64 : List ℕ → List ℕ
unfolding symbol
base64 [] = []
base64 (a ∷ []) = symbol (word a 0 0 / 262144) ∷ symbol (word a 0 0 / 4096) ∷ b'=' ∷ b'=' ∷ []
base64 (a ∷ b ∷ []) =
    symbol (word a b 0 / 262144) ∷ symbol (word a b 0 / 4096) ∷ symbol (word a b 0 / 64) ∷ b'=' ∷ []
base64 (a ∷ b ∷ c ∷ rest) =
    symbol (word a b c / 262144)
    ∷ symbol (word a b c / 4096)
    ∷ symbol (word a b c / 64)
    ∷ symbol (word a b c)
    ∷ base64 rest

-- The escape sequence that carries the payload.
abbrev pub sequence : Text → List ℕ
sequence text = 27 ∷ (codes "]52;c;" ++ (base64 (bytes text) ++ (7 ∷ [])))

abbrev pub is_empty : Text → Bool
is_empty [] = true
is_empty (c ∷ cs) = false

module _ {Terminal : Type 0} (write_all : List ℕ → Terminal → Bool × Terminal) where
  -- The flag of the writer says whether the write and the flush succeeded.
  abbrev pub written : Bool × Terminal → Result Text (Unit {0}) × Terminal
  written (true, t) = (ok tt, t)
  written (false, t) = (err (codes "terminal write failed"), t)

  unfoldable pub copy : Text → Terminal → Result Text (Unit {0}) × Terminal
  unfolding base64
  copy text t =
      if is_empty text
      then (err (codes "nothing to copy"), t)
      else if ltb max_payload (length (bytes text))
      then (err (codes "selection is too large to copy"), t)
      else written (write_all (sequence text) t)

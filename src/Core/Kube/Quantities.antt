-- ===== src/Core/Kube/Quantities.antt =====
-- Kubernetes quantities (crates/muxtop-core/src/kube_engine.rs). The parsing of floats is a
-- parameter.
pub mod Digits
pub mod Suffixes
use mathlib.Core.List.{reverse}
use muxtop.Base.{
  ℕ, ◌+◌, ◌-◌, ◌*◌, ◌/◌, ◌%◌, ◌^◌, min, Bool, true, false, ◌&&◌, ◌||◌, Option, none, some, List, [],
  ◌∷◌, leb, ltb, ◌==◌, if◌then◌else◌,
}
use muxtop.Base.Texts.{codes, trim}
use muxtop.Core.Process.{Text}

-- `char::is_whitespace`.
abbrev pub is_whitespace : ℕ → Bool
is_whitespace c =
    (leb 9 c && leb c 13)
    || c == 32
    || c == 0x85
    || c == 0xA0
    || c == 0x1680
    || (leb 0x2000 c && leb c 0x200A)
    || c == 0x2028
    || c == 0x2029
    || c == 0x202F
    || c == 0x205F
    || c == 0x3000

abbrev pub strip_prefix : Text → Text → Option Text
strip_prefix [] s = some s
strip_prefix (p ∷ ps) [] = none
strip_prefix (p ∷ ps) (c ∷ cs) = let rest = strip_prefix ps cs in if c == p then rest else none

abbrev pub reversed : Option Text → Option Text
reversed none = none
reversed (some s) = some (reverse s)

abbrev pub strip_suffix : Text → Text → Option Text
strip_suffix suffix s = reversed (strip_prefix (reverse suffix) (reverse s))

-- The digits of `parse::<uW>`, where an overflow is an error.
abbrev pub digits_from : ℕ → ℕ → Text → Option ℕ
digits_from width acc [] = some acc
digits_from width acc (c ∷ cs) =
    let rest = digits_from width (acc * 10 + (c - b'0')) cs in
    if leb b'0' c && leb c b'9' && ltb (acc * 10 + (c - b'0')) (2 ^ width) then rest else none

abbrev pub after_sign : ℕ → ℕ → Text → Option ℕ
after_sign width c [] = if c == b'+' then none else digits_from width 0 (c ∷ [])
after_sign width c (d ∷ cs) =
    if c == b'+' then digits_from width 0 (d ∷ cs) else digits_from width 0 (c ∷ d ∷ cs)

unfoldable pub parse : ℕ → Text → Option ℕ
parse width [] = none
parse width (c ∷ cs) = after_sign width c cs

abbrev pub or_zero : Option ℕ → ℕ
or_zero none = 0
or_zero (some n) = n

abbrev pub saturating_mul : ℕ → ℕ → ℕ → ℕ
saturating_mul width a b = min (a * b) (2 ^ width - 1)

abbrev pub scaled : ℕ → Option ℕ → ℕ
scaled mult none = 0
scaled mult (some n) = saturating_mul 64 n mult

abbrev pub multipliers : List (Text × ℕ)
multipliers =
    (codes "Ti", 2 ^ 40)
    ∷ (codes "Gi", 2 ^ 30)
    ∷ (codes "Mi", 2 ^ 20)
    ∷ (codes "Ki", 2 ^ 10)
    ∷ (codes "T", 1000000000000)
    ∷ (codes "G", 1000000000)
    ∷ (codes "M", 1000000)
    ∷ (codes "K", 1000)
    ∷ []

-- The loop over the suffixes.
abbrev pub by_suffix : List (Text × ℕ) → Text → ℕ
by_suffix [] s = or_zero (parse 64 s)
by_suffix ((suffix, mult) ∷ rest) s = elim (strip_suffix suffix s) [
  | some stripped ↦ scaled mult (parse 64 stripped)
  | none ↦ by_suffix rest s
]

unfoldable pub parse_quantity_to_bytes : Text → ℕ
unfolding parse
parse_quantity_to_bytes raw = by_suffix multipliers (trim is_whitespace raw)

-- `(n / unit) as u32`
abbrev pub as_millis : ℕ → Option ℕ → ℕ
as_millis unit none = 0
as_millis unit (some n) = n / unit % 2 ^ 32

-- `(s.parse::<f64>()? * 1000.0).round() as u32`
module _ (float_millis : Text → Option ℕ) where
  abbrev pub whole_or_float : Text → Option ℕ → ℕ
  whole_or_float s (some n) = saturating_mul 32 n 1000
  whole_or_float s none = or_zero (float_millis s)

  abbrev pub millis_of : Text → Option Text → ℕ
  millis_of s (some stripped) = or_zero (parse 32 stripped)
  millis_of s none = whole_or_float s (parse 32 s)

  unfoldable pub parse_quantity_to_millis : Text → ℕ
  unfolding parse
  parse_quantity_to_millis raw =
      let s = trim is_whitespace raw in millis_of s (strip_suffix (codes "m") s)

  abbrev pub micro_or_other : Text → Option Text → ℕ
  micro_or_other s (some stripped) = as_millis 1000 (parse 64 stripped)
  micro_or_other s none = parse_quantity_to_millis s

  abbrev pub nano_or_other : Text → Option Text → ℕ
  nano_or_other s (some stripped) = as_millis 1000000 (parse 64 stripped)
  nano_or_other s none = micro_or_other s (strip_suffix (codes "u") s)

  unfoldable pub parse_metrics_cpu_to_millis : Text → ℕ
  unfolding parse_quantity_to_millis
  parse_metrics_cpu_to_millis raw =
      let s = trim is_whitespace raw in nano_or_other s (strip_suffix (codes "n") s)

-- ===== src/Core/Kube/Quantities/Suffixes.antt =====
-- Amounts of memory with their suffixes (crates/muxtop-core/src/kube_engine.rs).
use mathlib.Core.List.{reverse, reverse-append, reverse-reverse, reverse-cons, append-nil}
use muxtop.Base.{
  ℕ, ◌+◌, ◌-◌, ◌*◌, ◌^◌, ◌<◌, min, ◌≡◌, refl, sym, ap, ◌∙◌, false, none, some, List, [], ◌∷◌, ◌++◌,
  ◌==◌, ltb, if◌then◌else◌, All, arith,
}
use muxtop.Base.Texts.{codes, trim, trim_start}
use muxtop.Core.Process.{Text}
use muxtop.Core.Kube.Quantities.{
  is_whitespace, strip_prefix, reversed, parse, or_zero, scaled, multipliers, by_suffix,
  parse_quantity_to_bytes,
}
use muxtop.Core.Kube.Quantities.Digits.{text, value, AreDigits, fitting, parse-text}

pub data Suffix : Type 0 where
  tebi gibi mebi kibi tera giga mega kilo bytes : Suffix

abbrev pub spelled : Suffix → Text
spelled tebi = codes "Ti"
spelled gibi = codes "Gi"
spelled mebi = codes "Mi"
spelled kibi = codes "Ki"
spelled tera = codes "T"
spelled giga = codes "G"
spelled mega = codes "M"
spelled kilo = codes "K"
spelled bytes = []

abbrev pub factor : Suffix → ℕ
factor tebi = 1024 ^ 4
factor gibi = 1024 ^ 3
factor mebi = 1024 ^ 2
factor kibi = 1024
factor tera = 1000 ^ 4
factor giga = 1000 ^ 3
factor mega = 1000 ^ 2
factor kilo = 1000
factor bytes = 1

-- The bytes, as far as a u64 holds them; a number beyond u64 is unreadable.
abbrev pub amount : ℕ → ℕ → ℕ
amount n unit = if ltb n (2 ^ 64) then min (n * unit) (2 ^ 64 - 1) else 0

space_of_digit : (d : ℕ) → d < 10 → is_whitespace (b'0' + d) ≡ false
space_of_digit d h = ground arith

trim_start_stays :
    (c : ℕ) (cs : Text) → is_whitespace c ≡ false → trim_start is_whitespace (c ∷ cs) ≡ c ∷ cs
trim_start_stays c cs h = rw h refl

trim_stays :
    (x : ℕ) (xs : Text) (z : ℕ) (zs : Text)
    → is_whitespace x ≡ false
    → is_whitespace z ≡ false
    → reverse (x ∷ xs) ≡ z ∷ zs
    → trim is_whitespace (x ∷ xs) ≡ x ∷ xs
trim_stays x xs z zs hx hz e =
    ap (λ s. reverse (trim_start is_whitespace (reverse s))) (trim_start_stays x xs hx)
    ∙ ap (λ s. reverse (trim_start is_whitespace s)) e
    ∙ ap reverse (trim_start_stays z zs hz)
    ∙ ap reverse (sym e)
    ∙ reverse-reverse (x ∷ xs)

-- The loop over the suffixes, with the text read from its end.
abbrev from_end : List (Text × ℕ) → Text → Text → ℕ
from_end [] r s = or_zero (parse 64 s)
from_end ((suffix, mult) ∷ rest) r s = elim (reversed (strip_prefix (reverse suffix) r)) [
  | some stripped ↦ scaled mult (parse 64 stripped)
  | none ↦ from_end rest r s
]

by_suffix-from_end : (s : Text) → by_suffix multipliers s ≡ from_end multipliers (reverse s) s
by_suffix-from_end s = refl

scaled-fitting : (unit n : ℕ) → scaled unit (fitting 64 n) ≡ amount n unit
scaled-fitting unit n = ground arith

unit_amount : (n : ℕ) → or_zero (fitting 64 n) ≡ amount n 1
unit_amount n = ground arith

-- A text whose last characters are known.
read_from_end :
    (x : ℕ) (xs : Text) (z : ℕ) (zs : Text)
    → is_whitespace x ≡ false
    → is_whitespace z ≡ false
    → reverse (x ∷ xs) ≡ z ∷ zs
    → parse_quantity_to_bytes (x ∷ xs) ≡ from_end multipliers (z ∷ zs) (x ∷ xs)
unfolding parse_quantity_to_bytes
read_from_end x xs z zs hx hz e =
    ap (by_suffix multipliers) (trim_stays x xs z zs hx hz e)
    ∙ ap (λ r. from_end multipliers r (x ∷ xs)) e

last_digit :
    (d : ℕ) (ds : List ℕ)
    → AreDigits (d ∷ ds)
    → (e : ℕ) × (es : Text) × (reverse (text (d ∷ ds)) ≡ (b'0' + e) ∷ es) × (e < 10)
last_digit d [] (h, hs) = (d, [], refl, h)
last_digit d (e ∷ es) (h, hs) =
    let (z, zs, same, small) = last_digit e es hs in
    (
      z,
      zs ++ (b'0' + d) ∷ [],
      reverse-cons (b'0' + d) (text (e ∷ es)) ∙ ap (λ l. l ++ (b'0' + d) ∷ []) same,
      small,
    )

is_letter : (d c : ℕ) → d < 10 → 58 < c → (b'0' + d == c) ≡ false
is_letter d c h k = ground arith

from_end_misses :
    (ms : List (Text × ℕ)) (r s : Text)
    → All (λ m. strip_prefix (reverse m.0) r ≡ none) ms
    → from_end ms r s ≡ or_zero (parse 64 s)
from_end_misses [] r s h = refl
from_end_misses ((suffix, mult) ∷ rest) r s (h, hs) = rw (h, from_end) (from_end_misses rest r s hs)

misses :
    (p : ℕ) (ps : Text) (e : ℕ) (es : Text)
    → e < 10
    → 58 < p
    → strip_prefix (p ∷ ps) ((b'0' + e) ∷ es) ≡ none
misses p ps e es h k = rw (is_letter e p h k) refl

from_end-digit :
    (e : ℕ) (es s : Text) → e < 10 → from_end multipliers ((b'0' + e) ∷ es) s ≡ or_zero (parse 64 s)
from_end-digit e es s h =
    let of_i = λ (c : ℕ). misses b'i' (c ∷ []) e es h (omega arith) in
    from_end_misses multipliers ((b'0' + e) ∷ es) s (
      of_i b'T',
      (
        of_i b'G',
        (
          of_i b'M',
          (
            of_i b'K',
            (
              misses b'T' [] e es h (omega arith),
              (
                misses b'G' [] e es h (omega arith),
                (misses b'M' [] e es h (omega arith), (misses b'K' [] e es h (omega arith), tt)),
              ),
            ),
          ),
        ),
      ),
    )

module _ (d : ℕ) (ds : List ℕ) (digits : AreDigits (d ∷ ds)) where
  parsed :
      (unit : ℕ)
      → scaled unit (parse 64 (reverse (reverse (text (d ∷ ds))))) ≡ amount (value 0 (d ∷ ds)) unit
  parsed unit =
      ap (λ t. scaled unit (parse 64 t)) (reverse-reverse (text (d ∷ ds)))
      ∙ ap (scaled unit) (parse-text 64 d ds digits)
      ∙ scaled-fitting unit (value 0 (d ∷ ds))

  -- The suffix is met, and cut off.
  cut :
      (suffix : Text) (z : ℕ) (zs : Text) (unit : ℕ)
      → is_whitespace z ≡ false
      → reverse suffix ≡ z ∷ zs
      → from_end multipliers ((z ∷ zs) ++ reverse (text (d ∷ ds))) (text (d ∷ ds) ++ suffix)
        ≡ scaled unit (parse 64 (reverse (reverse (text (d ∷ ds)))))
      → parse_quantity_to_bytes (text (d ∷ ds) ++ suffix) ≡ amount (value 0 (d ∷ ds)) unit
  cut suffix z zs unit hz e met =
      read_from_end (b'0' + d) (text ds ++ suffix) z (zs ++ reverse (text (d ∷ ds)))
        (space_of_digit d digits.0) hz
        (reverse-append (text (d ∷ ds)) suffix ∙ ap (λ l. l ++ reverse (text (d ∷ ds))) e)
      ∙ met
      ∙ parsed unit

  -- A decimal number with a suffix, or with none, is read as that many bytes, where the number
  -- fits a u64, and up to the greatest u64.
  pub parse_quantity_to_bytes-text :
      (u : Suffix)
      → parse_quantity_to_bytes (text (d ∷ ds) ++ spelled u) ≡ amount (value 0 (d ∷ ds)) (factor u)
  parse_quantity_to_bytes-text tebi = cut (codes "Ti") b'i' (b'T' ∷ []) (1024 ^ 4) refl refl refl
  parse_quantity_to_bytes-text gibi = cut (codes "Gi") b'i' (b'G' ∷ []) (1024 ^ 3) refl refl refl
  parse_quantity_to_bytes-text mebi = cut (codes "Mi") b'i' (b'M' ∷ []) (1024 ^ 2) refl refl refl
  parse_quantity_to_bytes-text kibi = cut (codes "Ki") b'i' (b'K' ∷ []) 1024 refl refl refl
  parse_quantity_to_bytes-text tera = cut (codes "T") b'T' [] (1000 ^ 4) refl refl refl
  parse_quantity_to_bytes-text giga = cut (codes "G") b'G' [] (1000 ^ 3) refl refl refl
  parse_quantity_to_bytes-text mega = cut (codes "M") b'M' [] (1000 ^ 2) refl refl refl
  parse_quantity_to_bytes-text kilo = cut (codes "K") b'K' [] 1000 refl refl refl
  parse_quantity_to_bytes-text bytes =
      let (e, es, same, small) = last_digit d ds digits in
      ap parse_quantity_to_bytes (append-nil (text (d ∷ ds)))
      ∙ read_from_end (b'0' + d) (text ds) (b'0' + e) es (space_of_digit d digits.0)
          (space_of_digit e small) same
      ∙ from_end-digit e es (text (d ∷ ds)) small
      ∙ ap or_zero (parse-text 64 d ds digits)
      ∙ unit_amount (value 0 (d ∷ ds))

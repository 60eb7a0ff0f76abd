-- ===== src/Core/Kube/Quantities/Digits.antt =====
-- Decimal numbers read back (the parsing of integers in crates/muxtop-core/src/kube_engine.rs).
use muxtop.Base.{
  ℕ, zero, suc, ◌+◌, ◌-◌, ◌*◌, ◌^◌, ◌≤◌, ◌<◌, ◌≡◌, refl, ◌∙◌, true, false, ◌&&◌, Bool-cases, inl,
  inr, Option, none, some, List, [], ◌∷◌, leb, ltb, ◌==◌, if◌then◌else◌, All, arith, lt→ltb, le→ltb,
  ltb→lt, ltb→le, map,
}
use muxtop.Core.Process.{Text}
use muxtop.Core.Kube.Quantities.{digits_from, parse}

-- The text of digits, and the number that they stand for, after `acc`.
abbrev pub text : List ℕ → Text
text ds = map (λ d. b'0' + d) ds

abbrev pub value : ℕ → List ℕ → ℕ
value acc [] = acc
value acc (d ∷ ds) = value (acc * 10 + d) ds

abbrev pub AreDigits : List ℕ → Type 0
AreDigits ds = All (λ d. d < 10) ds

-- A number that does not fit is no number.
abbrev pub fitting : ℕ → ℕ → Option ℕ
fitting width n = if ltb n (2 ^ width) then some n else none

value-le : (acc : ℕ) (ds : List ℕ) → acc ≤ value acc ds
value-le acc [] = omega arith
value-le acc (d ∷ ds) = omega (arith, value-le (acc * 10 + d) ds)

digit_test :
    (d : ℕ) → d < 10 → ((leb b'0' (b'0' + d) && leb (b'0' + d) b'9') ≡ true) × (b'0' + d - b'0' ≡ d)
digit_test d h = (ground arith, omega arith)

digits_from-cons :
    (width acc d : ℕ) (s : Text)
    → d < 10
    → digits_from width acc ((b'0' + d) ∷ s)
      ≡ (if ltb (acc * 10 + d) (2 ^ width) then digits_from width (acc * 10 + d) s else none)
digits_from-cons width acc d s h = let (test, back) = digit_test d h in rw back (rw test refl)

digits_from-text :
    (width acc : ℕ) (ds : List ℕ)
    → AreDigits ds
    → acc < 2 ^ width
    → digits_from width acc (text ds) ≡ fitting width (value acc ds)
digits_from-text width acc [] h b = rw (lt→ltb acc (2 ^ width) b) refl
digits_from-text width acc (d ∷ ds) (h, hs) b = elim (Bool-cases (ltb (acc * 10 + d) (2 ^ width))) [
  | inl fits ↦
      digits_from-cons width acc d (text ds) h
      ∙ rw fits (digits_from-text width (acc * 10 + d) ds hs (ltb→lt _ _ fits))
  | inr over ↦
      digits_from-cons width acc d (text ds) h
      ∙ rw over (
          rw
            (le→ltb (value (acc * 10 + d) ds) (2 ^ width)
              (omega (arith, ltb→le _ _ over, value-le (acc * 10 + d) ds)))
            refl)
]

pow_pos : (w : ℕ) → 0 < 2 ^ w
pow_pos zero = omega arith
pow_pos (suc w) = grind (arith, pow_pos w)

no_sign : (d : ℕ) → d < 10 → (b'0' + d == b'+') ≡ false
no_sign d h = ground arith

-- Digits are read as the number they stand for, if it fits.
pub parse-text :
    (width d : ℕ) (ds : List ℕ)
    → AreDigits (d ∷ ds)
    → parse width (text (d ∷ ds)) ≡ fitting width (value 0 (d ∷ ds))
unfolding parse
parse-text width d [] (h, hs) =
    rw (no_sign d h) (digits_from-text width 0 (d ∷ []) (h, hs) (pow_pos width))
parse-text width d (e ∷ es) (h, hs) =
    rw (no_sign d h) (digits_from-text width 0 (d ∷ e ∷ es) (h, hs) (pow_pos width))

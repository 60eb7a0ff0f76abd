-- ===== src/Tui/Clipboard/Decode.antt =====
-- A decoder of base64, and that it reads back what crates/muxtop-tui/src/clipboard.rs writes.
use muxtop.Base.{
  ℕ, zero, suc, ◌+◌, ◌*◌, ◌/◌, ◌%◌, ◌<◌, ◌≡◌, refl, sym, ◌∙◌, ap, ap₂, Bool, true, false, not, ◌&&◌,
  List, [], ◌∷◌, ◌++◌, arith, ◌==◌, ==_iff, All, if◌then◌else◌, get_or,
}
use muxtop.Tui.Clipboard.{alphabet, symbol, word, base64}

-- The position of a symbol in the alphabet.
abbrev position_from : ℕ → List ℕ → ℕ → ℕ
position_from i [] s = i
position_from i (a ∷ rest') s =
    let later = position_from (suc i) rest' s in if a == s then i else later

pub unsymbol : ℕ → ℕ
unsymbol s = position_from 0 alphabet s

-- What four symbols stand for; two or one of them may be padding.
abbrev pub quad : ℕ → ℕ → ℕ → ℕ → List ℕ
quad p q r s =
    let a = unsymbol p in
    let b = unsymbol q in
    let c = unsymbol r in
    let d = unsymbol s in
    let first = a * 4 + b / 16 in
    let second = (b % 16) * 16 + c / 4 in
    let third = (c % 4) * 64 + d in
    if r == b'='
    then first ∷ []
    else if s == b'='
    then first ∷ second ∷ []
    else first ∷ second ∷ third ∷ []

unfoldable pub decode : List ℕ → List ℕ
decode (p ∷ q ∷ r ∷ s ∷ rest) = quad p q r s ++ decode rest
decode [] = []
decode (p ∷ []) = []
decode (p ∷ q ∷ []) = []
decode (p ∷ q ∷ r ∷ []) = []

-- A check of every value below a bound.
all_below : ℕ → (ℕ → Bool) → Bool
all_below zero test = true
all_below (suc n) test = test n && all_below n test

all_below-test : (n : ℕ) (test : ℕ → Bool) (x : ℕ) → all_below n test ≡ true → x < n → test x ≡ true
unfolding all_below
all_below-test zero test x h lt = absurd (omega arith)
all_below-test (suc n) test x h lt = ground (arith, all_below-test n test x)

unsymbol_table : all_below 64 (λ i. unsymbol (symbol i) == i) ≡ true
unfolding all_below unsymbol symbol
unsymbol_table = refl

padding_table : all_below 64 (λ i. not (symbol i == b'=')) ≡ true
unfolding all_below symbol
padding_table = refl

symbol_mod : (n : ℕ) → symbol (n % 64) ≡ symbol n
unfolding symbol
symbol_mod n = let twice : n % 64 % 64 ≡ n % 64 = omega arith in ap (λ i. get_or alphabet i 0) twice

unsymbol-symbol : (n : ℕ) → unsymbol (symbol n) ≡ n % 64
unsymbol-symbol n =
    ap unsymbol (sym (symbol_mod n))
    ∙ (==_iff _ (n % 64)).0
        (all_below-test 64 (λ i. unsymbol (symbol i) == i) (n % 64) unsymbol_table (omega arith))

not_padding : (n : ℕ) → (symbol n == b'=') ≡ false
not_padding n =
    let h = all_below-test 64 (λ i. not (symbol i == b'=')) (n % 64) padding_table (omega arith) in
    rw (← symbol_mod n) (negated _ h)
  where
    negated : (b : Bool) → not b ≡ true → b ≡ false
    negated true e = absurd (cc e)
    negated false e = refl

-- Decoding reads back every string of bytes.
pub decode-base64 : (bs : List ℕ) → All (λ b. b < 256) bs → decode (base64 bs) ≡ bs
unfolding decode base64
decode-base64 [] h = refl
decode-base64 (a ∷ []) (ha, h) =
    let first : word a 0 0 / 262144 % 64 * 4 + word a 0 0 / 4096 % 64 / 16 ≡ a = omega arith in
    simp unsymbol-symbol (ap (λ x. x ∷ []) first)
decode-base64 (a ∷ b ∷ []) (ha, (hb, h)) =
    let first : word a b 0 / 262144 % 64 * 4 + word a b 0 / 4096 % 64 / 16 ≡ a = omega arith in
    let second : word a b 0 / 4096 % 64 % 16 * 16 + word a b 0 / 64 % 64 / 4 ≡ b = omega arith in
    simp (unsymbol-symbol, not_padding) (ap₂ (λ x y. x ∷ y ∷ []) first second)
decode-base64 (a ∷ b ∷ c ∷ rest) (ha, (hb, (hc, h))) =
    let first : word a b c / 262144 % 64 * 4 + word a b c / 4096 % 64 / 16 ≡ a = omega arith in
    let second : word a b c / 4096 % 64 % 16 * 16 + word a b c / 64 % 64 / 4 ≡ b = omega arith in
    let third : word a b c / 64 % 64 % 4 * 64 + word a b c % 64 ≡ c = omega arith in
    let ih = decode-base64 rest h in
    simp (unsymbol-symbol, not_padding) (cc (first, second, third, ih))

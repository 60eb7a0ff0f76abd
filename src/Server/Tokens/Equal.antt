-- ===== src/Server/Tokens/Equal.antt =====
-- Tokens compare equal exactly if they are equal (crates/muxtop-server/src/client.rs).
use muxtop.Base.{
  ℕ, zero, suc, ◌+◌, ◌*◌, ◌/◌, ◌%◌, ◌<◌, max, ◌≡◌, refl, sym, ap, ap₂, ◌∙◌, ◌↔◌, true, &&-split,
  List, [], ◌∷◌, ◌==◌, ==_iff, Bool-cases, inl, inr, length, get_or, All, arith,
}
use muxtop.Server.Tokens.{bit_xor, bit_or, diff_from, constant_time_eq}

abbrev pow2 : ℕ → ℕ
pow2 zero = 1
pow2 (suc w) = 2 * pow2 w

xor_zero : (w a b : ℕ) → a < pow2 w → b < pow2 w → bit_xor w a b ≡ 0 → a ≡ b
unfolding bit_xor
xor_zero zero a b ha hb h = omega arith
xor_zero (suc w) a b ha hb h = elim (Bool-cases (a % 2 == b % 2)) [
  | inl e ↦
      let digit = (==_iff (a % 2) (b % 2)).0 e in
      let rest : bit_xor w (a / 2) (b / 2) ≡ 0 = ground arith in
      let halves = xor_zero w (a / 2) (b / 2) (omega arith) (omega arith) rest in omega arith
  | inr e ↦ absurd (ground arith)
]

xor_bound : (w a b : ℕ) → bit_xor w a b < pow2 w
unfolding bit_xor
xor_bound zero a b = omega arith
xor_bound (suc w) a b = let rest = xor_bound w (a / 2) (b / 2) in ground arith

xor_self : (w a : ℕ) → bit_xor w a a ≡ 0
unfolding bit_xor
xor_self zero a = refl
xor_self (suc w) a = let rest = xor_self w (a / 2) in ground arith

or_zero : (w a b : ℕ) → a < pow2 w → b < pow2 w → bit_or w a b ≡ 0 → (a ≡ 0) × (b ≡ 0)
unfolding bit_or
or_zero zero a b ha hb h = (omega arith, omega arith)
or_zero (suc w) a b ha hb h = elim (Bool-cases (a % 2 + b % 2 == 0)) [
  | inl e ↦
      let digit = (==_iff (a % 2 + b % 2) 0).0 e in
      let rest : bit_or w (a / 2) (b / 2) ≡ 0 = ground arith in
      let (za, zb) = or_zero w (a / 2) (b / 2) (omega arith) (omega arith) rest in
      (omega arith, omega arith)
  | inr e ↦ absurd (ground arith)
]

or_bound : (w a b : ℕ) → bit_or w a b < pow2 w
unfolding bit_or
or_bound zero a b = omega arith
or_bound (suc w) a b = let rest = or_bound w (a / 2) (b / 2) in ground arith

or_nil : (w : ℕ) → bit_or w 0 0 ≡ 0
unfolding bit_or
or_nil zero = refl
or_nil (suc w) = let rest = or_nil w in ground arith

-- A turn at the next index looks at the tails.
diff_from-tails :
    (x y : ℕ) (a b : List ℕ) (n i d : ℕ)
    → diff_from (x ∷ a) (y ∷ b) n (suc i) d ≡ diff_from a b n i d
unfolding diff_from
diff_from-tails x y a b zero i d = refl
diff_from-tails x y a b (suc n) i d = diff_from-tails x y a b n (suc i) _

diff_zero :
    (a b : List ℕ) (d : ℕ)
    → All (λ x. x < 256) a
    → All (λ x. x < 256) b
    → d < 256
    → length a ≡ length b
    → diff_from a b (length a) 0 d ≡ 0
    → (d ≡ 0) × (a ≡ b)
unfolding diff_from
diff_zero [] [] d ha hb hd e h = (h, refl)
diff_zero [] (y ∷ b) d ha hb hd e h = absurd (omega arith)
diff_zero (x ∷ a) [] d ha hb hd e h = absurd (omega arith)
diff_zero (x ∷ a) (y ∷ b) d (hx, ha) (hy, hb) hd e h =
    let next = bit_or 8 d (bit_xor 8 x y) in
    let tails = sym (diff_from-tails x y a b (length a) 0 next) ∙ h in
    let (zero_next, same) = diff_zero a b next ha hb (or_bound 8 d _) (omega arith) tails in
    let (zero_d, zero_x) = or_zero 8 d (bit_xor 8 x y) hd (xor_bound 8 x y) zero_next in
    (zero_d, ap₂ (λ p q. p ∷ q) (xor_zero 8 x y hx hy zero_x) same)

diff_self : (a : List ℕ) (n i : ℕ) → diff_from a a n i 0 ≡ 0
unfolding diff_from
diff_self a zero i = refl
diff_self a (suc n) i =
    ap (diff_from a a n (suc i)) (ap (bit_or 8 0) (xor_self 8 (get_or a i 0)) ∙ or_nil 8)
    ∙ diff_self a n (suc i)

-- Two strings of bytes compare equal exactly if they are equal.
pub constant_time_eq_iff :
    (a b : List ℕ)
    → All (λ x. x < 256) a
    → All (λ x. x < 256) b
    → (constant_time_eq a b ≡ true) ↔ (a ≡ b)
unfolding constant_time_eq
constant_time_eq_iff a b ha hb = (
  λ h.
      let (zero_diff, len) = &&-split _ (length a == length b) h in
      let same_len = (==_iff (length a) (length b)).0 len in
      let most : max (length a) (length b) ≡ length a = omega arith in
      let total = (==_iff (diff_from a b (max (length a) (length b)) 0 0) 0).0 zero_diff in
      (diff_zero a b 0 ha hb (omega arith) same_len
        (sym (ap (λ n. diff_from a b n 0 0) most) ∙ total)).1,
  λ e. rw (sym e) (
      cc (
        (==_iff _ 0).1 (diff_self a (max (length a) (length a)) 0),
        (==_iff (length a) (length a)).1 refl,
      )),
)

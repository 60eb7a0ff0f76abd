-- ===== src/Server/Tokens.antt =====
-- The comparison of tokens in constant time (`constant_time_eq` of
-- crates/muxtop-server/src/client.rs), with the operators `^` and `|` on bytes, digit by digit.
pub mod Equal
use muxtop.Base.{
  ℕ, zero, suc, ◌+◌, ◌*◌, ◌/◌, ◌%◌, max, Bool, ◌&&◌, List, ◌==◌, if◌then◌else◌, length, get_or,
}

unfoldable pub bit_xor : ℕ → ℕ → ℕ → ℕ
bit_xor zero a b = 0
bit_xor (suc w) a b = (if a % 2 == b % 2 then 0 else 1) + 2 * bit_xor w (a / 2) (b / 2)

unfoldable pub bit_or : ℕ → ℕ → ℕ → ℕ
bit_or zero a b = 0
bit_or (suc w) a b = (if a % 2 + b % 2 == 0 then 0 else 1) + 2 * bit_or w (a / 2) (b / 2)

-- The loop over the indices `i`, `i + 1`, … for as many turns as are left.
unfoldable pub diff_from : List ℕ → List ℕ → ℕ → ℕ → ℕ → ℕ
unfolding bit_xor bit_or
diff_from a b zero i diff = diff
diff_from a b (suc n) i diff =
    diff_from a b n (suc i) (bit_or 8 diff (bit_xor 8 (get_or a i 0) (get_or b i 0)))

unfoldable pub constant_time_eq : List ℕ → List ℕ → Bool
unfolding diff_from
constant_time_eq a b =
    let len_matches = length a == length b in
    diff_from a b (max (length a) (length b)) 0 0 == 0 && len_matches

-- ===== src/Server/Floats.antt =====
-- The `f32` arithmetic that crates/muxtop-server/src/rate_limit.rs does, as an interface. The type
-- stands for the floats that are neither NaN nor negative; rates are finite. The laws are those of
-- rounded arithmetic: operations are monotone, and exact at zero.
use muxtop.Base.{ℕ, ◌≤◌, ◌≡◌, Bool, true, false, not}

pub record Floats : Type 1 where
  pub F32 : Type 0
  pub zero_f : F32
  pub one : F32
  pub add : F32 → F32 → F32
  pub sub : F32 → F32 → F32
  pub mul : F32 → F32 → F32
  pub min : F32 → F32 → F32
  -- `a <= b`, `a < b`, `a == b`
  pub le : F32 → F32 → Bool
  pub lt : F32 → F32 → Bool
  pub eq : F32 → F32 → Bool
  -- `Duration::as_secs_f32` of a number of nanoseconds.
  pub as_secs : ℕ → F32
  pub le_refl : (a : F32) → le a a ≡ true
  pub le_trans : (a b c : F32) → le a b ≡ true → le b c ≡ true → le a c ≡ true
  pub lt-not-le : (a b : F32) → lt a b ≡ not (le b a)
  pub le_total : (a b : F32) → le a b ≡ false → le b a ≡ true
  pub min_left : (a b : F32) → le a b ≡ true → min a b ≡ a
  pub min_right : (a b : F32) → le b a ≡ true → min a b ≡ b
  pub add_zero : (a : F32) → add a zero_f ≡ a
  pub add_mono : (a b c : F32) → le b c ≡ true → le (add a b) (add a c) ≡ true
  pub mul_zero_secs : (rate : F32) → mul (as_secs 0) rate ≡ zero_f
  pub mul_mono :
      (d e : ℕ) (rate : F32) → d ≤ e → le (mul (as_secs d) rate) (mul (as_secs e) rate) ≡ true
  pub sub_le : (a b : F32) → le b a ≡ true → le (sub a b) a ≡ true

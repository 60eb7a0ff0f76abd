-- ===== src/Server/RateLimit/Examples.antt =====
-- The limiter of crates/muxtop-server/src/rate_limit.rs over exact arithmetic.
use Prim.Native.Nat.{min as nat_min}
use muxtop.Base.{
  ℕ, ◌+◌, ◌-◌, ◌*◌, ◌≤◌, ◌≡◌, refl, true, false, not, [], ◌∷◌, arith, leb, ltb, ◌==◌, length, inl,
  leb→le, le→leb,
}
use muxtop.Server.Floats.{Floats}
use muxtop.Server.RateLimit.Table.{IpAddr, v4, IsFunctional, same, get}
use muxtop.Server.RateLimit.{
  LimiterState, RateLimiter, try_admit, new_state, debit, admit, make_room, maybe_sweep, sweep,
  refilled_at, nanos_per_sec, is_some,
}
use muxtop.Server.RateLimit.Levels.{level, level-sweep, IsDecided}
use muxtop.Server.RateLimit.Refinement.{try_admit-IsDecided, try_admit_ceiling}
use muxtop.Server.RateLimit.Bounds.{run, length-run-le}

pub leb_refl : (a : ℕ) → leb a a ≡ true
leb_refl a = ground arith

pub leb_trans : (a b c : ℕ) → leb a b ≡ true → leb b c ≡ true → leb a c ≡ true
leb_trans a b c h k = ground arith

pub ltb-not-leb : (a b : ℕ) → ltb a b ≡ not (leb b a)
ltb-not-leb a b = ground arith

pub leb_total : (a b : ℕ) → leb a b ≡ false → leb b a ≡ true
leb_total a b h = ground arith

pub leb_min_left : (a b : ℕ) → leb a b ≡ true → nat_min a b ≡ a
leb_min_left a b h = omega (arith, leb→le a b h)

pub leb_min_right : (a b : ℕ) → leb b a ≡ true → nat_min a b ≡ b
leb_min_right a b h = omega (arith, leb→le b a h)

pub add_nothing : (a : ℕ) → a + 0 ≡ a
add_nothing a = omega arith

pub leb_add : (a b c : ℕ) → leb b c ≡ true → leb (a + b) (a + c) ≡ true
leb_add a b c h = ground arith

pub nothing_times : (rate : ℕ) → 0 * rate ≡ 0
nothing_times rate = omega arith

pub leb_mul : (d e rate : ℕ) → d ≤ e → leb (d * rate) (e * rate) ≡ true
leb_mul d e rate h = le→leb (d * rate) (e * rate) (grind arith)

pub leb_sub : (a b : ℕ) → leb b a ≡ true → leb (a - b) a ≡ true
leb_sub a b h = ground arith

-- Tokens are counted in billionths, a rate in tokens per second.
abbrev pub billionths : Floats
billionths = record {
  F32 = ℕ;
  zero_f = 0;
  one = nanos_per_sec;
  add = ◌+◌;
  sub = ◌-◌;
  mul = ◌*◌;
  min = nat_min;
  le = leb;
  lt = ltb;
  eq = ◌==◌;
  as_secs = λ d. d;
  le_refl = leb_refl;
  le_trans = leb_trans;
  lt-not-le = ltb-not-leb;
  le_total = leb_total;
  min_left = leb_min_left;
  min_right = leb_min_right;
  add_zero = add_nothing;
  add_mono = leb_add;
  mul_zero_secs = nothing_times;
  mul_mono = leb_mul;
  sub_le = leb_sub;
}

-- Ten connections a second, a burst of ten, and room for one address.
abbrev limiter : RateLimiter ℕ
limiter = record { refill_per_sec = 10; burst = 10 * nanos_per_sec; max_tracked = 1 }

abbrev fresh : LimiterState ℕ
fresh = new_state billionths limiter 0

-- One address with half a token left.
abbrev drained : LimiterState ℕ
drained = record {
  buckets = (v4 1, record { last_refill = 3; tokens = 500_000_000 }) ∷ [];
  last_sweep = 0;
  ceiling_logged = false;
}

drained-IsFunctional : IsFunctional drained.buckets
unfolding get
drained-IsFunctional = (refl, tt)

drained_refuses : (try_admit billionths limiter 3 (v4 1) drained).0 ≡ false
unfolding try_admit admit debit refilled_at get same
drained_refuses = refl

fresh_admits : (try_admit billionths limiter 3 (v4 1) fresh).0 ≡ true
unfolding try_admit admit debit make_room maybe_sweep refilled_at get
fresh_admits = refl

level-sweep_example :
    level billionths limiter (sweep billionths drained 5 10 (10 * nanos_per_sec)) (v4 1) 9
    ≡ level billionths limiter drained (v4 1) 9
level-sweep_example =
    level-sweep billionths limiter drained 5 9 (v4 1) drained-IsFunctional (omega arith)

drained_tracked : is_some (get (v4 1) drained.buckets) ≡ true
unfolding get same
drained_tracked = refl

stranger_unknown : is_some (get (v4 2) drained.buckets) ≡ false
unfolding get same
stranger_unknown = refl

no_sweep_yet : 1 ≤ length (maybe_sweep billionths limiter 3 drained).buckets
unfolding maybe_sweep
no_sweep_yet = omega arith

try_admit-IsDecided_example :
    IsDecided billionths limiter drained 3
      (v4 1)
      (try_admit billionths limiter 3 (v4 1) drained).0
      (try_admit billionths limiter 3 (v4 1) drained).1
try_admit-IsDecided_example =
    try_admit-IsDecided billionths limiter drained 3 (v4 1) refl drained-IsFunctional
      (inl drained_tracked)

try_admit_ceiling_example :
    ((try_admit billionths limiter 3 (v4 2) drained).0 ≡ false)
    × ((j : IpAddr) (t : ℕ)
        → 3 ≤ t
        → level billionths limiter (try_admit billionths limiter 3 (v4 2) drained).1 j t
          ≡ level billionths limiter drained j t)
try_admit_ceiling_example =
    try_admit_ceiling billionths limiter drained 3 (v4 2) refl drained-IsFunctional stranger_unknown
      no_sweep_yet

length-run-le_example :
    length (run billionths limiter ((1, v4 1) ∷ (2, v4 2) ∷ []) fresh).buckets ≤ 1
length-run-le_example = length-run-le billionths limiter ((1, v4 1) ∷ (2, v4 2) ∷ []) 0

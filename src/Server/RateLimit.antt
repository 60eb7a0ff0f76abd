-- ===== src/Server/RateLimit.antt =====
-- The token bucket for each source address (crates/muxtop-server/src/rate_limit.rs). An `Instant`
-- is a number of nanoseconds, and `duration_since` stops at 0. The hash map is an association
-- list; the clock's reading is an argument of `try_admit`, and its lock makes each call one step.
pub mod Table
pub mod Levels
pub mod Refinement
pub mod Bounds
pub mod Examples
use muxtop.Base.{
  ℕ, ◌-◌, ◌*◌, ◌^◌, ◌≤◌, ◌≡◌, Bool, true, false, not, ◌&&◌, ◌||◌, Option, none, some, List, ltb,
  leb, if◌then◌else◌, length,
}
use muxtop.Server.Floats.{Floats}
use Table.{IpAddr, Assoc, get, put, retain}

abbrev pub nanos_per_sec : ℕ
nanos_per_sec = 10 ^ 9

abbrev pub sweep_size_trigger : ℕ
sweep_size_trigger = 1024

abbrev pub sweep_interval : ℕ
sweep_interval = 30 * nanos_per_sec

abbrev pub min_sweep_gap : ℕ
min_sweep_gap = 1 * nanos_per_sec

abbrev pub max_tracked_ips : ℕ
max_tracked_ips = 65536

pub record Bucket (F32 : Type 0) : Type 0 where
  pub last_refill : ℕ
  pub tokens : F32

pub record LimiterState (F32 : Type 0) : Type 0 where
  pub buckets : Assoc (Bucket F32)
  pub last_sweep : ℕ
  pub ceiling_logged : Bool

-- The settings of a limiter; its state is passed explicitly.
pub record RateLimiter (F32 : Type 0) : Type 0 where
  pub refill_per_sec : F32
  pub burst : F32
  pub max_tracked : ℕ

abbrev is_some {ℓ} : {A : Type ℓ} → Option A → Bool
is_some none = false
is_some (some a) = true

module _ (floats : Floats) where
  open floats use {F32, zero_f, one, add, sub, mul, min, le, lt, eq, as_secs}

  unfoldable pub refilled_at : Bucket F32 → ℕ → F32 → F32 → F32
  refilled_at b now refill_per_sec burst =
      min (add b.tokens (mul (as_secs (now - b.last_refill)) refill_per_sec)) burst

  unfoldable pub sweep : LimiterState F32 → ℕ → F32 → F32 → LimiterState F32
  sweep s now refill_per_sec burst = record s {
    buckets = retain (λ b. lt (refilled_at b now refill_per_sec burst) burst) s.buckets;
    last_sweep = now;
  }

  module _ (limiter : RateLimiter F32) where
    -- `RateLimiter::with_max_tracked`, its state.
    abbrev pub new_state : ℕ → LimiterState F32
    new_state now = record { buckets = Table.empty; last_sweep = now; ceiling_logged = false }

    -- The sweep of an unknown address, when it is due.
    unfoldable pub maybe_sweep : ℕ → LimiterState F32 → LimiterState F32
    maybe_sweep now s =
        let since_sweep = now - s.last_sweep in
        if leb min_sweep_gap since_sweep
          && (leb sweep_size_trigger (length s.buckets) || leb sweep_interval since_sweep)
        then sweep s now limiter.refill_per_sec limiter.burst
        else s

    -- `true` refuses the address: the ceiling is reached.
    unfoldable pub make_room : ℕ → LimiterState F32 → Bool × LimiterState F32
    make_room now s =
        let swept = maybe_sweep now s in
        if leb limiter.max_tracked (length swept.buckets)
        then (true, record swept { ceiling_logged = true })
        else (false, record swept { ceiling_logged = false })

    abbrev new_bucket : ℕ → Option (Bucket F32) → Bucket F32
    new_bucket now none = record { last_refill = now; tokens = limiter.burst }
    new_bucket now (some b) = b

    -- The bucket of the address is refilled and debited.
    unfoldable pub debit : ℕ → IpAddr → LimiterState F32 → Bool × LimiterState F32
    unfolding refilled_at
    debit now ip s =
        let tokens =
          refilled_at (new_bucket now (get ip s.buckets)) now limiter.refill_per_sec
            limiter.burst in
        let admitted = le one tokens in
        (
          admitted,
          record s {
            buckets =
                put ip
                  (record {
                    last_refill = now;
                    tokens = if admitted then sub tokens one else tokens;
                  })
                  s.buckets;
          },
        )

    unfoldable pub admit : ℕ → IpAddr → Bool × LimiterState F32 → Bool × LimiterState F32
    admit now ip (true, s) = (false, s)
    admit now ip (false, s) = debit now ip s

    unfoldable pub try_admit : ℕ → IpAddr → LimiterState F32 → Bool × LimiterState F32
    try_admit now ip s =
        if eq limiter.refill_per_sec zero_f
        then (true, s)
        else admit now ip (if is_some (get ip s.buckets) then (false, s) else make_room now s)

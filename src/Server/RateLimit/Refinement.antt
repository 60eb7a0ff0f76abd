-- ===== src/Server/RateLimit/Refinement.antt =====
-- `try_admit` of crates/muxtop-server/src/rate_limit.rs refines one bucket for each address: the
-- table, its sweep and its ceiling do not show, but for the refusal at the ceiling.
use muxtop.Base.{
  ℕ, ◌≤◌, ◌<◌, ◌≡◌, ◌⊎◌, refl, ap, ◌∙◌, Bool, true, false, arith, Bool-cases, inl, inr, length,
  lt→leb, le→leb,
}
use muxtop.Server.Floats.{Floats}
use muxtop.Server.RateLimit.Table.{IpAddr, get, IsFunctional}
use muxtop.Server.RateLimit.{
  LimiterState, RateLimiter, debit, admit, make_room, maybe_sweep, try_admit, is_some,
}
use muxtop.Server.RateLimit.Levels.{level, level-sweep, IsDecided, debit-IsDecided, spent}

module _ (floats : Floats) (limiter : RateLimiter floats.F32) where
  open floats use {F32, zero_f, eq, le, one}

  level-maybe_sweep :
      (s : LimiterState F32) (now t : ℕ) (j : IpAddr)
      → IsFunctional s.buckets
      → now ≤ t
      → level floats limiter (maybe_sweep floats limiter now s) j t ≡ level floats limiter s j t
  unfolding maybe_sweep
  level-maybe_sweep s now t j functional h =
      ground (arith, level-sweep floats limiter s now t j functional h)

  -- The address is tracked, or the sweep leaves room for it.
  abbrev pub HasRoom : ℕ → IpAddr → LimiterState F32 → Type 0
  HasRoom now ip s =
      (is_some (get ip s.buckets) ≡ true)
      ⊎ (length (maybe_sweep floats limiter now s).buckets < limiter.max_tracked)

  -- The state in which an unknown address is looked at.
  abbrev pub swept : ℕ → Bool → LimiterState F32 → LimiterState F32
  swept now logged s = record (maybe_sweep floats limiter now s) { ceiling_logged = logged }

  module _ (s : LimiterState F32) (now : ℕ) (ip : IpAddr)
      (on : eq limiter.refill_per_sec zero_f ≡ false) where
    pub try_admit_tracked :
        is_some (get ip s.buckets) ≡ true
        → try_admit floats limiter now ip s ≡ debit floats limiter now ip s
    unfolding try_admit admit
    try_admit_tracked tracked = rw on (rw tracked)

    pub try_admit_room :
        is_some (get ip s.buckets) ≡ false
        → length (maybe_sweep floats limiter now s).buckets < limiter.max_tracked
        → try_admit floats limiter now ip s ≡ debit floats limiter now ip (swept now false s)
    unfolding try_admit admit make_room
    try_admit_room unknown room = rw on (
        rw unknown (
          rw (lt→leb limiter.max_tracked (length (maybe_sweep floats limiter now s).buckets) room)))

    pub try_admit_full :
        is_some (get ip s.buckets) ≡ false
        → limiter.max_tracked ≤ length (maybe_sweep floats limiter now s).buckets
        → try_admit floats limiter now ip s ≡ (false, swept now true s)
    unfolding try_admit admit make_room
    try_admit_full unknown full = rw on (
        rw unknown (
          rw (le→leb limiter.max_tracked (length (maybe_sweep floats limiter now s).buckets) full)))

  IsDecided-swept :
      (s s' : LimiterState F32) (now : ℕ) (ip : IpAddr) (b : Bool) {s'' : LimiterState F32}
      → ((j : IpAddr) (t : ℕ) → now ≤ t → level floats limiter s' j t ≡ level floats limiter s j t)
      → IsDecided floats limiter s' now ip b s''
      → IsDecided floats limiter s now ip b s''
  IsDecided-swept s s' now ip b same d = record {
    decision = d.decision ∙ ap (le one) (same ip now (omega arith));
    own = d.own ∙ ap (spent floats limiter) (same ip now (omega arith));
    others = λ j t other h. d.others j t other h ∙ same j t h;
  }

  -- If the limiter is on, no address has two buckets and there is room for the address, the request
  -- is decided by the level of its own address alone: it is admitted if at least one token is there
  -- and then costs one, and no other address's level changes, now or later.
  pub try_admit-IsDecided :
      (s : LimiterState F32) (now : ℕ) (ip : IpAddr)
      → eq limiter.refill_per_sec zero_f ≡ false
      → IsFunctional s.buckets
      → HasRoom now ip s
      → IsDecided floats limiter s now ip
          (try_admit floats limiter now ip s).0
          (try_admit floats limiter now ip s).1
  try_admit-IsDecided s now ip on functional room = elim (Bool-cases (is_some (get ip s.buckets))) [
    | inl tracked ↦
        rw (try_admit_tracked s now ip on tracked) (debit-IsDecided floats limiter s now ip)
    | inr unknown ↦ rw (try_admit_room s now ip on unknown (room_of_unknown room unknown)) (
        IsDecided-swept s (swept now false s) now ip _
          (λ j t h. level-maybe_sweep s now t j functional h)
          (debit-IsDecided floats limiter (swept now false s) now ip))
  ]
    where
      room_of_unknown :
          HasRoom now ip s
          → is_some (get ip s.buckets) ≡ false
          → length (maybe_sweep floats limiter now s).buckets < limiter.max_tracked
      room_of_unknown (inl tracked) unknown = absurd (cc (tracked, unknown))
      room_of_unknown (inr room) unknown = room

  -- If the limiter is on, no address has two buckets and the table is at its ceiling also after the
  -- sweep that may be due, then an unknown address is refused, and every address keeps its level,
  -- now and later.
  pub try_admit_ceiling :
      (s : LimiterState F32) (now : ℕ) (ip : IpAddr)
      → eq limiter.refill_per_sec zero_f ≡ false
      → IsFunctional s.buckets
      → is_some (get ip s.buckets) ≡ false
      → limiter.max_tracked ≤ length (maybe_sweep floats limiter now s).buckets
      → ((try_admit floats limiter now ip s).0 ≡ false)
        × ((j : IpAddr) (t : ℕ)
            → now ≤ t
            → level floats limiter (try_admit floats limiter now ip s).1 j t
              ≡ level floats limiter s j t)
  try_admit_ceiling s now ip on functional unknown full =
      rw (try_admit_full s now ip on unknown full)
        (refl, λ j t h. level-maybe_sweep s now t j functional h)

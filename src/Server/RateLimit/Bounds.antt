-- ===== src/Server/RateLimit/Bounds.antt =====
-- The memory of the limiter of crates/muxtop-server/src/rate_limit.rs stays bounded.
use muxtop.Base.{
  ℕ, ◌+◌, ◌≤◌, ◌≡◌, refl, true, false, Option, none, some, List, [], ◌∷◌, arith, if_ind, Bool-cases,
  inl, inr, length, leb, leb→le, leb→lt,
}
use muxtop.Server.Floats.{Floats}
use muxtop.Server.RateLimit.Table.{
  IpAddr, get, known, IsFunctional, length-put, length-retain-le, put-IsFunctional,
  retain-IsFunctional,
}
use muxtop.Server.RateLimit.{
  LimiterState, RateLimiter, sweep, debit, maybe_sweep, try_admit, is_some, new_state,
}
use muxtop.Server.RateLimit.Refinement.{swept, try_admit_tracked, try_admit_room, try_admit_full}

known_of_tracked {ℓ} : {A : Type ℓ} (o : Option A) → is_some o ≡ true → known o ≡ 0
known_of_tracked none h = absurd (cc h)
known_of_tracked (some a) h = refl

known-le {ℓ} : {A : Type ℓ} (o : Option A) → known o ≤ 1
known-le none = omega arith
known-le (some a) = omega arith

module _ (floats : Floats) (limiter : RateLimiter floats.F32) where
  open floats use {F32, zero_f, eq}

  -- No address has two buckets, and the table is within its ceiling.
  pub record IsWellFormed (s : LimiterState F32) : Type 0 where
    pub functional : IsFunctional s.buckets
    pub bounded : length s.buckets ≤ limiter.max_tracked

  debit-IsFunctional :
      (s : LimiterState F32) (now : ℕ) (ip : IpAddr)
      → IsFunctional s.buckets
      → IsFunctional (debit floats limiter now ip s).1.buckets
  unfolding debit
  debit-IsFunctional s now ip h = put-IsFunctional ip _ s.buckets h

  length-debit :
      (s : LimiterState F32) (now : ℕ) (ip : IpAddr)
      → length (debit floats limiter now ip s).1.buckets
        ≡ length s.buckets + known (get ip s.buckets)
  unfolding debit
  length-debit s now ip = length-put ip _ s.buckets

  -- What holds of a state and of its sweep holds after a sweep that may be due.
  maybe_sweep_ind :
      (P : LimiterState F32 → Type 0) (s : LimiterState F32) (now : ℕ)
      → P (sweep floats s now limiter.refill_per_sec limiter.burst)
      → P s
      → P (maybe_sweep floats limiter now s)
  unfolding maybe_sweep
  maybe_sweep_ind P s now h k = if_ind P _ h k

  maybe_sweep-IsFunctional :
      (s : LimiterState F32) (now : ℕ)
      → IsFunctional s.buckets
      → IsFunctional (maybe_sweep floats limiter now s).buckets
  unfolding sweep
  maybe_sweep-IsFunctional s now h =
      maybe_sweep_ind (λ x. IsFunctional x.buckets) s now (retain-IsFunctional _ s.buckets h) h

  length-maybe_sweep-le :
      (s : LimiterState F32) (now : ℕ)
      → length (maybe_sweep floats limiter now s).buckets ≤ length s.buckets
  unfolding sweep
  length-maybe_sweep-le s now =
      maybe_sweep_ind (λ x. length x.buckets ≤ length s.buckets) s now
        (length-retain-le _ s.buckets) (omega arith)

  -- Every request keeps a well-formed table well formed, whether it is admitted or refused: no
  -- address has two buckets, and there are no more buckets than the ceiling.
  pub try_admit-IsWellFormed :
      (s : LimiterState F32) (now : ℕ) (ip : IpAddr)
      → IsWellFormed s
      → IsWellFormed (try_admit floats limiter now ip s).1
  try_admit-IsWellFormed s now ip w = elim (Bool-cases (eq limiter.refill_per_sec zero_f)) [
    | inl off ↦ unfold try_admit in rw off w
    | inr on ↦ elim (Bool-cases (is_some (get ip s.buckets))) [
      | inl tracked ↦ rw (try_admit_tracked floats limiter s now ip on tracked) (record {
        functional = debit-IsFunctional s now ip w.functional;
        bounded =
            omega (
              arith,
              w.bounded,
              length-debit s now ip,
              known_of_tracked (get ip s.buckets) tracked,
            );
      })
      | inr unknown ↦
          elim (Bool-cases
            (leb limiter.max_tracked (length (maybe_sweep floats limiter now s).buckets))) [
              | inl full ↦
                  rw (try_admit_full floats limiter s now ip on unknown (leb→le _ _ full)) (record {
                    functional = maybe_sweep-IsFunctional s now w.functional;
                    bounded = omega (arith, w.bounded, length-maybe_sweep-le s now);
                  })
              | inr room ↦
                  let s₁ = swept floats limiter now false s in
                  rw (try_admit_room floats limiter s now ip on unknown (leb→lt _ _ room)) (record {
                    functional =
                        debit-IsFunctional s₁ now ip (maybe_sweep-IsFunctional s now w.functional);
                    bounded = omega (
                      arith,
                      leb→lt _ _ room,
                      length-debit s₁ now ip,
                      known-le (get ip s₁.buckets),
                    );
                  })
            ]
    ]
  ]

  -- The accept loop's calls, each at its time.
  pub run : List (ℕ × IpAddr) → LimiterState F32 → LimiterState F32
  run [] s = s
  run ((now, ip) ∷ rest) s = run rest (try_admit floats limiter now ip s).1

  run-IsWellFormed :
      (requests : List (ℕ × IpAddr)) (s : LimiterState F32)
      → IsWellFormed s
      → IsWellFormed (run requests s)
  unfolding run
  run-IsWellFormed [] s w = w
  run-IsWellFormed ((now, ip) ∷ rest) s w =
      run-IsWellFormed rest _ (try_admit-IsWellFormed s now ip w)

  -- Whatever connections arrive and whenever, a new limiter never tracks more addresses than its
  -- ceiling.
  pub length-run-le :
      (requests : List (ℕ × IpAddr)) (start : ℕ)
      → length (run requests (new_state floats limiter start)).buckets ≤ limiter.max_tracked
  length-run-le requests start =
      (run-IsWellFormed requests (new_state floats limiter start)
        (record { functional = tt; bounded = omega arith })).bounded

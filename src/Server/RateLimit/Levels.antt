-- ===== src/Server/RateLimit/Levels.antt =====
-- What a source address may still spend: the level of its bucket at a time, and how the sweep and
-- a debit of crates/muxtop-server/src/rate_limit.rs change it.
use muxtop.Base.{
  ℕ, ◌-◌, ◌≤◌, ◌≡◌, ◌≢◌, refl, sym, ap, ◌∙◌, Bool, true, false, not, Option, none, some, arith,
  if◌then◌else◌, Bool-cases, inl, inr,
}
use muxtop.Server.Floats.{Floats}
use muxtop.Server.RateLimit.Table.{
  IpAddr, get, get-put_self, get-put_ne, get-retain, keep_if, IsFunctional,
}
use muxtop.Server.RateLimit.{
  Bucket, LimiterState, RateLimiter, refilled_at, sweep, debit, new_bucket,
}

module _ (floats : Floats) where
  open floats use {
    F32, zero_f, one, add, sub, mul, min, le, lt, eq, as_secs, le_refl, le_trans, lt-not-le,
    le_total, min_left, min_right, add_zero, add_mono, mul_zero_secs, mul_mono, sub_le,
  }

  min_le_right : (a b : F32) → le (min a b) b ≡ true
  min_le_right a b = elim (Bool-cases (le a b)) [
    | inl h ↦ rw (min_left a b h) h
    | inr h ↦ rw (min_right a b (le_total a b h)) (le_refl b)
  ]

  -- A minimum that reaches its second argument has its first argument there too.
  reaches_of_min : (a b : F32) → le b (min a b) ≡ true → le b a ≡ true
  reaches_of_min a b h = elim (Bool-cases (le a b)) [
    | inl k ↦ rw (min_left a b k) at h
    | inr k ↦ le_total a b k
  ]

  module _ (limiter : RateLimiter F32) where
    open limiter use {refill_per_sec, burst}

    abbrev pub level_of : ℕ → Option (Bucket F32) → F32
    level_of t none = burst
    level_of t (some b) = refilled_at floats b t refill_per_sec burst

    -- The tokens that the address has at a time; an address that is not tracked has a full bucket.
    abbrev pub level : LimiterState F32 → IpAddr → ℕ → F32
    level s ip t = level_of t (get ip s.buckets)

    -- A bucket that is full stays full.
    full_stays :
        (b : Bucket F32) (now t : ℕ)
        → now ≤ t
        → lt (refilled_at floats b now refill_per_sec burst) burst ≡ false
        → refilled_at floats b t refill_per_sec burst ≡ burst
    unfolding refilled_at
    full_stays b now t h full =
        let gain = λ (u : ℕ). mul (as_secs (u - b.last_refill)) refill_per_sec in
        let full_now : le burst (add b.tokens (gain now)) ≡ true =
          reaches_of_min (add b.tokens (gain now)) burst
            (not_false _ (sym (lt-not-le _ _) ∙ full)) in
        let grows : le (add b.tokens (gain now)) (add b.tokens (gain t)) ≡ true =
          add_mono b.tokens (gain now) (gain t)
            (mul_mono (now - b.last_refill) (t - b.last_refill) refill_per_sec (omega arith)) in
        min_right (add b.tokens (gain t)) burst
          (le_trans burst (add b.tokens (gain now)) (add b.tokens (gain t)) full_now grows)
      where
        not_false : (x : Bool) → not x ≡ false → x ≡ true
        not_false x e = ground arith

    -- If no address has two buckets, a sweep changes no address's level, at its time or later.
    pub level-sweep :
        (s : LimiterState F32) (now t : ℕ) (ip : IpAddr)
        → IsFunctional s.buckets
        → now ≤ t
        → level (sweep floats s now refill_per_sec burst) ip t ≡ level s ip t
    unfolding sweep
    level-sweep s now t ip functional h =
        ap (level_of t) (get-retain _ ip s.buckets functional) ∙ kept (get ip s.buckets)
      where
        kept :
            (o : Option (Bucket F32))
            → level_of t (keep_if (λ b. lt (refilled_at floats b now refill_per_sec burst) burst) o)
              ≡ level_of t o
        kept none = refl
        kept (some b) =
            elim (Bool-cases (lt (refilled_at floats b now refill_per_sec burst) burst)) [
              | inl e ↦ rw e
              | inr e ↦ rw e (sym (full_stays b now t h e))
            ]

    -- A bucket that was refilled just now holds its tokens.
    refilled_now :
        (now : ℕ) (x : F32)
        → le x burst ≡ true
        → refilled_at floats (record { last_refill = now; tokens = x }) now refill_per_sec burst ≡ x
    unfolding refilled_at
    refilled_now now x h =
        let still : now - now ≡ 0 = omega arith in
        ap (λ d. min (add x (mul (as_secs d) refill_per_sec)) burst) still
        ∙ ap (λ g. min (add x g) burst) (mul_zero_secs refill_per_sec)
        ∙ ap (λ y. min y burst) (add_zero x)
        ∙ min_left x burst h

    level-le_burst : (now : ℕ) (o : Option (Bucket F32)) → le (level_of now o) burst ≡ true
    unfolding refilled_at
    level-le_burst now none = le_refl burst
    level-le_burst now (some b) = min_le_right _ burst

    refilled-new_bucket :
        (now : ℕ) (o : Option (Bucket F32))
        → refilled_at floats (new_bucket floats limiter now o) now refill_per_sec burst
          ≡ level_of now o
    refilled-new_bucket now none = refilled_now now burst (le_refl burst)
    refilled-new_bucket now (some b) = refl

    -- What is left of a level after a request.
    abbrev pub spent : F32 → F32
    spent x = if le one x then sub x one else x

    spent-le : (x : F32) → le x burst ≡ true → le (spent x) burst ≡ true
    spent-le x h = elim (Bool-cases (le one x)) [
      | inl e ↦ rw e (le_trans (sub x one) x burst (sub_le x one e) h)
      | inr e ↦ rw e h
    ]

    -- What one request does to the levels, if it is decided by the bucket of its address.
    pub record IsDecided (s : LimiterState F32) (now : ℕ) (ip : IpAddr) (admitted : Bool)
        (s' : LimiterState F32) : Type 0 where
      pub decision : admitted ≡ le one (level s ip now)
      pub own : level s' ip now ≡ spent (level s ip now)
      pub others : (j : IpAddr) (t : ℕ) → ip ≢ j → now ≤ t → level s' j t ≡ level s j t

    pub debit-IsDecided :
        (s : LimiterState F32) (now : ℕ) (ip : IpAddr)
        → IsDecided s now ip (debit floats limiter now ip s).0 (debit floats limiter now ip s).1
    unfolding debit
    debit-IsDecided s now ip = record {
      decision = ap (le one) (refilled-new_bucket now (get ip s.buckets));
      own =
          let y =
            refilled_at floats (new_bucket floats limiter now (get ip s.buckets)) now refill_per_sec
              burst in
          ap (level_of now)
            (get-put_self ip (record { last_refill = now; tokens = spent y }) s.buckets)
          ∙ refilled_now now (spent y) (
              spent-le y
                (level-le_burst now (some (new_bucket floats limiter now (get ip s.buckets)))))
          ∙ ap spent (refilled-new_bucket now (get ip s.buckets));
      others = λ j t other h. ap (level_of t) (get-put_ne ip j _ s.buckets other);
    }

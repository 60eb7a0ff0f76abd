-- ===== src/Server/Accept/Permits.antt =====
-- The permits of the server (crates/muxtop-server/src/server.rs).
use muxtop.Base.{
  ℕ, zero, suc, ◌+◌, ◌-◌, ◌≤◌, ◌≡◌, refl, Bool, true, false, Bool-cases, inl, inr, Option, none,
  some, List, [], ◌∷◌, if◌then◌else◌, length, arith,
}
use muxtop.Server.Floats.{Floats}
use muxtop.Server.RateLimit.{LimiterState, try_admit, max_tracked_ips}
use muxtop.Server.RateLimit.Table.{IpAddr}
use muxtop.Server.RateLimit.Bounds.{IsWellFormed, try_admit-IsWellFormed}
use muxtop.Server.Accept.{
  Semaphore, ServerConfig, Phase, Task, TaskEvent, phase_after, went_on, on_task, Accepting,
  rate_limiter, start, spawned, accepted, task_step, Step, connection, stop, task, Reach, here,
  next,
}

-- A permit comes back exactly if a task ends.
abbrev dropped_by : Bool → ℕ
dropped_by true = 1
dropped_by false = 0

length-went_on :
    (t : Task) (ts : List Task) (o : Option Phase)
    → let r = went_on t ts o in length r.0 + dropped_by r.1 ≡ suc (length ts)
length-went_on t ts none = omega arith
length-went_on t ts (some phase) = omega arith

length-on_task :
    (e : TaskEvent) (i : ℕ) (ts : List Task)
    → let r = on_task e i ts in length r.0 + dropped_by r.1 ≡ length ts
unfolding on_task
length-on_task e i [] = omega arith
length-on_task e zero (t ∷ ts) = length-went_on t ts (phase_after e t.phase)
length-on_task e (suc i) (t ∷ ts) = omega (arith, length-on_task e i ts)

module _ (floats : Floats) (semaphore : Semaphore) (config : ServerConfig floats.F32) where
  open floats use {F32}
  open semaphore use {
    Permits, try_acquire, release, available, available-new, try_acquire_some, available-release,
  }

  -- Every permit is free or held by one task, and the limiter's table is within its ceiling.
  pub record IsSound (s : Accepting F32 Permits) : Type 0 where
    pub conserved : available s.permits + length s.tasks ≡ config.max_clients
    pub limited : IsWellFormed floats (rate_limiter floats semaphore config) s.limits

  available-dropped :
      (d : Bool) (p : Permits) → available (if d then release p else p) ≡ available p + dropped_by d
  available-dropped true p = omega (arith, available-release p)
  available-dropped false p = omega arith

  task_step-IsSound :
      (e : TaskEvent) (i : ℕ) (s : Accepting F32 Permits)
      → IsSound s
      → IsSound (task_step floats semaphore config e i s)
  unfolding task_step
  task_step-IsSound e i s h = record {
    conserved = omega (
      arith,
      h.conserved,
      available-dropped (on_task e i s.tasks).1 s.permits,
      length-on_task e i s.tasks,
    );
    limited = h.limited;
  }

  spawned-IsSound :
      (peer : IpAddr) (o : Option Permits) (s : Accepting F32 Permits)
      → try_acquire s.permits ≡ o
      → IsSound s
      → IsSound (spawned floats semaphore config peer o s)
  spawned-IsSound peer none s e h = h
  spawned-IsSound peer (some permits) s e h = record {
    conserved = omega (arith, h.conserved, try_acquire_some s.permits permits e);
    limited = h.limited;
  }

  limits-IsSound :
      (s : Accepting F32 Permits) (limits : LimiterState F32)
      → IsWellFormed floats (rate_limiter floats semaphore config) limits
      → IsSound s
      → IsSound (record s { limits = limits })
  limits-IsSound s limits w h = record { conserved = h.conserved; limited = w }

  accepted-IsSound :
      (now : ℕ) (peer : IpAddr) (s : Accepting F32 Permits)
      → IsSound s
      → IsSound (accepted floats semaphore config now peer s)
  unfolding accepted
  accepted-IsSound now peer s h =
      let r = try_admit floats (rate_limiter floats semaphore config) now peer s.limits in
      let w =
        try_admit-IsWellFormed floats (rate_limiter floats semaphore config) s.limits now peer
          h.limited in
      elim (Bool-cases r.0) [
        | inl yes_admitted ↦
            rw yes_admitted
              (spawned-IsSound peer _ (record s { limits = r.1 }) refl (limits-IsSound s r.1 w h))
        | inr not_admitted ↦ rw not_admitted (limits-IsSound s r.1 w h)
      ]

  Step-IsSound :
      {s t : Accepting F32 Permits} → Step floats semaphore config s t → IsSound s → IsSound t
  Step-IsSound (connection s now peer up) h = accepted-IsSound now peer s h
  Step-IsSound (stop s up) h = record { conserved = h.conserved; limited = h.limited }
  Step-IsSound (task s e i) h = task_step-IsSound e i s h

  start-IsSound : (now : ℕ) → IsSound (start floats semaphore config now)
  start-IsSound now = record {
    conserved = omega (arith, available-new config.max_clients);
    limited = record { functional = tt; bounded = omega arith };
  }

  Reach-IsSound :
      {now : ℕ} {s : Accepting F32 Permits} → Reach floats semaphore config now s → IsSound s
  Reach-IsSound {now} here = start-IsSound now
  Reach-IsSound (next r st) = Step-IsSound st (Reach-IsSound r)

  -- However connections, handshakes, sessions and the shutdown interleave, there are never more
  -- tasks than `max_clients`, all other permits are free, so that with no task left all are, and the
  -- rate limiter tracks at most its ceiling of addresses.
  pub Reach-permits :
      {now : ℕ} {s : Accepting F32 Permits}
      → Reach floats semaphore config now s
      → (length s.tasks ≤ config.max_clients)
        × (available s.permits ≡ config.max_clients - length s.tasks)
        × (length s.limits.buckets ≤ max_tracked_ips)
  Reach-permits r =
      let h = Reach-IsSound r in
      (omega (arith, h.conserved), omega (arith, h.conserved), h.limited.bounded)

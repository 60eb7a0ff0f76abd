-- ===== src/Server/Accept.antt =====
-- The accept loop and the relay of the server (`run` of crates/muxtop-server/src/server.rs).
--
-- The loop and the tasks that it spawns run side by side, so what happens is a sequence of steps in
-- any order. The semaphore is tokio's: an interface with what its documentation promises. A task
-- is here from its TLS handshake to the end of its session, and holds one permit all the while.
pub mod Permits
pub mod Examples
use muxtop.Base.{
  ℕ, zero, suc, ◌≡◌, Bool, true, false, Option, none, some, List, [], ◌∷◌, if◌then◌else◌, length,
}
use muxtop.Server.Floats.{Floats}
use muxtop.Server.RateLimit.{RateLimiter, LimiterState, max_tracked_ips, new_state, try_admit}
use muxtop.Server.RateLimit.Table.{IpAddr}

-- `tokio::sync::Semaphore`; `available` is the number of its permits.
pub record Semaphore : Type 1 where
  pub Permits : Type 0
  pub new : ℕ → Permits
  pub try_acquire : Permits → Option Permits
  -- A permit is dropped.
  pub release : Permits → Permits
  pub available : Permits → ℕ
  pub available-new : (n : ℕ) → available (new n) ≡ n
  pub try_acquire_some : (p q : Permits) → try_acquire p ≡ some q → available p ≡ suc (available q)
  pub try_acquire_none : (p : Permits) → try_acquire p ≡ none → available p ≡ 0
  pub available-release : (p : Permits) → available (release p) ≡ suc (available p)

pub record ServerConfig (F32 : Type 0) : Type 0 where
  pub max_clients : ℕ
  pub rate_limit_per_ip : F32

pub data Phase : Type 0 where
  handshaking in_session : Phase

pub record Task : Type 0 where
  pub peer : IpAddr
  pub phase : Phase

pub data TaskEvent : Type 0 where
  tls_complete tls_failed tls_timed_out session_ended : TaskEvent

pub record Accepting (F32 : Type 0) (Permits : Type 0) : Type 0 where
  pub limits : LimiterState F32
  pub permits : Permits
  pub tasks : List Task
  pub is_running : Bool

-- What an event makes of a task in its phase; `none` is its end.
abbrev pub phase_after : TaskEvent → Phase → Option Phase
phase_after tls_complete handshaking = some in_session
phase_after tls_failed handshaking = none
phase_after tls_timed_out handshaking = none
phase_after session_ended in_session = none
phase_after e phase = some phase

abbrev pub went_on : Task → List Task → Option Phase → List Task × Bool
went_on t ts (some phase) = (record t { phase = phase } ∷ ts, false)
went_on t ts none = (ts, true)

-- The tasks after an event of one of them, and whether it has dropped its permit.
unfoldable pub on_task : TaskEvent → ℕ → List Task → List Task × Bool
on_task e i [] = ([], false)
on_task e zero (t ∷ ts) = went_on t ts (phase_after e t.phase)
on_task e (suc i) (t ∷ ts) = let (ts', dropped) = on_task e i ts in (t ∷ ts', dropped)

module _ (floats : Floats) (semaphore : Semaphore) (config : ServerConfig floats.F32) where
  open floats use {F32, one, le}
  open semaphore use {Permits, try_acquire, release, available}

  -- `RateLimiter::new` with `rate.max(1.0)` for the burst.
  abbrev pub rate_limiter : RateLimiter F32
  rate_limiter = record {
    refill_per_sec = config.rate_limit_per_ip;
    burst = if le config.rate_limit_per_ip one then one else config.rate_limit_per_ip;
    max_tracked = max_tracked_ips;
  }

  abbrev pub start : ℕ → Accepting F32 Permits
  start now = record {
    limits = new_state floats rate_limiter now;
    permits = semaphore.new config.max_clients;
    tasks = [];
    is_running = true;
  }

  abbrev pub spawned : IpAddr → Option Permits → Accepting F32 Permits → Accepting F32 Permits
  spawned peer none s = s
  spawned peer (some permits) s = record s {
    permits = permits;
    tasks = record { peer = peer; phase = handshaking } ∷ s.tasks;
  }

  -- A connection from `peer`.
  unfoldable pub accepted : ℕ → IpAddr → Accepting F32 Permits → Accepting F32 Permits
  unfolding try_admit
  accepted now peer s =
      let (admitted, limits) = try_admit floats rate_limiter now peer s.limits in
      let s' = record s { limits = limits } in
      if admitted then spawned peer (try_acquire s.permits) s' else s'

  -- The loop ends when it is cancelled or `accept` fails.
  abbrev pub stopped : Accepting F32 Permits → Accepting F32 Permits
  stopped s = record s { is_running = false }

  unfoldable pub task_step : TaskEvent → ℕ → Accepting F32 Permits → Accepting F32 Permits
  unfolding on_task
  task_step e i s =
      let (tasks, dropped) = on_task e i s.tasks in
      record s { tasks = tasks; permits = if dropped then release s.permits else s.permits }

  -- One step of the server: of the loop, while it runs, or of a task.
  pub data Step : Accepting F32 Permits → Accepting F32 Permits → Type 0 where
    connection :
        (s : Accepting F32 Permits) (now : ℕ) (peer : IpAddr)
        → s.is_running ≡ true
        → Step s (accepted now peer s)
    stop : (s : Accepting F32 Permits) → s.is_running ≡ true → Step s (stopped s)
    task : (s : Accepting F32 Permits) (e : TaskEvent) (i : ℕ) → Step s (task_step e i s)

  pub data Reach (now : ℕ) : Accepting F32 Permits → Type 0 where
    here : Reach now (start now)
    next : {s t : Accepting F32 Permits} → Reach now s → Step s t → Reach now t

-- ===== src/Server/Accept/Examples.antt =====
-- A server for one client, and two connections.
use Prim.Native.Nat.{suc}
use muxtop.Base.{ℕ, zero, ◌-◌, ◌≤◌, ◌≡◌, refl, Option, none, some, length, ◌*◌}
use muxtop.Server.RateLimit.{max_tracked_ips, nanos_per_sec, admit, make_room, maybe_sweep, debit}
use muxtop.Server.RateLimit.Table.{v4, get, put, same}
use muxtop.Server.RateLimit.Examples.{billionths}
use muxtop.Server.Accept.{
  Semaphore, ServerConfig, Accepting, tls_complete, start, accepted, task_step, Reach, here, next,
  connection, task, on_task,
}
use muxtop.Server.Accept.Permits.{Reach-permits}

abbrev acquire : ℕ → Option ℕ
acquire zero = none
acquire (suc n) = some n

acquire-some : (p q : ℕ) → acquire p ≡ some q → p ≡ suc q
acquire-some zero q h = absurd (cc h)
acquire-some (suc p) q h = cc h

acquire-none : (p : ℕ) → acquire p ≡ none → p ≡ 0
acquire-none zero h = refl
acquire-none (suc p) h = absurd (cc h)

abbrev counter : Semaphore
counter = record {
  Permits = ℕ;
  new = λ n. n;
  try_acquire = acquire;
  release = λ p. suc p;
  available = λ p. p;
  available-new = λ n. refl;
  try_acquire_some = acquire-some;
  try_acquire_none = acquire-none;
  available-release = λ p. refl;
}

abbrev config : ServerConfig ℕ
config = record { max_clients = 1; rate_limit_per_ip = 5 * nanos_per_sec }

abbrev first : Accepting ℕ ℕ
first = accepted billionths counter config 10 (v4 1) (start billionths counter config 0)

-- The second connection finds no permit.
abbrev second : Accepting ℕ ℕ
second = accepted billionths counter config 11 (v4 2) first

abbrev greeted : Accepting ℕ ℕ
greeted = task_step billionths counter config tls_complete 0 second

reached : Reach billionths counter config 0 greeted
unfolding accepted admit get make_room maybe_sweep debit
reached =
    next (next (next here (connection _ 10 (v4 1) refl)) (connection first 11 (v4 2) refl))
      (task second tls_complete 0)

Reach-permits_example :
    (length greeted.tasks ≤ 1)
    × (greeted.permits ≡ 1 - length greeted.tasks)
    × (length greeted.limits.buckets ≤ max_tracked_ips)
Reach-permits_example = Reach-permits billionths counter config reached

one_client : length greeted.tasks ≡ 1
unfolding accepted task_step on_task admit get make_room maybe_sweep debit put same
one_client = refl

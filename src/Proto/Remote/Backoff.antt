-- ===== src/Proto/Remote/Backoff.antt =====
-- How long the client waits, and when it stops (crates/muxtop-proto/src/remote.rs).
use muxtop.Base.{
  ℕ, zero, suc, ◌*◌, ◌^◌, ◌≤◌, min, ◌≡◌, refl, ap, Bool-cases, inl, inr, Option, List, [], ◌∷◌, ok,
  err, All, arith,
}
use muxtop.Proto.Frame.Stream.{ByteSource, ByteSink}
use muxtop.Proto.Wire.{Bincode}
use muxtop.Proto.Remote.{
  RemoteError, io, protocol, handshake_timeout, connection_closed, server_error, disconnected,
  Attempt, Run, Sent, Ending, finished, streaming, next_backoff, send_conn_event, after_attempt,
  connect_and_stream, run_from, run, max_backoff, initial_backoff,
}

-- The wait after `k` failures in a row.
abbrev pub delay : ℕ → ℕ
delay k = min (2 ^ k) max_backoff

delay-suc : (k : ℕ) → min (delay k * 2) max_backoff ≡ delay (suc k)
delay-suc k = grind arith

pow_pos : (k : ℕ) → 1 ≤ 2 ^ k
pow_pos zero = omega arith
pow_pos (suc k) = grind (arith, pow_pos k)

delay_bounds : (k : ℕ) → (1 ≤ delay k) × (delay k ≤ 30)
delay_bounds k = (omega (arith, pow_pos k), omega arith)

module _ {Snapshot : Type 0} where
  -- A connection that was closed ends the row of failures.
  abbrev pub row_after : RemoteError Snapshot → ℕ → ℕ
  row_after connection_closed k = 0
  row_after e k = suc k

  abbrev pub delays : ℕ → List (RemoteError Snapshot) → List ℕ
  delays k [] = []
  delays k (e ∷ es) = delay k ∷ delays (row_after e k) es

  next_backoff-delay :
      (e : RemoteError Snapshot) (k : ℕ) → next_backoff e (delay k) ≡ delay (row_after e k)
  next_backoff-delay connection_closed k = refl
  next_backoff-delay (io e) k = delay-suc k
  next_backoff-delay (protocol c) k = delay-suc k
  next_backoff-delay handshake_timeout k = delay-suc k
  next_backoff-delay (server_error c m) k = delay-suc k

  module _ (bincode : Bincode Snapshot) (source : ByteSource) (sink : ByteSink) (version : List ℕ)
      (token : Option (List ℕ)) where
    after_attempt-delays :
        (a : Attempt source sink) (k : ℕ) (r : Ending Snapshot × Sent Snapshot)
        (rest : ℕ → Sent Snapshot → Run Snapshot)
        → ((j : ℕ) (out : Sent Snapshot)
            → (rest (delay j) out).waits ≡ delays j (rest (delay j) out).log)
        → let run = after_attempt bincode source sink version token a (delay k) r rest in
          run.waits ≡ delays k run.log
    after_attempt-delays a k (streaming, out) rest h = refl
    after_attempt-delays a k (finished (ok u), out) rest h = refl
    after_attempt-delays a k (finished (err e), out) rest h = elim (Bool-cases a.interrupted) [
      | inl stop ↦ rw stop refl
      | inr on ↦ rw on (
          rw (next_backoff-delay e k)
            (ap (λ l. delay k ∷ l) (h (row_after e k) (send_conn_event a.room disconnected out))))
    ]

    run_from-delays :
        (attempts : List (Attempt source sink)) (k : ℕ) (out : Sent Snapshot)
        → let r = run_from bincode source sink version token attempts (delay k) out in
          r.waits ≡ delays k r.log
    unfolding run_from
    run_from-delays [] k out = refl
    run_from-delays (a ∷ attempts) k out = elim (Bool-cases a.is_cancelled) [
      | inl stop ↦ rw stop refl
      | inr on ↦ rw on (
          after_attempt-delays a k (connect_and_stream bincode source sink version token a out)
            (run_from bincode source sink version token attempts) (run_from-delays attempts))
    ]

    delays_bounds :
        (k : ℕ) (es : List (RemoteError Snapshot)) → All (λ w. (1 ≤ w) × (w ≤ 30)) (delays k es)
    delays_bounds k [] = tt
    delays_bounds k (e ∷ es) = (delay_bounds k, delays_bounds (row_after e k) es)

    -- Whatever happens to the connections, the client waits as long as the errors it has logged
    -- say, `min (2 ^ k) 30` seconds after the error with `k` errors before it since the last
    -- closed connection, and so never less than 1 or more than 30 seconds.
    pub run-delays :
        (attempts : List (Attempt source sink)) (out : Sent Snapshot)
        → let r = run bincode source sink version token attempts out in
          (r.waits ≡ delays 0 r.log) × All (λ w. (1 ≤ w) × (w ≤ 30)) r.waits
    unfolding run
    run-delays attempts out =
        let e = run_from-delays attempts 0 out in
        (
          e,
          rw e (
              delays_bounds 0
                (run_from bincode source sink version token attempts initial_backoff out).log),
        )

-- ===== src/Proto/Remote.antt =====
-- The client of a muxtop server (crates/muxtop-proto/src/remote.rs).
--
-- The network, the clock and the other tasks are the environment: an `Attempt` says what happens to
-- one connection, a `Turn` what the `select!` of the stream yields and what `try_send` then finds.
-- Times are numbers of seconds. The errors carry their cause in place of its text.
pub mod Backoff
pub mod Stream
use muxtop.Base.{
  ℕ, ◌*◌, min, Bool, true, false, Option, none, some, List, [], ◌∷◌, ◌++◌, Result, ok, err,
  if◌then◌else◌,
}
use muxtop.Proto.Frame.{Frame, ProtoError, IoError}
use muxtop.Proto.Frame.Stream.{ByteSource, ByteSink, read_frame, write_frame}
use muxtop.Proto.Wire.{
  WireMessage, snapshot, heartbeat, error, hello, welcome, Bincode, to_frame, from_frame,
}

abbrev pub max_backoff : ℕ
max_backoff = 30

abbrev pub initial_backoff : ℕ
initial_backoff = 1

pub data ConnectionEvent : Type 0 where
  connected : (hostname : List ℕ) → ConnectionEvent
  disconnected : ConnectionEvent
  server_error : (code : ℕ) (message : List ℕ) → ConnectionEvent

pub data Cause (Snapshot : Type 0) : Type 0 where
  tls_timed_out tls_failed : Cause Snapshot
  of_proto : ProtoError → Cause Snapshot
  unexpected : WireMessage Snapshot → Cause Snapshot

pub data RemoteError (Snapshot : Type 0) : Type 0 where
  io : IoError → RemoteError Snapshot
  protocol : Cause Snapshot → RemoteError Snapshot
  handshake_timeout connection_closed : RemoteError Snapshot
  server_error : (code : ℕ) (message : List ℕ) → RemoteError Snapshot

-- What `try_send` finds.
pub data Slot : Type 0 where
  free full closed : Slot

pub data Turn : Type 0 where
  readable : Slot → Turn
  cancelled : Turn

-- What the collector has sent to its two channels; without a listener there is no second one.
pub record Sent (Snapshot : Type 0) : Type 0 where
  pub snapshots : List Snapshot
  pub events : Option (List ConnectionEvent)

-- The TCP and the TLS connection.
pub data Connecting : Type 0 where
  cancelled tls_timed_out tls_failed established : Connecting
  refused : IoError → Connecting

-- An attempt that has used up its turns is still streaming.
pub data Ending (Snapshot : Type 0) : Type 0 where
  finished : Result (RemoteError Snapshot) (Unit {0}) → Ending Snapshot
  streaming : Ending Snapshot

-- One round of the loop of `run`, with the token as the loop finds it and as it ends the wait.
pub record Attempt (source : ByteSource) (sink : ByteSink) : Type 0 where
  pub is_cancelled : Bool
  pub connecting : Connecting
  pub writer : sink.Writer
  pub reader : source.Reader
  -- The first frame comes before the timeout.
  pub in_time : Bool
  pub turns : List Turn
  -- The listener's channel has room for an event.
  pub room : ConnectionEvent → Bool
  pub interrupted : Bool

-- What `run` has logged, how long it has waited, and whether it has returned.
pub record Run (Snapshot : Type 0) : Type 0 where
  pub log : List (RemoteError Snapshot)
  pub waits : List ℕ
  pub sent : Sent Snapshot
  pub is_over : Bool

abbrev pub listened :
    ConnectionEvent → Option (List ConnectionEvent) → Option (List ConnectionEvent)
listened e none = none
listened e (some es) = some (es ++ e ∷ [])

module _ {Snapshot : Type 0} where
  abbrev pub failed : RemoteError Snapshot → Ending Snapshot
  failed e = finished (err e)

  -- An event that finds no room is dropped.
  abbrev pub send_conn_event :
      (ConnectionEvent → Bool) → ConnectionEvent → Sent Snapshot → Sent Snapshot
  send_conn_event room e out = if room e then record out { events = listened e out.events } else out

  -- After a failed attempt.
  abbrev pub next_backoff : RemoteError Snapshot → ℕ → ℕ
  next_backoff connection_closed backoff = initial_backoff
  next_backoff e backoff = min (backoff * 2) max_backoff

  abbrev pub taken :
      Slot
      → Snapshot
      → (Sent Snapshot → Ending Snapshot × Sent Snapshot)
      → Sent Snapshot
      → Ending Snapshot × Sent Snapshot
  taken free s rest out = rest (record out { snapshots = out.snapshots ++ s ∷ [] })
  taken full s rest out = rest out
  taken closed s rest out = (finished (ok tt), out)

  module _ (bincode : Bincode Snapshot) (source : ByteSource) where
    open source use {Reader}

    module _ (room : ConnectionEvent → Bool) where
      abbrev pub on_message :
          Slot
          → WireMessage Snapshot
          → (Sent Snapshot → Ending Snapshot × Sent Snapshot)
          → Sent Snapshot
          → Ending Snapshot × Sent Snapshot
      on_message slot (snapshot s) rest out = taken slot s rest out
      on_message slot (error code message) rest out =
          (failed (server_error code message), send_conn_event room (server_error code message) out)
      on_message slot m rest out = rest out

      abbrev pub on_frame :
          Slot
          → Result ProtoError (Option Frame)
          → (Sent Snapshot → Ending Snapshot × Sent Snapshot)
          → Sent Snapshot
          → Ending Snapshot × Sent Snapshot
      on_frame slot (ok none) rest out = (failed connection_closed, out)
      on_frame slot (err e) rest out = (failed (protocol (of_proto e)), out)
      on_frame slot (ok (some frame)) rest out = elim (from_frame bincode frame) [
        | ok m ↦ on_message slot m rest out
        | err e ↦ (failed (protocol (of_proto e)), out)
      ]

      -- The streaming loop.
      unfoldable pub stream : List Turn → Reader → Sent Snapshot → Ending Snapshot × Sent Snapshot
      stream [] r out = (streaming, out)
      stream (cancelled ∷ turns) r out = (finished (ok tt), out)
      stream (readable slot ∷ turns) r out =
          on_frame slot (read_frame source r).0 (stream turns (read_frame source r).1) out

      abbrev pub after_welcome :
          Result (RemoteError Snapshot) (WireMessage Snapshot)
          → (Sent Snapshot → Ending Snapshot × Sent Snapshot)
          → Sent Snapshot
          → Ending Snapshot × Sent Snapshot
      after_welcome (err e) rest out = (failed e, out)
      after_welcome (ok (welcome v hostname hz)) rest out =
          rest (send_conn_event room (connected hostname) out)
      after_welcome (ok (error code message)) rest out =
          (failed (server_error code message), send_conn_event room (server_error code message) out)
      after_welcome (ok m) rest out = (failed (protocol (unexpected m)), out)

    abbrev pub welcome_frame :
        Bool → Result ProtoError (Option Frame) → Result (RemoteError Snapshot) Frame
    welcome_frame false r = err handshake_timeout
    welcome_frame true (err e) = err (protocol (of_proto e))
    welcome_frame true (ok none) = err connection_closed
    welcome_frame true (ok (some frame)) = ok frame

    abbrev pub welcome_message :
        Result (RemoteError Snapshot) Frame → Result (RemoteError Snapshot) (WireMessage Snapshot)
    welcome_message (err e) = err e
    welcome_message (ok frame) = elim (from_frame bincode frame) [
      | ok m ↦ ok m
      | err e ↦ err (protocol (of_proto e))
    ]

    module _ (sink : ByteSink) (version : List ℕ) (token : Option (List ℕ)) where
      -- The Hello is written.
      abbrev pub hello_sent :
          Result ProtoError Frame → sink.Writer → Result ProtoError (Unit {0}) × sink.Writer
      hello_sent (ok frame) w = write_frame sink frame w
      hello_sent (err e) w = (err e, w)

      abbrev pub after_hello :
          Result ProtoError (Unit {0})
          → (Sent Snapshot → Ending Snapshot × Sent Snapshot)
          → Sent Snapshot
          → Ending Snapshot × Sent Snapshot
      after_hello (ok u) rest out = rest out
      after_hello (err e) rest out = (failed (protocol (of_proto e)), out)

      abbrev pub opened :
          Connecting
          → (Sent Snapshot → Ending Snapshot × Sent Snapshot)
          → Sent Snapshot
          → Ending Snapshot × Sent Snapshot
      opened cancelled rest out = (finished (ok tt), out)
      opened (refused e) rest out = (failed (io e), out)
      opened tls_timed_out rest out = (failed (protocol tls_timed_out), out)
      opened tls_failed rest out = (failed (protocol tls_failed), out)
      opened established rest out = rest out

      unfoldable pub connect_and_stream :
          Attempt source sink → Sent Snapshot → Ending Snapshot × Sent Snapshot
      unfolding to_frame from_frame stream
      connect_and_stream a = opened a.connecting (
          after_hello (hello_sent (to_frame bincode (hello version token)) a.writer).0 (
            after_welcome a.room
              (welcome_message (welcome_frame a.in_time (read_frame source a.reader).0))
              (stream a.room a.turns (read_frame source a.reader).1)))

      abbrev pub waited : RemoteError Snapshot → ℕ → Run Snapshot → Run Snapshot
      waited e backoff r = record r { log = e ∷ r.log; waits = backoff ∷ r.waits }

      abbrev pub stopped : Bool → Sent Snapshot → Run Snapshot
      stopped is_over out = record { log = []; waits = []; sent = out; is_over = is_over }

      abbrev pub after_attempt :
          Attempt source sink
          → ℕ
          → Ending Snapshot × Sent Snapshot
          → (ℕ → Sent Snapshot → Run Snapshot)
          → Run Snapshot
      after_attempt a backoff (streaming, out) rest = stopped false out
      after_attempt a backoff (finished (ok u), out) rest = stopped true out
      after_attempt a backoff (finished (err e), out) rest =
          let told = send_conn_event a.room disconnected out in
          waited e backoff
            (if a.interrupted then stopped true told else rest (next_backoff e backoff) told)

      unfoldable pub run_from : List (Attempt source sink) → ℕ → Sent Snapshot → Run Snapshot
      unfolding connect_and_stream
      run_from [] backoff out = stopped false out
      run_from (a ∷ attempts) backoff out =
          if a.is_cancelled
          then stopped true out
          else after_attempt a backoff (connect_and_stream a out) (run_from attempts)

      unfoldable pub run : List (Attempt source sink) → Sent Snapshot → Run Snapshot
      unfolding run_from
      run attempts = run_from attempts initial_backoff

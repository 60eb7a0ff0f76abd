-- ===== src/Server/Client.antt =====
-- One client of the server (`handle` of crates/muxtop-server/src/client.rs). The session is given
-- what happens to it: whether the Hello is read in time, and then the events of the `select!`, in the
-- order in which they are ready.
pub mod Handshake
pub mod Streaming
pub mod Examples
use muxtop.Base.{
  ℕ, ◌*◌, Bool, true, false, Option, none, some, List, [], ◌∷◌, Result, ok, err, if◌then◌else◌,
}
use muxtop.Base.Texts.{codes}
use muxtop.Proto.Frame.{IoError, Frame, ProtoError}
use muxtop.Proto.Frame.Stream.{ByteSource, ByteSink, read_frame_with_max_payload, write_frame}
use muxtop.Proto.Wire.{WireMessage, Bincode, heartbeat, error, hello, welcome, to_frame, from_frame}
use muxtop.Server.Tokens.{constant_time_eq}

-- The message that came in place of the Hello is part of the error.
pub data ServerError (Snapshot : Type 0) : Type 0 where
  io : IoError → ServerError Snapshot
  proto : ProtoError → ServerError Snapshot
  unauthorized handshake_timeout : ServerError Snapshot
  unexpected_message : WireMessage Snapshot → ServerError Snapshot

-- What a session reads of the shared state; the uptime comes with each heartbeat.
pub record SharedState : Type 0 where
  pub auth_token : List ℕ
  pub refresh_hz : ℕ
  pub hostname : List ℕ
  pub server_version : List ℕ

pub data SessionEvent : Type 0 where
  forward : Frame → SessionEvent
  lagged : ℕ → SessionEvent
  heartbeat_due : (uptime : ℕ) → SessionEvent
  closed cancelled : SessionEvent

-- A session that has used up its events is still streaming.
pub data Outcome (Snapshot : Type 0) : Type 0 where
  finished : Result (ServerError Snapshot) (Unit {0}) → Outcome Snapshot
  streaming : Outcome Snapshot

abbrev pub pre_auth_hello_max_payload : ℕ
pre_auth_hello_max_payload = 4 * 1024

abbrev pub token_or_empty : Option (List ℕ) → List ℕ
token_or_empty none = []
token_or_empty (some token) = token

module _ {Snapshot : Type 0} (bincode : Bincode Snapshot) (state : SharedState) where
  abbrev pub failed : ServerError Snapshot → Outcome Snapshot
  failed e = finished (err e)

  abbrev pub refusal : WireMessage Snapshot
  refusal = error 401 (codes "unauthorized")

  abbrev pub greeting : WireMessage Snapshot
  greeting = welcome state.server_version state.hostname state.refresh_hz

  -- What the bytes before the Welcome amount to.
  abbrev pub hello_frame :
      Bool → Result ProtoError (Option Frame) → Result (ServerError Snapshot) Frame
  hello_frame false r = err handshake_timeout
  hello_frame true (err e) = err (proto e)
  hello_frame true (ok none) = err handshake_timeout
  hello_frame true (ok (some frame)) = ok frame

  abbrev pub hello_message :
      Result (ServerError Snapshot) Frame → Result (ServerError Snapshot) (WireMessage Snapshot)
  hello_message (err e) = err e
  hello_message (ok frame) = elim (from_frame bincode frame) [ ok m ↦ ok m | err e ↦ err (proto e) ]

  module _ (sink : ByteSink) where
    open sink use {Writer}

    -- A message, written with `?`, and what follows if it is sent.
    abbrev pub written :
        Result ProtoError (Unit {0}) × Writer
        → (Writer → Outcome Snapshot × Writer)
        → Outcome Snapshot × Writer
    written (ok u, w) next = next w
    written (err e, w) next = (failed (proto e), w)

    abbrev pub send :
        Result ProtoError Frame
        → (Writer → Outcome Snapshot × Writer)
        → Writer
        → Outcome Snapshot × Writer
    send (ok frame) next w = written (write_frame sink frame w) next
    send (err e) next w = (failed (proto e), w)

    unfoldable pub serve : List SessionEvent → Writer → Outcome Snapshot × Writer
    unfolding to_frame
    serve [] w = (streaming, w)
    serve (forward frame ∷ events) w = send (ok frame) (serve events) w
    serve (lagged n ∷ events) w = serve events w
    serve (heartbeat_due uptime ∷ events) w =
        send (to_frame bincode (heartbeat state.server_version uptime)) (serve events) w
    serve (closed ∷ events) w = (finished (ok tt), w)
    serve (cancelled ∷ events) w = (finished (ok tt), w)

    -- The refusal is written, whether that succeeds or not.
    abbrev pub refused : Result ProtoError Frame → Writer → Outcome Snapshot × Writer
    refused (ok frame) w = (failed unauthorized, (write_frame sink frame w).1)
    refused (err e) w = (failed (proto e), w)

    abbrev pub after_hello :
        Result (ServerError Snapshot) (WireMessage Snapshot)
        → List SessionEvent
        → Writer
        → Outcome Snapshot × Writer
    after_hello (err e) events w = (failed e, w)
    after_hello (ok (hello v token)) events w =
        if constant_time_eq state.auth_token (token_or_empty token)
        then send (to_frame bincode greeting) (serve events) w
        else refused (to_frame bincode refusal) w
    after_hello (ok m) events w = (failed (unexpected_message m), w)

    module _ (source : ByteSource) where
      unfoldable pub handle :
          (in_time : Bool) → source.Reader → List SessionEvent → Writer → Outcome Snapshot × Writer
      unfolding from_frame to_frame constant_time_eq serve
      handle in_time reader events w =
          after_hello
            (hello_message (
              hello_frame in_time
                (read_frame_with_max_payload source pre_auth_hello_max_payload reader).0))
            events w

-- ===== src/Server/Client/Streaming.antt =====
-- What a client has been sent (crates/muxtop-server/src/client.rs).
use muxtop.Base.{
  ◌≡◌, refl, ap, Bool, true, false, List, [], ◌∷◌, arith, Result, ok, err, if◌then◌else◌,
}
use muxtop.Proto.Frame.{Frame, ProtoError}
use muxtop.Proto.Frame.Stream.{ByteSource, ByteSink, write_frame, read_frame_with_max_payload}
use muxtop.Proto.Frame.Stream.Pipe.{Sends, done, send}
use muxtop.Proto.Wire.{WireMessage, Bincode, heartbeat, hello, to_frame}
use muxtop.Server.Tokens.{constant_time_eq}
use muxtop.Server.Client.{
  ServerError, SharedState, SessionEvent, forward, lagged, heartbeat_due, closed, cancelled,
  Outcome, finished, streaming, token_or_empty, greeting, refusal, hello_frame, hello_message,
  written, after_hello, refused, serve, handle, pre_auth_hello_max_payload,
}
use muxtop.Server.Client as Client

abbrev pub is_failure : {Snapshot : Type 0} → Outcome Snapshot → Bool
is_failure (finished (err e)) = true
is_failure (finished (ok u)) = false
is_failure streaming = false

module _ {Snapshot : Type 0} (bincode : Bincode Snapshot) (state : SharedState) where
  abbrev pub cons_ok : Frame → Result ProtoError (List Frame) → Result ProtoError (List Frame)
  cons_ok f (ok fs) = ok (f ∷ fs)
  cons_ok f (err e) = err e

  abbrev pub after_frame :
      Result ProtoError Frame → Result ProtoError (List Frame) → Result ProtoError (List Frame)
  after_frame (ok f) rest = cons_ok f rest
  after_frame (err e) rest = err e

  -- The frames that events ask for, up to the one that ends the session.
  abbrev pub frames_of : List SessionEvent → Result ProtoError (List Frame)
  frames_of [] = ok []
  frames_of (forward f ∷ events) = cons_ok f (frames_of events)
  frames_of (lagged n ∷ events) = frames_of events
  frames_of (heartbeat_due t ∷ events) =
      after_frame (to_frame bincode (heartbeat state.server_version t)) (frames_of events)
  frames_of (closed ∷ events) = ok []
  frames_of (cancelled ∷ events) = ok []

  -- A Hello with the token of the server.
  abbrev pub presents : Result (ServerError Snapshot) (WireMessage Snapshot) → Bool
  presents (ok (hello v token)) = constant_time_eq state.auth_token (token_or_empty token)
  presents m = false

  module _ (sink : ByteSink) where
    open sink use {Writer}

    -- The frames are sent, all and in order.
    abbrev pub SendsAll : Result ProtoError (List Frame) → Writer → Writer → Type 0
    SendsAll r w w' = (fs : List Frame) × ((r ≡ ok fs) × Sends sink w fs w')

    written-SendsAll :
        (f : Frame) (w : Writer) (r : Result ProtoError (Unit {0}) × Writer)
        (next : Writer → Outcome Snapshot × Writer) (rest : Result ProtoError (List Frame))
        → write_frame sink f w ≡ r
        → ((w1 : Writer) → is_failure (next w1).0 ≡ false → SendsAll rest w1 (next w1).1)
        → is_failure (written bincode state sink r next).0 ≡ false
        → SendsAll (cons_ok f rest) w (written bincode state sink r next).1
    written-SendsAll f w (ok u, w1) next rest e tail h =
        let (fs, (same, sent)) = tail w1 h in (f ∷ fs, (ap (cons_ok f) same, send f e sent))
    written-SendsAll f w (err b, w1) next rest e tail h = absurd (ground arith)

    send-SendsAll :
        (r : Result ProtoError Frame) (w : Writer) (next : Writer → Outcome Snapshot × Writer)
        (rest : Result ProtoError (List Frame))
        → ((w1 : Writer) → is_failure (next w1).0 ≡ false → SendsAll rest w1 (next w1).1)
        → is_failure (Client.send bincode state sink r next w).0 ≡ false
        → SendsAll (after_frame r rest) w (Client.send bincode state sink r next w).1
    send-SendsAll (ok f) w next rest tail h =
        written-SendsAll f w (write_frame sink f w) next rest refl tail h
    send-SendsAll (err e) w next rest tail h = absurd (ground arith)

    serve-SendsAll :
        (events : List SessionEvent) (w : Writer)
        → is_failure (serve bincode state sink events w).0 ≡ false
        → SendsAll (frames_of events) w (serve bincode state sink events w).1
    unfolding serve
    serve-SendsAll [] w h = ([], (refl, done))
    serve-SendsAll (closed ∷ events) w h = ([], (refl, done))
    serve-SendsAll (cancelled ∷ events) w h = ([], (refl, done))
    serve-SendsAll (lagged n ∷ events) w h = serve-SendsAll events w h
    serve-SendsAll (forward f ∷ events) w h =
        send-SendsAll (ok f) w (serve bincode state sink events) (frames_of events)
          (serve-SendsAll events) h
    serve-SendsAll (heartbeat_due t ∷ events) w h =
        send-SendsAll (to_frame bincode (heartbeat state.server_version t)) w
          (serve bincode state sink events) (frames_of events) (serve-SendsAll events) h

    refused-is_failure :
        (r : Result ProtoError Frame) (w : Writer)
        → is_failure (refused bincode state sink r w).0 ≡ true
    refused-is_failure (ok f) w = refl
    refused-is_failure (err e) w = refl

    admitted-SendsAll :
        (admitted : Bool) (events : List SessionEvent) (w : Writer)
        → let out =
            if admitted
            then Client.send bincode state sink
                (to_frame bincode (greeting bincode state))
                (serve bincode state sink events)
                w
            else refused bincode state sink (to_frame bincode (refusal bincode state)) w in
          is_failure out.0 ≡ false
          → (admitted ≡ true)
            × SendsAll
                (after_frame (to_frame bincode (greeting bincode state)) (frames_of events))
                w
                out.1
    admitted-SendsAll true events w h = (
      refl,
      send-SendsAll (to_frame bincode (greeting bincode state)) w (serve bincode state sink events)
          (frames_of events) (serve-SendsAll events) h,
    )
    admitted-SendsAll false events w h =
        let failed = refused-is_failure (to_frame bincode (refusal bincode state)) w in
        absurd (cc (failed, h))

    after_hello-Sends :
        (m : Result (ServerError Snapshot) (WireMessage Snapshot)) (events : List SessionEvent)
        (w : Writer)
        → is_failure (after_hello bincode state sink m events w).0 ≡ false
        → (presents m ≡ true)
          × SendsAll
              (after_frame (to_frame bincode (greeting bincode state)) (frames_of events))
              w
              (after_hello bincode state sink m events w).1
    after_hello-Sends (err e) events w h = absurd (ground arith)
    after_hello-Sends (ok (hello v token)) events w h =
        admitted-SendsAll (constant_time_eq state.auth_token (token_or_empty token)) events w h
    after_hello-Sends (ok m) events w h = absurd (ground arith)

    -- The message that the bytes before the Welcome amount to.
    abbrev pub first_message :
        (source : ByteSource)
        → Bool
        → source.Reader
        → Result (ServerError Snapshot) (WireMessage Snapshot)
    first_message source in_time reader = hello_message bincode state (
        hello_frame bincode state in_time
          (read_frame_with_max_payload source pre_auth_hello_max_payload reader).0)

    -- A session that has not failed was opened in time by a Hello with the server's token, and the
    -- client has been sent the Welcome and then one frame for each forwarded snapshot and each
    -- heartbeat, up to the end of the session, in order and nothing else.
    pub handle-Sends :
        (source : ByteSource) (in_time : Bool) (reader : source.Reader) (events : List SessionEvent)
        (w : Writer)
        → is_failure (handle bincode state sink source in_time reader events w).0 ≡ false
        → (presents (first_message source in_time reader) ≡ true)
          × SendsAll
              (after_frame (to_frame bincode (greeting bincode state)) (frames_of events))
              w
              (handle bincode state sink source in_time reader events w).1
    unfolding handle
    handle-Sends source in_time reader events w h =
        after_hello-Sends (first_message source in_time reader) events w h

-- ===== src/Server/Client/Handshake.antt =====
-- What a client that is not admitted gets (crates/muxtop-server/src/client.rs).
use muxtop.Base.{◌≡◌, refl, ◌⊎◌, inl, inr, Bool, false, List, Result, ok, err, if◌then◌else◌}
use muxtop.Proto.Frame.{Frame, ProtoError}
use muxtop.Proto.Frame.Stream.{ByteSource, ByteSink, write_frame}
use muxtop.Proto.Wire.{WireMessage, Bincode, hello, to_frame}
use muxtop.Server.Tokens.{constant_time_eq}
use muxtop.Server.Client.{
  ServerError, SharedState, SessionEvent, Outcome, failed, proto, unauthorized, unexpected_message,
  token_or_empty, greeting, refusal, after_hello, refused, serve, send, handle,
}
use muxtop.Server.Client.Streaming.{presents, first_message}

module _ {Snapshot : Type 0} (bincode : Bincode Snapshot) (state : SharedState)
    (sink : ByteSink) where
  open sink use {Writer}

  -- Nothing has been written, or one frame, the refusal.
  abbrev pub IsUntouched : Writer → Writer → Type 0
  IsUntouched w w' =
      (w' ≡ w)
      ⊎ ((f : Frame) × ((to_frame bincode (refusal bincode state) ≡ ok f)
            × (w' ≡ (write_frame sink f w).1)))

  abbrev pub IsRefused : Writer → Outcome Snapshot × Writer → Type 0
  IsRefused w (out, w') =
      (e : ServerError Snapshot) × ((out ≡ failed bincode state e) × IsUntouched w w')

  refused-IsRefused :
      (r : Result ProtoError Frame) (w : Writer)
      → to_frame bincode (refusal bincode state) ≡ r
      → IsRefused w (refused bincode state sink r w)
  refused-IsRefused (ok f) w e = (unauthorized, (refl, inr (f, (e, refl))))
  refused-IsRefused (err b) w e = (proto b, (refl, inl refl))

  tested-IsRefused :
      (admitted : Bool) (events : List SessionEvent) (w : Writer)
      → admitted ≡ false
      → IsRefused w (
          if admitted
          then send bincode state sink
              (to_frame bincode (greeting bincode state))
              (serve bincode state sink events)
              w
          else refused bincode state sink (to_frame bincode (refusal bincode state)) w)
  tested-IsRefused admitted events w h = rw h (refused-IsRefused _ w refl)

  after_hello-IsRefused :
      (m : Result (ServerError Snapshot) (WireMessage Snapshot)) (events : List SessionEvent)
      (w : Writer)
      → presents bincode state m ≡ false
      → IsRefused w (after_hello bincode state sink m events w)
  after_hello-IsRefused (err e) events w h = (e, (refl, inl refl))
  after_hello-IsRefused (ok (hello v token)) events w h =
      tested-IsRefused (constant_time_eq state.auth_token (token_or_empty token)) events w h
  after_hello-IsRefused (ok m) events w h = (unexpected_message m, (refl, inl refl))

  -- If no Hello with the server's token is read in time, the session fails, whatever is there to
  -- forward, and all that it has done with the connection is at most one try to write the refusal
  -- 401.
  pub handle-IsRefused :
      (source : ByteSource) (in_time : Bool) (reader : source.Reader) (events : List SessionEvent)
      (w : Writer)
      → presents bincode state (first_message bincode state sink source in_time reader) ≡ false
      → IsRefused w (handle bincode state sink source in_time reader events w)
  unfolding handle
  handle-IsRefused source in_time reader events w h =
      after_hello-IsRefused (first_message bincode state sink source in_time reader) events w h

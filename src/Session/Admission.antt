-- ===== src/Session/Admission.antt =====
-- The Hello of a client at the server: who is admitted.
use mathlib.Core.List.{append-nil}
use muxtop.Base.{
  ℕ, ◌≤◌, ◌<◌, ◌≡◌, refl, sym, subst, ap, ◌∙◌, ◌≢◌, true, Bool-cases, inl, inr, Option, List, [],
  ◌++◌, Result, ok, err, length, All,
}
use muxtop.Proto.Frame.{Frame, ProtoError}
use muxtop.Proto.Frame.Stream.{ByteSource, ByteSink, write_frame}
use muxtop.Proto.Frame.Stream.Session.{read_frame-encode_frame}
use muxtop.Proto.Frame.Stream.Pipe.{write_frame_contents}
use muxtop.Proto.Wire.{Bincode, hello, to_frame, max_decode_bytes}
use muxtop.Proto.Wire.RoundTrip.{Faithful, claimed_by, from_frame-admitted}
use muxtop.Proto.Remote.{hello_sent}
use muxtop.Server.Tokens.{constant_time_eq}
use muxtop.Server.Tokens.Equal.{constant_time_eq_iff}
use muxtop.Server.Client.{
  SharedState, SessionEvent, token_or_empty, pre_auth_hello_max_payload, hello_message, greeting,
  refusal, failed, unauthorized, send, written, refused, after_hello, serve, handle,
}
use muxtop.Server.Client.Streaming.{first_message}

module _ {Snapshot : Type 0} (bincode : Bincode Snapshot) (faithful : Faithful bincode)
    (state : SharedState) (client_source server_source : ByteSource)
    (client_sink server_sink : ByteSink) (version : List ℕ) (token : Option (List ℕ)) where
  hello_sent-eq_ok :
      (r : Result ProtoError Frame) (w w' : client_sink.Writer)
      → hello_sent bincode client_source client_sink version token r w ≡ (ok tt, w')
      → (f : Frame) × (r ≡ ok f) × (write_frame client_sink f w ≡ (ok tt, w'))
  hello_sent-eq_ok (ok f) w w' h = (f, refl, h)
  hello_sent-eq_ok (err e) w w' h = absurd (cc h)

  -- The client's Hello arrives as it was sent.
  first_message-hello_sent :
      (w w' : client_sink.Writer) (reader : server_source.Reader)
      → ((f : Frame)
          → to_frame bincode (hello version token) ≡ ok f
          → length f.payload ≤ pre_auth_hello_max_payload)
      → claimed_by bincode (hello version token) ≤ max_decode_bytes
      → client_sink.contents w ≡ []
      → hello_sent bincode client_source client_sink version token
          (to_frame bincode (hello version token))
          w
        ≡ (ok tt, w')
      → server_source.Delivers reader (client_sink.contents w')
      → first_message bincode state server_sink server_source true reader ≡ ok (hello version token)
  first_message-hello_sent w w' reader fits small fresh wrote delivered =
      let (f, made, sent) = hello_sent-eq_ok _ w w' wrote in
      let (bytes, encoded, now) = write_frame_contents client_sink f w w' sent in
      let stream = now ∙ ap (λ l. l ++ bytes) fresh ∙ sym (append-nil bytes) in
      let (r', read, d) =
        read_frame-encode_frame server_source pre_auth_hello_max_payload f [] reader encoded
          (fits f made) (subst (server_source.Delivers reader) stream delivered) in
      rw read (
        rw (from_frame-admitted bincode faithful (hello version token) f made small, hello_message)
          refl)

  -- What a session does about a Hello that has been read.
  after_hello-admitted :
      (events : List SessionEvent) (v v1 : server_sink.Writer) (g f401 : Frame)
      → All (λ b. b < 256) state.auth_token
      → All (λ b. b < 256) (token_or_empty token)
      → to_frame bincode (greeting bincode state) ≡ ok g
      → write_frame server_sink g v ≡ (ok tt, v1)
      → to_frame bincode (refusal bincode state) ≡ ok f401
      → let out = after_hello bincode state server_sink (ok (hello version token)) events v in
        (state.auth_token ≡ token_or_empty token → out ≡ serve bincode state server_sink events v1)
        × (state.auth_token ≢ token_or_empty token
            → out ≡ (failed bincode state unauthorized, (write_frame server_sink f401 v).1))
  after_hello-admitted events v v1 g f401 ha hb made greeted made401 =
      let same = constant_time_eq_iff state.auth_token (token_or_empty token) ha hb in
      (
        λ e. rw (same.1 e) (rw (made, send) (rw (greeted, written) refl)),
        λ d. elim (Bool-cases (constant_time_eq state.auth_token (token_or_empty token))) [
          | inl y ↦ absurd (d (same.0 y))
          | inr n ↦ rw n (rw (made401, refused) refl)
        ],
      )

  -- A client whose Hello, on a fresh connection, is written and reaches the server in time is dealt
  -- with by its token, where no token counts as the empty one. If it is the server's, the session
  -- goes on after the Welcome and streams its events; if it is not, the session fails as
  -- unauthorized and has tried to write the refusal 401 and nothing else. This is for a bincode that
  -- is faithful to its limit, a Hello within that limit and within the cap for Hellos, tokens of
  -- bytes, a refusal that has a frame, and a Welcome that has a frame and can be written.
  pub handle-hello_sent :
      (w w' : client_sink.Writer) (reader : server_source.Reader) (events : List SessionEvent)
      (v v1 : server_sink.Writer) (g f401 : Frame)
      → All (λ b. b < 256) state.auth_token
      → All (λ b. b < 256) (token_or_empty token)
      → ((f : Frame)
          → to_frame bincode (hello version token) ≡ ok f
          → length f.payload ≤ pre_auth_hello_max_payload)
      → claimed_by bincode (hello version token) ≤ max_decode_bytes
      → client_sink.contents w ≡ []
      → hello_sent bincode client_source client_sink version token
          (to_frame bincode (hello version token))
          w
        ≡ (ok tt, w')
      → server_source.Delivers reader (client_sink.contents w')
      → to_frame bincode (greeting bincode state) ≡ ok g
      → write_frame server_sink g v ≡ (ok tt, v1)
      → to_frame bincode (refusal bincode state) ≡ ok f401
      → let out = handle bincode state server_sink server_source true reader events v in
        (state.auth_token ≡ token_or_empty token → out ≡ serve bincode state server_sink events v1)
        × (state.auth_token ≢ token_or_empty token
            → out ≡ (failed bincode state unauthorized, (write_frame server_sink f401 v).1))
  unfolding handle
  handle-hello_sent w w' reader events v v1 g f401 ha hb fits small fresh wrote delivered made
        greeted made401 =
      rw (first_message-hello_sent w w' reader fits small fresh wrote delivered)
        (after_hello-admitted events v v1 g f401 ha hb made greeted made401)

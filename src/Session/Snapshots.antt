-- ===== src/Session/Snapshots.antt =====
-- Snapshots on their way from the server to the application of a client.
use muxtop.Base.{
  ℕ, suc, ◌<◌, ◌≤◌, ◌≡◌, refl, sym, subst, ap, Bool, true, false, Option, some, List, [], ◌∷◌, map,
  Result, ok, err, length, arith,
}
use muxtop.Proto.Frame.{Frame, ProtoError}
use muxtop.Proto.Frame.Stream.{ByteSource, ByteSink, read_frame}
use muxtop.Proto.Frame.Stream.Session.{Receives, frame}
use muxtop.Proto.Frame.Stream.Pipe.{Receives-Sends}
use muxtop.Proto.Wire.{
  Bincode, snapshot, heartbeat, hello, encode_snapshot_ref, to_frame, from_frame, max_decode_bytes,
}
use muxtop.Proto.Wire.RoundTrip.{
  Faithful, within, claimed_by, from_frame-to_frame, from_frame-admitted,
}
use muxtop.Proto.Remote.{
  ConnectionEvent, connected, Attempt, established, Slot, readable, Sent, failed, hello_sent,
  after_welcome, send_conn_event, connect_and_stream,
}
use muxtop.Proto.Remote.Stream.{
  accepted, readable_part, end_of, IsOpen, received, Decodes, nil, reading, beat, stream-Decodes,
}
use muxtop.Server.Client.{SharedState, SessionEvent, greeting, handle}
use muxtop.Server.Client.Streaming.{is_failure, frames_of, after_frame, cons_ok, handle-Sends}
use muxtop.Session.{Carries, forwarding, lagging, beating, closing, cancelling}

module _ {Snapshot : Type 0} (bincode : Bincode Snapshot) (faithful : Faithful bincode)
    (state : SharedState) where
  cons_ok-eq_ok :
      (f : Frame) (r : Result ProtoError (List Frame)) {fs : List Frame}
      → cons_ok bincode state f r ≡ ok fs
      → (rest : List Frame) × ((r ≡ ok rest) × (fs ≡ f ∷ rest))
  cons_ok-eq_ok f (ok rest) h = (rest, (refl, cc h))
  cons_ok-eq_ok f (err e) h = absurd (cc h)

  after_frame-eq_ok :
      (m : Result ProtoError Frame) (r : Result ProtoError (List Frame)) {fs : List Frame}
      → after_frame bincode state m r ≡ ok fs
      → (f : Frame) × (rest : List Frame) × (m ≡ ok f) × (r ≡ ok rest) × (fs ≡ f ∷ rest)
  after_frame-eq_ok (ok f) r h =
      let (rest, (e, same)) = cons_ok-eq_ok f r h in (f, rest, refl, e, same)
  after_frame-eq_ok (err e) r h = absurd (cc h)

  snapshot-frame :
      (s : Snapshot) (f : Frame)
      → encode_snapshot_ref bincode s ≡ ok f
      → from_frame bincode f ≡ within max_decode_bytes (bincode.of_snapshot.claimed s) (snapshot s)
  unfolding encode_snapshot_ref to_frame
  snapshot-frame s f e = from_frame-to_frame bincode faithful (snapshot s) f e

  Decodes-eq :
      {fs gs : List Frame} {ms : List (Option Snapshot)}
      → fs ≡ gs
      → Decodes bincode gs ms
      → Decodes bincode fs ms
  Decodes-eq {ms = ms} e d = subst (λ l. Decodes bincode l ms) (sym e) d

  -- The frames that the server sends are those of the snapshots and the heartbeats.
  frames_of-Decodes :
      {events : List SessionEvent} {ms : List (Option Snapshot)} (fs : List Frame)
      → ((uptime : ℕ)
          → claimed_by bincode (heartbeat state.server_version uptime) ≤ max_decode_bytes)
      → Carries bincode events ms
      → frames_of bincode state events ≡ ok fs
      → Decodes bincode fs ms
  frames_of-Decodes fs beats Carries.nil h = Decodes-eq (cc h) nil
  frames_of-Decodes fs beats (forwarding {f = f} s e c) h =
      let (rest, (tail, same)) = cons_ok-eq_ok f _ h in
      Decodes-eq same (reading f s (snapshot-frame s f e) (frames_of-Decodes rest beats c tail))
  frames_of-Decodes fs beats (lagging n c) h = frames_of-Decodes fs beats c h
  frames_of-Decodes fs beats (beating uptime c) h =
      let (f, rest, made, tail, same) = after_frame-eq_ok _ _ h in
      Decodes-eq same (
        beat f state.server_version uptime
          (from_frame-admitted bincode faithful (heartbeat state.server_version uptime) f made
            (beats uptime))
          (frames_of-Decodes rest beats c tail))
  frames_of-Decodes fs beats (closing events) h = Decodes-eq (cc h) nil
  frames_of-Decodes fs beats (cancelling events) h = Decodes-eq (cc h) nil

  Decodes-length :
      {fs : List Frame} {ms : List (Option Snapshot)}
      → Decodes bincode fs ms
      → length fs ≡ length ms
  Decodes-length nil = refl
  Decodes-length (reading f s e d) = ap suc (Decodes-length d)
  Decodes-length (beat f v t e d) = ap suc (Decodes-length d)

  module _ (client_source server_source : ByteSource) (client_sink server_sink : ByteSink)
      (version : List ℕ) (token : Option (List ℕ)) where
    Receives-cons :
        {r : client_source.Reader} {g : Frame} {rest : List Frame}
        → Receives client_source r (g ∷ rest)
        → (r' : client_source.Reader) × (read_frame client_source r ≡ (ok (some g), r'))
          × Receives client_source r' rest
    Receives-cons (frame {r' = r'} f e got) = (r', e, got)

    -- A connection that is made and greeted in time.
    abbrev pub attempt :
        client_source.Reader
        → client_sink.Writer
        → List Slot
        → (ConnectionEvent → Bool)
        → Attempt client_source client_sink
    attempt reader writer slots room = record {
      is_cancelled = false;
      connecting = established;
      writer = writer;
      reader = reader;
      in_time = true;
      turns = map readable slots;
      room = room;
      interrupted = false;
    }

    greeted :
        (reader : client_source.Reader) (writer : client_sink.Writer) (slots : List Slot)
        (room : ConnectionEvent → Bool) (out : Sent Snapshot) {g : Frame} {rest : List Frame}
        {ms : List (Option Snapshot)}
        → (hello_sent bincode client_source client_sink version token
            (to_frame bincode (hello version token))
            writer).0
          ≡ ok tt
        → to_frame bincode (greeting bincode state) ≡ ok g
        → claimed_by bincode (greeting bincode state) ≤ max_decode_bytes
        → Receives client_source reader (g ∷ rest)
        → Decodes bincode rest ms
        → IsOpen slots
        → length ms < length slots
        → connect_and_stream bincode client_source client_sink version token
            (attempt reader writer slots room)
            out
          ≡ (
            failed (end_of bincode ms),
            received
                (accepted slots (readable_part bincode ms))
                (send_conn_event room (connected state.hostname) out),
          )
    unfolding connect_and_stream
    greeted reader writer slots room out {g} wrote made small got d h b =
        let (r', read, more) = Receives-cons got in
        rw wrote (
          rw read (
            rw
              (
                from_frame-admitted bincode faithful (greeting bincode state) g made small,
                after_welcome,
              )
              (stream-Decodes bincode client_source room slots r'
                (send_conn_event room (connected state.hostname) out) more d h
                (omega (arith, Decodes-length d)))))

    -- Of a session of the server, on a fresh connection, that has not failed and whose bytes all
    -- reach a client, the client reports the host, if there is room for that event, passes on the
    -- forwarded snapshots that find room, in order and nothing else, and ends as closed; but from the
    -- first snapshot on for which the decoder claims more than its limit of 4 MiB it passes on
    -- nothing, and ends with the decoder's error. This is for a bincode that is faithful to its
    -- limit, heartbeats and a Welcome within that limit, forwarded frames that encode snapshots, and
    -- a client that connects, whose Hello is written, which is not cancelled, holds on to its
    -- channel, is greeted in time and reads at least once more than there are messages.
    pub connect_and_stream-handle :
        {events : List SessionEvent} {ms : List (Option Snapshot)} (server_in_time : Bool)
        (server_reader : server_source.Reader) (w : server_sink.Writer)
        (reader : client_source.Reader) (writer : client_sink.Writer) (slots : List Slot)
        (room : ConnectionEvent → Bool) (out : Sent Snapshot)
        → Carries bincode events ms
        → server_sink.contents w ≡ []
        → let r =
            handle bincode state server_sink server_source server_in_time server_reader events w in
          ((uptime : ℕ)
            → claimed_by bincode (heartbeat state.server_version uptime) ≤ max_decode_bytes)
          → claimed_by bincode (greeting bincode state) ≤ max_decode_bytes
          → is_failure r.0 ≡ false
          → client_source.Delivers reader (server_sink.contents r.1)
          → (hello_sent bincode client_source client_sink version token
              (to_frame bincode (hello version token))
              writer).0
            ≡ ok tt
          → IsOpen slots
          → length ms < length slots
          → connect_and_stream bincode client_source client_sink version token
              (attempt reader writer slots room)
              out
            ≡ (
              failed (end_of bincode ms),
              received
                  (accepted slots (readable_part bincode ms))
                  (send_conn_event room (connected state.hostname) out),
            )
    connect_and_stream-handle {events = events} server_in_time server_reader w reader writer slots
          room out c fresh beats small fine delivered wrote h b =
        let (opened, (fs, (made, sent))) =
          handle-Sends bincode state server_sink server_source server_in_time server_reader events w
            fine in
        let (g, rest, first, tail, same) = after_frame-eq_ok _ _ made in
        let got = Receives-Sends server_sink client_source fs w _ reader fresh sent delivered in
        greeted reader writer slots room out wrote first small
          (subst (Receives client_source reader) same got) (frames_of-Decodes rest beats c tail) h b

-- ===== src/Proto/Remote/Stream.antt =====
-- What the client makes of a stream of frames (crates/muxtop-proto/src/remote.rs).
use mathlib.Core.List.{append_assoc, append-nil}
use muxtop.Base.{
  ℕ, ◌<◌, ◌≡◌, refl, sym, ap, ◌∙◌, Bool, Bool-cases, inl, inr, Option, none, some, List, [], ◌∷◌,
  ◌++◌, map, ok, err, leb, if◌then◌else◌, length, arith,
}
use muxtop.Proto.Frame.{Frame, decode}
use muxtop.Proto.Frame.Stream.{ByteSource, read_frame}
use muxtop.Proto.Frame.Stream.Session.{Receives, end, frame}
use muxtop.Proto.Wire.{Bincode, snapshot, heartbeat, from_frame, max_decode_bytes}
use muxtop.Proto.Wire.RoundTrip.{within}
use muxtop.Proto.Remote.{
  ConnectionEvent, connection_closed, Slot, free, full, closed, readable, Sent, Ending, RemoteError,
  protocol, of_proto, failed, taken, on_frame, stream,
}

-- The application holds on to its end of the channel.
abbrev pub IsOpen : List Slot → Type 0
IsOpen [] = Unit
IsOpen (closed ∷ slots) = ⊥
IsOpen (slot ∷ slots) = IsOpen slots

IsOpen-tail : (slot : Slot) (slots : List Slot) → IsOpen (slot ∷ slots) → IsOpen slots
IsOpen-tail free slots h = h
IsOpen-tail full slots h = h
IsOpen-tail closed slots h = elim h [ ]

module _ {Snapshot : Type 0} where
  -- The snapshots that come while the channel has room; a heartbeat is `none`.
  abbrev pub accepted : List Slot → List (Option Snapshot) → List Snapshot
  accepted [] ms = []
  accepted (slot ∷ slots) [] = []
  accepted (slot ∷ slots) (none ∷ ms) = accepted slots ms
  accepted (free ∷ slots) (some s ∷ ms) = s ∷ accepted slots ms
  accepted (slot ∷ slots) (some s ∷ ms) = accepted slots ms

  abbrev pub received : List Snapshot → Sent Snapshot → Sent Snapshot
  received ss out = record out { snapshots = out.snapshots ++ ss }

  module _ (bincode : Bincode Snapshot) where
    -- The decoder's limit admits the snapshot.
    abbrev pub is_admitted : Snapshot → Bool
    is_admitted s = leb (bincode.of_snapshot.claimed s) max_decode_bytes

    -- The messages before the first snapshot beyond the limit.
    abbrev pub readable_part : List (Option Snapshot) → List (Option Snapshot)
    readable_part [] = []
    readable_part (none ∷ ms) = none ∷ readable_part ms
    readable_part (some s ∷ ms) =
        let rest = readable_part ms in if is_admitted s then some s ∷ rest else []

    -- A stream ends where it is closed, or with the first snapshot beyond the limit.
    abbrev pub end_of : List (Option Snapshot) → RemoteError Snapshot
    end_of [] = connection_closed
    end_of (none ∷ ms) = end_of ms
    end_of (some s ∷ ms) =
        let rest = end_of ms in if is_admitted s then rest else protocol (of_proto decode)

    -- The frames are those of snapshots and heartbeats.
    pub data Decodes : List Frame → List (Option Snapshot) → Type 0 where
      nil : Decodes [] []
      reading :
          {fs : List Frame} {ms : List (Option Snapshot)} (f : Frame) (s : Snapshot)
          → from_frame bincode f
            ≡ within max_decode_bytes (bincode.of_snapshot.claimed s) (snapshot s)
          → Decodes fs ms
          → Decodes (f ∷ fs) (some s ∷ ms)
      beat :
          {fs : List Frame} {ms : List (Option Snapshot)} (f : Frame) (v : List ℕ) (t : ℕ)
          → from_frame bincode f ≡ ok (heartbeat v t)
          → Decodes fs ms
          → Decodes (f ∷ fs) (none ∷ ms)

    received-received :
        (xs ys : List Snapshot) (out : Sent Snapshot)
        → received ys (received xs out) ≡ received (xs ++ ys) out
    received-received xs ys out =
        ap (λ l. record out { snapshots = l }) (append_assoc out.snapshots xs ys)

    module _ (source : ByteSource) (room : ConnectionEvent → Bool) where
      abbrev ends :
          List Slot → List (Option Snapshot) → Sent Snapshot → Ending Snapshot × Sent Snapshot
      ends slots ms out = (failed (end_of ms), received (accepted slots (readable_part ms)) out)

      received-nothing :
          (e : RemoteError Snapshot) (out : Sent Snapshot)
          → ◌≡◌ {A = Ending Snapshot × Sent Snapshot} (failed e, out) (failed e, received [] out)
      received-nothing e out =
          ap (λ l. (failed e, record out { snapshots = l })) (sym (append-nil out.snapshots))

      taken-accepted :
          (slot : Slot) (slots : List Slot) (s : Snapshot) (ms : List (Option Snapshot))
          (e : RemoteError Snapshot) (rest : Sent Snapshot → Ending Snapshot × Sent Snapshot)
          (out : Sent Snapshot)
          → IsOpen (slot ∷ slots)
          → ((out : Sent Snapshot) → rest out ≡ (failed e, received (accepted slots ms) out))
          → taken slot s rest out ≡ (failed e, received (accepted (slot ∷ slots) (some s ∷ ms)) out)
      taken-accepted free slots s ms e rest out h tail =
          tail (received (s ∷ []) out)
          ∙ ap (λ o. (failed e, o)) (received-received (s ∷ []) (accepted slots ms) out)
      taken-accepted full slots s ms e rest out h tail = tail out
      taken-accepted closed slots s ms e rest out h tail = elim h [ ]

      -- A snapshot within the limit goes to the channel, one beyond it ends the stream.
      stream-snapshot :
          (slot : Slot) (slots : List Slot) (r r' : source.Reader) (f : Frame) (s : Snapshot)
          (ms : List (Option Snapshot)) (out : Sent Snapshot)
          → read_frame source r ≡ (ok (some f), r')
          → from_frame bincode f
            ≡ within max_decode_bytes (bincode.of_snapshot.claimed s) (snapshot s)
          → IsOpen (slot ∷ slots)
          → ((out : Sent Snapshot)
              → stream bincode source room (map readable slots) r' out ≡ ends slots ms out)
          → stream bincode source room (map readable (slot ∷ slots)) r out
            ≡ ends (slot ∷ slots) (some s ∷ ms) out
      unfolding stream
      stream-snapshot slot slots r r' f s ms out e dec h rest = elim (Bool-cases (is_admitted s)) [
        | inl y ↦
            let read : from_frame bincode f ≡ ok (snapshot s) = dec ∙ rw y refl in
            rw e (
              rw (read, on_frame)
                (rw y (
                  taken-accepted slot slots s (readable_part ms) (end_of ms)
                    (stream bincode source room (map readable slots) r') out h rest)))
        | inr n ↦
            let read : from_frame bincode f ≡ err decode = dec ∙ rw n refl in
            rw e (rw (read, on_frame) (rw n (received-nothing (protocol (of_proto decode)) out)))
      ]

      -- Frames of snapshots and heartbeats, and then a clean end, are taken one by one: every
      -- snapshot before the first one beyond the limit of the decoder that finds room is passed on,
      -- in order, and the stream ends as closed, or with the error of that first one.
      pub stream-Decodes :
          (slots : List Slot) (r : source.Reader) {fs : List Frame} {ms : List (Option Snapshot)}
          (out : Sent Snapshot)
          → Receives source r fs
          → Decodes fs ms
          → IsOpen slots
          → length fs < length slots
          → stream bincode source room (map readable slots) r out
            ≡ (failed (end_of ms), received (accepted slots (readable_part ms)) out)
      unfolding stream
      stream-Decodes [] r out got d h b = absurd (omega arith)
      stream-Decodes (slot ∷ slots) r out (end e) nil h b =
          rw e (received-nothing connection_closed out)
      stream-Decodes (slot ∷ slots) r out (frame {r' = r'} f e got) (reading {ms = ms} _ s dec d) h
            b =
          stream-snapshot slot slots r r' f s ms out e dec h
            (λ out. stream-Decodes slots r' out got d (IsOpen-tail slot slots h) (omega arith))
      stream-Decodes (slot ∷ slots) r out (frame {r' = r'} f e got) (beat _ v t dec d) h b = rw e (
          rw (dec, on_frame)
            (stream-Decodes slots r' out got d (IsOpen-tail slot slots h) (omega arith)))

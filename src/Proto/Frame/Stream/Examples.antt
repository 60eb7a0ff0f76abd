-- ===== src/Proto/Frame/Stream/Examples.antt =====
-- A stream in memory, and the theorems on frames at it.
use muxtop.Base.{
  ℕ, ◌≤◌, ◌<◌, ◌≡◌, refl, sym, ap, List, [], ◌∷◌, ◌++◌, Result, ok, err, arith, length, take, drop,
  some, length-take, ltb, if◌then◌else◌, le→ltb, lt→ltb,
}
use muxtop.Proto.Frame.{Frame, IoError, unexpected_eof, encode_frame, decode_frame, max_frame_size}
use muxtop.Proto.Frame.Words.{to_be_bytes, from_be_bytes}
use muxtop.Proto.Frame.RoundTrip.{decode_frame-encode_frame, encode_frame-decode_frame}
use muxtop.Proto.Frame.Stream.{
  ByteSource, ByteSink, read_frame_with_max_payload, read_body, read_content, write_frame,
}
use muxtop.Proto.Frame.Stream.Session.{Receives}
use muxtop.Proto.Frame.Stream.Caps.{announced, read_frame_caps}
use muxtop.Proto.Frame.Stream.Pipe.{done, send, Receives-Sends}

abbrev pub read_bytes : ℕ → List ℕ → Result IoError (List ℕ) × List ℕ
read_bytes n r = if ltb (length r) n then (err unexpected_eof, []) else (ok (take n r), drop n r)

pub read_bytes-length :
    (n : ℕ) (r : List ℕ) {bytes r' : List ℕ} → read_bytes n r ≡ (ok bytes, r') → length bytes ≡ n
read_bytes-length n r h = ground (arith, length-take n r)

pub read_bytes_full :
    (n : ℕ) (r bytes : List ℕ)
    → r ≡ bytes
    → n ≤ length bytes
    → (r' : List ℕ) × (read_bytes n r ≡ (ok (take n bytes), r')) × (r' ≡ drop n bytes)
read_bytes_full n r bytes e h = (
  drop n bytes,
  ground (arith, le→ltb (length r) n (omega (arith, ap length e)), ap (take n) e, ap (drop n) e),
  refl,
)

pub read_bytes_short :
    (n : ℕ) (r bytes : List ℕ)
    → r ≡ bytes
    → length bytes < n
    → (r' : List ℕ) × (read_bytes n r ≡ (err unexpected_eof, r'))
read_bytes_short n r bytes e h = ([], rw (lt→ltb (length r) n (omega (arith, ap length e))))

abbrev pub memory_source : ByteSource
memory_source = record {
  Reader = List ℕ;
  read_exact = read_bytes;
  Delivers = ◌≡◌;
  read_exact_length = read_bytes-length;
  read_exact_full = read_bytes_full;
  read_exact_short = read_bytes_short;
}

pub memory_append :
    (bytes w : List ℕ) {w' : List ℕ}
    → ◌≡◌ {A = Result IoError (Unit {0}) × List ℕ} (ok tt, w ++ bytes) (ok tt, w')
    → w' ≡ w ++ bytes
memory_append bytes w h = sym (ap (λ p. p.1) h)

abbrev pub memory_sink : ByteSink
memory_sink = record {
  Writer = List ℕ;
  write_all = λ bytes w. (ok tt, w ++ bytes);
  flush = λ w. (ok tt, w);
  contents = λ w. w;
  write_all_contents = memory_append;
  flush_contents = λ w. refl;
}

abbrev snapshot : Frame
snapshot = record { msg_type = 1; payload = 0xDE ∷ 0xAD ∷ [] }

abbrev hello : Frame
hello = record { msg_type = 4; payload = [] }

encode_snapshot : encode_frame snapshot ≡ ok (0 ∷ 0 ∷ 0 ∷ 3 ∷ 1 ∷ 0xDE ∷ 0xAD ∷ [])
unfolding encode_frame to_be_bytes
encode_snapshot = refl

decode_snapshot : decode_frame (0 ∷ 0 ∷ 0 ∷ 3 ∷ 1 ∷ 0xDE ∷ 0xAD ∷ 9 ∷ []) ≡ ok (snapshot, 7)
unfolding decode_frame from_be_bytes
decode_snapshot = refl

decode_frame-encode_frame_example :
    decode_frame ((0 ∷ 0 ∷ 0 ∷ 3 ∷ 1 ∷ 0xDE ∷ 0xAD ∷ []) ++ (9 ∷ [])) ≡ ok (snapshot, 7)
decode_frame-encode_frame_example = decode_frame-encode_frame snapshot (9 ∷ []) encode_snapshot

encode_frame-decode_frame_example :
    (encode_frame snapshot ≡ ok (0 ∷ 0 ∷ 0 ∷ 3 ∷ 1 ∷ 0xDE ∷ 0xAD ∷ [])) × (7 ≤ 8)
encode_frame-decode_frame_example =
    encode_frame-decode_frame (0 ∷ 0 ∷ 0 ∷ 3 ∷ 1 ∷ 0xDE ∷ 0xAD ∷ 9 ∷ []) (omega arith)
      decode_snapshot

read_snapshot :
    read_frame_with_max_payload memory_source 4096 (0 ∷ 0 ∷ 0 ∷ 3 ∷ 1 ∷ 0xDE ∷ 0xAD ∷ 9 ∷ [])
    ≡ (ok (some snapshot), 9 ∷ [])
unfolding read_frame_with_max_payload read_content read_body from_be_bytes
read_snapshot = refl

read_frame_caps_example : (2 ≤ 4096) × (3 ≤ max_frame_size)
read_frame_caps_example =
    read_frame_caps memory_source 4096 (0 ∷ 0 ∷ 0 ∷ 3 ∷ 1 ∷ 0xDE ∷ 0xAD ∷ 9 ∷ []) read_snapshot

announced_5121 : announced (0 ∷ 0 ∷ 0x14 ∷ 1 ∷ []) ≡ 5121
unfolding from_be_bytes
announced_5121 = refl

write_hello : write_frame memory_sink hello [] ≡ (ok tt, 0 ∷ 0 ∷ 0 ∷ 1 ∷ 4 ∷ [])
unfolding write_frame encode_frame to_be_bytes
write_hello = refl

write_snapshot :
    write_frame memory_sink snapshot (0 ∷ 0 ∷ 0 ∷ 1 ∷ 4 ∷ [])
    ≡ (ok tt, 0 ∷ 0 ∷ 0 ∷ 1 ∷ 4 ∷ 0 ∷ 0 ∷ 0 ∷ 3 ∷ 1 ∷ 0xDE ∷ 0xAD ∷ [])
unfolding write_frame encode_frame to_be_bytes
write_snapshot = refl

Receives-Sends_example :
    Receives memory_source
      (0 ∷ 0 ∷ 0 ∷ 1 ∷ 4 ∷ 0 ∷ 0 ∷ 0 ∷ 3 ∷ 1 ∷ 0xDE ∷ 0xAD ∷ [])
      (hello ∷ snapshot ∷ [])
Receives-Sends_example =
    Receives-Sends memory_sink memory_source (hello ∷ snapshot ∷ []) []
      (0 ∷ 0 ∷ 0 ∷ 1 ∷ 4 ∷ 0 ∷ 0 ∷ 0 ∷ 3 ∷ 1 ∷ 0xDE ∷ 0xAD ∷ [])
      (0 ∷ 0 ∷ 0 ∷ 1 ∷ 4 ∷ 0 ∷ 0 ∷ 0 ∷ 3 ∷ 1 ∷ 0xDE ∷ 0xAD ∷ []) refl
      (send hello write_hello (send snapshot write_snapshot done)) refl

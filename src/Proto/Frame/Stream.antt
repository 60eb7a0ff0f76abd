-- ===== src/Proto/Frame/Stream.antt =====
-- `FrameReader` and `FrameWriter` (crates/muxtop-proto/src/frame.rs) over an asynchronous byte
-- stream. The stream is tokio's: it is a parameter, with what its documentation promises of
-- `read_exact` and `write_all` as laws.
pub mod Session
pub mod Caps
pub mod Pipe
pub mod Examples
use muxtop.Base.{
  ℕ, ◌+◌, ◌-◌, ◌%◌, ◌^◌, ◌≤◌, ◌<◌, min, ◌≡◌, Option, none, some, List, [], ◌++◌, map_err, ltb, ◌==◌,
  if◌then◌else◌, length, take, drop, get_or, Result, ok, err,
}
use muxtop.Proto.Frame.{
  Frame, ProtoError, IoError, unexpected_eof, other, io, frame_too_large, incomplete_frame,
  max_frame_size, header_size, encode_frame,
}
use muxtop.Proto.Frame.Words.{from_be_bytes}

pub record ByteSource : Type 1 where
  pub Reader : Type 0
  pub read_exact : ℕ → Reader → Result IoError (List ℕ) × Reader
  -- The reader will deliver exactly these bytes and then report the end of the stream.
  pub Delivers : Reader → List ℕ → Type 0
  pub read_exact_length :
      (n : ℕ) (r : Reader) {bytes : List ℕ} {r' : Reader}
      → read_exact n r ≡ (ok bytes, r')
      → length bytes ≡ n
  pub read_exact_full :
      (n : ℕ) (r : Reader) (bytes : List ℕ)
      → Delivers r bytes
      → n ≤ length bytes
      → (r' : Reader) × (read_exact n r ≡ (ok (take n bytes), r')) × Delivers r' (drop n bytes)
  pub read_exact_short :
      (n : ℕ) (r : Reader) (bytes : List ℕ)
      → Delivers r bytes
      → length bytes < n
      → (r' : Reader) × (read_exact n r ≡ (err unexpected_eof, r'))

-- `AsyncWrite`: `contents` is what the peer has been sent.
pub record ByteSink : Type 1 where
  pub Writer : Type 0
  pub write_all : List ℕ → Writer → Result IoError (Unit {0}) × Writer
  pub flush : Writer → Result IoError (Unit {0}) × Writer
  pub contents : Writer → List ℕ
  pub write_all_contents :
      (bytes : List ℕ) (w : Writer) {w' : Writer}
      → write_all bytes w ≡ (ok tt, w')
      → contents w' ≡ contents w ++ bytes
  pub flush_contents : (w : Writer) → contents (flush w).1 ≡ contents w

module _ (source : ByteSource) where
  open source use {Reader, read_exact}

  -- An action on the reader.
  abbrev pub Reads : Type 0 → Type 0
  Reads A = Reader → Result ProtoError A × Reader

  abbrev continue : {A B : Type 0} → Result ProtoError A → (A → Reads B) → Reads B
  continue (ok a) f r = f a r
  continue (err e) f r = (err e, r)

  infixl 5 ◌>>=◌
  abbrev ◌>>=◌ : {A B : Type 0} → Reads A → (A → Reads B) → Reads B
  ◌>>=◌ m f r = continue (m r).0 f (m r).1

  abbrev fail : {A : Type 0} → ProtoError → Reads A
  fail e r = (err e, r)

  abbrev pure : {A : Type 0} → A → Reads A
  pure a r = (ok a, r)

  -- `read_exact(...).await?`
  abbrev exact : ℕ → Reads (List ℕ)
  exact n r = (map_err io (read_exact n r).0, (read_exact n r).1)

  -- The end of the stream in the header is a clean end.
  abbrev header_of : Result IoError (List ℕ) → Result ProtoError (Option (List ℕ))
  header_of (ok header) = ok (some header)
  header_of (err unexpected_eof) = ok none
  header_of (err other) = err (io other)

  unfoldable pub read_body : ℕ → Reads (Option Frame)
  read_body payload_len = do
    type_buf ← exact 1
    payload ← if ltb 0 payload_len then exact payload_len else pure []
    pure (some (record { msg_type = get_or type_buf 0 0; payload = payload }))

  -- What follows the length prefix.
  unfoldable pub read_content : ℕ → ℕ → Reads (Option Frame)
  read_content max_payload content_len =
      if ltb max_frame_size content_len
      then fail (frame_too_large content_len max_frame_size)
      else if content_len == 0
      then fail (incomplete_frame 1 0)
      else if ltb max_payload (content_len - 1)
      then fail (
          frame_too_large content_len
            (min (min (max_payload + 1) (2 ^ 64 - 1)) (2 ^ 32 - 1) % 2 ^ 32))
      else read_body (content_len - 1)

  read_after_header : ℕ → Option (List ℕ) → Reads (Option Frame)
  read_after_header max_payload none = pure none
  read_after_header max_payload (some h) =
      read_content max_payload
        (from_be_bytes (get_or h 0 0) (get_or h 1 0) (get_or h 2 0) (get_or h 3 0))

  unfoldable pub read_frame_with_max_payload : ℕ → Reads (Option Frame)
  unfolding read_after_header
  read_frame_with_max_payload max_payload r =
      continue (header_of (read_exact header_size r).0) (read_after_header max_payload)
        (read_exact header_size r).1

  unfoldable pub read_frame : Reads (Option Frame)
  read_frame = read_frame_with_max_payload (max_frame_size - 1)

module _ (sink : ByteSink) where
  open sink use {Writer, write_all, flush}

  -- `flush` runs after a complete write only.
  flush_after : Result IoError (Unit {0}) → Writer → Result ProtoError (Unit {0}) × Writer
  flush_after (ok _) w = (map_err io (flush w).0, (flush w).1)
  flush_after (err e) w = (err (io e), w)

  write_bytes : Result ProtoError (List ℕ) → Writer → Result ProtoError (Unit {0}) × Writer
  unfolding flush_after
  write_bytes (ok bytes) w = flush_after (write_all bytes w).0 (write_all bytes w).1
  write_bytes (err e) w = (err e, w)

  unfoldable pub write_frame : Frame → Writer → Result ProtoError (Unit {0}) × Writer
  unfolding write_bytes
  write_frame frame = write_bytes (encode_frame frame)

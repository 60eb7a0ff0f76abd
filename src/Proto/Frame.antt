-- ===== src/Proto/Frame.antt =====
-- Frames of the wire protocol (crates/muxtop-proto/src/frame.rs, error.rs): a 4-byte big-endian
-- length, a type byte and a payload. A byte is a number below 256, and `u32` arithmetic is written
-- out. The proofs are in the modules below.
pub mod Words
pub mod RoundTrip
pub mod Stream
use muxtop.Base.{
  ℕ, ◌+◌, ◌-◌, ◌*◌, ◌%◌, ◌^◌, List, ◌∷◌, ◌++◌, ltb, ◌==◌, if◌then◌else◌, length, take, drop, get_or,
  Result, ok, err,
}
use Words.{to_be_bytes, from_be_bytes}

-- `std::io::Error` by its kind, as far as the code looks at it.
pub data IoError : Type 0 where
  unexpected_eof other : IoError

pub data ProtoError : Type 0 where
  io : IoError → ProtoError
  encode decode : ProtoError
  unknown_message_type : ℕ → ProtoError
  frame_too_large : (size max : ℕ) → ProtoError
  incomplete_frame : (expected actual : ℕ) → ProtoError

abbrev pub msg_snapshot : ℕ
msg_snapshot = 0x01

abbrev pub msg_heartbeat : ℕ
msg_heartbeat = 0x02

abbrev pub msg_error : ℕ
msg_error = 0x03

abbrev pub msg_hello : ℕ
msg_hello = 0x04

abbrev pub msg_welcome : ℕ
msg_welcome = 0x05

abbrev pub max_frame_size : ℕ
max_frame_size = 4 * 1024 * 1024

abbrev pub header_size : ℕ
header_size = 4

pub record Frame : Type 0 where
  pub msg_type : ℕ
  pub payload : List ℕ

unfoldable pub encode_frame : Frame → Result ProtoError (List ℕ)
encode_frame frame =
    let content_len = 1 + length frame.payload in
    if ltb max_frame_size content_len
    then err (frame_too_large (content_len % 2 ^ 32) max_frame_size)
    else ok (to_be_bytes (content_len % 2 ^ 32) ++ (frame.msg_type ∷ frame.payload))

-- The part of `decode_frame` after the length prefix is read.
decode_content : ℕ → List ℕ → Result ProtoError (Frame × ℕ)
decode_content content_len buf =
    let total = header_size + content_len in
    if ltb max_frame_size content_len
    then err (frame_too_large content_len max_frame_size)
    else if ltb (length buf) total
    then err (incomplete_frame total (length buf))
    else if content_len == 0
    then err (incomplete_frame (header_size + 1) header_size)
    else ok (
      record {
        msg_type = get_or buf header_size 0;
        payload = take (total - (header_size + 1)) (drop (header_size + 1) buf);
      },
      total,
    )

unfoldable pub decode_frame : List ℕ → Result ProtoError (Frame × ℕ)
unfolding decode_content
decode_frame buf =
    if ltb (length buf) header_size
    then err (incomplete_frame header_size (length buf))
    else decode_content
        (from_be_bytes (get_or buf 0 0) (get_or buf 1 0) (get_or buf 2 0) (get_or buf 3 0)) buf

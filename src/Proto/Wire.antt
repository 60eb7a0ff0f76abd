-- ===== src/Proto/Wire.antt =====
-- The messages of the protocol (crates/muxtop-proto/src/wire.rs). A string is the list of its UTF-8
-- bytes. The bytes of a payload are bincode's: an encoder and a decoder for each type of payload,
-- which take the configuration of the program.
pub mod RoundTrip
pub mod Plain
use muxtop.Base.{ℕ, Option, List, Result, ok, err, ◌==◌, if◌then◌else◌}
use muxtop.Proto.Frame.{
  Frame, ProtoError, unknown_message_type, msg_snapshot, msg_heartbeat, msg_error, msg_hello,
  msg_welcome, max_frame_size,
}

pub data WireMessage (Snapshot : Type 0) : Type 0 where
  snapshot : Snapshot → WireMessage Snapshot
  heartbeat : (server_version : List ℕ) (uptime_secs : ℕ) → WireMessage Snapshot
  error : (code : ℕ) (message : List ℕ) → WireMessage Snapshot
  hello : (client_version : List ℕ) (auth_token : Option (List ℕ)) → WireMessage Snapshot
  welcome : (server_version hostname : List ℕ) (refresh_hz : ℕ) → WireMessage Snapshot

abbrev pub max_decode_bytes : ℕ
max_decode_bytes = max_frame_size

-- The standard configuration with a limit, which only the decoder minds.
pub record Config : Type 0 where
  pub limit : ℕ

abbrev pub bincode_config : Config
bincode_config = record { limit = max_decode_bytes }

-- `encode_to_vec` and `decode_from_slice` at one type. While it reads a value the decoder claims
-- the bytes that the value takes in memory; `claimed` is the most that it has claimed at a time.
pub record Coder (A : Type 0) : Type 0 where
  pub encode_to_vec : A → Config → Result ProtoError (List ℕ)
  pub decode_from_slice : List ℕ → Config → Result ProtoError A
  pub claimed : A → ℕ

pub record Bincode (Snapshot : Type 0) : Type 0 where
  pub of_snapshot : Coder Snapshot
  pub of_heartbeat : Coder (List ℕ × ℕ)
  pub of_error : Coder (ℕ × List ℕ)
  pub of_hello : Coder (List ℕ × Option (List ℕ))
  pub of_welcome : Coder (List ℕ × (List ℕ × ℕ))

-- `Result::map` of a payload to its frame.
abbrev pub framed : ℕ → Result ProtoError (List ℕ) → Result ProtoError Frame
framed msg_type (ok payload) = ok (record { msg_type = msg_type; payload = payload })
framed msg_type (err e) = err e

abbrev pub mapped : {A B : Type 0} → (A → B) → Result ProtoError A → Result ProtoError B
mapped f (ok a) = ok (f a)
mapped f (err e) = err e

module _ {Snapshot : Type 0} (bincode : Bincode Snapshot) where
  open bincode use {of_snapshot, of_heartbeat, of_error, of_hello, of_welcome}

  unfoldable pub encode_snapshot_ref : Snapshot → Result ProtoError Frame
  encode_snapshot_ref snap = framed msg_snapshot (of_snapshot.encode_to_vec snap bincode_config)

  unfoldable pub to_frame : WireMessage Snapshot → Result ProtoError Frame
  to_frame (snapshot snap) = framed msg_snapshot (of_snapshot.encode_to_vec snap bincode_config)
  to_frame (heartbeat v t) = framed msg_heartbeat (of_heartbeat.encode_to_vec (v, t) bincode_config)
  to_frame (error code message) =
      framed msg_error (of_error.encode_to_vec (code, message) bincode_config)
  to_frame (hello v token) = framed msg_hello (of_hello.encode_to_vec (v, token) bincode_config)
  to_frame (welcome v host hz) =
      framed msg_welcome (of_welcome.encode_to_vec (v, (host, hz)) bincode_config)

  abbrev pub heartbeat_of : List ℕ × ℕ → WireMessage Snapshot
  heartbeat_of (v, t) = heartbeat v t

  abbrev pub error_of : ℕ × List ℕ → WireMessage Snapshot
  error_of (code, message) = error code message

  abbrev pub hello_of : List ℕ × Option (List ℕ) → WireMessage Snapshot
  hello_of (v, token) = hello v token

  abbrev pub welcome_of : List ℕ × (List ℕ × ℕ) → WireMessage Snapshot
  welcome_of (v, (host, hz)) = welcome v host hz

  unfoldable pub from_frame : Frame → Result ProtoError (WireMessage Snapshot)
  from_frame frame =
      if frame.msg_type == msg_snapshot
      then mapped snapshot (of_snapshot.decode_from_slice frame.payload bincode_config)
      else if frame.msg_type == msg_heartbeat
      then mapped heartbeat_of (of_heartbeat.decode_from_slice frame.payload bincode_config)
      else if frame.msg_type == msg_error
      then mapped error_of (of_error.decode_from_slice frame.payload bincode_config)
      else if frame.msg_type == msg_hello
      then mapped hello_of (of_hello.decode_from_slice frame.payload bincode_config)
      else if frame.msg_type == msg_welcome
      then mapped welcome_of (of_welcome.decode_from_slice frame.payload bincode_config)
      else err (unknown_message_type frame.msg_type)

-- ===== src/Server/Client/Examples.antt =====
-- Messages, tokens and sessions at concrete inputs (crates/muxtop-proto/src/wire.rs,
-- crates/muxtop-server/src/client.rs).
use muxtop.Base.{ℕ, ◌≡◌, refl, ◌↔◌, true, false, some, List, [], ◌∷◌, ok, arith}
use muxtop.Base.Texts.{codes}
use muxtop.Proto.Frame.{Frame, encode_frame, msg_hello}
use muxtop.Proto.Frame.Words.{to_be_bytes, from_be_bytes}
use muxtop.Proto.Frame.Stream.{read_frame_with_max_payload, read_content, read_body, write_frame}
use muxtop.Proto.Frame.Stream.Examples.{memory_source, memory_sink}
use muxtop.Proto.Wire.{WireMessage, hello, to_frame}
use muxtop.Proto.Wire.Plain.{plain}
use muxtop.Server.Tokens.{constant_time_eq}
use muxtop.Server.Tokens.Equal.{constant_time_eq_iff}
use muxtop.Server.Client.{SharedState, SessionEvent, forward, closed, handle, greeting}
use muxtop.Server.Client.Handshake.{IsRefused, handle-IsRefused}
use muxtop.Server.Client.Streaming.{
  presents, first_message, is_failure, SendsAll, after_frame, frames_of, handle-Sends,
}

abbrev greeting_hello : WireMessage ℕ
greeting_hello = hello (1 ∷ []) (some (7 ∷ 8 ∷ []))

abbrev hello_frame_of : Frame
hello_frame_of = record { msg_type = msg_hello; payload = 3 ∷ 7 ∷ 8 ∷ 1 ∷ [] }

hello_framed : to_frame plain greeting_hello ≡ ok hello_frame_of
unfolding to_frame
hello_framed = refl

constant_time_eq_iff_example :
    (constant_time_eq (7 ∷ 8 ∷ []) (7 ∷ 9 ∷ []) ≡ true) ↔ ◌≡◌ {A = List ℕ} (7 ∷ 8 ∷ []) (7 ∷ 9 ∷ [])
constant_time_eq_iff_example =
    constant_time_eq_iff (7 ∷ 8 ∷ []) (7 ∷ 9 ∷ []) (omega arith, (omega arith, tt))
      (omega arith, (omega arith, tt))

abbrev pub server_of : List ℕ → SharedState
server_of token = record {
  auth_token = token;
  refresh_hz = 1;
  hostname = codes "h";
  server_version = codes "v";
}

-- The bytes of the Hello with the token 7, 8.
abbrev pub hello_bytes : List ℕ
hello_bytes = 0 ∷ 0 ∷ 0 ∷ 5 ∷ msg_hello ∷ 3 ∷ 7 ∷ 8 ∷ 1 ∷ []

abbrev snapshots : List SessionEvent
snapshots = forward (record { msg_type = 1; payload = 0xAB ∷ [] }) ∷ closed ∷ []

session_streams :
    is_failure
      (handle plain
        (server_of (7 ∷ 8 ∷ []))
        memory_sink
        memory_source
        true
        hello_bytes
        snapshots
        []).0
    ≡ false
unfolding handle read_frame_with_max_payload read_content read_body from_be_bytes write_frame
    encode_frame to_be_bytes
session_streams = refl

handle-Sends_example :
    (presents plain
        (server_of (7 ∷ 8 ∷ []))
        (first_message plain (server_of (7 ∷ 8 ∷ [])) memory_sink memory_source true hello_bytes)
      ≡ true)
    × SendsAll plain
        (server_of (7 ∷ 8 ∷ []))
        memory_sink
        (after_frame plain
          (server_of (7 ∷ 8 ∷ []))
          (to_frame plain (greeting plain (server_of (7 ∷ 8 ∷ []))))
          (frames_of plain (server_of (7 ∷ 8 ∷ [])) snapshots))
        []
        (handle plain
          (server_of (7 ∷ 8 ∷ []))
          memory_sink
          memory_source
          true
          hello_bytes
          snapshots
          []).1
handle-Sends_example =
    handle-Sends plain (server_of (7 ∷ 8 ∷ [])) memory_sink memory_source true hello_bytes snapshots
      [] session_streams

session_is_refused :
    presents plain
      (server_of (9 ∷ []))
      (first_message plain (server_of (9 ∷ [])) memory_sink memory_source true hello_bytes)
    ≡ false
unfolding handle read_frame_with_max_payload read_content read_body from_be_bytes
session_is_refused = refl

handle-IsRefused_example :
    IsRefused plain
      (server_of (9 ∷ []))
      memory_sink
      []
      (handle plain (server_of (9 ∷ [])) memory_sink memory_source true hello_bytes snapshots [])
handle-IsRefused_example =
    handle-IsRefused plain (server_of (9 ∷ [])) memory_sink memory_source true hello_bytes snapshots
      [] session_is_refused

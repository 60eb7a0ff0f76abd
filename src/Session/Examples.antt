-- ===== src/Session/Examples.antt =====
-- A client and a server over memory.
use muxtop.Base.{
  ℕ, ◌≤◌, ◌≡◌, refl, ◌≢◌, true, false, Option, none, some, List, [], ◌∷◌, ok, All, arith, ap,
  length, ◌*◌,
}
use muxtop.Base.Texts.{codes}
use muxtop.Proto.Frame.{Frame, other, decode, encode_frame}
use muxtop.Proto.Frame.Words.{to_be_bytes, from_be_bytes}
use muxtop.Proto.Frame.Stream.{
  read_frame_with_max_payload, read_content, read_body, write_frame, read_frame,
}
use muxtop.Proto.Frame.Stream.Examples.{memory_source, memory_sink}
use muxtop.Proto.Wire.{hello, to_frame, encode_snapshot_ref}
use muxtop.Proto.Wire.Plain.{plain, plain-Faithful}
use muxtop.Proto.Remote.{
  Attempt, connected, protocol, of_proto, free, full, Slot, Sent, Run, failed, hello_sent,
  Connecting, run, connect_and_stream,
}
use muxtop.Proto.Remote.Backoff.{delays, run-delays}
use muxtop.Server.Client.{
  SessionEvent, forward, lagged, heartbeat_due, closed, unauthorized, greeting, refusal, serve,
  failed as failed_session, handle,
}
use muxtop.Server.Client.Examples.{server_of, hello_bytes}
use muxtop.Server.Client.Streaming.{is_failure}
use muxtop.Session.{Carries, forwarding, lagging, beating, closing}
use muxtop.Session.Admission.{handle-hello_sent}
use muxtop.Session.Snapshots.{attempt, connect_and_stream-handle}

abbrev token : Option (List ℕ)
token = some (7 ∷ 8 ∷ [])

-- Two snapshots, a heartbeat, a snapshot of more than 4 MiB, one more and the end.
abbrev events : List SessionEvent
events =
    forward (record { msg_type = 1; payload = 0xAB ∷ [] })
    ∷ lagged 2
    ∷ heartbeat_due 9
    ∷ forward (record { msg_type = 1; payload = 0xCD ∷ [] })
    ∷ forward (record { msg_type = 1; payload = 5_000_000 ∷ [] })
    ∷ forward (record { msg_type = 1; payload = 0xEF ∷ [] })
    ∷ closed
    ∷ []

carried : Carries plain events (some 0xAB ∷ none ∷ some 0xCD ∷ some 5_000_000 ∷ some 0xEF ∷ [])
unfolding encode_snapshot_ref
carried = forwarding 0xAB refl (
    lagging 2 (
      beating 9
        (forwarding 0xCD refl (forwarding 5_000_000 refl (forwarding 0xEF refl (closing []))))))

session_lasts :
    is_failure
      (handle plain (server_of (7 ∷ 8 ∷ [])) memory_sink memory_source true hello_bytes events []).0
    ≡ false
unfolding handle read_frame_with_max_payload read_content read_body from_be_bytes write_frame
    encode_frame to_be_bytes
session_lasts = refl

hello_written :
    hello_sent plain memory_source memory_sink
      (1 ∷ [])
      token
      (to_frame plain (hello (1 ∷ []) token))
      []
    ≡ (ok tt, hello_bytes)
unfolding to_frame write_frame encode_frame to_be_bytes
hello_written = refl

abbrev nothing : Sent ℕ
nothing = record { snapshots = []; events = some [] }

-- The application is slow: the second snapshot finds the channel full.
abbrev slots : List Slot
slots = free ∷ free ∷ full ∷ free ∷ free ∷ free ∷ []

abbrev sent_by_server : List ℕ
sent_by_server =
    (handle plain (server_of (7 ∷ 8 ∷ [])) memory_sink memory_source true hello_bytes events []).1

connect_and_stream-handle_example :
    connect_and_stream plain memory_source memory_sink
      (1 ∷ [])
      token
      (attempt plain plain-Faithful
        (server_of (7 ∷ 8 ∷ []))
        memory_source
        memory_source
        memory_sink
        memory_sink
        (1 ∷ [])
        token
        sent_by_server
        []
        slots
        (λ e. true))
      nothing
    ≡ (
      failed (protocol (of_proto decode)),
      record { snapshots = 0xAB ∷ []; events = some (connected (server_of []).hostname ∷ []) },
    )
connect_and_stream-handle_example =
    connect_and_stream-handle plain plain-Faithful (server_of (7 ∷ 8 ∷ [])) memory_source
      memory_source memory_sink memory_sink (1 ∷ []) token true hello_bytes [] sent_by_server []
      slots (λ e. true) nothing carried refl (λ uptime. omega arith) (omega arith) session_lasts
      refl (ap (λ p. p.0) hello_written) tt (omega arith)

hello_fits :
    (f : Frame) → to_frame plain (hello (1 ∷ []) token) ≡ ok f → length f.payload ≤ 4 * 1024
unfolding to_frame
hello_fits f h =
    let same : record { msg_type = 4; payload = 3 ∷ 7 ∷ 8 ∷ 1 ∷ [] } ≡ f = cc h in
    omega (arith, ap (λ g. length g.payload) same)

-- The Welcome and the refusal, written by a server.
abbrev welcome_frame : Frame
welcome_frame = record { msg_type = 5; payload = 1 ∷ 1 ∷ codes "vh" }

abbrev refusal_frame : Frame
refusal_frame = record { msg_type = 3; payload = 401 ∷ codes "unauthorized" }

welcome_made : to_frame plain (greeting plain (server_of (7 ∷ 8 ∷ []))) ≡ ok welcome_frame
unfolding to_frame
welcome_made = refl

refusal_made : to_frame plain (refusal plain (server_of (7 ∷ 8 ∷ []))) ≡ ok refusal_frame
unfolding to_frame
refusal_made = refl

abbrev welcome_bytes : List ℕ
welcome_bytes = 0 ∷ 0 ∷ 0 ∷ 5 ∷ 5 ∷ 1 ∷ 1 ∷ codes "vh"

welcome_written : write_frame memory_sink welcome_frame [] ≡ (ok tt, welcome_bytes)
unfolding write_frame encode_frame to_be_bytes
welcome_written = refl

handle-hello_sent_example :
    let out =
      handle plain (server_of (7 ∷ 8 ∷ [])) memory_sink memory_source true hello_bytes events [] in
    (◌≡◌ {A = List ℕ} (7 ∷ 8 ∷ []) (7 ∷ 8 ∷ [])
      → out ≡ serve plain (server_of (7 ∷ 8 ∷ [])) memory_sink events welcome_bytes)
    × (◌≢◌ {A = List ℕ} (7 ∷ 8 ∷ []) (7 ∷ 8 ∷ [])
        → out ≡ (
          failed_session plain (server_of (7 ∷ 8 ∷ [])) unauthorized,
          (write_frame memory_sink refusal_frame []).1,
        ))
handle-hello_sent_example =
    handle-hello_sent plain plain-Faithful (server_of (7 ∷ 8 ∷ [])) memory_source memory_source
      memory_sink memory_sink (1 ∷ []) token [] hello_bytes hello_bytes events [] welcome_bytes
      welcome_frame refusal_frame (omega arith, (omega arith, tt)) (omega arith, (omega arith, tt))
      hello_fits (omega arith) refl hello_written refl welcome_made welcome_written refusal_made

-- A host that refuses the connection twice, then closes it before the Welcome, then refuses again.
abbrev refusing : Attempt memory_source memory_sink
refusing = record {
  is_cancelled = false;
  connecting = Connecting.refused other;
  writer = [];
  reader = [];
  in_time = true;
  turns = [];
  room = λ e. true;
  interrupted = false;
}

abbrev closing_early : Attempt memory_source memory_sink
closing_early = record refusing { connecting = Connecting.established }

abbrev bad_day : Run ℕ
bad_day =
    run plain memory_source memory_sink (1 ∷ []) token
      (refusing ∷ refusing ∷ closing_early ∷ refusing ∷ []) nothing

run-delays_example :
    (bad_day.waits ≡ delays 0 bad_day.log) × All (λ w. (1 ≤ w) × (w ≤ 30)) bad_day.waits
run-delays_example =
    run-delays plain memory_source memory_sink (1 ∷ []) token
      (refusing ∷ refusing ∷ closing_early ∷ refusing ∷ []) nothing

waits : bad_day.waits ≡ 1 ∷ 2 ∷ 4 ∷ 1 ∷ []
unfolding run read_frame read_frame_with_max_payload write_frame encode_frame to_be_bytes
waits = refl

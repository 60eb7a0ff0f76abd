-- ===== src/Server/Relay.antt =====
-- The relay task of the server (`run` of crates/muxtop-server/src/server.rs): snapshots of the
-- collector are encoded once and broadcast. What the `select!` yields is a sequence of events.
use muxtop.Base.{ℕ, List, [], ◌∷◌, ◌==◌, if◌then◌else◌, Result, ok, err}
use muxtop.Proto.Frame.{Frame, ProtoError}
use muxtop.Proto.Wire.{Bincode, encode_snapshot_ref}

pub data RelayEvent (Snapshot : Type 0) : Type 0 where
  -- A snapshot, with the number of receivers at this time.
  arrived : (client_count : ℕ) → Snapshot → RelayEvent Snapshot
  collector_closed cancelled : RelayEvent Snapshot

module _ {Snapshot : Type 0} (bincode : Bincode Snapshot) where
  abbrev pub broadcast : Result ProtoError Frame → List Frame → List Frame
  broadcast (ok frame) rest = frame ∷ rest
  broadcast (err e) rest = rest

  -- The frames that are broadcast.
  unfoldable pub relay : List (RelayEvent Snapshot) → List Frame
  unfolding encode_snapshot_ref
  relay [] = []
  relay (arrived client_count s ∷ events) =
      let rest = relay events in
      if client_count == 0 then rest else broadcast (encode_snapshot_ref bincode s) rest
  relay (collector_closed ∷ events) = []
  relay (cancelled ∷ events) = []

-- ===== src/Session.antt =====
-- A client and the server together (crates/muxtop-proto/src/remote.rs and
-- crates/muxtop-server/src/client.rs): what one writes, the other reads.
pub mod Snapshots
pub mod Admission
pub mod Examples
use muxtop.Base.{ℕ, ◌≡◌, Option, none, some, List, [], ◌∷◌, ok}
use muxtop.Proto.Frame.{Frame}
use muxtop.Proto.Wire.{Bincode, encode_snapshot_ref}
use muxtop.Server.Client.{SessionEvent, forward, lagged, heartbeat_due, closed, cancelled}

-- The relay forwards encoded snapshots; a heartbeat is `none`.
pub data Carries {Snapshot : Type 0} (bincode : Bincode Snapshot)
    : List SessionEvent → List (Option Snapshot) → Type 0 where
  nil : Carries bincode [] []
  forwarding :
      {f : Frame} {events : List SessionEvent} {ms : List (Option Snapshot)} (s : Snapshot)
      → encode_snapshot_ref bincode s ≡ ok f
      → Carries bincode events ms
      → Carries bincode (forward f ∷ events) (some s ∷ ms)
  lagging :
      {events : List SessionEvent} {ms : List (Option Snapshot)} (n : ℕ)
      → Carries bincode events ms
      → Carries bincode (lagged n ∷ events) ms
  beating :
      {events : List SessionEvent} {ms : List (Option Snapshot)} (uptime : ℕ)
      → Carries bincode events ms
      → Carries bincode (heartbeat_due uptime ∷ events) (none ∷ ms)
  closing : (events : List SessionEvent) → Carries bincode (closed ∷ events) []
  cancelling : (events : List SessionEvent) → Carries bincode (cancelled ∷ events) []

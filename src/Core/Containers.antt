-- ===== src/Core/Containers.antt =====
-- The data of the Containers tab (crates/muxtop-core/src/containers.rs).
use muxtop.Base.{ℕ, Bool, false, List, []}
use muxtop.Core.Process.{Text}

pub data ContainerState : Type 0 where
  created running paused restarting exited dead removing : ContainerState

pub data EngineKind : Type 0 where
  docker podman unknown : EngineKind

pub record ContainerSnapshot (F32 : Type 0) : Type 0 where
  pub id : Text
  pub id_full : Text
  pub name : Text
  pub image : Text
  pub state : ContainerState
  pub status_text : Text
  pub cpu_pct : F32
  pub mem_used_bytes : ℕ
  pub mem_limit_bytes : ℕ
  pub net_rx_bytes : ℕ
  pub net_tx_bytes : ℕ
  pub block_read_bytes : ℕ
  pub block_write_bytes : ℕ
  pub started_at_ms : ℕ

pub record ContainersSnapshot (F32 : Type 0) : Type 0 where
  pub engine : EngineKind
  pub daemon_up : Bool
  pub containers : List (ContainerSnapshot F32)

-- The snapshot of a host without a daemon.
unfoldable pub unavailable : {F32 : Type 0} → ContainersSnapshot F32
unavailable = record { engine = EngineKind.unknown; daemon_up = false; containers = [] }

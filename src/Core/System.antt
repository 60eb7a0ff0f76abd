-- ===== src/Core/System.antt =====
-- The snapshot of a host (crates/muxtop-core/src/system.rs).
pub mod Collect
use muxtop.Base.{ℕ, List, Option}
use muxtop.Core.Process.{Text}
use muxtop.Core.Process.{ProcessInfo}
use muxtop.Core.Network.{NetworkSnapshot}
use muxtop.Core.Containers.{ContainersSnapshot}
use muxtop.Core.Kube.{KubeSnapshot}
use muxtop.Core.Gpu.{GpusSnapshot}

pub record CoreSnapshot (F32 : Type 0) : Type 0 where
  pub name : Text
  pub usage : F32
  pub frequency : ℕ

pub record CpuSnapshot (F32 : Type 0) : Type 0 where
  pub global_usage : F32
  pub cores : List (CoreSnapshot F32)

pub record MemorySnapshot : Type 0 where
  pub total : ℕ
  pub used : ℕ
  pub available : ℕ
  pub swap_total : ℕ
  pub swap_used : ℕ

pub record LoadSnapshot (F64 : Type 0) : Type 0 where
  pub one : F64
  pub five : F64
  pub fifteen : F64
  pub uptime_secs : ℕ

pub record SystemSnapshot (F32 F64 : Type 0) : Type 0 where
  pub cpu : CpuSnapshot F32
  pub memory : MemorySnapshot
  pub load : LoadSnapshot F64
  pub processes : List (ProcessInfo F32)
  pub networks : NetworkSnapshot
  pub containers : Option (ContainersSnapshot F32)
  pub kube : Option KubeSnapshot
  pub gpu : Option (GpusSnapshot F32)
  pub timestamp_ms : ℕ

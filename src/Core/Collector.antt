-- ===== src/Core/Collector.antt =====
-- The collector (crates/muxtop-core/src/collector.rs): the loop that sends snapshots, and a loop for
-- each engine that leaves what it has polled in a slot. The loops run side by side, so what happens
-- is a sequence of events in any order: a tick with what sysinfo reads, a poll with its result, or
-- the cancellation as one loop sees it.
pub mod Fresh
pub mod Shutdown
pub mod Examples
use muxtop.Base.{
  ℕ, Bool, true, false, not, ◌&&◌, ◌||◌, Option, none, some, List, [], ◌∷◌, ◌++◌, Result, ok, err,
  if◌then◌else◌,
}
use muxtop.Core.Containers.{EngineKind, ContainerSnapshot, ContainersSnapshot, unavailable}
use muxtop.Core.Kube.{KubeSnapshot, kube_unavailable}
use muxtop.Core.Gpu.{GpusSnapshot, gpus_unavailable}
use muxtop.Core.Gpu.Engine.{GpuError, to_string}
use muxtop.Core.Engines.{EngineError, ClusterError}
use muxtop.Core.Process.{Text}
use muxtop.Core.System.{SystemSnapshot}
use muxtop.Core.System.Collect.{Numbers, Readings, collect}

-- What `try_send` finds.
pub data Send : Type 0 where
  delivered full closed : Send

pub data Loop : Type 0 where
  system containers kube gpu : Loop

pub data Event (F32 F64 : Type 0) : Type 0 where
  tick : Readings F32 F64 → Send → Event F32 F64
  containers_polled : Result EngineError (List (ContainerSnapshot F32)) → Event F32 F64
  kube_polled : Result ClusterError KubeSnapshot → Event F32 F64
  gpu_polled : Result GpuError (GpusSnapshot F32) → Event F32 F64
  cancelled : Loop → Event F32 F64

-- The engines that the collector is given.
pub record Engines : Type 0 where
  pub container_engine : Option EngineKind
  pub cluster_engine : Bool
  pub gpu_engine : Bool

pub record Collecting (F32 F64 : Type 0) : Type 0 where
  pub last_containers : Option (ContainersSnapshot F32)
  pub last_kube : Option KubeSnapshot
  pub last_gpu : Option (GpusSnapshot F32)
  pub sent : List (SystemSnapshot F32 F64)
  pub system_loop : Bool
  -- The loop with the kind of its engine.
  pub container_loop : Option EngineKind
  pub cluster_loop : Bool
  pub gpu_loop : Bool

module _ {F32 : Type 0} where
  abbrev pub containers_of :
      EngineKind → Result EngineError (List (ContainerSnapshot F32)) → ContainersSnapshot F32
  containers_of kind (ok cs) = record { engine = kind; daemon_up = true; containers = cs }
  containers_of kind (err e) = unavailable

  abbrev pub unavailable_with : Text → GpusSnapshot F32
  unavailable_with detail = record gpus_unavailable { detail = detail }

  abbrev pub gpu_of : Result GpuError (GpusSnapshot F32) → GpusSnapshot F32
  gpu_of (ok g) = g
  gpu_of (err e) = unavailable_with (to_string e)

abbrev pub kube_of : Result ClusterError KubeSnapshot → KubeSnapshot
kube_of (ok k) = k
kube_of (err e) = kube_unavailable

module _ (numbers : Numbers) where
  open numbers use {F32, F64}

  abbrev pub start : Engines → Collecting F32 F64
  start engines = record {
    last_containers = none;
    last_kube = if engines.cluster_engine then none else some kube_unavailable;
    last_gpu = if engines.gpu_engine then none else some gpus_unavailable;
    sent = [];
    system_loop = true;
    container_loop = engines.container_engine;
    cluster_loop = engines.cluster_engine;
    gpu_loop = engines.gpu_engine;
  }

  abbrev pub emit : Send → SystemSnapshot F32 F64 → Collecting F32 F64 → Collecting F32 F64
  emit delivered snapshot s = record s { sent = s.sent ++ snapshot ∷ [] }
  emit full snapshot s = s
  emit closed snapshot s = record s { system_loop = false }

  abbrev pub ticked : Readings F32 F64 → Send → Collecting F32 F64 → Collecting F32 F64
  ticked sys send s =
      if s.system_loop
      then emit send (collect numbers sys s.last_containers s.last_kube s.last_gpu) s
      else s

  abbrev pub published :
      Option EngineKind
      → Result EngineError (List (ContainerSnapshot F32))
      → Option (ContainersSnapshot F32)
      → Option (ContainersSnapshot F32)
  published none r last = last
  published (some kind) r last = some (containers_of kind r)

  abbrev pub stop : Loop → Collecting F32 F64 → Collecting F32 F64
  stop system s = record s { system_loop = false }
  stop containers s = record s { container_loop = none }
  stop kube s = record s { cluster_loop = false }
  stop gpu s = record s { gpu_loop = false }

  unfoldable pub step : Event F32 F64 → Collecting F32 F64 → Collecting F32 F64
  unfolding collect unavailable kube_unavailable gpus_unavailable to_string
  step (tick sys send) s = ticked sys send s
  step (containers_polled r) s = record s {
    last_containers = published s.container_loop r s.last_containers;
  }
  step (kube_polled r) s = record s {
    last_kube = if s.cluster_loop then some (kube_of r) else s.last_kube;
  }
  step (gpu_polled r) s = record s { last_gpu = if s.gpu_loop then some (gpu_of r) else s.last_gpu }
  step (cancelled loop) s = stop loop s

  unfoldable pub run : List (Event F32 F64) → Collecting F32 F64 → Collecting F32 F64
  unfolding step
  run [] s = s
  run (e ∷ es) s = run es (step e s)

  abbrev is_none {ℓ} : {A : Type ℓ} → Option A → Bool
  is_none none = true
  is_none (some a) = false

  -- The handle of the collector completes.
  abbrev pub is_over : Collecting F32 F64 → Bool
  is_over s =
      not s.system_loop && (is_none s.container_loop && (not s.cluster_loop && not s.gpu_loop))

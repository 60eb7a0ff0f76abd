-- ===== src/Core/System/Collect.antt =====
-- `SystemSnapshot::collect` of crates/muxtop-core/src/system.rs, and the names of GPU processes
-- (`resolve_process_names` of crates/muxtop-core/src/gpu.rs).
--
-- What sysinfo and the clock report is a record. The names of the cores, which the program keeps in
-- a table once they are made, are made anew.
use muxtop.Base.{ℕ, suc, Option, none, some, List, [], ◌∷◌, ◌++◌, map, ltb, ◌==◌, if◌then◌else◌}
use muxtop.Base.Texts.{codes}
use muxtop.Core.Process.{Text, ProcessInfo}
use muxtop.Core.Network.{NetworkData, collect as collect_networks}
use muxtop.Core.Containers.{ContainersSnapshot}
use muxtop.Core.Kube.{KubeSnapshot}
use muxtop.Core.Gpu.{GpuProcessSnapshot, GpusSnapshot}
use muxtop.Core.System.{CoreSnapshot, SystemSnapshot}

-- The arithmetic and the printing that are taken from the standard library.
pub record Numbers : Type 1 where
  pub F32 : Type 0
  pub F64 : Type 0
  pub zero_f32 : F32
  -- `((memory / total) * 100.0).clamp(0.0, 100.0) as f32`
  pub percent : (memory total : ℕ) → F32
  pub display : ℕ → Text

pub data ProcessStatus : Type 0 where
  run sleep idle zombie stop other : ProcessStatus

abbrev pub status_text : ProcessStatus → Text
status_text run = codes "Running"
status_text sleep = codes "Sleeping"
status_text idle = codes "Idle"
status_text zombie = codes "Zombie"
status_text stop = codes "Stopped"
status_text other = codes "Unknown"

pub record CpuReading (F32 : Type 0) : Type 0 where
  pub cpu_usage : F32
  pub frequency : ℕ

pub record ProcessReading (F32 : Type 0) : Type 0 where
  pub pid : ℕ
  pub parent : Option ℕ
  pub name : Text
  pub cmd : List Text
  pub user_id : Option Text
  pub cpu_usage : F32
  pub memory : ℕ
  pub status : ProcessStatus

-- What the refreshed `System` and `Networks` hold, and the milliseconds since the epoch, if the
-- clock is past it.
pub record Readings (F32 F64 : Type 0) : Type 0 where
  pub global_cpu_usage : F32
  pub cpus : List (CpuReading F32)
  pub total_memory : ℕ
  pub used_memory : ℕ
  pub available_memory : ℕ
  pub total_swap : ℕ
  pub used_swap : ℕ
  pub load_average : F64 × (F64 × F64)
  pub uptime : ℕ
  pub processes : List (ProcessReading F32)
  pub networks : List NetworkData
  pub since_epoch : Option ℕ

-- `Vec::join` with a space.
abbrev pub join_words : List Text → Text
join_words [] = []
join_words (w ∷ []) = w
join_words (w ∷ v ∷ ws) = w ++ (codes " " ++ join_words (v ∷ ws))

abbrev pub or_empty : Option Text → Text
or_empty none = []
or_empty (some t) = t

-- A name is filled in where there is none and the lookup has one.
abbrev pub named : (ℕ → Option Text) → GpuProcessSnapshot → GpuProcessSnapshot
named lookup p = elim p.name [
  | [] ↦ elim (lookup p.pid) [ none ↦ p | some name ↦ record p { name = name } ]
  | c ∷ cs ↦ p
]

unfoldable pub resolve_process_names :
    {F32 : Type 0} → (ℕ → Option Text) → GpusSnapshot F32 → GpusSnapshot F32
resolve_process_names lookup g = record g { processes = map (named lookup) g.processes }

module _ (numbers : Numbers) where
  open numbers use {F32, F64, zero_f32, percent, display}

  abbrev pub core_name : ℕ → Text
  core_name i = codes "cpu" ++ display i

  abbrev pub cores_from : ℕ → List (CpuReading F32) → List (CoreSnapshot F32)
  cores_from i [] = []
  cores_from i (c ∷ cs) =
      record { name = core_name i; usage = c.cpu_usage; frequency = c.frequency }
      ∷ cores_from (suc i) cs

  abbrev pub process_info : ℕ → ProcessReading F32 → ProcessInfo F32
  process_info total_mem p = record {
    pid = p.pid;
    parent_pid = p.parent;
    name = p.name;
    command = join_words p.cmd;
    user = or_empty p.user_id;
    cpu_percent = p.cpu_usage;
    memory_bytes = p.memory;
    memory_percent = if ltb 0 total_mem then percent p.memory total_mem else zero_f32;
    status = status_text p.status;
  }

  -- `System::process`.
  abbrev pub process_name : List (ProcessReading F32) → ℕ → Option Text
  process_name [] pid = none
  process_name (p ∷ ps) pid =
      let rest = process_name ps pid in if p.pid == pid then some p.name else rest

  abbrev pub enriched :
      List (ProcessReading F32) → Option (GpusSnapshot F32) → Option (GpusSnapshot F32)
  enriched ps none = none
  enriched ps (some g) = some (resolve_process_names (process_name ps) g)

  abbrev pub or_epoch : Option ℕ → ℕ
  or_epoch none = 0
  or_epoch (some ms) = ms

  unfoldable pub collect :
      Readings F32 F64
      → Option (ContainersSnapshot F32)
      → Option KubeSnapshot
      → Option (GpusSnapshot F32)
      → SystemSnapshot F32 F64
  unfolding resolve_process_names
  collect sys containers kube gpu = record {
    cpu = record { global_usage = sys.global_cpu_usage; cores = cores_from 0 sys.cpus };
    memory = record {
      total = sys.total_memory;
      used = sys.used_memory;
      available = sys.available_memory;
      swap_total = sys.total_swap;
      swap_used = sys.used_swap;
    };
    load = record {
      one = sys.load_average.0;
      five = sys.load_average.1.0;
      fifteen = sys.load_average.1.1;
      uptime_secs = sys.uptime;
    };
    processes = map (process_info sys.total_memory) sys.processes;
    networks = collect_networks sys.networks;
    containers = containers;
    kube = kube;
    gpu = enriched sys.processes gpu;
    timestamp_ms = or_epoch sys.since_epoch;
  }

-- ===== src/Core/Gpu/Engine/Examples.antt =====
-- Two backends merged (crates/muxtop-core/src/gpu_engine.rs).
use muxtop.Base.{ℕ, ◌≡◌, refl, true, none, List, [], ◌∷◌, map, Result, ok, err, arith}
use muxtop.Base.Texts.{codes}
use muxtop.Core.Gpu.{
  GpuVendor, GpuBackend, GpuProcessKind, GpuDeviceSnapshot, GpuProcessSnapshot, GpusSnapshot,
}
use muxtop.Core.Gpu.Engine.{GpuError, no_backend, snapshot}
use muxtop.Core.Gpu.Engine.Owners.{IsSound, owners, all_owners}
use muxtop.Core.Gpu.Engine.Attribution.{snapshot-owners}

abbrev device : GpuBackend → GpuDeviceSnapshot ℕ
device backend = record {
  index = 0;
  vendor = GpuVendor.unknown;
  backend = backend;
  name = codes "card";
  bus_id = [];
  driver_version = none;
  utilization_pct = none;
  mem_utilization_pct = none;
  mem_used_bytes = none;
  mem_total_bytes = none;
  temperature_c = none;
  power_watts = none;
  power_limit_watts = none;
  graphics_clock_mhz = none;
  memory_clock_mhz = none;
  fan_pct = none;
  encoder_pct = none;
  decoder_pct = none;
  supports_process_stats = true;
}

abbrev process : ℕ → GpuProcessSnapshot
process pid = record {
  pid = pid;
  device_index = 0;
  name = codes "p";
  kind = GpuProcessKind.compute;
  mem_bytes = none;
}

abbrev one_card : GpuBackend → ℕ → GpusSnapshot ℕ
one_card backend pid = record {
  backends = backend ∷ [];
  available = true;
  devices = device backend ∷ [];
  processes = process pid ∷ [];
  detail = [];
}

-- The second backend fails.
abbrev readings : List (Result GpuError (GpusSnapshot ℕ))
readings =
    ok (one_card GpuBackend.nvml 10) ∷ err no_backend ∷ ok (one_card GpuBackend.amd_sysfs 20) ∷ []

snapshot-owners_example :
    (owners (snapshot readings) ≡ all_owners readings) × IsSound (snapshot readings)
snapshot-owners_example =
    snapshot-owners readings
      (((refl, tt), (omega arith, tt)), (tt, (((refl, tt), (omega arith, tt)), tt))) (omega arith)

process_moved : map (λ p. p.device_index) (snapshot readings).processes ≡ 0 ∷ 1 ∷ []
unfolding snapshot
process_moved = refl

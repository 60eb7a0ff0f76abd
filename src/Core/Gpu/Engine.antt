-- ===== src/Core/Gpu/Engine.antt =====
-- Several GPU backends as one (`CompositeGpuEngine` of crates/muxtop-core/src/gpu_engine.rs). What
-- the backends answer is given, one reading for each.
pub mod Owners
pub mod Attribution
pub mod Examples
use mathlib.Core.Bool.{decide}
use muxtop.Base.{
  ℕ, ◌+◌, ◌%◌, ◌^◌, Bool, true, false, not, List, [], ◌∷◌, ◌++◌, map, Result, ok, err, ◌==◌,
  if◌then◌else◌, length,
}
use muxtop.Base.Texts.{codes}
use muxtop.Core.Process.{Text}
use muxtop.Core.Gpu.{
  GpuBackend, GpuDeviceSnapshot, GpuProcessSnapshot, GpusSnapshot, gpus_unavailable,
}

pub data GpuError : Type 0 where
  no_backend : GpuError
  driver_unavailable : (vendor reason : Text) → GpuError
  query : Text → GpuError
  sysfs : (path reason : Text) → GpuError
  unsupported : Text → GpuError

-- The `Display` of the errors.
unfoldable pub to_string : GpuError → Text
to_string no_backend = codes "no GPU backend available"
to_string (driver_unavailable vendor reason) = vendor ++ codes " driver unavailable: " ++ reason
to_string (query reason) = codes "GPU query failed: " ++ reason
to_string (sysfs path reason) = codes "GPU sysfs read failed at " ++ path ++ codes ": " ++ reason
to_string (unsupported text) = text

unfoldable pub GpuBackend-discrete : Discrete GpuBackend
GpuBackend-discrete = hlevel

abbrev pub contains : GpuBackend → List GpuBackend → Bool
contains b [] = false
contains b (x ∷ xs) =
    let rest = contains b xs in if decide (GpuBackend-discrete x b) then true else rest

-- The kinds that are not there yet are appended.
abbrev pub with_backends : List GpuBackend → List GpuBackend → List GpuBackend
with_backends merged [] = merged
with_backends merged (b ∷ bs) =
    with_backends (if contains b merged then merged else merged ++ b ∷ []) bs

-- `Vec::join` with "; ".
abbrev pub join : List Text → Text
join [] = []
join (x ∷ []) = x
join (x ∷ y ∷ rest) = x ++ codes "; " ++ join (y ∷ rest)

-- The numbers are `u32`, and sums wrap as in a release build.
abbrev pub moved : ℕ → GpuProcessSnapshot → GpuProcessSnapshot
moved offset process = record process { device_index = (process.device_index + offset) % 2 ^ 32 }

abbrev pub failed_with : List Text → Text → List Text
failed_with failures [] = failures
failed_with failures (c ∷ cs) = failures ++ (c ∷ cs) ∷ []

abbrev pub detail_of : List Text → Text
detail_of [] = codes "no GPU detected"
detail_of (f ∷ fs) = join (f ∷ fs)

module _ {F32 : Type 0} where
  abbrev pub renumbered : ℕ → GpuDeviceSnapshot F32 → GpuDeviceSnapshot F32
  renumbered offset device = record device { index = (offset + device.index) % 2 ^ 32 }

  abbrev pub absorbed : GpusSnapshot F32 → GpusSnapshot F32 → GpusSnapshot F32
  absorbed merged snapshot =
      let offset = length merged.devices % 2 ^ 32 in
      record merged {
        devices = merged.devices ++ map (renumbered offset) snapshot.devices;
        processes = merged.processes ++ map (moved offset) snapshot.processes;
        backends = with_backends merged.backends snapshot.backends;
      }

  -- The loop over the readings.
  unfoldable pub merge_readings :
      List (Result GpuError (GpusSnapshot F32))
      → GpusSnapshot F32
      → List Text
      → GpusSnapshot F32 × List Text
  unfolding to_string
  merge_readings [] merged failures = (merged, failures)
  merge_readings (err e ∷ readings) merged failures =
      merge_readings readings merged (failures ++ to_string e ∷ [])
  merge_readings (ok snapshot ∷ readings) merged failures =
      merge_readings readings (if snapshot.available then absorbed merged snapshot else merged)
        (if snapshot.available then failures else failed_with failures snapshot.detail)

  abbrev pub closed_with : GpusSnapshot F32 × List Text → GpusSnapshot F32
  closed_with (merged, failures) =
      let available = not (length merged.devices == 0) in
      record merged {
        available = available;
        detail = if available then merged.detail else detail_of failures;
      }

  unfoldable pub snapshot : List (Result GpuError (GpusSnapshot F32)) → GpusSnapshot F32
  unfolding merge_readings gpus_unavailable
  snapshot readings = closed_with (merge_readings readings gpus_unavailable [])

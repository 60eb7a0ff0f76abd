-- ===== src/Core/Gpu.antt =====
-- The data of the GPU tab (crates/muxtop-core/src/gpu.rs).
pub mod Engine
use Prim.Native.String.{String}
use muxtop.Base.{ℕ, Bool, false, List, [], Option}
use muxtop.Core.Process.{Text}

pub data GpuVendor : Type 0 where
  nvidia amd intel apple unknown : GpuVendor

pub data GpuBackend : Type 0 where
  nvml amd_sysfs apple_io_report : GpuBackend

pub data GpuProcessKind : Type 0 where
  compute graphics both unknown : GpuProcessKind

pub record GpuDeviceSnapshot (F32 : Type 0) : Type 0 where
  pub index : ℕ
  pub vendor : GpuVendor
  pub backend : GpuBackend
  pub name : Text
  pub bus_id : Text
  pub driver_version : Option Text
  pub utilization_pct : Option F32
  pub mem_utilization_pct : Option F32
  pub mem_used_bytes : Option ℕ
  pub mem_total_bytes : Option ℕ
  pub temperature_c : Option F32
  pub power_watts : Option F32
  pub power_limit_watts : Option F32
  pub graphics_clock_mhz : Option ℕ
  pub memory_clock_mhz : Option ℕ
  pub fan_pct : Option F32
  pub encoder_pct : Option F32
  pub decoder_pct : Option F32
  pub supports_process_stats : Bool

pub record GpuProcessSnapshot : Type 0 where
  pub pid : ℕ
  pub device_index : ℕ
  pub name : Text
  pub kind : GpuProcessKind
  pub mem_bytes : Option ℕ

pub record GpusSnapshot (F32 : Type 0) : Type 0 where
  pub backends : List GpuBackend
  pub available : Bool
  pub devices : List (GpuDeviceSnapshot F32)
  pub processes : List GpuProcessSnapshot
  pub detail : Text

unfoldable pub vendor_label : GpuVendor → String
vendor_label GpuVendor.nvidia = "nvidia"
vendor_label GpuVendor.amd = "amd"
vendor_label GpuVendor.intel = "intel"
vendor_label GpuVendor.apple = "apple"
vendor_label GpuVendor.unknown = "unknown"

unfoldable pub backend_label : GpuBackend → String
backend_label GpuBackend.nvml = "nvml"
backend_label GpuBackend.amd_sysfs = "amdgpu-sysfs"
backend_label GpuBackend.apple_io_report = "ioreport"

unfoldable pub kind_label : GpuProcessKind → String
kind_label GpuProcessKind.compute = "compute"
kind_label GpuProcessKind.graphics = "graphics"
kind_label GpuProcessKind.both = "both"
kind_label GpuProcessKind.unknown = "unknown"

-- Two observations of one process on one device.
unfoldable pub merge : GpuProcessKind → GpuProcessKind → GpuProcessKind
merge GpuProcessKind.unknown b = b
merge GpuProcessKind.compute GpuProcessKind.compute = GpuProcessKind.compute
merge GpuProcessKind.graphics GpuProcessKind.graphics = GpuProcessKind.graphics
merge GpuProcessKind.both GpuProcessKind.both = GpuProcessKind.both
merge GpuProcessKind.compute GpuProcessKind.unknown = GpuProcessKind.compute
merge GpuProcessKind.graphics GpuProcessKind.unknown = GpuProcessKind.graphics
merge GpuProcessKind.both GpuProcessKind.unknown = GpuProcessKind.both
merge a b = GpuProcessKind.both

-- The snapshot of a host without a usable GPU.
unfoldable pub gpus_unavailable : {F32 : Type 0} → GpusSnapshot F32
gpus_unavailable = record {
  backends = [];
  available = false;
  devices = [];
  processes = [];
  detail = [];
}

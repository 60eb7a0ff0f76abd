-- ===== src/Tui/Tabs.antt =====
-- The tabs and their sub-views (crates/muxtop-tui/src/app.rs).
pub mod Order
use Prim.Native.String.{String}
use mathlib.Core.Bool.{decide}
use muxtop.Base.{
  ℕ, suc, ◌+◌, ◌-◌, ◌%◌, Option, none, some, if◌then◌else◌, get_elem?, length, List, [], ◌∷◌,
}

pub data Tab : Type 0 where
  general processes network containers kube gpu : Tab

pub data KubeSubview : Type 0 where
  pods nodes deployments : KubeSubview

pub data GpuSubview : Type 0 where
  devices procs : GpuSubview

abbrev pub all_tabs : List Tab
all_tabs = Tab.general ∷ Tab.processes ∷ Tab.network ∷ Tab.containers ∷ Tab.kube ∷ Tab.gpu ∷ []

unfoldable pub Tab-discrete : Discrete Tab
Tab-discrete = hlevel

unfoldable pub label : Tab → String
label Tab.general = "General"
label Tab.processes = "Processes"
label Tab.network = "Network"
label Tab.containers = "Containers"
label Tab.kube = "Kube"
label Tab.gpu = "GPU"

-- `iter().position(|&t| t == tab)`, with `i` the index of the first element.
unfoldable pub position : ℕ → List Tab → Tab → Option ℕ
position i [] tab = none
position i (t ∷ ts) tab =
    let rest = position (suc i) ts tab in if decide (Tab-discrete t tab) then some i else rest

abbrev pub unwrap_or : Option ℕ → ℕ → ℕ
unwrap_or none d = d
unwrap_or (some i) d = i

-- An index outside of the list, which panics, is `none`.
unfoldable pub next : Tab → Option Tab
unfolding position
next tab =
    let idx = unwrap_or (position 0 all_tabs tab) 0 in
    get_elem? all_tabs ((idx + 1) % length all_tabs)

unfoldable pub prev : Tab → Option Tab
unfolding position
prev tab =
    let idx = unwrap_or (position 0 all_tabs tab) 0 in
    get_elem? all_tabs ((idx + length all_tabs - 1) % length all_tabs)

unfoldable pub kube_label : KubeSubview → String
kube_label KubeSubview.pods = "Pods"
kube_label KubeSubview.nodes = "Nodes"
kube_label KubeSubview.deployments = "Deployments"

unfoldable pub gpu_label : GpuSubview → String
gpu_label GpuSubview.devices = "Devices"
gpu_label GpuSubview.procs = "Procs"

-- ===== src/Tui/Sorts.antt =====
-- The sort fields of the tabs and the cycles that the sort key walks
-- (crates/muxtop-tui/src/app.rs).
pub mod Cycles
pub mod Reach
pub mod Kube
pub mod Gpu
use muxtop.Core.Process.Sort.{SortField}
use muxtop.Tui.Tabs.{KubeSubview, GpuSubview}

pub data NetworkSortField : Type 0 where
  name rx_rate tx_rate total_rx total_tx errors : NetworkSortField

pub data ContainerSortField : Type 0 where
  name cpu mem net_rx net_tx uptime : ContainerSortField

pub data KubeSortField : Type 0 where
  pod_name pod_cpu pod_mem pod_restarts pod_age pod_phase : KubeSortField
  node_name node_cpu_pct node_mem_pct node_pod_count node_age : KubeSortField
  deploy_namespace deploy_name deploy_ready_ratio deploy_age : KubeSortField

pub data GpuSortField : Type 0 where
  device_index device_name device_util device_mem device_temp device_power : GpuSortField
  proc_pid proc_name proc_mem proc_device : GpuSortField

unfoldable pub kube_default_for : KubeSubview → KubeSortField
kube_default_for KubeSubview.pods = KubeSortField.pod_cpu
kube_default_for KubeSubview.nodes = KubeSortField.node_cpu_pct
kube_default_for KubeSubview.deployments = KubeSortField.deploy_name

unfoldable pub gpu_default_for : GpuSubview → GpuSortField
gpu_default_for GpuSubview.devices = GpuSortField.device_index
gpu_default_for GpuSubview.procs = GpuSortField.proc_mem

unfoldable pub next_sort_field : SortField → SortField
next_sort_field SortField.cpu = SortField.mem
next_sort_field SortField.mem = SortField.pid
next_sort_field SortField.pid = SortField.name
next_sort_field SortField.name = SortField.user
next_sort_field SortField.user = SortField.cpu

unfoldable pub next_net_sort_field : NetworkSortField → NetworkSortField
next_net_sort_field NetworkSortField.rx_rate = NetworkSortField.tx_rate
next_net_sort_field NetworkSortField.tx_rate = NetworkSortField.name
next_net_sort_field NetworkSortField.name = NetworkSortField.errors
next_net_sort_field NetworkSortField.errors = NetworkSortField.total_rx
next_net_sort_field NetworkSortField.total_rx = NetworkSortField.total_tx
next_net_sort_field NetworkSortField.total_tx = NetworkSortField.rx_rate

unfoldable pub next_container_sort_field : ContainerSortField → ContainerSortField
next_container_sort_field ContainerSortField.cpu = ContainerSortField.mem
next_container_sort_field ContainerSortField.mem = ContainerSortField.name
next_container_sort_field ContainerSortField.name = ContainerSortField.net_rx
next_container_sort_field ContainerSortField.net_rx = ContainerSortField.net_tx
next_container_sort_field ContainerSortField.net_tx = ContainerSortField.uptime
next_container_sort_field ContainerSortField.uptime = ContainerSortField.cpu

unfoldable pub next_gpu_sort_field : GpuSortField → GpuSubview → GpuSortField
unfolding gpu_default_for
next_gpu_sort_field GpuSortField.device_index GpuSubview.devices = GpuSortField.device_util
next_gpu_sort_field GpuSortField.device_util GpuSubview.devices = GpuSortField.device_mem
next_gpu_sort_field GpuSortField.device_mem GpuSubview.devices = GpuSortField.device_temp
next_gpu_sort_field GpuSortField.device_temp GpuSubview.devices = GpuSortField.device_power
next_gpu_sort_field GpuSortField.device_power GpuSubview.devices = GpuSortField.device_name
next_gpu_sort_field GpuSortField.device_name GpuSubview.devices = GpuSortField.device_index
next_gpu_sort_field GpuSortField.proc_pid GpuSubview.devices = gpu_default_for GpuSubview.devices
next_gpu_sort_field GpuSortField.proc_name GpuSubview.devices = gpu_default_for GpuSubview.devices
next_gpu_sort_field GpuSortField.proc_mem GpuSubview.devices = gpu_default_for GpuSubview.devices
next_gpu_sort_field GpuSortField.proc_device GpuSubview.devices = gpu_default_for GpuSubview.devices
next_gpu_sort_field GpuSortField.proc_mem GpuSubview.procs = GpuSortField.proc_pid
next_gpu_sort_field GpuSortField.proc_pid GpuSubview.procs = GpuSortField.proc_name
next_gpu_sort_field GpuSortField.proc_name GpuSubview.procs = GpuSortField.proc_device
next_gpu_sort_field GpuSortField.proc_device GpuSubview.procs = GpuSortField.proc_mem
next_gpu_sort_field GpuSortField.device_index GpuSubview.procs = gpu_default_for GpuSubview.procs
next_gpu_sort_field GpuSortField.device_name GpuSubview.procs = gpu_default_for GpuSubview.procs
next_gpu_sort_field GpuSortField.device_util GpuSubview.procs = gpu_default_for GpuSubview.procs
next_gpu_sort_field GpuSortField.device_mem GpuSubview.procs = gpu_default_for GpuSubview.procs
next_gpu_sort_field GpuSortField.device_temp GpuSubview.procs = gpu_default_for GpuSubview.procs
next_gpu_sort_field GpuSortField.device_power GpuSubview.procs = gpu_default_for GpuSubview.procs

unfoldable pub next_kube_sort_field : KubeSortField → KubeSubview → KubeSortField
unfolding kube_default_for
next_kube_sort_field KubeSortField.pod_cpu KubeSubview.pods = KubeSortField.pod_mem
next_kube_sort_field KubeSortField.pod_mem KubeSubview.pods = KubeSortField.pod_name
next_kube_sort_field KubeSortField.pod_name KubeSubview.pods = KubeSortField.pod_restarts
next_kube_sort_field KubeSortField.pod_restarts KubeSubview.pods = KubeSortField.pod_age
next_kube_sort_field KubeSortField.pod_age KubeSubview.pods = KubeSortField.pod_phase
next_kube_sort_field KubeSortField.pod_phase KubeSubview.pods = KubeSortField.pod_cpu
next_kube_sort_field KubeSortField.node_name KubeSubview.pods = kube_default_for KubeSubview.pods
next_kube_sort_field KubeSortField.node_cpu_pct KubeSubview.pods = kube_default_for KubeSubview.pods
next_kube_sort_field KubeSortField.node_mem_pct KubeSubview.pods = kube_default_for KubeSubview.pods
next_kube_sort_field KubeSortField.node_pod_count KubeSubview.pods =
    kube_default_for KubeSubview.pods
next_kube_sort_field KubeSortField.node_age KubeSubview.pods = kube_default_for KubeSubview.pods
next_kube_sort_field KubeSortField.deploy_namespace KubeSubview.pods =
    kube_default_for KubeSubview.pods
next_kube_sort_field KubeSortField.deploy_name KubeSubview.pods = kube_default_for KubeSubview.pods
next_kube_sort_field KubeSortField.deploy_ready_ratio KubeSubview.pods =
    kube_default_for KubeSubview.pods
next_kube_sort_field KubeSortField.deploy_age KubeSubview.pods = kube_default_for KubeSubview.pods
next_kube_sort_field KubeSortField.node_cpu_pct KubeSubview.nodes = KubeSortField.node_mem_pct
next_kube_sort_field KubeSortField.node_mem_pct KubeSubview.nodes = KubeSortField.node_name
next_kube_sort_field KubeSortField.node_name KubeSubview.nodes = KubeSortField.node_pod_count
next_kube_sort_field KubeSortField.node_pod_count KubeSubview.nodes = KubeSortField.node_age
next_kube_sort_field KubeSortField.node_age KubeSubview.nodes = KubeSortField.node_cpu_pct
next_kube_sort_field KubeSortField.pod_name KubeSubview.nodes = kube_default_for KubeSubview.nodes
next_kube_sort_field KubeSortField.pod_cpu KubeSubview.nodes = kube_default_for KubeSubview.nodes
next_kube_sort_field KubeSortField.pod_mem KubeSubview.nodes = kube_default_for KubeSubview.nodes
next_kube_sort_field KubeSortField.pod_restarts KubeSubview.nodes =
    kube_default_for KubeSubview.nodes
next_kube_sort_field KubeSortField.pod_age KubeSubview.nodes = kube_default_for KubeSubview.nodes
next_kube_sort_field KubeSortField.pod_phase KubeSubview.nodes = kube_default_for KubeSubview.nodes
next_kube_sort_field KubeSortField.deploy_namespace KubeSubview.nodes =
    kube_default_for KubeSubview.nodes
next_kube_sort_field KubeSortField.deploy_name KubeSubview.nodes =
    kube_default_for KubeSubview.nodes
next_kube_sort_field KubeSortField.deploy_ready_ratio KubeSubview.nodes =
    kube_default_for KubeSubview.nodes
next_kube_sort_field KubeSortField.deploy_age KubeSubview.nodes = kube_default_for KubeSubview.nodes
next_kube_sort_field KubeSortField.deploy_name KubeSubview.deployments =
    KubeSortField.deploy_ready_ratio
next_kube_sort_field KubeSortField.deploy_ready_ratio KubeSubview.deployments =
    KubeSortField.deploy_namespace
next_kube_sort_field KubeSortField.deploy_namespace KubeSubview.deployments =
    KubeSortField.deploy_age
next_kube_sort_field KubeSortField.deploy_age KubeSubview.deployments = KubeSortField.deploy_name
next_kube_sort_field KubeSortField.pod_name KubeSubview.deployments =
    kube_default_for KubeSubview.deployments
next_kube_sort_field KubeSortField.pod_cpu KubeSubview.deployments =
    kube_default_for KubeSubview.deployments
next_kube_sort_field KubeSortField.pod_mem KubeSubview.deployments =
    kube_default_for KubeSubview.deployments
next_kube_sort_field KubeSortField.pod_restarts KubeSubview.deployments =
    kube_default_for KubeSubview.deployments
next_kube_sort_field KubeSortField.pod_age KubeSubview.deployments =
    kube_default_for KubeSubview.deployments
next_kube_sort_field KubeSortField.pod_phase KubeSubview.deployments =
    kube_default_for KubeSubview.deployments
next_kube_sort_field KubeSortField.node_name KubeSubview.deployments =
    kube_default_for KubeSubview.deployments
next_kube_sort_field KubeSortField.node_cpu_pct KubeSubview.deployments =
    kube_default_for KubeSubview.deployments
next_kube_sort_field KubeSortField.node_mem_pct KubeSubview.deployments =
    kube_default_for KubeSubview.deployments
next_kube_sort_field KubeSortField.node_pod_count KubeSubview.deployments =
    kube_default_for KubeSubview.deployments
next_kube_sort_field KubeSortField.node_age KubeSubview.deployments =
    kube_default_for KubeSubview.deployments

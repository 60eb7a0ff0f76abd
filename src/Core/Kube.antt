-- ===== src/Core/Kube.antt =====
-- The data of the Kubernetes tab (crates/muxtop-core/src/kube.rs).
pub mod Convert
pub mod Engine
pub mod Examples
pub mod Metrics
pub mod Objects
pub mod Quantities
use muxtop.Base.{ℕ, Bool, false, List, [], Option, none}
use muxtop.Core.Process.{Text}

pub data PodPhase : Type 0 where
  pending running succeeded failed crash_loop terminating unknown : PodPhase

pub data QosClass : Type 0 where
  guaranteed burstable best_effort : QosClass

pub data NodeStatus : Type 0 where
  ready not_ready scheduling_disabled unknown : NodeStatus

pub data DeploymentStrategy : Type 0 where
  rolling_update recreate : DeploymentStrategy

pub data ClusterKind : Type 0 where
  generic kind k3d k3s eks gke aks openshift : ClusterKind

pub record PodSnapshot : Type 0 where
  pub namespace : Text
  pub name : Text
  pub phase : PodPhase
  pub ready : ℕ × ℕ
  pub restarts : ℕ
  pub age_seconds : ℕ
  pub node : Text
  pub cpu_millis : Option ℕ
  pub mem_bytes : Option ℕ
  pub qos : QosClass

pub record NodeSnapshot : Type 0 where
  pub name : Text
  pub status : NodeStatus
  pub roles : List Text
  pub age_seconds : ℕ
  pub kubelet_version : Text
  pub cpu_capacity_millis : ℕ
  pub cpu_allocatable_millis : ℕ
  pub cpu_used_millis : Option ℕ
  pub mem_capacity_bytes : ℕ
  pub mem_allocatable_bytes : ℕ
  pub mem_used_bytes : Option ℕ
  pub pod_count : ℕ
  pub pod_capacity : ℕ

pub record DeploymentSnapshot : Type 0 where
  pub namespace : Text
  pub name : Text
  pub replicas_desired : ℕ
  pub replicas_ready : ℕ
  pub replicas_uptodate : ℕ
  pub replicas_available : ℕ
  pub age_seconds : ℕ
  pub strategy : DeploymentStrategy

pub record KubeSnapshot : Type 0 where
  pub cluster_kind : ClusterKind
  pub server_version : Option Text
  pub current_namespace : Text
  pub reachable : Bool
  pub metrics_available : Bool
  pub pods : List PodSnapshot
  pub nodes : List NodeSnapshot
  pub deployments : List DeploymentSnapshot

-- The snapshot of a host without a cluster.
unfoldable pub kube_unavailable : KubeSnapshot
kube_unavailable = record {
  cluster_kind = ClusterKind.generic;
  server_version = none;
  current_namespace = [];
  reachable = false;
  metrics_available = false;
  pods = [];
  nodes = [];
  deployments = [];
}

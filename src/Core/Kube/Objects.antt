-- ===== src/Core/Kube/Objects.antt =====
-- Pods, nodes and deployments of the API server, and the metrics (the objects that
-- crates/muxtop-core/src/kube_engine.rs reads). They are those of the k8s-openapi crate, with the
-- fields that the program reads. A time is a number of milliseconds since the epoch.
use muxtop.Base.{ℕ, Bool, Option, List}
use muxtop.Base.Int.{ℤ}
use muxtop.Core.Process.{Text}

pub record Metadata : Type 0 where
  pub name : Option Text
  pub namespace : Option Text
  pub creation_timestamp : Option ℤ
  pub deletion_timestamp : Option ℤ
  -- The keys.
  pub labels : Option (List Text)

pub record ContainerStatus : Type 0 where
  -- `state.waiting.reason`
  pub state : Option (Option (Option Text))
  pub ready : Bool
  pub restart_count : ℤ

pub record PodStatus : Type 0 where
  pub phase : Option Text
  pub qos_class : Option Text
  pub container_statuses : Option (List ContainerStatus)

pub record Pod : Type 0 where
  pub metadata : Metadata
  -- `spec.node_name`
  pub spec : Option (Option Text)
  pub status : Option PodStatus

pub record NodeCondition : Type 0 where
  pub type_ : Text
  pub status : Text

pub record NodeObjectStatus : Type 0 where
  -- `node_info.kubelet_version`
  pub node_info : Option Text
  pub capacity : Option (List (Text × Text))
  pub allocatable : Option (List (Text × Text))
  pub conditions : Option (List NodeCondition)

pub record Node : Type 0 where
  pub metadata : Metadata
  -- `spec.unschedulable`
  pub spec : Option (Option Bool)
  pub status : Option NodeObjectStatus

pub record DeploymentSpec : Type 0 where
  pub replicas : Option ℤ
  -- `strategy.type_`
  pub strategy : Option (Option Text)

pub record DeploymentStatus : Type 0 where
  pub ready_replicas : Option ℤ
  pub updated_replicas : Option ℤ
  pub available_replicas : Option ℤ

pub record Deployment : Type 0 where
  pub metadata : Metadata
  pub spec : Option DeploymentSpec
  pub status : Option DeploymentStatus

-- The values are CPU in thousandths and bytes of memory.
pub record MetricsCache : Type 0 where
  pub available : Bool
  pub pods : List ((Text × Text) × (ℕ × ℕ))
  pub nodes : List (Text × (ℕ × ℕ))

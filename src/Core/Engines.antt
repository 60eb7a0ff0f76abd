-- ===== src/Core/Engines.antt =====
-- The errors of the engines (crates/muxtop-core/src/container_engine.rs, cluster_engine.rs).
use muxtop.Base.{ℕ, Option}
use muxtop.Core.Process.{Text}

pub data EngineError : Type 0 where
  connect_failed container_not_found permission_denied other : Text → EngineError
  timeout : (nanos : ℕ) → EngineError

pub data ClusterError : Type 0 where
  kubeconfig_not_found metrics_unavailable : ClusterError
  unreachable other : Text → ClusterError
  forbidden : (resource : Text) (namespace : Option Text) → ClusterError
  stale : (since_secs : ℕ) → ClusterError

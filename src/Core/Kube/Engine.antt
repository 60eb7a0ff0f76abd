-- ===== src/Core/Kube/Engine.antt =====
-- The Kubernetes engine (`KubeEngine` of crates/muxtop-core/src/kube_engine.rs): its caches, the
-- poll that fills them, the scope and the snapshot. What the API server and the clock say is given.
-- A poll reads the scope when it starts and writes the cache when it ends; in between the scope may
-- change.
pub mod Counts
pub mod Scope
use muxtop.Base.{
  ℕ, zero, suc, ◌+◌, ◌%◌, ◌^◌, Bool, true, false, ◌||◌, Option, none, some, List, [], ◌∷◌, map, ltb,
  if◌then◌else◌,
}
use muxtop.Base.Texts.{codes, same_text}
use muxtop.Core.Process.{Text}
use muxtop.Core.Kube.{ClusterKind, PodPhase, PodSnapshot, NodeSnapshot, KubeSnapshot}
use muxtop.Core.Kube.Objects.{Pod, Node, Deployment, MetricsCache}
use muxtop.Core.Kube.Convert.{
  Strings, find, unwrap_or, pod_to_snapshot, node_to_snapshot, deployment_to_snapshot,
}

pub data KubeScope : Type 0 where
  all_namespaces : KubeScope
  namespace : Text → KubeScope

-- `KubeScope::namespace` and `label`.
abbrev pub target : KubeScope → Option Text
target all_namespaces = none
target (namespace ns) = some ns

abbrev pub scope_label : KubeScope → Text
scope_label scope = unwrap_or [] (target scope)

pub record ResourceCache : Type 0 where
  pub pods : List Pod
  pub nodes : List Node
  pub deployments : List Deployment
  pub last_update_ms : ℕ

pub record KubeEngine : Type 0 where
  pub cluster_kind : ClusterKind
  pub server_version : Option Text
  pub scoped_namespace : Text
  pub scope : KubeScope
  pub resources : ResourceCache
  pub metrics : MetricsCache

unfoldable pub set_scope : KubeScope → KubeEngine → KubeEngine
set_scope scope e = record e {
  scope = scope;
  resources = record e.resources { pods = []; deployments = [] };
}

abbrev pub other_scope : Text → KubeScope → KubeScope
other_scope scoped all_namespaces = namespace scoped
other_scope scoped (namespace ns) = all_namespaces

unfoldable pub toggle_scope : KubeEngine → KubeEngine
unfolding set_scope
toggle_scope e = set_scope (other_scope e.scoped_namespace e.scope) e

-- The end of `tick_resources`: a list that failed keeps what the cache holds.
unfoldable pub write_lists :
    Option (List Pod) → Option (List Node) → Option (List Deployment) → ℕ → KubeEngine → KubeEngine
write_lists pods nodes deployments now_ms e = record e {
  resources = record {
    pods = unwrap_or e.resources.pods pods;
    nodes = unwrap_or e.resources.nodes nodes;
    deployments = unwrap_or e.resources.deployments deployments;
    last_update_ms = now_ms;
  };
}

-- The hash map of the counts, which are `u32`.
abbrev pub count_up : Text → List (Text × ℕ) → List (Text × ℕ)
count_up node [] = (node, 1) ∷ []
count_up node ((n, k) ∷ m) =
    let rest = count_up node m in
    if same_text n node then (n, (k + 1) % 2 ^ 32) ∷ m else (n, k) ∷ rest

abbrev pub is_finished : PodPhase → Bool
is_finished PodPhase.succeeded = true
is_finished PodPhase.failed = true
is_finished phase = false

abbrev pub is_blank : Text → Bool
is_blank [] = true
is_blank (c ∷ cs) = false

unfoldable pub pods_per_node_from : List (Text × ℕ) → List PodSnapshot → List (Text × ℕ)
pods_per_node_from counts [] = counts
pods_per_node_from counts (pod ∷ pods) =
    pods_per_node_from
      (if is_blank pod.node || is_finished pod.phase then counts else count_up pod.node counts) pods

unfoldable pub pods_per_node : List PodSnapshot → List (Text × ℕ)
unfolding pods_per_node_from
pods_per_node = pods_per_node_from []

abbrev pub counted : List (Text × ℕ) → NodeSnapshot → NodeSnapshot
counted scheduled node = record node { pod_count = unwrap_or 0 (find node.name scheduled) }

module _ (strings : Strings) where
  unfoldable pub snapshot : ℕ → KubeEngine → KubeSnapshot
  unfolding pod_to_snapshot node_to_snapshot deployment_to_snapshot pods_per_node
  snapshot now_ms e =
      let pods = map (pod_to_snapshot e.metrics now_ms) e.resources.pods in
      let scheduled = pods_per_node pods in
      record {
        cluster_kind = e.cluster_kind;
        server_version = e.server_version;
        current_namespace = scope_label e.scope;
        reachable = ltb 0 e.resources.last_update_ms;
        metrics_available = e.metrics.available;
        pods = pods;
        nodes =
            map (λ n. counted scheduled (node_to_snapshot strings e.metrics now_ms n))
              e.resources.nodes;
        deployments = map (deployment_to_snapshot now_ms) e.resources.deployments;
      }

-- An engine with the scope of the poll that is under way.
pub record Polling : Type 0 where
  pub engine : KubeEngine
  pub under_way : Option KubeScope

-- What the API server lists for a scope; `none` is a failure.
pub record Lists : Type 0 where
  pub pods : Option (List Pod)
  pub nodes : Option (List Node)
  pub deployments : Option (List Deployment)

pub data Event : Type 0 where
  poll_started toggled : Event
  poll_ended : (KubeScope → Lists) → (now_ms : ℕ) → Event
  metrics_polled : MetricsCache → Event

abbrev pub ended : Option KubeScope → (KubeScope → Lists) → ℕ → Polling → Polling
ended none lists now_ms s = s
ended (some scope) lists now_ms s =
    let got = lists scope in
    record {
      engine = write_lists got.pods got.nodes got.deployments now_ms s.engine;
      under_way = none;
    }

unfoldable pub step : Event → Polling → Polling
unfolding toggle_scope write_lists
step poll_started s = record s { under_way = some s.engine.scope }
step toggled s = record s { engine = toggle_scope s.engine }
step (poll_ended lists now_ms) s = ended s.under_way lists now_ms s
step (metrics_polled metrics) s = record s { engine = record s.engine { metrics = metrics } }

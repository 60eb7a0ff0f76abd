-- ===== src/Core/Kube/Convert.antt =====
-- Snapshots of the objects of the API server (crates/muxtop-core/src/kube_engine.rs).
use muxtop.Base.{
  ℕ, ◌+◌, ◌-◌, ◌/◌, ◌%◌, ◌^◌, min, Bool, true, false, ◌&&◌, ◌||◌, Option, none, some, List, [], ◌∷◌,
  ◌==◌, if◌then◌else◌, length, filter_by,
}
use muxtop.Base.Int.{ℤ, pos, negsuc}
use muxtop.Base.Texts.{codes, same_text}
use muxtop.Core.Process.{Text}
use muxtop.Core.Kube.{
  PodPhase, QosClass, NodeStatus, DeploymentStrategy, PodSnapshot, NodeSnapshot, DeploymentSnapshot,
}
use muxtop.Core.Kube.Quantities.{
  strip_prefix, parse, or_zero, parse_quantity_to_millis, parse_quantity_to_bytes,
}
use muxtop.Core.Kube.Objects.{ContainerStatus, Pod, NodeCondition, Node, Deployment, MetricsCache}

infixl 5 ◌>>=◌
abbrev pub ◌>>=◌ {ℓ κ} : {A : Type ℓ} {B : Type κ} → Option A → (A → Option B) → Option B
none >>= f = none
some a >>= f = f a

abbrev pub unwrap_or {ℓ} : {A : Type ℓ} → A → Option A → A
unwrap_or d none = d
unwrap_or d (some a) = a

abbrev pub map_or {ℓ κ} : {A : Type ℓ} {B : Type κ} → B → (A → B) → Option A → B
map_or d f none = d
map_or d f (some a) = f a

abbrev pub is_some {ℓ} : {A : Type ℓ} → Option A → Bool
is_some none = false
is_some (some a) = true

-- `n.max(0) as u32`
abbrev pub at_least_zero : ℤ → ℕ
at_least_zero (pos n) = n
at_least_zero (negsuc n) = 0

abbrev pub find {ℓ} : {A : Type ℓ} → Text → List (Text × A) → Option A
find k [] = none
find k ((j, a) ∷ m) = let rest = find k m in if same_text j k then some a else rest

abbrev pub any_status : (ContainerStatus → Bool) → List ContainerStatus → Bool
any_status p [] = false
any_status p (c ∷ cs) = p c || any_status p cs

abbrev pub crash_loops : ContainerStatus → Bool
crash_loops c =
    map_or false (same_text (codes "CrashLoopBackOff"))
      (c.state >>= λ waiting. waiting >>= λ reason. reason)

abbrev pub phase_named : Text → PodPhase
phase_named s =
    if same_text s (codes "Pending")
    then PodPhase.pending
    else if same_text s (codes "Running")
    then PodPhase.running
    else if same_text s (codes "Succeeded")
    then PodPhase.succeeded
    else if same_text s (codes "Failed")
    then PodPhase.failed
    else PodPhase.unknown

abbrev pub statuses_of : Pod → Option (List ContainerStatus)
statuses_of pod = pod.status >>= λ s. s.container_statuses

unfoldable pub pod_phase_synthetic : Pod → PodPhase
pod_phase_synthetic pod =
    if is_some pod.metadata.deletion_timestamp
    then PodPhase.terminating
    else if map_or false (any_status crash_loops) (statuses_of pod)
    then PodPhase.crash_loop
    else phase_named (unwrap_or [] (pod.status >>= λ s. s.phase))

abbrev pub up_to_u8 : ℕ → ℕ
up_to_u8 n = min n 255

unfoldable pub pod_ready_ratio : Pod → ℕ × ℕ
pod_ready_ratio pod =
    map_or (0, 0)
      (λ list. (up_to_u8 (length (filter_by (λ c. c.ready) list)), up_to_u8 (length list)))
      (statuses_of pod)

-- The sum of `u32`.
abbrev pub restarts_from : ℕ → List ContainerStatus → ℕ
restarts_from total [] = total
restarts_from total (c ∷ cs) = restarts_from ((total + at_least_zero c.restart_count) % 2 ^ 32) cs

unfoldable pub pod_restart_count : Pod → ℕ
pod_restart_count pod = map_or 0 (restarts_from 0) (statuses_of pod)

unfoldable pub pod_qos : Pod → QosClass
pod_qos pod =
    let s = unwrap_or [] (pod.status >>= λ s. s.qos_class) in
    if same_text s (codes "Guaranteed")
    then QosClass.guaranteed
    else if same_text s (codes "Burstable")
    then QosClass.burstable
    else QosClass.best_effort

abbrev pub age_since : ℕ → ℤ → ℕ
age_since now_ms (pos created_ms) = if created_ms == 0 then 0 else (now_ms - created_ms) / 1000
age_since now_ms (negsuc n) = 0

unfoldable pub creation_age_seconds : Option ℤ → ℕ → ℕ
creation_age_seconds creation now_ms = map_or 0 (age_since now_ms) creation

abbrev pub find_pod : Text → Text → List ((Text × Text) × (ℕ × ℕ)) → Option (ℕ × ℕ)
find_pod namespace name [] = none
find_pod namespace name (((ns, n), usage) ∷ m) =
    let rest = find_pod namespace name m in
    if same_text ns namespace && same_text n name then some usage else rest

unfoldable pub pod_to_snapshot : MetricsCache → ℕ → Pod → PodSnapshot
unfolding pod_phase_synthetic pod_ready_ratio pod_restart_count pod_qos creation_age_seconds
pod_to_snapshot metrics now_ms pod =
    let namespace = unwrap_or [] pod.metadata.namespace in
    let name = unwrap_or [] pod.metadata.name in
    let usage = find_pod namespace name metrics.pods in
    record {
      namespace = namespace;
      name = name;
      phase = pod_phase_synthetic pod;
      ready = pod_ready_ratio pod;
      restarts = pod_restart_count pod;
      age_seconds = creation_age_seconds pod.metadata.creation_timestamp now_ms;
      node = unwrap_or [] (pod.spec >>= λ s. s);
      cpu_millis = usage >>= λ u. some u.0;
      mem_bytes = usage >>= λ u. some u.1;
      qos = pod_qos pod;
    }

abbrev pub condition_status : Text → NodeStatus
condition_status s =
    if same_text s (codes "True")
    then NodeStatus.ready
    else if same_text s (codes "False")
    then NodeStatus.not_ready
    else NodeStatus.unknown

abbrev pub ready_condition : List NodeCondition → NodeStatus
ready_condition [] = NodeStatus.unknown
ready_condition (c ∷ cs) =
    let rest = ready_condition cs in
    if same_text c.type_ (codes "Ready") then condition_status c.status else rest

unfoldable pub node_status_synthetic : Node → NodeStatus
node_status_synthetic node =
    if unwrap_or false (node.spec >>= λ s. s)
    then NodeStatus.scheduling_disabled
    else map_or NodeStatus.unknown ready_condition (node.status >>= λ s. s.conditions)

abbrev pub role_of : Option Text → List Text → List Text
role_of none roles = roles
role_of (some []) roles = roles
role_of (some (c ∷ cs)) roles = (c ∷ cs) ∷ roles

abbrev pub roles_in : List Text → List Text
roles_in [] = []
roles_in (k ∷ ks) = role_of (strip_prefix (codes "node-role.kubernetes.io/") k) (roles_in ks)

-- What the standard library gives: the sort of strings, and `parse::<f64>`, times 1000 and rounded
-- to a `u32`.
pub record Strings : Type 0 where
  pub sort : List Text → List Text
  pub float_millis : Text → Option ℕ

module _ (strings : Strings) where
  open strings use {sort, float_millis}

  unfoldable pub node_roles : Node → List Text
  node_roles node = sort (map_or [] roles_in node.metadata.labels)

  abbrev pub cpu_in : Option (List (Text × Text)) → ℕ
  cpu_in caps = map_or 0 (parse_quantity_to_millis float_millis) (caps >>= find (codes "cpu"))

  abbrev pub memory_in : Option (List (Text × Text)) → ℕ
  memory_in caps = map_or 0 parse_quantity_to_bytes (caps >>= find (codes "memory"))

  abbrev pub pods_in : Option (List (Text × Text)) → ℕ
  pods_in caps = map_or 0 (λ q. or_zero (parse 32 q)) (caps >>= find (codes "pods"))

  unfoldable pub node_to_snapshot : MetricsCache → ℕ → Node → NodeSnapshot
  unfolding node_status_synthetic node_roles creation_age_seconds
  node_to_snapshot metrics now_ms node =
      let name = unwrap_or [] node.metadata.name in
      let capacity = node.status >>= λ s. s.capacity in
      let allocatable = node.status >>= λ s. s.allocatable in
      let usage = find name metrics.nodes in
      record {
        name = name;
        status = node_status_synthetic node;
        roles = node_roles node;
        age_seconds = creation_age_seconds node.metadata.creation_timestamp now_ms;
        kubelet_version = unwrap_or [] (node.status >>= λ s. s.node_info);
        cpu_capacity_millis = cpu_in capacity;
        cpu_allocatable_millis = cpu_in allocatable;
        cpu_used_millis = usage >>= λ u. some u.0;
        mem_capacity_bytes = memory_in capacity;
        mem_allocatable_bytes = memory_in allocatable;
        mem_used_bytes = usage >>= λ u. some u.1;
        pod_count = 0;
        pod_capacity = pods_in capacity;
      }

abbrev pub strategy_named : Text → DeploymentStrategy
strategy_named t =
    if same_text t (codes "Recreate")
    then DeploymentStrategy.recreate
    else DeploymentStrategy.rolling_update

abbrev pub replicas : Option ℤ → ℕ
replicas n = at_least_zero (unwrap_or (pos 0) n)

unfoldable pub deployment_to_snapshot : ℕ → Deployment → DeploymentSnapshot
unfolding creation_age_seconds
deployment_to_snapshot now_ms d = record {
  namespace = unwrap_or [] d.metadata.namespace;
  name = unwrap_or [] d.metadata.name;
  replicas_desired = replicas (d.spec >>= λ s. s.replicas);
  replicas_ready = map_or 0 (λ s. replicas s.ready_replicas) d.status;
  replicas_uptodate = map_or 0 (λ s. replicas s.updated_replicas) d.status;
  replicas_available = map_or 0 (λ s. replicas s.available_replicas) d.status;
  age_seconds = creation_age_seconds d.metadata.creation_timestamp now_ms;
  strategy =
      map_or DeploymentStrategy.rolling_update strategy_named
        (d.spec >>= λ s. s.strategy >>= λ t. t);
}

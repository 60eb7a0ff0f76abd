-- ===== src/Core/Kube/Examples.antt =====
-- Tests of the Kubernetes engine (crates/muxtop-core/src/kube_engine.rs).
use muxtop.Base.{ℕ, ◌≡◌, refl, true, false, Option, none, some, List, [], ◌∷◌, map, All, arith}
use muxtop.Base.Int.{pos}
use muxtop.Base.Texts.{codes}
use muxtop.Core.Std.{cmp_text}
use muxtop.Core.Std.Plain.{insertion_sort}
use muxtop.Core.Process.{Text}
use muxtop.Core.Kube.{ClusterKind, KubeSnapshot}
use muxtop.Core.Kube.Objects.{Metadata, Pod, Node, MetricsCache}
use muxtop.Core.Kube.Quantities.{
  parse, parse_quantity_to_bytes, parse_quantity_to_millis, parse_metrics_cpu_to_millis,
}
use muxtop.Core.Kube.Quantities.Digits.{value}
use muxtop.Core.Kube.Quantities.Suffixes.{Suffix, factor, amount, parse_quantity_to_bytes-text}
use muxtop.Core.Kube.Convert.{
  Strings, unwrap_or, find_pod, pod_to_snapshot, node_to_snapshot, pod_phase_synthetic,
}
use muxtop.Core.Kube.Metrics.{Usage, PodItem, Bodies, pods_from, tick_metrics}
use muxtop.Core.Kube.Metrics.Latest.{last_given, find_pod-tick_metrics}
use muxtop.Core.Kube.Engine.{
  KubeScope, all_namespaces, namespace, KubeEngine, Lists, Polling, poll_started, poll_ended,
  toggled, step, snapshot, pods_per_node, pods_per_node_from, toggle_scope, set_scope, write_lists,
}
use muxtop.Core.Kube.Engine.Counts.{occupants, snapshot-counts}
use muxtop.Core.Kube.Engine.Scope.{AreInScope, Reach, Obeys, Reach-AreInScope}

-- 16 gibibytes.
parse_quantity_to_bytes-text_example :
    parse_quantity_to_bytes (codes "16Gi") ≡ amount (value 0 (1 ∷ 6 ∷ [])) (factor Suffix.gibi)
parse_quantity_to_bytes-text_example =
    parse_quantity_to_bytes-text 1 (6 ∷ []) (omega arith, (omega arith, tt)) Suffix.gibi

-- A body with two items for `dev/web`, of which the last one counts.
abbrev usage : Text → Text → Usage
usage cpu memory = record { cpu = some cpu; memory = some memory }

abbrev item : List Usage → PodItem
item containers = record {
  namespace = some (codes "dev");
  name = some (codes "web");
  containers = some containers;
}

abbrev bodies : Bodies
bodies = record {
  pod_items = λ body. some (
      item (usage (codes "9m") (codes "1Ki") ∷ [])
      ∷ item (usage (codes "20m") (codes "2Ki") ∷ usage (codes "3000000n") (codes "1Mi") ∷ [])
      ∷ []);
  node_items = λ body. none;
  float_millis = λ s. none;
}

find_pod-tick_metrics_example :
    find_pod (codes "dev") (codes "web") (tick_metrics bodies (some []) none).pods
    ≡ last_given bodies (codes "dev") (codes "web") (unwrap_or [] (bodies.pod_items []))
find_pod-tick_metrics_example =
    find_pod-tick_metrics bodies (codes "dev") (codes "web") refl refl [] none

last_item :
    find_pod (codes "dev") (codes "web") (tick_metrics bodies (some []) none).pods
    ≡ some (23, 1050624)
unfolding tick_metrics pods_from parse_metrics_cpu_to_millis parse_quantity_to_millis
    parse_quantity_to_bytes parse
last_item = refl

-- The nanocores of 2^32 thousandths are none.
truncated : parse_metrics_cpu_to_millis (λ s. none) (codes "4294967296000000n") ≡ 0
unfolding parse_metrics_cpu_to_millis parse
truncated = refl

milli : parse_quantity_to_millis (λ s. none) (codes " 250m ") ≡ 250
unfolding parse_quantity_to_millis parse
milli = refl

abbrev named : Text → Option Text → Metadata
named name ns = record {
  name = some name;
  namespace = ns;
  creation_timestamp = some (pos 1000);
  deletion_timestamp = none;
  labels = some (codes "node-role.kubernetes.io/worker" ∷ codes "a" ∷ []);
}

abbrev pod : Text → Text → Text → Pod
pod ns name phase = record {
  metadata = named name (some ns);
  spec = some (some (codes "n1"));
  status = some (record {
    phase = some phase;
    qos_class = none;
    container_statuses = some (record { state = none; ready = true; restart_count = pos 2 } ∷ []);
  });
}

abbrev dev : Text
dev = codes "dev"

abbrev ops : Text
ops = codes "ops"

abbrev node_n1 : Node
node_n1 = record {
  metadata = named (codes "n1") none;
  spec = none;
  status = some (record {
    node_info = none;
    capacity = some ((codes "cpu", codes "4") ∷ (codes "memory", codes "8Gi") ∷ []);
    allocatable = none;
    conditions = some (record { type_ = codes "Ready"; status = codes "True" } ∷ []);
  });
}

abbrev pods_in_dev : List Pod
pods_in_dev =
    pod dev (codes "web") (codes "Running") ∷ pod dev (codes "job") (codes "Succeeded") ∷ []

abbrev no_metrics : MetricsCache
no_metrics = record { available = false; pods = []; nodes = [] }

abbrev strings : Strings
strings = record { sort = insertion_sort cmp_text; float_millis = λ s. none }

abbrev engine : KubeEngine
engine = record {
  cluster_kind = ClusterKind.kind;
  server_version = none;
  scoped_namespace = dev;
  scope = all_namespaces;
  resources = record { pods = []; nodes = []; deployments = []; last_update_ms = 0 };
  metrics = no_metrics;
}

abbrev idle : Polling
idle = record { engine = engine; under_way = none }

-- A cluster with the pods of `dev`, and in every other namespace one.
abbrev pods_of : KubeScope → List Pod
pods_of all_namespaces = pod ops (codes "db") (codes "Running") ∷ pods_in_dev
pods_of (namespace ns) = pod ns (codes "web") (codes "Running") ∷ []

abbrev server : ℕ → KubeScope → Lists
server now_ms scope = record {
  pods = some (pods_of scope);
  nodes = some (node_n1 ∷ []);
  deployments = none;
}

server-Obeys : (now_ms : ℕ) → Obeys (server now_ms)
server-Obeys now_ms all_namespaces = ((tt, (tt, (tt, tt))), tt)
server-Obeys now_ms (namespace ns) = ((refl, tt), tt)

-- A poll of every namespace, then a change to `dev`, then a poll of it.
abbrev polled : Polling
polled = step (poll_ended (server 9000) 9000) (step poll_started idle)

Reach-AreInScope_example :
    AreInScope
      (step (poll_ended (server 14000) 14000) (step poll_started (step toggled polled))).engine
unfolding step
Reach-AreInScope_example =
    Reach-AreInScope {server = server} {start = idle} server-Obeys tt (tt, tt)
      (Reach.poll_end 14000
        (Reach.poll_start (Reach.toggle refl (Reach.poll_end 9000 (Reach.poll_start Reach.here)))))

-- A poll of every namespace that ends after the change to `dev` writes a row of `ops`.
late_rows :
    (step
      (poll_ended (server 9000) 9000)
      (step toggled (step poll_started idle))).engine.resources.pods
    ≡ pod ops (codes "db") (codes "Running") ∷ pods_in_dev
unfolding step toggle_scope set_scope write_lists
late_rows = refl

-- One running pod of `ops` and one of `dev`, next to one that succeeded.
abbrev shown : KubeSnapshot
shown = snapshot strings 20000 polled.engine

snapshot-counts_example : All (λ n. n.pod_count ≡ occupants n.name shown.pods) shown.nodes
unfolding snapshot step write_lists
snapshot-counts_example = snapshot-counts strings 20000 polled.engine (omega arith)

two_pods : map (λ n. n.pod_count) shown.nodes ≡ 2 ∷ []
unfolding snapshot step write_lists pods_per_node pods_per_node_from node_to_snapshot
    pod_to_snapshot pod_phase_synthetic
two_pods = refl

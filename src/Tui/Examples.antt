-- ===== src/Tui/Examples.antt =====
-- Row orders, histories and the clipboard at concrete inputs (crates/muxtop-core/src/process.rs,
-- crates/muxtop-tui/src/ui/kube.rs, crates/muxtop-tui/src/app.rs,
-- crates/muxtop-tui/src/clipboard.rs).
use mathlib.Core.List.{Mem, Nodup}
use muxtop.Base.{ℕ, ◌≡◌, refl, ◌↔◌, true, false, none, List, [], ◌∷◌, arith}
use muxtop.Base.Texts.{codes}
use muxtop.Core.Process.{ProcessInfo}
use muxtop.Core.Process.Sort.{SortField, SortOrder, sort_processes}
use muxtop.Core.Std.Plain.{plain}
use muxtop.Core.Containers.{ContainerSnapshot, ContainersSnapshot, ContainerState, EngineKind}
use muxtop.Core.Kube.{KubeSnapshot, DeploymentSnapshot, ClusterKind, DeploymentStrategy}
use muxtop.Tui.Tabs.{KubeSubview}
use muxtop.Tui.Sorts.{KubeSortField}
use muxtop.Tui.KubeView.{compute_view_indices}
use muxtop.Tui.KubeView.Rows.{row_shown, compute_view_indices-rows}
use muxtop.Tui.Clipboard.{base64}
use muxtop.Tui.Clipboard.Decode.{decode, decode-base64}
use muxtop.Tui.App.History.{
  ContainerHistory, no_history, push_container_history, seen, container_cpu_history,
  container_rx_deltas,
}
use muxtop.Tui.App.History.Rings.{IsBounded, push_container_history-IsBounded}

abbrev proc : ℕ → ℕ → ProcessInfo ℕ
proc pid cpu = record {
  pid = pid;
  parent_pid = none;
  name = codes "p";
  command = [];
  user = codes "u";
  cpu_percent = cpu;
  memory_bytes = 0;
  memory_percent = 0;
  status = codes "Running";
}

abbrev procs : List (ProcessInfo ℕ)
procs = proc 1 5 ∷ proc 2 9 ∷ proc 3 7 ∷ []

busiest_first :
    sort_processes plain procs SortField.cpu SortOrder.desc ≡ proc 2 9 ∷ proc 3 7 ∷ proc 1 5 ∷ []
unfolding sort_processes
busiest_first = refl

abbrev deployment : ℕ → ℕ → DeploymentSnapshot
deployment desired ready = record {
  namespace = codes "default";
  name = codes "web";
  replicas_desired = desired;
  replicas_ready = ready;
  replicas_uptodate = 0;
  replicas_available = 0;
  age_seconds = 0;
  strategy = DeploymentStrategy.recreate;
}

abbrev cluster : KubeSnapshot
cluster = record {
  cluster_kind = ClusterKind.generic;
  server_version = none;
  current_namespace = codes "default";
  reachable = true;
  metrics_available = false;
  pods = [];
  nodes = [];
  deployments = deployment 3 3 ∷ deployment 4 1 ∷ [];
}

abbrev web_view : List ℕ
web_view =
    compute_view_indices plain cluster KubeSubview.deployments (codes "WEB")
      KubeSortField.deploy_ready_ratio SortOrder.asc

compute_view_indices-rows_example :
    Nodup web_view
    × ((i : ℕ)
        → Mem i web_view ↔ (row_shown plain cluster KubeSubview.deployments (codes "WEB") i ≡ true))
compute_view_indices-rows_example =
    compute_view_indices-rows plain cluster KubeSubview.deployments (codes "WEB")
      KubeSortField.deploy_ready_ratio SortOrder.asc

decode-base64_example : decode (base64 (77 ∷ 255 ∷ [])) ≡ 77 ∷ 255 ∷ []
decode-base64_example = decode-base64 (77 ∷ 255 ∷ []) (omega arith, (omega arith, tt))

abbrev container : ContainerSnapshot ℕ
container = record {
  id = codes "c1";
  id_full = codes "c1c1";
  name = codes "web";
  image = codes "nginx";
  state = ContainerState.running;
  status_text = [];
  cpu_pct = 3;
  mem_used_bytes = 0;
  mem_limit_bytes = 0;
  net_rx_bytes = 10;
  net_tx_bytes = 0;
  block_read_bytes = 0;
  block_write_bytes = 0;
  started_at_ms = 0;
}

abbrev one_container : ContainersSnapshot ℕ
one_container = record { engine = EngineKind.docker; daemon_up = true; containers = container ∷ [] }

abbrev empty_history : ContainerHistory ℕ
empty_history = no_history

empty_history-IsBounded : IsBounded empty_history
unfolding IsBounded
empty_history-IsBounded = (λ k. omega arith, λ k. omega arith)

push_container_history-IsBounded_example :
    IsBounded (push_container_history one_container empty_history)
    × ((k : List ℕ)
        → seen one_container.containers k ≡ false
        → (container_cpu_history k (push_container_history one_container empty_history) ≡ [])
          × (container_rx_deltas k (push_container_history one_container empty_history) ≡ []))
push_container_history-IsBounded_example =
    push_container_history-IsBounded one_container empty_history empty_history-IsBounded

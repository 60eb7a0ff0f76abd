-- ===== src/Tui/KubeView.antt =====
-- The rows of the Kubernetes tab, filtered and sorted (crates/muxtop-tui/src/ui/kube.rs).
--
-- A row index is looked up where the source indexes a vector; `Tui/KubeView/Rows.antt` is about
-- the range of the indices.
pub mod Rows
use Prim.Native.Nat.{compare, Ordering}
use mathlib.Core.List.{reverse}
use muxtop.Base.{
  ℕ, zero, suc, Bool, ◌||◌, Option, none, some, List, [], ◌∷◌, get_elem?, ◌==◌, if◌then◌else◌,
}
use muxtop.Core.Process.{Text}
use muxtop.Core.Process.Search.{contains_ignore_case}
use muxtop.Core.Process.Sort.{SortOrder}
use muxtop.Core.Std.{Std, then_with, or_equal, cmp_text}
use muxtop.Core.Kube.{PodPhase, PodSnapshot, NodeSnapshot, DeploymentSnapshot, KubeSnapshot}
use muxtop.Tui.Tabs.{KubeSubview}
use muxtop.Tui.Sorts.{KubeSortField}

unfoldable pub phase_rank : PodPhase → ℕ
phase_rank PodPhase.crash_loop = 0
phase_rank PodPhase.failed = 1
phase_rank PodPhase.unknown = 2
phase_rank PodPhase.pending = 3
phase_rank PodPhase.terminating = 4
phase_rank PodPhase.running = 5
phase_rank PodPhase.succeeded = 6

abbrev unwrap_or_zero : Option ℕ → ℕ
unwrap_or_zero none = 0
unwrap_or_zero (some n) = n

-- `(0..rows.len()).filter(...)`, with `i` the index of the first row.
unfoldable pub indices_from : {A : Type 0} → (A → Bool) → ℕ → List A → List ℕ
indices_from test i [] = []
indices_from test i (row ∷ rows) =
    let rest = indices_from test (suc i) rows in if test row then i ∷ rest else rest

abbrev compare_both : {A : Type 0} → (A → A → Ordering) → Option A → Option A → Ordering
compare_both cmp (some a) (some b) = cmp a b
compare_both cmp (some a) none = Ordering.eq
compare_both cmp none b = Ordering.eq

-- The comparison of two indices by the rows they stand for.
abbrev compare_rows : {A : Type 0} → List A → (A → A → Ordering) → ℕ → ℕ → Ordering
compare_rows rows cmp a b = compare_both cmp (get_elem? rows a) (get_elem? rows b)

-- The order is turned if it is ascending: the keys sort descending by nature.
abbrev pub turned : SortOrder → List ℕ → List ℕ
turned SortOrder.asc idx = reverse idx
turned SortOrder.desc idx = idx

module _ (std : Std) where
  open std use {partial_cmp_f64, one_f64, from_u32, div_f64, sort_by, lowercase, F64}

  unfoldable pub compare_pods : KubeSortField → PodSnapshot → PodSnapshot → Ordering
  unfolding phase_rank
  compare_pods KubeSortField.pod_name a b =
      then_with (cmp_text a.namespace b.namespace) (cmp_text a.name b.name)
  compare_pods KubeSortField.pod_phase a b = compare (phase_rank a.phase) (phase_rank b.phase)
  compare_pods KubeSortField.pod_restarts a b = compare b.restarts a.restarts
  compare_pods KubeSortField.pod_mem a b =
      compare (unwrap_or_zero b.mem_bytes) (unwrap_or_zero a.mem_bytes)
  compare_pods KubeSortField.pod_age a b = compare b.age_seconds a.age_seconds
  compare_pods field a b = compare (unwrap_or_zero b.cpu_millis) (unwrap_or_zero a.cpu_millis)

  unfoldable pub compare_nodes : KubeSortField → NodeSnapshot → NodeSnapshot → Ordering
  compare_nodes KubeSortField.node_name a b = cmp_text a.name b.name
  compare_nodes KubeSortField.node_mem_pct a b =
      compare (unwrap_or_zero b.mem_used_bytes) (unwrap_or_zero a.mem_used_bytes)
  compare_nodes KubeSortField.node_pod_count a b = compare b.pod_count a.pod_count
  compare_nodes KubeSortField.node_age a b = compare b.age_seconds a.age_seconds
  compare_nodes field a b =
      compare (unwrap_or_zero b.cpu_used_millis) (unwrap_or_zero a.cpu_used_millis)

  unfoldable pub ratio : DeploymentSnapshot → F64
  ratio d =
      if d.replicas_desired == 0
      then one_f64
      else div_f64 (from_u32 d.replicas_ready) (from_u32 d.replicas_desired)

  unfoldable pub compare_deployments :
      KubeSortField → DeploymentSnapshot → DeploymentSnapshot → Ordering
  unfolding ratio
  compare_deployments KubeSortField.deploy_namespace a b =
      then_with (cmp_text a.namespace b.namespace) (cmp_text a.name b.name)
  compare_deployments KubeSortField.deploy_ready_ratio a b =
      or_equal (partial_cmp_f64 (ratio a) (ratio b))
  compare_deployments KubeSortField.deploy_age a b = compare b.age_seconds a.age_seconds
  compare_deployments field a b = cmp_text a.name b.name

  unfoldable pub sort_pods : List ℕ → List PodSnapshot → KubeSortField → SortOrder → List ℕ
  unfolding compare_pods
  sort_pods idx pods field order =
      turned order (sort_by ℕ (compare_rows pods (compare_pods field)) idx)

  unfoldable pub sort_nodes : List ℕ → List NodeSnapshot → KubeSortField → SortOrder → List ℕ
  unfolding compare_nodes
  sort_nodes idx nodes field order =
      turned order (sort_by ℕ (compare_rows nodes (compare_nodes field)) idx)

  unfoldable pub sort_deployments :
      List ℕ → List DeploymentSnapshot → KubeSortField → SortOrder → List ℕ
  unfolding compare_deployments
  sort_deployments idx deploys field order =
      turned order (sort_by ℕ (compare_rows deploys (compare_deployments field)) idx)

  abbrev pub pod_matches : Text → PodSnapshot → Bool
  pod_matches needle p =
      contains_ignore_case lowercase p.name needle
      || contains_ignore_case lowercase p.namespace needle

  abbrev pub node_matches : Text → NodeSnapshot → Bool
  node_matches needle n = contains_ignore_case lowercase n.name needle

  abbrev pub deployment_matches : Text → DeploymentSnapshot → Bool
  deployment_matches needle d =
      contains_ignore_case lowercase d.name needle
      || contains_ignore_case lowercase d.namespace needle

  unfoldable pub compute_view_indices :
      KubeSnapshot → KubeSubview → Text → KubeSortField → SortOrder → List ℕ
  unfolding sort_pods sort_nodes sort_deployments indices_from
  compute_view_indices snap KubeSubview.pods filter field order =
      sort_pods (indices_from (pod_matches (lowercase.lower filter)) 0 snap.pods) snap.pods field
        order
  compute_view_indices snap KubeSubview.nodes filter field order =
      sort_nodes (indices_from (node_matches (lowercase.lower filter)) 0 snap.nodes) snap.nodes
        field order
  compute_view_indices snap KubeSubview.deployments filter field order =
      sort_deployments
        (indices_from (deployment_matches (lowercase.lower filter)) 0 snap.deployments)
        snap.deployments field order

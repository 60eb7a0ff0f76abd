-- ===== src/Core/Kube/Engine/Counts.antt =====
-- Pods are counted on their nodes (crates/muxtop-core/src/kube_engine.rs).
use muxtop.Base.{
  ℕ, ◌+◌, ◌^◌, ◌<◌, ◌≤◌, ◌≡◌, refl, ◌∙◌, Bool, true, false, not, ◌&&◌, ◌||◌, Bool-cases, inl, inr,
  List, [], ◌∷◌, map, length, if◌then◌else◌, All, arith,
}
use muxtop.Base.Texts.{same_text}
use muxtop.Base.Keys.{alike-agree, not_both, same_text-Decides}
use muxtop.Core.Process.{Text}
use muxtop.Core.Kube.{PodPhase, PodSnapshot, NodeSnapshot}
use muxtop.Core.Kube.Objects.{Node}
use muxtop.Core.Kube.Convert.{Strings, find, unwrap_or, pod_to_snapshot, node_to_snapshot}
use muxtop.Core.Kube.Engine.{
  KubeEngine, count_up, is_finished, is_blank, pods_per_node_from, pods_per_node, counted, snapshot,
}

-- The phases in which a pod holds resources of its node.
abbrev pub is_live : PodPhase → Bool
is_live PodPhase.pending = true
is_live PodPhase.running = true
is_live PodPhase.crash_loop = true
is_live PodPhase.terminating = true
is_live PodPhase.unknown = true
is_live PodPhase.succeeded = false
is_live PodPhase.failed = false

-- The pod is scheduled on the node and live.
abbrev pub occupies : Text → PodSnapshot → Bool
occupies node pod = not (is_blank pod.node) && is_live pod.phase && same_text pod.node node

abbrev pub occupants : Text → List PodSnapshot → ℕ
occupants node [] = 0
occupants node (pod ∷ pods) = (if occupies node pod then 1 else 0) + occupants node pods

abbrev at : Text → List (Text × ℕ) → ℕ
at node m = unwrap_or 0 (find node m)

-- One more where the name is the same.
at-count_up :
    (node n : Text) (m : List (Text × ℕ))
    → at node m + 1 < 2 ^ 32
    → at node (count_up n m) ≡ at node m + (if same_text n node then 1 else 0)
at-count_up node n [] b = elim (Bool-cases (same_text n node)) [
  | inl e ↦ rw e refl
  | inr e ↦ rw e refl
]
at-count_up node n ((j, k) ∷ m) b = elim (Bool-cases (same_text j n)) [
  | inl e ↦ rw e (elim (Bool-cases (same_text n node)) [
    | inl t ↦
        let same : same_text j node ≡ true =
          alike-agree same_text same_text-Decides j n node e ∙ t in
        let room : k + 1 < 2 ^ 32 = rw same at b in rw (same, t) (omega arith)
    | inr f ↦ rw (alike-agree same_text same_text-Decides j n node e ∙ f, f) (omega arith)
  ])
  | inr d ↦ rw d (elim (Bool-cases (same_text j node)) [
    | inl t ↦ rw (t, not_both same_text same_text-Decides j n node d t) (omega arith)
    | inr f ↦ rw f (at-count_up node n m (rw f at b))
  ])
]

live_or_finished : (phase : PodPhase) → is_live phase ≡ not (is_finished phase)
live_or_finished PodPhase.pending = refl
live_or_finished PodPhase.running = refl
live_or_finished PodPhase.crash_loop = refl
live_or_finished PodPhase.terminating = refl
live_or_finished PodPhase.unknown = refl
live_or_finished PodPhase.succeeded = refl
live_or_finished PodPhase.failed = refl

-- One turn of the loop.
at-counted :
    (node : Text) (pod : PodSnapshot) (m : List (Text × ℕ))
    → at node m + 1 < 2 ^ 32
    → at node (if is_blank pod.node || is_finished pod.phase then m else count_up pod.node m)
      ≡ at node m + (if occupies node pod then 1 else 0)
at-counted node pod m b = rw (live_or_finished pod.phase) (elim (Bool-cases (is_blank pod.node)) [
  | inl e ↦ rw e (omega arith)
  | inr f ↦ rw f (elim (Bool-cases (is_finished pod.phase)) [
    | inl e ↦ rw e (omega arith)
    | inr g ↦ rw g (at-count_up node pod.node m b)
  ])
])

at-pods_per_node_from :
    (node : Text) (pods : List PodSnapshot) (m : List (Text × ℕ))
    → at node m + length pods < 2 ^ 32
    → at node (pods_per_node_from m pods) ≡ at node m + occupants node pods
unfolding pods_per_node_from
at-pods_per_node_from node [] m b = omega arith
at-pods_per_node_from node (pod ∷ pods) m b =
    let more = at-counted node pod m (omega arith) in
    let ones : (if occupies node pod then 1 else 0) ≤ 1 = ground arith in
    at-pods_per_node_from node pods
      (if is_blank pod.node || is_finished pod.phase then m else count_up pod.node m)
      (omega (arith, more, ones, b))
    ∙ omega (arith, more)

counted_name :
    (pods : List PodSnapshot)
    → length pods < 2 ^ 32
    → (node : NodeSnapshot)
    → (counted (pods_per_node pods) node).pod_count ≡ occupants node.name pods
unfolding pods_per_node
counted_name pods b node = at-pods_per_node_from node.name pods [] (omega (arith, b)) ∙ omega arith

All-counted :
    (pods : List PodSnapshot) (f : Node → NodeSnapshot) (nodes : List Node)
    → length pods < 2 ^ 32
    → All
        (λ n. n.pod_count ≡ occupants n.name pods)
        (map (λ n. counted (pods_per_node pods) (f n)) nodes)
All-counted pods f [] b = tt
All-counted pods f (n ∷ nodes) b = (counted_name pods b (f n), All-counted pods f nodes b)

-- In a snapshot of fewer than 2^32 pods, each node's `pod_count` is the number of the snapshot's
-- pods that are scheduled on it and are neither succeeded nor failed.
pub snapshot-counts :
    (strings : Strings) (now_ms : ℕ) (e : KubeEngine)
    → length (snapshot strings now_ms e).pods < 2 ^ 32
    → All
        (λ n. n.pod_count ≡ occupants n.name (snapshot strings now_ms e).pods)
        (snapshot strings now_ms e).nodes
unfolding snapshot
snapshot-counts strings now_ms e b =
    All-counted (map (pod_to_snapshot e.metrics now_ms) e.resources.pods)
      (node_to_snapshot strings e.metrics now_ms) e.resources.nodes b

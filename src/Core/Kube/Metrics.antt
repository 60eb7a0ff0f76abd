-- ===== src/Core/Kube/Metrics.antt =====
-- The poll of the metrics (`tick_metrics` of crates/muxtop-core/src/kube_engine.rs). The reading of
-- JSON and of floats is a parameter.
pub mod Latest
use muxtop.Base.{
  ℕ, ◌+◌, ◌-◌, ◌^◌, min, Bool, true, false, ◌&&◌, ◌||◌, Option, none, some, List, [], ◌∷◌, map,
  if◌then◌else◌,
}
use muxtop.Base.Texts.{same_text}
use muxtop.Core.Process.{Text}
use muxtop.Core.Kube.Objects.{MetricsCache}
use muxtop.Core.Kube.Convert.{◌>>=◌, unwrap_or, map_or}
use muxtop.Core.Kube.Engine.{is_blank}
use muxtop.Core.Kube.Quantities.{parse_quantity_to_bytes, parse_metrics_cpu_to_millis}

-- `usage.cpu` and `usage.memory`, where they are strings.
pub record Usage : Type 0 where
  pub cpu : Option Text
  pub memory : Option Text

pub record PodItem : Type 0 where
  pub namespace : Option Text
  pub name : Option Text
  pub containers : Option (List Usage)

pub record NodeItem : Type 0 where
  pub name : Option Text
  pub usage : Usage

-- The `items` of a body, `none` where it is no JSON or has no such array, and `parse::<f64>`,
-- times 1000 and rounded.
pub record Bodies : Type 0 where
  pub pod_items : Text → Option (List PodItem)
  pub node_items : Text → Option (List NodeItem)
  pub float_millis : Text → Option ℕ

abbrev pub saturating_add : ℕ → ℕ → ℕ → ℕ
saturating_add width a b = min (a + b) (2 ^ width - 1)

-- The totals of a pod.
abbrev pub total_from : (width : ℕ) (amount : Text → ℕ) → ℕ → List (Option Text) → ℕ
total_from width amount total [] = total
total_from width amount total (none ∷ rest) = total_from width amount total rest
total_from width amount total (some t ∷ rest) =
    total_from width amount (saturating_add width total (amount t)) rest

-- `HashMap::insert`.
abbrev pub insert {ℓ κ} :
    {K : Type ℓ} {V : Type κ} → (K → K → Bool) → K → V → List (K × V) → List (K × V)
insert same k v [] = (k, v) ∷ []
insert same k v ((j, w) ∷ m) =
    let rest = insert same k v m in if same j k then (j, v) ∷ m else (j, w) ∷ rest

abbrev pub same_pod : Text × Text → Text × Text → Bool
same_pod (ns, name) (other_ns, other_name) = same_text ns other_ns && same_text name other_name

module _ (bodies : Bodies) where
  open bodies use {pod_items, node_items, float_millis}

  abbrev pub pod_usage : PodItem → ℕ × ℕ
  pod_usage item =
      let containers = unwrap_or [] item.containers in
      (
        total_from 32 (parse_metrics_cpu_to_millis float_millis) 0 (map (λ c. c.cpu) containers),
        total_from 64 parse_quantity_to_bytes 0 (map (λ c. c.memory) containers),
      )

  abbrev pub with_pod : PodItem → List ((Text × Text) × (ℕ × ℕ)) → List ((Text × Text) × (ℕ × ℕ))
  with_pod item m =
      let ns = unwrap_or [] item.namespace in
      let name = unwrap_or [] item.name in
      if is_blank ns || is_blank name then m else insert same_pod (ns, name) (pod_usage item) m

  unfoldable pub pods_from :
      List ((Text × Text) × (ℕ × ℕ)) → List PodItem → List ((Text × Text) × (ℕ × ℕ))
  pods_from m [] = m
  pods_from m (item ∷ items) = pods_from (with_pod item m) items

  abbrev pub node_usage : NodeItem → ℕ × ℕ
  node_usage item = (
    map_or 0 (parse_metrics_cpu_to_millis float_millis) item.usage.cpu,
    map_or 0 parse_quantity_to_bytes item.usage.memory,
  )

  abbrev pub with_node : NodeItem → List (Text × (ℕ × ℕ)) → List (Text × (ℕ × ℕ))
  with_node item m =
      let name = unwrap_or [] item.name in
      if is_blank name then m else insert same_text name (node_usage item) m

  unfoldable pub nodes_from : List (Text × (ℕ × ℕ)) → List NodeItem → List (Text × (ℕ × ℕ))
  nodes_from m [] = m
  nodes_from m (item ∷ items) = nodes_from (with_node item m) items

  abbrev pub measured : Option Text → Option Text → MetricsCache
  measured pod_body node_body = record {
    available = true;
    pods = pods_from [] (unwrap_or [] (pod_body >>= pod_items));
    nodes = nodes_from [] (unwrap_or [] (node_body >>= node_items));
  }

  -- What the cache holds then: nothing where neither request was answered.
  unfoldable pub tick_metrics : Option Text → Option Text → MetricsCache
  unfolding pods_from nodes_from
  tick_metrics none none = record { available = false; pods = []; nodes = [] }
  tick_metrics none (some node_body) = measured none (some node_body)
  tick_metrics (some pod_body) node_body = measured (some pod_body) node_body

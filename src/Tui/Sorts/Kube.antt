-- ===== src/Tui/Sorts/Kube.antt =====
-- Where the sort key of the Kubernetes tab of crates/muxtop-tui/src/app.rs leads.
use muxtop.Base.{ℕ, suc, ◌≤◌, ◌≡◌, subst, ◌⊎◌, inl, inr, refl, ◌∙◌, ap, arith}
use muxtop.Tui.Tabs.{KubeSubview}
use muxtop.Tui.Sorts.{KubeSortField, kube_default_for, next_kube_sort_field}
use muxtop.Tui.Sorts.Cycles.{iterate, IsOnCycle, reaches}

-- The sub-view that a field belongs to.
abbrev pub kube_subview_of : KubeSortField → KubeSubview
kube_subview_of KubeSortField.pod_cpu = KubeSubview.pods
kube_subview_of KubeSortField.pod_mem = KubeSubview.pods
kube_subview_of KubeSortField.pod_name = KubeSubview.pods
kube_subview_of KubeSortField.pod_restarts = KubeSubview.pods
kube_subview_of KubeSortField.pod_age = KubeSubview.pods
kube_subview_of KubeSortField.pod_phase = KubeSubview.pods
kube_subview_of KubeSortField.node_cpu_pct = KubeSubview.nodes
kube_subview_of KubeSortField.node_mem_pct = KubeSubview.nodes
kube_subview_of KubeSortField.node_name = KubeSubview.nodes
kube_subview_of KubeSortField.node_pod_count = KubeSubview.nodes
kube_subview_of KubeSortField.node_age = KubeSubview.nodes
kube_subview_of KubeSortField.deploy_name = KubeSubview.deployments
kube_subview_of KubeSortField.deploy_ready_ratio = KubeSubview.deployments
kube_subview_of KubeSortField.deploy_namespace = KubeSubview.deployments
kube_subview_of KubeSortField.deploy_age = KubeSubview.deployments

abbrev pub kube_field_count : KubeSubview → ℕ
kube_field_count KubeSubview.pods = 6
kube_field_count KubeSubview.nodes = 5
kube_field_count KubeSubview.deployments = 4

abbrev kube_rank : KubeSortField → ℕ
kube_rank KubeSortField.pod_cpu = 0
kube_rank KubeSortField.pod_mem = 1
kube_rank KubeSortField.pod_name = 2
kube_rank KubeSortField.pod_restarts = 3
kube_rank KubeSortField.pod_age = 4
kube_rank KubeSortField.pod_phase = 5
kube_rank KubeSortField.node_cpu_pct = 0
kube_rank KubeSortField.node_mem_pct = 1
kube_rank KubeSortField.node_name = 2
kube_rank KubeSortField.node_pod_count = 3
kube_rank KubeSortField.node_age = 4
kube_rank KubeSortField.deploy_name = 0
kube_rank KubeSortField.deploy_ready_ratio = 1
kube_rank KubeSortField.deploy_namespace = 2
kube_rank KubeSortField.deploy_age = 3

abbrev kube_next : KubeSubview → KubeSortField → KubeSortField
kube_next sv f = next_kube_sort_field f sv

next_kube_sort_field-IsOnCycle :
    (f : KubeSortField)
    → IsOnCycle
        (kube_next (kube_subview_of f))
        (kube_default_for (kube_subview_of f))
        (kube_field_count (kube_subview_of f))
        (kube_rank f)
        f
unfolding next_kube_sort_field kube_default_for
next_kube_sort_field-IsOnCycle KubeSortField.pod_cpu = record {
  inside = omega arith;
  from_start = refl;
  to_start = refl;
}
next_kube_sort_field-IsOnCycle KubeSortField.pod_mem = record {
  inside = omega arith;
  from_start = refl;
  to_start = refl;
}
next_kube_sort_field-IsOnCycle KubeSortField.pod_name = record {
  inside = omega arith;
  from_start = refl;
  to_start = refl;
}
next_kube_sort_field-IsOnCycle KubeSortField.pod_restarts = record {
  inside = omega arith;
  from_start = refl;
  to_start = refl;
}
next_kube_sort_field-IsOnCycle KubeSortField.pod_age = record {
  inside = omega arith;
  from_start = refl;
  to_start = refl;
}
next_kube_sort_field-IsOnCycle KubeSortField.pod_phase = record {
  inside = omega arith;
  from_start = refl;
  to_start = refl;
}
next_kube_sort_field-IsOnCycle KubeSortField.node_cpu_pct = record {
  inside = omega arith;
  from_start = refl;
  to_start = refl;
}
next_kube_sort_field-IsOnCycle KubeSortField.node_mem_pct = record {
  inside = omega arith;
  from_start = refl;
  to_start = refl;
}
next_kube_sort_field-IsOnCycle KubeSortField.node_name = record {
  inside = omega arith;
  from_start = refl;
  to_start = refl;
}
next_kube_sort_field-IsOnCycle KubeSortField.node_pod_count = record {
  inside = omega arith;
  from_start = refl;
  to_start = refl;
}
next_kube_sort_field-IsOnCycle KubeSortField.node_age = record {
  inside = omega arith;
  from_start = refl;
  to_start = refl;
}
next_kube_sort_field-IsOnCycle KubeSortField.deploy_name = record {
  inside = omega arith;
  from_start = refl;
  to_start = refl;
}
next_kube_sort_field-IsOnCycle KubeSortField.deploy_ready_ratio = record {
  inside = omega arith;
  from_start = refl;
  to_start = refl;
}
next_kube_sort_field-IsOnCycle KubeSortField.deploy_namespace = record {
  inside = omega arith;
  from_start = refl;
  to_start = refl;
}
next_kube_sort_field-IsOnCycle KubeSortField.deploy_age = record {
  inside = omega arith;
  from_start = refl;
  to_start = refl;
}

-- One press of the key leaves a field of another sub-view for the default of the active one.
kube_recovers :
    (f : KubeSortField) (sv : KubeSubview)
    → (kube_subview_of f ≡ sv) ⊎ (next_kube_sort_field f sv ≡ kube_default_for sv)
unfolding next_kube_sort_field
kube_recovers KubeSortField.pod_cpu KubeSubview.pods = inl refl
kube_recovers KubeSortField.pod_cpu KubeSubview.nodes = inr refl
kube_recovers KubeSortField.pod_cpu KubeSubview.deployments = inr refl
kube_recovers KubeSortField.pod_mem KubeSubview.pods = inl refl
kube_recovers KubeSortField.pod_mem KubeSubview.nodes = inr refl
kube_recovers KubeSortField.pod_mem KubeSubview.deployments = inr refl
kube_recovers KubeSortField.pod_name KubeSubview.pods = inl refl
kube_recovers KubeSortField.pod_name KubeSubview.nodes = inr refl
kube_recovers KubeSortField.pod_name KubeSubview.deployments = inr refl
kube_recovers KubeSortField.pod_restarts KubeSubview.pods = inl refl
kube_recovers KubeSortField.pod_restarts KubeSubview.nodes = inr refl
kube_recovers KubeSortField.pod_restarts KubeSubview.deployments = inr refl
kube_recovers KubeSortField.pod_age KubeSubview.pods = inl refl
kube_recovers KubeSortField.pod_age KubeSubview.nodes = inr refl
kube_recovers KubeSortField.pod_age KubeSubview.deployments = inr refl
kube_recovers KubeSortField.pod_phase KubeSubview.pods = inl refl
kube_recovers KubeSortField.pod_phase KubeSubview.nodes = inr refl
kube_recovers KubeSortField.pod_phase KubeSubview.deployments = inr refl
kube_recovers KubeSortField.node_cpu_pct KubeSubview.pods = inr refl
kube_recovers KubeSortField.node_cpu_pct KubeSubview.nodes = inl refl
kube_recovers KubeSortField.node_cpu_pct KubeSubview.deployments = inr refl
kube_recovers KubeSortField.node_mem_pct KubeSubview.pods = inr refl
kube_recovers KubeSortField.node_mem_pct KubeSubview.nodes = inl refl
kube_recovers KubeSortField.node_mem_pct KubeSubview.deployments = inr refl
kube_recovers KubeSortField.node_name KubeSubview.pods = inr refl
kube_recovers KubeSortField.node_name KubeSubview.nodes = inl refl
kube_recovers KubeSortField.node_name KubeSubview.deployments = inr refl
kube_recovers KubeSortField.node_pod_count KubeSubview.pods = inr refl
kube_recovers KubeSortField.node_pod_count KubeSubview.nodes = inl refl
kube_recovers KubeSortField.node_pod_count KubeSubview.deployments = inr refl
kube_recovers KubeSortField.node_age KubeSubview.pods = inr refl
kube_recovers KubeSortField.node_age KubeSubview.nodes = inl refl
kube_recovers KubeSortField.node_age KubeSubview.deployments = inr refl
kube_recovers KubeSortField.deploy_name KubeSubview.pods = inr refl
kube_recovers KubeSortField.deploy_name KubeSubview.nodes = inr refl
kube_recovers KubeSortField.deploy_name KubeSubview.deployments = inl refl
kube_recovers KubeSortField.deploy_ready_ratio KubeSubview.pods = inr refl
kube_recovers KubeSortField.deploy_ready_ratio KubeSubview.nodes = inr refl
kube_recovers KubeSortField.deploy_ready_ratio KubeSubview.deployments = inl refl
kube_recovers KubeSortField.deploy_namespace KubeSubview.pods = inr refl
kube_recovers KubeSortField.deploy_namespace KubeSubview.nodes = inr refl
kube_recovers KubeSortField.deploy_namespace KubeSubview.deployments = inl refl
kube_recovers KubeSortField.deploy_age KubeSubview.pods = inr refl
kube_recovers KubeSortField.deploy_age KubeSubview.nodes = inr refl
kube_recovers KubeSortField.deploy_age KubeSubview.deployments = inl refl

kube_default-reaches :
    (g : KubeSortField)
    → iterate (kube_rank g) (kube_next (kube_subview_of g)) (kube_default_for (kube_subview_of g))
      ≡ g
kube_default-reaches g = (next_kube_sort_field-IsOnCycle g).from_start

-- Whatever the field, also one that another sub-view left behind, the sort key leads to any field
-- of the active sub-view in at most as many presses as the sub-view has fields.
pub next_kube_sort_field-reaches :
    (sv : KubeSubview) (f g : KubeSortField)
    → kube_subview_of g ≡ sv
    → (k : ℕ) × (k ≤ kube_field_count sv) × (iterate k (λ x. next_kube_sort_field x sv) f ≡ g)
next_kube_sort_field-reaches sv f g h =
    subst
      (λ v. (k : ℕ) × (k ≤ kube_field_count v) × (iterate k (λ x. next_kube_sort_field x v) f ≡ g))
      h
      (elim (kube_recovers f (kube_subview_of g)) [
        | inl same ↦
            let (k, few, leads) =
              reaches (kube_next (kube_subview_of g)) (kube_default_for (kube_subview_of g))
                (kube_field_count (kube_subview_of g)) (kube_rank f) (kube_rank g) f g
                (subst
                  (λ v.
                    IsOnCycle (kube_next v) (kube_default_for v) (kube_field_count v) (kube_rank f)
                      f)
                  same (next_kube_sort_field-IsOnCycle f))
                (next_kube_sort_field-IsOnCycle g) in
            (k, omega arith, leads)
        | inr other ↦
            let few = (next_kube_sort_field-IsOnCycle g).inside in
            (
              suc (kube_rank g),
              omega arith,
              ap (iterate (kube_rank g) (kube_next (kube_subview_of g))) other
                  ∙ kube_default-reaches g,
            )
      ])

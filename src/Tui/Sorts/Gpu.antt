-- ===== src/Tui/Sorts/Gpu.antt =====
-- Where the sort key of the GPU tab of crates/muxtop-tui/src/app.rs leads.
use muxtop.Base.{ℕ, suc, ◌≤◌, ◌≡◌, subst, ◌⊎◌, inl, inr, refl, ◌∙◌, ap, arith}
use muxtop.Tui.Tabs.{GpuSubview}
use muxtop.Tui.Sorts.{GpuSortField, gpu_default_for, next_gpu_sort_field}
use muxtop.Tui.Sorts.Cycles.{iterate, IsOnCycle, reaches}

-- The sub-view that a field belongs to.
abbrev pub gpu_subview_of : GpuSortField → GpuSubview
gpu_subview_of GpuSortField.device_index = GpuSubview.devices
gpu_subview_of GpuSortField.device_util = GpuSubview.devices
gpu_subview_of GpuSortField.device_mem = GpuSubview.devices
gpu_subview_of GpuSortField.device_temp = GpuSubview.devices
gpu_subview_of GpuSortField.device_power = GpuSubview.devices
gpu_subview_of GpuSortField.device_name = GpuSubview.devices
gpu_subview_of GpuSortField.proc_mem = GpuSubview.procs
gpu_subview_of GpuSortField.proc_pid = GpuSubview.procs
gpu_subview_of GpuSortField.proc_name = GpuSubview.procs
gpu_subview_of GpuSortField.proc_device = GpuSubview.procs

abbrev pub gpu_field_count : GpuSubview → ℕ
gpu_field_count GpuSubview.devices = 6
gpu_field_count GpuSubview.procs = 4

abbrev gpu_rank : GpuSortField → ℕ
gpu_rank GpuSortField.device_index = 0
gpu_rank GpuSortField.device_util = 1
gpu_rank GpuSortField.device_mem = 2
gpu_rank GpuSortField.device_temp = 3
gpu_rank GpuSortField.device_power = 4
gpu_rank GpuSortField.device_name = 5
gpu_rank GpuSortField.proc_mem = 0
gpu_rank GpuSortField.proc_pid = 1
gpu_rank GpuSortField.proc_name = 2
gpu_rank GpuSortField.proc_device = 3

abbrev gpu_next : GpuSubview → GpuSortField → GpuSortField
gpu_next sv f = next_gpu_sort_field f sv

next_gpu_sort_field-IsOnCycle :
    (f : GpuSortField)
    → IsOnCycle
        (gpu_next (gpu_subview_of f))
        (gpu_default_for (gpu_subview_of f))
        (gpu_field_count (gpu_subview_of f))
        (gpu_rank f)
        f
unfolding next_gpu_sort_field gpu_default_for
next_gpu_sort_field-IsOnCycle GpuSortField.device_index = record {
  inside = omega arith;
  from_start = refl;
  to_start = refl;
}
next_gpu_sort_field-IsOnCycle GpuSortField.device_util = record {
  inside = omega arith;
  from_start = refl;
  to_start = refl;
}
next_gpu_sort_field-IsOnCycle GpuSortField.device_mem = record {
  inside = omega arith;
  from_start = refl;
  to_start = refl;
}
next_gpu_sort_field-IsOnCycle GpuSortField.device_temp = record {
  inside = omega arith;
  from_start = refl;
  to_start = refl;
}
next_gpu_sort_field-IsOnCycle GpuSortField.device_power = record {
  inside = omega arith;
  from_start = refl;
  to_start = refl;
}
next_gpu_sort_field-IsOnCycle GpuSortField.device_name = record {
  inside = omega arith;
  from_start = refl;
  to_start = refl;
}
next_gpu_sort_field-IsOnCycle GpuSortField.proc_mem = record {
  inside = omega arith;
  from_start = refl;
  to_start = refl;
}
next_gpu_sort_field-IsOnCycle GpuSortField.proc_pid = record {
  inside = omega arith;
  from_start = refl;
  to_start = refl;
}
next_gpu_sort_field-IsOnCycle GpuSortField.proc_name = record {
  inside = omega arith;
  from_start = refl;
  to_start = refl;
}
next_gpu_sort_field-IsOnCycle GpuSortField.proc_device = record {
  inside = omega arith;
  from_start = refl;
  to_start = refl;
}

-- One press of the key leaves a field of another sub-view for the default of the active one.
gpu_recovers :
    (f : GpuSortField) (sv : GpuSubview)
    → (gpu_subview_of f ≡ sv) ⊎ (next_gpu_sort_field f sv ≡ gpu_default_for sv)
unfolding next_gpu_sort_field
gpu_recovers GpuSortField.device_index GpuSubview.devices = inl refl
gpu_recovers GpuSortField.device_index GpuSubview.procs = inr refl
gpu_recovers GpuSortField.device_util GpuSubview.devices = inl refl
gpu_recovers GpuSortField.device_util GpuSubview.procs = inr refl
gpu_recovers GpuSortField.device_mem GpuSubview.devices = inl refl
gpu_recovers GpuSortField.device_mem GpuSubview.procs = inr refl
gpu_recovers GpuSortField.device_temp GpuSubview.devices = inl refl
gpu_recovers GpuSortField.device_temp GpuSubview.procs = inr refl
gpu_recovers GpuSortField.device_power GpuSubview.devices = inl refl
gpu_recovers GpuSortField.device_power GpuSubview.procs = inr refl
gpu_recovers GpuSortField.device_name GpuSubview.devices = inl refl
gpu_recovers GpuSortField.device_name GpuSubview.procs = inr refl
gpu_recovers GpuSortField.proc_mem GpuSubview.devices = inr refl
gpu_recovers GpuSortField.proc_mem GpuSubview.procs = inl refl
gpu_recovers GpuSortField.proc_pid GpuSubview.devices = inr refl
gpu_recovers GpuSortField.proc_pid GpuSubview.procs = inl refl
gpu_recovers GpuSortField.proc_name GpuSubview.devices = inr refl
gpu_recovers GpuSortField.proc_name GpuSubview.procs = inl refl
gpu_recovers GpuSortField.proc_device GpuSubview.devices = inr refl
gpu_recovers GpuSortField.proc_device GpuSubview.procs = inl refl

gpu_default-reaches :
    (g : GpuSortField)
    → iterate (gpu_rank g) (gpu_next (gpu_subview_of g)) (gpu_default_for (gpu_subview_of g)) ≡ g
gpu_default-reaches g = (next_gpu_sort_field-IsOnCycle g).from_start

-- Whatever the field, also one that another sub-view left behind, the sort key leads to any field
-- of the active sub-view in at most as many presses as the sub-view has fields.
pub next_gpu_sort_field-reaches :
    (sv : GpuSubview) (f g : GpuSortField)
    → gpu_subview_of g ≡ sv
    → (k : ℕ) × (k ≤ gpu_field_count sv) × (iterate k (λ x. next_gpu_sort_field x sv) f ≡ g)
next_gpu_sort_field-reaches sv f g h =
    subst
      (λ v. (k : ℕ) × (k ≤ gpu_field_count v) × (iterate k (λ x. next_gpu_sort_field x v) f ≡ g)) h
      (elim (gpu_recovers f (gpu_subview_of g)) [
        | inl same ↦
            let (k, few, leads) =
              reaches (gpu_next (gpu_subview_of g)) (gpu_default_for (gpu_subview_of g))
                (gpu_field_count (gpu_subview_of g)) (gpu_rank f) (gpu_rank g) f g
                (subst
                  (λ v.
                    IsOnCycle (gpu_next v) (gpu_default_for v) (gpu_field_count v) (gpu_rank f) f)
                  same (next_gpu_sort_field-IsOnCycle f))
                (next_gpu_sort_field-IsOnCycle g) in
            (k, omega arith, leads)
        | inr other ↦
            let few = (next_gpu_sort_field-IsOnCycle g).inside in
            (
              suc (gpu_rank g),
              omega arith,
              ap (iterate (gpu_rank g) (gpu_next (gpu_subview_of g))) other ∙ gpu_default-reaches g,
            )
      ])

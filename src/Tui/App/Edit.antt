-- ===== src/Tui/App/Edit.antt =====
-- What the keys do to the tables: tabs, sub-views, filters and sorts
-- (`AppState` of crates/muxtop-tui/src/app.rs). An index out of range, a panic, leaves the view.
pub mod Clamped
use mathlib.Core.Bool.{decide}
use muxtop.Base.{
  ℕ, zero, suc, ◌+◌, ◌-◌, ◌%◌, min, Bool, true, false, not, Option, none, some, List, [], ◌∷◌, ◌++◌,
  ltb, length, get_elem?, filter_by, ◌||◌, if◌then◌else◌,
}
use muxtop.Base.Int.{ℤ, pos, negsuc}
use muxtop.Core.Process.{Text, ProcessInfo}
use muxtop.Core.Process.Search.{is_empty}
use muxtop.Core.Process.Sort.{SortField, SortOrder}
use muxtop.Core.Std.{Std}
use muxtop.Core.Network.{NetworkInterfaceSnapshot}
use muxtop.Core.Containers.{ContainerSnapshot, ContainersSnapshot}
use muxtop.Core.Kube.{KubeSnapshot}
use muxtop.Core.Gpu.{GpusSnapshot}
use muxtop.Core.System.{SystemSnapshot}
use muxtop.Tui.Tabs.{Tab, KubeSubview, GpuSubview, Tab-discrete, next, prev}
use muxtop.Tui.Sorts.{
  NetworkSortField, ContainerSortField, KubeSortField, GpuSortField, kube_default_for,
  gpu_default_for, next_sort_field, next_net_sort_field, next_container_sort_field,
  next_gpu_sort_field, next_kube_sort_field,
}
use muxtop.Tui.App.View.{
  Table, View, clamp_selection, table_of, set_table, visible_interfaces, item_count,
  recompute_visible, recompute_visible_debounced, recompute_containers_view, recompute_kube_view,
  containers_of, kube_of, gpus_of, lower_contains,
}

-- `iter().position(..).unwrap_or(0)` and the step of `cycle_subview`, by `rem_euclid`.
abbrev rem_euclid : ℤ → ℕ → ℕ
rem_euclid (pos n) m = n % m
rem_euclid (negsuc n) m = m - 1 - n % m

abbrev stepped : ℕ → ℤ → ℤ
stepped i (pos n) = pos (i + n)
stepped i (negsuc n) = if ltb n i then pos (i - suc n) else negsuc (n - i)

abbrev kube_position : KubeSubview → ℕ
kube_position KubeSubview.pods = 0
kube_position KubeSubview.nodes = 1
kube_position KubeSubview.deployments = 2

abbrev gpu_position : GpuSubview → ℕ
gpu_position GpuSubview.devices = 0
gpu_position GpuSubview.procs = 1

abbrev kube_order : List KubeSubview
kube_order = KubeSubview.pods ∷ KubeSubview.nodes ∷ KubeSubview.deployments ∷ []

abbrev gpu_order : List GpuSubview
gpu_order = GpuSubview.devices ∷ GpuSubview.procs ∷ []

unfoldable pub flip : SortOrder → SortOrder
flip SortOrder.asc = SortOrder.desc
flip SortOrder.desc = SortOrder.asc

-- `Option::map`.
abbrev pub mapped {ℓ κ} : {A : Type ℓ} {B : Type κ} → (A → B) → Option A → Option B
mapped f none = none
mapped f (some a) = some (f a)

abbrev pub first_row : Table → Table
first_row t = record t { selected = 0; scroll_offset = 0 }

abbrev pub editing : Bool → Table → Table
editing on t = record t { filter_active = on }

abbrev fresh : Table → Table
fresh t = record t { selected = 0; scroll_offset = 0; filter_input = []; filter_active = false }

abbrev pub top : ℕ → Table → Table
top count t = record t { selected = clamp_selection t.selected count; scroll_offset = 0 }

abbrev process_of : {F32 : Type 0} → ProcessInfo F32 × ℕ → ProcessInfo F32
process_of (p, depth) = p

abbrev daemon_is_up : {F32 : Type 0} → Option (ContainersSnapshot F32) → Bool
daemon_is_up none = false
daemon_is_up (some cs) = cs.daemon_up

abbrev kube_name : KubeSubview → KubeSnapshot → ℕ → Option Text
kube_name KubeSubview.pods snap i = mapped (λ p. p.name) (get_elem? snap.pods i)
kube_name KubeSubview.nodes snap i = mapped (λ n. n.name) (get_elem? snap.nodes i)
kube_name KubeSubview.deployments snap i = mapped (λ d. d.name) (get_elem? snap.deployments i)

module _ (std : Std) where
  open std use {F32, display_u32}

  abbrev gpu_row : GpuSubview → Text → ℕ → Option (GpusSnapshot F32) → Option Text
  gpu_row sv f i none = none
  gpu_row GpuSubview.devices f i (some snap) =
      mapped (λ d. d.name)
        (get_elem? (filter_by (λ d. is_empty f || lower_contains std d.name f) snap.devices) i)
  gpu_row GpuSubview.procs f i (some snap) =
      mapped (λ p. display_u32 p.pid)
        (get_elem? (filter_by (λ p. is_empty f || lower_contains std p.name f) snap.processes) i)

module _ {std : Std} where
  open std use {F32, F64, lowercase, display_u32}

  unfoldable pub switch_gpu_subview : GpuSubview → View std → View std
  switch_gpu_subview sv v = record v {
    gpu_subview = sv;
    gpu_sort_field = gpu_default_for sv;
    gpu_sort_order = SortOrder.desc;
    gpu = fresh v.gpu;
  }

  unfoldable pub switch_kube_subview : KubeSubview → View std → View std
  unfolding recompute_kube_view
  switch_kube_subview sv v = recompute_kube_view (record v {
    kube_subview = sv;
    kube_sort_field = kube_default_for sv;
    kube_sort_order = SortOrder.desc;
    kube = fresh v.kube;
  })

  unfoldable pub go_to_tab : Tab → View std → View std
  go_to_tab tab v = if decide (Tab-discrete v.tab tab) then v else record v {
    tab = tab;
    col_scroll = 0;
    main = editing false v.main;
    net = editing false v.net;
    containers = editing false v.containers;
    kube = editing false v.kube;
  }

  abbrev to_kube : Option KubeSubview → View std → View std
  to_kube none v = v
  to_kube (some sv) v = switch_kube_subview sv v

  abbrev to_gpu : Option GpuSubview → View std → View std
  to_gpu none v = v
  to_gpu (some sv) v = switch_gpu_subview sv v

  abbrev cycled : Tab → ℤ → View std → View std
  cycled Tab.kube delta v =
      to_kube (get_elem? kube_order (rem_euclid (stepped (kube_position v.kube_subview) delta) 3)) v
  cycled Tab.gpu delta v =
      to_gpu (get_elem? gpu_order (rem_euclid (stepped (gpu_position v.gpu_subview) delta) 2)) v
  cycled tab delta v = v

  unfoldable pub cycle_subview : ℤ → View std → View std
  unfolding switch_kube_subview switch_gpu_subview
  cycle_subview delta v = cycled v.tab delta v

  abbrev arrived : Option Tab → View std → View std
  arrived none v = v
  arrived (some tab) v = go_to_tab tab v

  unfoldable pub go_next : View std → View std
  unfolding go_to_tab
  go_next v = arrived (next v.tab) v

  unfoldable pub go_prev : View std → View std
  unfolding go_to_tab
  go_prev v = arrived (prev v.tab) v

  -- Filters.
  unfoldable pub filter_editing : View std → Bool
  filter_editing v = (table_of v.tab v).filter_active

  unfoldable pub filter_text : View std → Text
  filter_text v = (table_of v.tab v).filter_input

  unfoldable pub set_filter_editing : Bool → View std → View std
  set_filter_editing on v = set_table v.tab (editing on (table_of v.tab v)) v

  abbrev pub write_filter : Text → View std → View std
  write_filter text v = set_table v.tab (record (table_of v.tab v) { filter_input = text }) v

  abbrev pub refreshed : Tab → Bool → ℕ → View std → View std
  refreshed Tab.containers immediate now v = recompute_containers_view v
  refreshed Tab.kube immediate now v = recompute_kube_view v
  refreshed Tab.gpu immediate now v = v
  refreshed Tab.network immediate now v = v
  refreshed Tab.general immediate now v =
      if immediate
      then recompute_visible (record v { last_filter_change = none })
      else recompute_visible_debounced now v
  refreshed Tab.processes immediate now v =
      if immediate
      then recompute_visible (record v { last_filter_change = none })
      else recompute_visible_debounced now v

  unfoldable pub after_filter_change : Bool → ℕ → View std → View std
  unfolding recompute_containers_view recompute_kube_view recompute_visible
      recompute_visible_debounced item_count clamp_selection
  after_filter_change immediate now v =
      let v1 = refreshed v.tab immediate now v in
      set_table v1.tab (top (item_count v1) (table_of v1.tab v1)) v1

  unfoldable pub clear_filter : ℕ → View std → View std
  unfolding after_filter_change
  clear_filter now v = after_filter_change true now (write_filter [] v)

  unfoldable pub set_filter : Text → ℕ → View std → View std
  unfolding after_filter_change
  set_filter text now v = after_filter_change true now (write_filter text v)

  -- Sorts.
  abbrev sorted_next : Tab → View std → View std
  sorted_next Tab.network v = record v { net_sort_field = next_net_sort_field v.net_sort_field }
  sorted_next Tab.containers v =
      recompute_containers_view
        (record v { containers_sort_field = next_container_sort_field v.containers_sort_field })
  sorted_next Tab.kube v = recompute_kube_view (record v {
    kube_sort_field = next_kube_sort_field v.kube_sort_field v.kube_subview;
    kube = first_row v.kube;
  })
  sorted_next Tab.gpu v = record v {
    gpu_sort_field = next_gpu_sort_field v.gpu_sort_field v.gpu_subview;
    gpu = first_row v.gpu;
  }
  sorted_next Tab.general v =
      recompute_visible (record v { sort_field = next_sort_field v.sort_field })
  sorted_next Tab.processes v =
      recompute_visible (record v { sort_field = next_sort_field v.sort_field })

  unfoldable pub cycle_sort : View std → View std
  unfolding recompute_containers_view recompute_kube_view recompute_visible
  cycle_sort v = sorted_next v.tab v

  abbrev reversed : Tab → View std → View std
  reversed Tab.network v = record v { net_sort_order = flip v.net_sort_order }
  reversed Tab.containers v =
      recompute_containers_view (record v { containers_sort_order = flip v.containers_sort_order })
  reversed Tab.kube v = recompute_kube_view (record v { kube_sort_order = flip v.kube_sort_order })
  reversed Tab.gpu v = record v { gpu_sort_order = flip v.gpu_sort_order }
  reversed Tab.general v = recompute_visible (record v { sort_order = flip v.sort_order })
  reversed Tab.processes v = recompute_visible (record v { sort_order = flip v.sort_order })

  unfoldable pub reverse_sort : View std → View std
  unfolding flip recompute_containers_view recompute_kube_view recompute_visible
  reverse_sort v = reversed v.tab v

  unfoldable pub set_process_sort : SortField → View std → View std
  unfolding recompute_visible
  set_process_sort field v = recompute_visible (record v { sort_field = field })

  unfoldable pub set_container_sort : ContainerSortField → View std → View std
  unfolding recompute_containers_view
  set_container_sort field v =
      recompute_containers_view (record v { containers_sort_field = field })

  unfoldable pub toggle_tree : View std → View std
  unfolding recompute_visible
  toggle_tree v =
      recompute_visible (record v { tree_mode = not v.tree_mode; main = first_row v.main })

  unfoldable pub kube_command : KubeSubview → View std → View std
  unfolding go_to_tab switch_kube_subview
  kube_command sv v = switch_kube_subview sv (go_to_tab Tab.kube v)

  -- The selected row.
  unfoldable pub selected_process : View std → Option (ProcessInfo F32)
  selected_process v =
      if v.tree_mode
      then mapped process_of (get_elem? v.visible_tree v.main.selected)
      else get_elem? v.visible_processes v.main.selected

  unfoldable pub selected_container : View std → Option (ContainerSnapshot F32)
  selected_container v =
      if daemon_is_up (containers_of std v.last_snapshot)
      then get_elem? v.sorted_filtered_containers_cache v.containers.selected
      else none

  abbrev kube_row : View std → Option KubeSnapshot → Option ℕ → Option Text
  kube_row v (some snap) (some i) = kube_name v.kube_subview snap i
  kube_row v none i = none
  kube_row v (some snap) none = none

  unfoldable pub selected_kube_name : View std → Option Text
  selected_kube_name v =
      kube_row v (kube_of std v.last_snapshot) (get_elem? v.kube_view_cache v.kube.selected)

  unfoldable pub selected_gpu_name : View std → Option Text
  selected_gpu_name v =
      gpu_row std v.gpu_subview (lowercase.lower v.gpu.filter_input) v.gpu.selected
        (gpus_of std v.last_snapshot)

  abbrev identifier_on : Tab → View std → Option Text
  identifier_on Tab.network v =
      mapped (λ i. i.name) (get_elem? (visible_interfaces v) v.net.selected)
  identifier_on Tab.containers v =
      mapped (λ c. c.id_full) (get_elem? v.sorted_filtered_containers_cache v.containers.selected)
  identifier_on Tab.kube v = selected_kube_name v
  identifier_on Tab.gpu v = selected_gpu_name v
  identifier_on Tab.general v = mapped (λ p. display_u32 p.pid) (selected_process v)
  identifier_on Tab.processes v = mapped (λ p. display_u32 p.pid) (selected_process v)

  unfoldable pub selected_identifier : View std → Option Text
  unfolding visible_interfaces selected_kube_name selected_gpu_name selected_process
  selected_identifier v = identifier_on v.tab v

-- ===== src/Tui/App/View.antt =====
-- The tables of the application: what they show, filter, sort and select
-- (`AppState` of crates/muxtop-tui/src/app.rs, its per-tab fields).
--
-- The fields `selected`, `scroll_offset`, `filter_input` and `filter_active` of a tab are one
-- `Table`; the General and the Processes tab share theirs. A selection counts rows, so a `usize` is
-- a natural number, and a step of rows is an integer.
pub mod Selection
use Prim.Native.Nat.{compare, Ordering}
use mathlib.Core.List.{reverse}
use muxtop.Base.{
  ℕ, zero, suc, ◌+◌, ◌-◌, ◌*◌, ◌^◌, min, max, Bool, true, false, not, ◌||◌, Option, none, some,
  List, [], ◌∷◌, ltb, leb, length, get_elem?, filter_by, ◌==◌, if◌then◌else◌,
}
use muxtop.Base.Int.{ℤ, pos, negsuc}
use muxtop.Core.Process.{Text, ProcessInfo}
use muxtop.Core.Process.Sort.{SortField, SortOrder, sort_processes}
use muxtop.Core.Process.Tree.{Forest, build_process_tree, flatten_tree}
use muxtop.Core.Process.Search.{contains, filter_processes, is_empty}
use muxtop.Core.Std.{Std, or_equal, cmp_text}
use muxtop.Core.Network.{NetworkInterfaceSnapshot, NetworkHistory}
use muxtop.Core.Containers.{ContainerSnapshot, ContainersSnapshot}
use muxtop.Core.Kube.{KubeSnapshot}
use muxtop.Core.Gpu.{GpuDeviceSnapshot, GpuProcessSnapshot, GpusSnapshot, vendor_label}
use muxtop.Core.System.{SystemSnapshot}
use muxtop.Base.Texts.{codes}
use muxtop.Tui.Tabs.{Tab, KubeSubview, GpuSubview}
use muxtop.Tui.Sorts.{NetworkSortField, ContainerSortField, KubeSortField, GpuSortField}
use muxtop.Tui.KubeView.{compute_view_indices}

pub record Table : Type 0 where
  pub selected : ℕ
  pub scroll_offset : ℕ
  pub filter_input : Text
  pub filter_active : Bool

pub record View (std : Std) : Type 0 where
  pub tab : Tab
  pub main : Table
  pub net : Table
  pub containers : Table
  pub kube : Table
  pub gpu : Table
  pub sort_field : SortField
  pub sort_order : SortOrder
  pub net_sort_field : NetworkSortField
  pub net_sort_order : SortOrder
  pub containers_sort_field : ContainerSortField
  pub containers_sort_order : SortOrder
  pub kube_subview : KubeSubview
  pub kube_sort_field : KubeSortField
  pub kube_sort_order : SortOrder
  pub kube_view_cache : List ℕ
  pub gpu_subview : GpuSubview
  pub gpu_sort_field : GpuSortField
  pub gpu_sort_order : SortOrder
  pub tree_mode : Bool
  pub col_scroll : ℕ
  pub last_snapshot : Option (SystemSnapshot std.F32 std.F64)
  pub visible_processes : List (ProcessInfo std.F32)
  pub visible_tree : List (ProcessInfo std.F32 × ℕ)
  pub network_history : NetworkHistory
  pub sorted_filtered_containers_cache : List (ContainerSnapshot std.F32)
  pub last_filter_change : Option ℕ

-- The widgets' `clamp_selection`.
unfoldable pub clamp_selection : ℕ → ℕ → ℕ
clamp_selection selected count = if count == 0 then 0 else min selected (count - 1)

abbrev pub moved : ℤ → ℕ → ℕ → ℕ
moved (pos n) sel count = min (sel + n) (count - 1)
moved (negsuc n) sel count = min (sel - suc n) (count - 1)

abbrev pub scrolled : ℤ → ℕ → ℕ → ℕ
scrolled (pos n) off count = min (off + n) (count - 1)
scrolled (negsuc n) off count = min (off - suc n) (count - 1)

abbrev pub scrolled_table : ℤ → ℕ → Table → Table
scrolled_table delta count t =
    let off = scrolled delta t.scroll_offset count in
    record t { scroll_offset = off; selected = min (max t.selected off) (count - 1) }

abbrev pub filter_debounce : ℕ
filter_debounce = 50 * 10 ^ 6

abbrev is_due : ℕ → Option ℕ → Bool
is_due now none = true
is_due now (some last) = leb filter_debounce (now - last)

abbrev is_asc : SortOrder → Bool
is_asc SortOrder.asc = true
is_asc SortOrder.desc = false

abbrev default_asc : ContainerSortField → Bool
default_asc ContainerSortField.name = true
default_asc ContainerSortField.uptime = true
default_asc ContainerSortField.cpu = false
default_asc ContainerSortField.mem = false
default_asc ContainerSortField.net_rx = false
default_asc ContainerSortField.net_tx = false

abbrev differs : Bool → Bool → Bool
differs true b = not b
differs false b = b

module _ (std : Std) where
  open std use {F32, F64, lowercase, sort_by, partial_cmp_f32, display_u32}

  abbrev pub lower_contains : Text → Text → Bool
  lower_contains t needle = contains (lowercase.lower t) needle

  -- `visible_interfaces`; an empty filter shows every row.
  abbrev interfaces_of : Text → Option (SystemSnapshot F32 F64) → List NetworkInterfaceSnapshot
  interfaces_of filter none = []
  interfaces_of filter (some s) =
      filter_by (λ i. is_empty filter || lower_contains i.name filter) s.networks.interfaces

  abbrev interfaces_counted : Text → Option (SystemSnapshot F32 F64) → ℕ
  interfaces_counted filter none = 0
  interfaces_counted filter (some s) =
      if is_empty filter
      then length s.networks.interfaces
      else length
          (filter_by (λ i. lower_contains i.name (lowercase.lower filter)) s.networks.interfaces)

  abbrev pub container_matches : Text → ContainerSnapshot F32 → Bool
  container_matches f c =
      lower_contains c.name f || (lower_contains c.image f || lower_contains c.id f)

  abbrev pub containers_of : Option (SystemSnapshot F32 F64) → Option (ContainersSnapshot F32)
  containers_of none = none
  containers_of (some s) = s.containers

  abbrev containers_counted : Text → Option (ContainersSnapshot F32) → ℕ
  containers_counted filter none = 0
  containers_counted filter (some cs) =
      if is_empty filter
      then length cs.containers
      else length (filter_by (container_matches (lowercase.lower filter)) cs.containers)

  abbrev pub gpus_of : Option (SystemSnapshot F32 F64) → Option (GpusSnapshot F32)
  gpus_of none = none
  gpus_of (some s) = s.gpu

  abbrev pub kube_of : Option (SystemSnapshot F32 F64) → Option KubeSnapshot
  kube_of none = none
  kube_of (some s) = s.kube

  abbrev gpus_counted : GpuSubview → Text → Option (GpusSnapshot F32) → ℕ
  gpus_counted sv f none = 0
  gpus_counted GpuSubview.devices f (some s) = length (
      filter_by
        (λ d. is_empty f || (lower_contains d.name f || contains (codes (vendor_label d.vendor)) f))
        s.devices)
  gpus_counted GpuSubview.procs f (some s) = length (
      filter_by (λ p. is_empty f || (lower_contains p.name f || contains (display_u32 p.pid) f))
        s.processes)

  -- A forest that does not exist would be a panic.
  abbrev flattened : Option (Forest F32) → List (ProcessInfo F32 × ℕ)
  flattened none = []
  flattened (some f) = flatten_tree f

  unfoldable pub compare_containers :
      ContainerSortField → ContainerSnapshot F32 → ContainerSnapshot F32 → Ordering
  compare_containers ContainerSortField.name a b = cmp_text a.name b.name
  compare_containers ContainerSortField.cpu a b = or_equal (partial_cmp_f32 b.cpu_pct a.cpu_pct)
  compare_containers ContainerSortField.mem a b = compare b.mem_used_bytes a.mem_used_bytes
  compare_containers ContainerSortField.net_rx a b = compare b.net_rx_bytes a.net_rx_bytes
  compare_containers ContainerSortField.net_tx a b = compare b.net_tx_bytes a.net_tx_bytes
  compare_containers ContainerSortField.uptime a b = compare a.started_at_ms b.started_at_ms

module _ {std : Std} where
  open std use {F32, F64, lowercase, sort_by}

  -- The table of a tab, and the view with another table for it.
  abbrev pub table_of : Tab → View std → Table
  table_of Tab.network v = v.net
  table_of Tab.containers v = v.containers
  table_of Tab.kube v = v.kube
  table_of Tab.gpu v = v.gpu
  table_of Tab.general v = v.main
  table_of Tab.processes v = v.main

  abbrev pub set_table : Tab → Table → View std → View std
  set_table Tab.network t v = record v { net = t }
  set_table Tab.containers t v = record v { containers = t }
  set_table Tab.kube t v = record v { kube = t }
  set_table Tab.gpu t v = record v { gpu = t }
  set_table Tab.general t v = record v { main = t }
  set_table Tab.processes t v = record v { main = t }

  unfoldable pub process_count : View std → ℕ
  process_count v = if v.tree_mode then length v.visible_tree else length v.visible_processes

  unfoldable pub visible_interfaces : View std → List NetworkInterfaceSnapshot
  visible_interfaces v = interfaces_of std (lowercase.lower v.net.filter_input) v.last_snapshot

  unfoldable pub net_interface_count : View std → ℕ
  net_interface_count v = interfaces_counted std v.net.filter_input v.last_snapshot

  unfoldable pub containers_count : View std → ℕ
  containers_count v =
      containers_counted std v.containers.filter_input (containers_of std v.last_snapshot)

  unfoldable pub kube_count : View std → ℕ
  kube_count v = length v.kube_view_cache

  unfoldable pub gpu_count : View std → ℕ
  gpu_count v =
      gpus_counted std v.gpu_subview (lowercase.lower v.gpu.filter_input)
        (gpus_of std v.last_snapshot)

  abbrev pub count_on : Tab → View std → ℕ
  count_on Tab.network v = net_interface_count v
  count_on Tab.containers v = containers_count v
  count_on Tab.kube v = kube_count v
  count_on Tab.gpu v = gpu_count v
  count_on Tab.general v = process_count v
  count_on Tab.processes v = process_count v

  unfoldable pub item_count : View std → ℕ
  item_count v = count_on v.tab v

  -- `selected_mut` with a new selection for the active tab.
  abbrev pub select : ℕ → View std → View std
  select i v = set_table v.tab (record (table_of v.tab v) { selected = i }) v

  unfoldable pub move_selection : ℤ → View std → View std
  unfolding item_count
  move_selection delta v =
      let count = item_count v in
      if count == 0 then v else select (moved delta (table_of v.tab v).selected count) v

  unfoldable pub select_index : ℕ → View std → View std
  unfolding item_count
  select_index index v =
      let count = item_count v in if count == 0 then v else select (min index (count - 1)) v

  -- The mouse wheel: the selection is kept inside the window.
  unfoldable pub scroll_rows : ℤ → View std → View std
  unfolding item_count
  scroll_rows delta v =
      let count = item_count v in
      if count == 0 then v else set_table v.tab (scrolled_table delta count (table_of v.tab v)) v

  abbrev clamped : View std → View std
  clamped v =
      let count = process_count v in
      record v {
        main = record v.main {
          selected = (if ltb 0 count then min v.main.selected (count - 1) else 0);
          scroll_offset = (if ltb 0 count then min v.main.scroll_offset (count - 1) else 0);
        };
      }

  abbrev shown : View std → Option (SystemSnapshot F32 F64) → View std
  shown v none = record v { visible_processes = []; visible_tree = [] }
  shown v (some s) =
      let filtered = filter_processes lowercase s.processes v.main.filter_input in
      clamped (record v {
        visible_tree = (if v.tree_mode then flattened std (build_process_tree filtered) else []);
        visible_processes = sort_processes std filtered v.sort_field v.sort_order;
      })

  unfoldable pub recompute_visible : View std → View std
  unfolding process_count
  recompute_visible v = shown v v.last_snapshot

  unfoldable pub recompute_visible_debounced : ℕ → View std → View std
  unfolding recompute_visible
  recompute_visible_debounced now v =
      let stamped = record v { last_filter_change = some now } in
      if is_due now v.last_filter_change then recompute_visible stamped else stamped

  abbrev container_rows : View std → Option (ContainersSnapshot F32) → List (ContainerSnapshot F32)
  container_rows v none = []
  container_rows v (some cs) =
      if not cs.daemon_up
      then []
      else (let kept =
            if is_empty v.containers.filter_input
            then cs.containers
            else filter_by (container_matches std (lowercase.lower v.containers.filter_input))
                cs.containers in
          let rows =
            sort_by (ContainerSnapshot F32) (compare_containers std v.containers_sort_field) kept in
          if differs (is_asc v.containers_sort_order) (default_asc v.containers_sort_field)
          then reverse rows
          else rows)

  unfoldable pub recompute_containers_view : View std → View std
  unfolding compare_containers
  recompute_containers_view v = record v {
    sorted_filtered_containers_cache = container_rows v (containers_of std v.last_snapshot);
  }

  abbrev kube_rows : View std → Option KubeSnapshot → List ℕ
  kube_rows v none = []
  kube_rows v (some snap) =
      compute_view_indices std snap v.kube_subview v.kube.filter_input v.kube_sort_field
        v.kube_sort_order

  unfoldable pub recompute_kube_view : View std → View std
  recompute_kube_view v = record v { kube_view_cache = kube_rows v (kube_of std v.last_snapshot) }

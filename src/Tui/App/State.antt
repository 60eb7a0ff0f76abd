-- ===== src/Tui/App/State.antt =====
-- The state of the application and its small operations (crates/muxtop-tui/src/app.rs).
--
-- The clock is a field that stands still while one event is handled. The capabilities of the
-- terminal, which only the drawing reads, have no field. A spawned task joins `tasks`; what it
-- sends when it ends waits in `action_rx`. Engines are set or not.
use muxtop.Base.{ℕ, ◌+◌, ◌%◌, ◌^◌, Bool, true, false, Option, none, some, List, [], if◌then◌else◌}
use muxtop.Core.Process.{Text}
use muxtop.Core.Process.Sort.{SortField, SortOrder}
use muxtop.Core.Std.{Std}
use muxtop.Core.Network as Network
use muxtop.Core.Containers.{ContainersSnapshot}
use muxtop.Core.System.{SystemSnapshot}
use muxtop.Tui.Tabs.{Tab, KubeSubview, GpuSubview}
use muxtop.Tui.Sorts.{NetworkSortField, ContainerSortField, kube_default_for, gpu_default_for}
use muxtop.Tui.Notify.{Level, Notifier}
use muxtop.Tui.Notify as Notify
use muxtop.Tui.Theme.{ThemeKind}
use muxtop.Tui.App.Host.{Host, Overlay, ConnectionMode, ConfirmAction, Task}
use muxtop.Tui.App.View.{
  Table, View, recompute_visible, recompute_containers_view, recompute_kube_view,
}
use muxtop.Tui.App.History.{ContainerHistory, no_history, push_container_history}
use muxtop.Tui.App.Palette.{PaletteState}
use muxtop.Tui.App.Palette as Palette

pub record AppState (host : Host) : Type 0 where
  pub view : View host.std
  pub container_history : ContainerHistory host.std.F32
  pub overlay : Overlay
  pub palette : PaletteState
  pub confirm : Option ConfirmAction
  pub notifier : Notifier
  pub theme_kind : ThemeKind
  pub paused : Bool
  pub actions_selected : ℕ
  pub overlay_scroll : ℕ
  pub tick : ℕ
  pub running : Bool
  pub cancelled : Bool
  pub needs_redraw : Bool
  pub connection_mode : ConnectionMode
  pub container_engine : Bool
  pub cluster_engine : Bool
  pub action_rx : List (Level × Text)
  pub tasks : List Task
  pub os : host.posix.Os
  pub terminal : host.Terminal
  pub clock : ℕ

abbrev empty_table : Table
empty_table = record { selected = 0; scroll_offset = 0; filter_input = []; filter_active = false }

-- The view of `AppState::new`.
unfoldable pub new_view : {std : Std} → View std
unfolding Network.new kube_default_for gpu_default_for
new_view = record {
  tab = Tab.general;
  main = empty_table;
  net = empty_table;
  containers = empty_table;
  kube = empty_table;
  gpu = empty_table;
  sort_field = SortField.cpu;
  sort_order = SortOrder.desc;
  net_sort_field = NetworkSortField.rx_rate;
  net_sort_order = SortOrder.desc;
  containers_sort_field = ContainerSortField.cpu;
  containers_sort_order = SortOrder.desc;
  kube_subview = KubeSubview.pods;
  kube_sort_field = kube_default_for KubeSubview.pods;
  kube_sort_order = SortOrder.desc;
  kube_view_cache = [];
  gpu_subview = GpuSubview.devices;
  gpu_sort_field = gpu_default_for GpuSubview.devices;
  gpu_sort_order = SortOrder.desc;
  tree_mode = false;
  col_scroll = 0;
  last_snapshot = none;
  visible_processes = [];
  visible_tree = [];
  network_history = Network.new 60;
  sorted_filtered_containers_cache = [];
  last_filter_change = none;
}

abbrev pub is_remote_mode : ConnectionMode → Bool
is_remote_mode ConnectionMode.local = false
is_remote_mode (ConnectionMode.remote host name) = true

module _ {std : Std} where
  open std use {F32, F64}

  abbrev pub recomputed : SystemSnapshot F32 F64 → ℕ → View std → View std
  recomputed snapshot now v = recompute_kube_view (
      recompute_containers_view (
        recompute_visible (record v {
          network_history = Network.push now snapshot.networks v.network_history;
          last_snapshot = some snapshot;
        })))

module _ {host : Host} where
  open host use {std, posix, Terminal, EngineError, ClusterError, display_i32, display_error}
  open host.std use {display_u32, F32, F64}

  unfoldable pub new : host.posix.Os → Terminal → ℕ → AppState host
  unfolding new_view Palette.new
  new os terminal now = record {
    view = new_view;
    container_history = no_history;
    overlay = Overlay.no_overlay;
    palette = Palette.new;
    confirm = none;
    notifier = Notify.new;
    theme_kind = ThemeKind.tokyo_night;
    paused = false;
    actions_selected = 0;
    overlay_scroll = 0;
    tick = 0;
    running = true;
    cancelled = false;
    needs_redraw = true;
    connection_mode = ConnectionMode.local;
    container_engine = false;
    cluster_engine = false;
    action_rx = [];
    tasks = [];
    os = os;
    terminal = terminal;
    clock = now;
  }

  unfoldable pub is_remote : AppState host → Bool
  is_remote s = is_remote_mode s.connection_mode

  unfoldable pub notify : Level → Text → AppState host → AppState host
  notify level msg s = record s {
    notifier = Notify.push s.clock level msg s.notifier;
    needs_redraw = true;
  }

  unfoldable pub quit : AppState host → AppState host
  quit s = record s { running = false; cancelled = true }

  unfoldable pub mark_dirty : AppState host → AppState host
  mark_dirty s = record s { needs_redraw = true }

  unfoldable pub take_needs_redraw : AppState host → Bool × AppState host
  take_needs_redraw s = (s.needs_redraw, record s { needs_redraw = false })

  -- The counter is a `usize` of 64 bits.
  unfoldable pub advance : AppState host → AppState host
  advance s = record s { tick = (s.tick + 1) % 2 ^ 64 }

  abbrev pub on_view : (View std → View std) → AppState host → AppState host
  on_view f s = record s { view = f s.view }

  abbrev pub with_containers : Option (ContainersSnapshot F32) → AppState host → AppState host
  with_containers none s = s
  with_containers (some cs) s = record s {
    container_history = push_container_history cs s.container_history;
  }

  unfoldable pub apply_snapshot : SystemSnapshot F32 F64 → AppState host → AppState host
  unfolding Network.push push_container_history recompute_visible recompute_containers_view
      recompute_kube_view mark_dirty
  apply_snapshot snapshot s =
      if s.paused
      then s
      else mark_dirty
          (on_view (recomputed snapshot s.clock) (with_containers snapshot.containers s))

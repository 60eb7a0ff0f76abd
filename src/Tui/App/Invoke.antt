-- ===== src/Tui/App/Invoke.antt =====
-- The commands of the palette, carried out
-- (`execute_invocation` and what it calls in crates/muxtop-tui/src/app.rs).
use Prim.Native.String.{String}
use muxtop.Base.{
  Bool, true, false, ◌&&◌, ◌||◌, Option, none, some, List, [], ◌∷◌, ◌++◌, length, ltb, filter_by,
  if◌then◌else◌, Result, ok, err,
}
use muxtop.Base.Int.{pos, negsuc}
use muxtop.Base.Texts.{codes, same_text, trim}
use muxtop.Core.Process.{Text, ProcessInfo}
use muxtop.Core.Process.Search.{starts_with}
use muxtop.Core.Process.Sort.{SortField}
use muxtop.Core.Actions.{Signal}
use muxtop.Core.Std.{Std}
use muxtop.Core.Containers.{ContainerSnapshot}
use muxtop.Tui.Tabs.{Tab, KubeSubview, all_tabs}
use muxtop.Tui.Tabs as Tabs
use muxtop.Tui.Sorts.{NetworkSortField, ContainerSortField}
use muxtop.Tui.Keymap.Keys.{Action}
use muxtop.Tui.Notify.{Level}
use muxtop.Tui.Theme.{ThemeKind, parse_theme}
use muxtop.Tui.Theme as Theme
use muxtop.Tui.App.Commands.{Command, is_verb_only, shortcut}
use muxtop.Tui.App.Host.{Host, Overlay, ConfirmAction}
use muxtop.Tui.App.View.{View, lower_contains, recompute_visible, recompute_containers_view}
use muxtop.Tui.App.Edit.{
  go_to_tab, go_next, go_prev, set_filter_editing, set_filter, clear_filter, cycle_sort,
  reverse_sort, set_process_sort, set_container_sort, kube_command,
}
use muxtop.Tui.App.Palette.{has}
use muxtop.Tui.App.State.{AppState, is_remote, notify, on_view}
use muxtop.Tui.App.Requests.{
  toggle_kube_scope, request_container_action, request_kill, request_renice,
}
use muxtop.Tui.App.Overlays.{open_overlay, copy_selection}
use muxtop.Tui.App.Dispatch.{remote_blocked_commands, dispatch}

-- A `match` on the text of a field.
abbrev field_named : {A : Type 0} → List (String × A) → Text → Option A
field_named [] t = none
field_named ((key, a) ∷ rows) t =
    let rest = field_named rows t in if same_text (codes key) t then some a else rest

abbrev net_fields : List (String × NetworkSortField)
net_fields =
    ("name", NetworkSortField.name)
    ∷ ("interface", NetworkSortField.name)
    ∷ ("rx", NetworkSortField.rx_rate)
    ∷ ("down", NetworkSortField.rx_rate)
    ∷ ("tx", NetworkSortField.tx_rate)
    ∷ ("up", NetworkSortField.tx_rate)
    ∷ ("errors", NetworkSortField.errors)
    ∷ ("err", NetworkSortField.errors)
    ∷ []

abbrev container_fields : List (String × ContainerSortField)
container_fields =
    ("name", ContainerSortField.name)
    ∷ ("cpu", ContainerSortField.cpu)
    ∷ ("mem", ContainerSortField.mem)
    ∷ ("memory", ContainerSortField.mem)
    ∷ ("rx", ContainerSortField.net_rx)
    ∷ ("net", ContainerSortField.net_rx)
    ∷ ("tx", ContainerSortField.net_tx)
    ∷ ("uptime", ContainerSortField.uptime)
    ∷ ("age", ContainerSortField.uptime)
    ∷ []

abbrev process_fields : List (String × SortField)
process_fields =
    ("cpu", SortField.cpu)
    ∷ ("mem", SortField.mem)
    ∷ ("memory", SortField.mem)
    ∷ ("pid", SortField.pid)
    ∷ ("name", SortField.name)
    ∷ ("command", SortField.name)
    ∷ ("user", SortField.user)
    ∷ []

abbrev when_some : {A B : Type 0} → Option A → (A → B → B) → B → Bool × B
when_some none f b = (false, b)
when_some (some a) f b = (true, f a b)

abbrev first : {A : Type 0} → List A → Option A
first [] = none
first (x ∷ xs) = some x

abbrev pub first_that : {A : Type 0} → (A → Bool) → List A → Option A
first_that test xs = first (filter_by test xs)

module _ {std : Std} where
  open std use {lowercase}

  abbrev pub sorted_on : Tab → Text → View std → Bool × View std
  sorted_on Tab.network f v =
      when_some (field_named net_fields f) (λ field w. record w { net_sort_field = field }) v
  sorted_on Tab.containers f v =
      when_some (field_named container_fields f)
        (λ field w. recompute_containers_view (record w { containers_sort_field = field })) v
  sorted_on Tab.kube f v = (false, v)
  sorted_on Tab.general f v =
      when_some (field_named process_fields f)
        (λ field w. recompute_visible (record w { sort_field = field })) v
  sorted_on Tab.processes f v =
      when_some (field_named process_fields f)
        (λ field w. recompute_visible (record w { sort_field = field })) v
  sorted_on Tab.gpu f v =
      when_some (field_named process_fields f)
        (λ field w. recompute_visible (record w { sort_field = field })) v

module _ (std : Std) where
  open std use {F32, lowercase}

  abbrev pub process_matches : Text → ProcessInfo F32 → Bool
  process_matches needle p = lower_contains std p.name needle || lower_contains std p.command needle

  abbrev pub container_named_by : Text → ContainerSnapshot F32 → Bool
  container_named_by needle c =
      lower_contains std c.name needle
      || (lower_contains std c.image needle || starts_with (lowercase.lower c.id) needle)

module _ {host : Host} where
  open host use {std}
  open host.std use {F32, lowercase, display_u32, is_whitespace}

  abbrev pub aimed : Text → List (ProcessInfo F32) → AppState host → AppState host
  aimed needle [] s = notify Level.warning (codes "No process matches `" ++ (needle ++ codes "`")) s
  aimed needle (p ∷ ps) s =
      let told =
        if ltb 1 (length (p ∷ ps))
        then notify Level.info
            (display_u32 (length (p ∷ ps))
              ++ (codes " processes match `" ++ (needle ++ codes "` — targeting the busiest")))
            s
        else s in
      record told { confirm = some (ConfirmAction.kill_process p.pid p.name Signal.term) }

  unfoldable pub kill_named : Text → AppState host → AppState host
  unfolding notify
  kill_named needle s =
      aimed needle
        (filter_by (process_matches std (lowercase.lower needle)) s.view.visible_processes) s

  abbrev pub aimed_container :
      Text
      → (Text → Text → ConfirmAction)
      → Option (ContainerSnapshot F32)
      → AppState host
      → AppState host
  aimed_container needle build none s =
      notify Level.warning (codes "No container matches `" ++ (needle ++ codes "`")) s
  aimed_container needle build (some c) s = record s { confirm = some (build c.id_full c.name) }

  unfoldable pub container_named :
      Text → (Text → Text → ConfirmAction) → AppState host → AppState host
  unfolding is_remote notify
  container_named needle build s =
      if is_remote s
      then notify Level.warning (codes "Actions are disabled in remote mode") s
      else aimed_container needle build
          (first_that (container_named_by std (lowercase.lower needle))
            s.view.sorted_filtered_containers_cache)
          s

  abbrev pub told_sort : Text → Bool × View std → AppState host → AppState host
  told_sort f (true, v) s = notify Level.info (codes "Sorted by " ++ f) (record s { view = v })
  told_sort f (false, v) s =
      notify Level.warning (codes "`" ++ (f ++ codes "` is not a sortable column on this tab"))
        (record s { view = v })

  unfoldable pub sort_by_name : Text → AppState host → AppState host
  unfolding notify recompute_visible recompute_containers_view
  sort_by_name field s =
      let f = lowercase.lower (trim is_whitespace field) in
      told_sort f (sorted_on s.view.tab f s.view) s

  abbrev pub themed : Result Text ThemeKind → AppState host → AppState host
  themed (ok kind) s =
      notify Level.success (codes "Theme: " ++ codes (Theme.name kind))
        (record s { theme_kind = kind })
  themed (err e) s = notify Level.warning e s

  unfoldable pub set_theme : Text → AppState host → AppState host
  unfolding notify parse_theme Theme.name
  set_theme name s = themed (parse_theme is_whitespace lowercase.lower name) s

  abbrev pub went : Text → Option Tab → AppState host → AppState host
  went name none s = notify Level.warning (codes "No tab named `" ++ (name ++ codes "`")) s
  went name (some tab) s = on_view (go_to_tab tab) s

  unfoldable pub go_to_tab_named : Text → AppState host → AppState host
  unfolding notify go_to_tab Tabs.label
  go_to_tab_named name s =
      let n = lowercase.lower (trim is_whitespace name) in
      went name (first_that (λ t. starts_with (lowercase.lower (codes (Tabs.label t))) n) all_tabs)
        s

  abbrev pub usage : Command → AppState host → AppState host
  usage cmd s = notify Level.info (codes "Usage: " ++ codes (shortcut cmd)) s

  abbrev net_sorted : NetworkSortField → AppState host → AppState host
  net_sorted field s = on_view (λ v. record v { net_sort_field = field }) s

  -- The `match` of `execute_command`.
  unfoldable pub carry_out : Command → AppState host → AppState host
  unfolding dispatch go_to_tab go_next go_prev set_process_sort set_container_sort cycle_sort
      reverse_sort set_filter_editing clear_filter request_kill request_renice
      request_container_action open_overlay copy_selection kube_command toggle_kube_scope notify
      shortcut
  carry_out Command.quit s = dispatch Action.quit s
  carry_out Command.toggle_tree_view s =
      dispatch Action.toggle_tree (on_view (go_to_tab Tab.processes) s)
  carry_out Command.sort_by_cpu s = on_view (set_process_sort SortField.cpu) s
  carry_out Command.sort_by_mem s = on_view (set_process_sort SortField.mem) s
  carry_out Command.sort_by_pid s = on_view (set_process_sort SortField.pid) s
  carry_out Command.sort_by_name s = on_view (set_process_sort SortField.name) s
  carry_out Command.sort_by_user s = on_view (set_process_sort SortField.user) s
  carry_out Command.toggle_sort_order s = on_view reverse_sort s
  carry_out Command.cycle_sort s = on_view cycle_sort s
  carry_out Command.switch_to_general s = on_view (go_to_tab Tab.general) s
  carry_out Command.switch_to_processes s = on_view (go_to_tab Tab.processes) s
  carry_out Command.switch_to_network s = on_view (go_to_tab Tab.network) s
  carry_out Command.switch_to_containers s = on_view (go_to_tab Tab.containers) s
  carry_out Command.switch_to_kube s = on_view (go_to_tab Tab.kube) s
  carry_out Command.open_filter s = on_view (set_filter_editing true) s
  carry_out Command.clear_filter s = on_view (clear_filter s.clock) s
  carry_out Command.next_tab s = on_view go_next s
  carry_out Command.prev_tab s = on_view go_prev s
  carry_out Command.kill_process s = request_kill Signal.term s
  carry_out Command.force_kill_process s = request_kill Signal.kill s
  carry_out Command.nice_down s = request_renice (pos 1) s
  carry_out Command.nice_up s = request_renice (negsuc 0) s
  carry_out Command.sort_net_by_rx s = net_sorted NetworkSortField.rx_rate s
  carry_out Command.sort_net_by_tx s = net_sorted NetworkSortField.tx_rate s
  carry_out Command.sort_net_by_name s = net_sorted NetworkSortField.name s
  carry_out Command.sort_net_by_errors s = net_sorted NetworkSortField.errors s
  carry_out Command.sort_containers_by_cpu s = on_view (set_container_sort ContainerSortField.cpu) s
  carry_out Command.sort_containers_by_mem s = on_view (set_container_sort ContainerSortField.mem) s
  carry_out Command.sort_containers_by_name s =
      on_view (set_container_sort ContainerSortField.name) s
  carry_out Command.sort_containers_by_net_rx s =
      on_view (set_container_sort ContainerSortField.net_rx) s
  carry_out Command.stop_container s = request_container_action ConfirmAction.stop_container s
  carry_out Command.kill_container s = request_container_action ConfirmAction.kill_container s
  carry_out Command.restart_container s = request_container_action ConfirmAction.restart_container s
  carry_out Command.show_help s = open_overlay Overlay.help s
  carry_out Command.toggle_pause s = dispatch Action.toggle_pause s
  carry_out Command.refresh_now s = dispatch Action.refresh s
  carry_out Command.show_log s = open_overlay Overlay.log s
  carry_out Command.inspect_row s = dispatch Action.open_inspector s
  carry_out Command.copy_row_id s = copy_selection s
  carry_out Command.kube_pods s = on_view (kube_command KubeSubview.pods) s
  carry_out Command.kube_nodes s = on_view (kube_command KubeSubview.nodes) s
  carry_out Command.kube_deployments s = on_view (kube_command KubeSubview.deployments) s
  carry_out Command.kube_toggle_scope s = toggle_kube_scope (on_view (go_to_tab Tab.kube) s)
  carry_out Command.kill_named s = usage Command.kill_named s
  carry_out Command.stop_named s = usage Command.stop_named s
  carry_out Command.restart_named s = usage Command.restart_named s
  carry_out Command.sort_by s = usage Command.sort_by s
  carry_out Command.filter_by s = usage Command.filter_by s
  carry_out Command.set_theme s = usage Command.set_theme s
  carry_out Command.go_to_tab s = usage Command.go_to_tab s
  carry_out Command.switch_to_gpu s = on_view (λ v. record v { tab = Tab.gpu }) s

  unfoldable pub execute_command : Command → AppState host → AppState host
  unfolding is_remote notify carry_out
  execute_command cmd s =
      if is_remote s && has remote_blocked_commands cmd
      then notify Level.warning (codes "Actions are disabled in remote mode") s
      else carry_out cmd s

  abbrev pub invoked : Command → AppState host → AppState host
  invoked cmd s = if is_verb_only cmd then usage cmd s else execute_command cmd s

  unfoldable pub execute_invocation : Command → Option Text → AppState host → AppState host
  unfolding kill_named container_named sort_by_name set_filter set_theme go_to_tab_named
      is_verb_only notify shortcut execute_command
  execute_invocation cmd none s = invoked cmd s
  execute_invocation Command.kill_named (some name) s = kill_named name s
  execute_invocation Command.stop_named (some name) s =
      container_named name ConfirmAction.stop_container s
  execute_invocation Command.restart_named (some name) s =
      container_named name ConfirmAction.restart_container s
  execute_invocation Command.sort_by (some field) s = sort_by_name field s
  execute_invocation Command.filter_by (some text) s = on_view (set_filter text s.clock) s
  execute_invocation Command.set_theme (some name) s = set_theme name s
  execute_invocation Command.go_to_tab (some name) s = go_to_tab_named name s
  execute_invocation cmd (some arg) s = invoked cmd s

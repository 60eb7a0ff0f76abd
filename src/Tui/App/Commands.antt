-- ===== src/Tui/App/Commands.antt =====
-- The commands of the palette (crates/muxtop-tui/src/app.rs).
use Prim.Native.String.{String}
use muxtop.Base.{Bool, true, false, Option, none, some, List, [], ◌∷◌, ◌++◌}
use muxtop.Base.Texts.{codes}
use muxtop.Core.Process.{Text}
use muxtop.Tui.Tabs.{Tab}

pub data Command : Type 0 where
  quit toggle_tree_view sort_by_cpu sort_by_mem sort_by_pid sort_by_name sort_by_user : Command
  toggle_sort_order cycle_sort switch_to_general switch_to_processes open_filter : Command
  next_tab prev_tab kill_process force_kill_process nice_down nice_up clear_filter : Command
  switch_to_network sort_net_by_rx sort_net_by_tx sort_net_by_name sort_net_by_errors : Command
  switch_to_containers sort_containers_by_cpu sort_containers_by_mem sort_containers_by_name :
      Command
  sort_containers_by_net_rx stop_container kill_container restart_container : Command
  switch_to_kube switch_to_gpu show_help toggle_pause refresh_now show_log : Command
  inspect_row copy_row_id kube_pods kube_nodes kube_deployments kube_toggle_scope : Command
  kill_named stop_named restart_named sort_by filter_by set_theme go_to_tab : Command

abbrev pub all_commands : List Command
all_commands =
    Command.quit ∷ Command.toggle_tree_view ∷ Command.sort_by_cpu ∷ Command.sort_by_mem
    ∷ Command.sort_by_pid ∷ Command.sort_by_name ∷ Command.sort_by_user ∷ Command.toggle_sort_order
    ∷ Command.cycle_sort ∷ Command.switch_to_general ∷ Command.switch_to_processes
    ∷ Command.open_filter ∷ Command.next_tab ∷ Command.prev_tab ∷ Command.kill_process
    ∷ Command.force_kill_process ∷ Command.nice_down ∷ Command.nice_up ∷ Command.clear_filter
    ∷ Command.switch_to_network ∷ Command.sort_net_by_rx ∷ Command.sort_net_by_tx
    ∷ Command.sort_net_by_name ∷ Command.sort_net_by_errors ∷ Command.switch_to_containers
    ∷ Command.sort_containers_by_cpu ∷ Command.sort_containers_by_mem
    ∷ Command.sort_containers_by_name ∷ Command.sort_containers_by_net_rx ∷ Command.stop_container
    ∷ Command.kill_container ∷ Command.restart_container ∷ Command.switch_to_kube
    ∷ Command.switch_to_gpu ∷ Command.show_help ∷ Command.toggle_pause ∷ Command.refresh_now
    ∷ Command.show_log ∷ Command.inspect_row ∷ Command.copy_row_id ∷ Command.kube_pods
    ∷ Command.kube_nodes ∷ Command.kube_deployments ∷ Command.kube_toggle_scope ∷ Command.kill_named
    ∷ Command.stop_named ∷ Command.restart_named ∷ Command.sort_by ∷ Command.filter_by
    ∷ Command.set_theme ∷ Command.go_to_tab ∷ []

unfoldable pub verb : Command → Option String
verb Command.kill_named = some "kill"
verb Command.stop_named = some "stop"
verb Command.restart_named = some "restart"
verb Command.sort_by = some "sort"
verb Command.filter_by = some "filter"
verb Command.set_theme = some "theme"
verb Command.go_to_tab = some "tab"
verb command = none

abbrev pub is_some {ℓ} : {A : Type ℓ} → Option A → Bool
is_some none = false
is_some (some a) = true

unfoldable pub is_verb_only : Command → Bool
unfolding verb
is_verb_only command = is_some (verb command)

unfoldable pub home_tab : Command → Option Tab
home_tab Command.toggle_tree_view = some Tab.processes
home_tab Command.sort_by_cpu = some Tab.processes
home_tab Command.sort_by_mem = some Tab.processes
home_tab Command.sort_by_pid = some Tab.processes
home_tab Command.sort_by_name = some Tab.processes
home_tab Command.sort_by_user = some Tab.processes
home_tab Command.kill_process = some Tab.processes
home_tab Command.force_kill_process = some Tab.processes
home_tab Command.kill_named = some Tab.processes
home_tab Command.nice_down = some Tab.processes
home_tab Command.nice_up = some Tab.processes
home_tab Command.sort_net_by_rx = some Tab.network
home_tab Command.sort_net_by_tx = some Tab.network
home_tab Command.sort_net_by_name = some Tab.network
home_tab Command.sort_net_by_errors = some Tab.network
home_tab Command.sort_containers_by_cpu = some Tab.containers
home_tab Command.sort_containers_by_mem = some Tab.containers
home_tab Command.sort_containers_by_name = some Tab.containers
home_tab Command.sort_containers_by_net_rx = some Tab.containers
home_tab Command.stop_container = some Tab.containers
home_tab Command.kill_container = some Tab.containers
home_tab Command.restart_container = some Tab.containers
home_tab Command.stop_named = some Tab.containers
home_tab Command.restart_named = some Tab.containers
home_tab Command.kube_pods = some Tab.kube
home_tab Command.kube_nodes = some Tab.kube
home_tab Command.kube_deployments = some Tab.kube
home_tab Command.kube_toggle_scope = some Tab.kube
home_tab command = none

unfoldable pub label : Command → String
label Command.quit = "Quit"
label Command.toggle_tree_view = "Toggle tree view"
label Command.sort_by_cpu = "Sort by CPU"
label Command.sort_by_mem = "Sort by Memory"
label Command.sort_by_pid = "Sort by PID"
label Command.sort_by_name = "Sort by Name"
label Command.sort_by_user = "Sort by User"
label Command.toggle_sort_order = "Toggle sort order"
label Command.cycle_sort = "Cycle sort field"
label Command.switch_to_general = "Switch to General tab"
label Command.switch_to_processes = "Switch to Processes tab"
label Command.open_filter = "Open filter"
label Command.next_tab = "Next tab"
label Command.prev_tab = "Previous tab"
label Command.kill_process = "Kill process (SIGTERM)"
label Command.force_kill_process = "Force kill (SIGKILL)"
label Command.nice_down = "Lower priority (+1)"
label Command.nice_up = "Raise priority (-1)"
label Command.clear_filter = "Clear filter"
label Command.switch_to_network = "Switch to Network tab"
label Command.sort_net_by_rx = "Sort network by RX"
label Command.sort_net_by_tx = "Sort network by TX"
label Command.sort_net_by_name = "Sort network by name"
label Command.sort_net_by_errors = "Sort network by errors"
label Command.switch_to_containers = "Switch to Containers tab"
label Command.sort_containers_by_cpu = "Sort containers by CPU"
label Command.sort_containers_by_mem = "Sort containers by memory"
label Command.sort_containers_by_name = "Sort containers by name"
label Command.sort_containers_by_net_rx = "Sort containers by network RX"
label Command.stop_container = "Stop container (SIGTERM)"
label Command.kill_container = "Kill container (SIGKILL)"
label Command.restart_container = "Restart container"
label Command.switch_to_kube = "Switch to Kubernetes tab"
label Command.switch_to_gpu = "Switch to GPU tab"
label Command.show_help = "Help — keyboard reference"
label Command.toggle_pause = "Pause / resume refresh"
label Command.refresh_now = "Refresh now"
label Command.show_log = "Message log"
label Command.inspect_row = "Inspect selected row"
label Command.copy_row_id = "Copy row identifier"
label Command.kube_pods = "Kube: Pods sub-view"
label Command.kube_nodes = "Kube: Nodes sub-view"
label Command.kube_deployments = "Kube: Deployments sub-view"
label Command.kube_toggle_scope = "Kube: toggle namespace scope"
label Command.kill_named = "Kill process by name"
label Command.stop_named = "Stop container by name"
label Command.restart_named = "Restart container by name"
label Command.sort_by = "Sort by field"
label Command.filter_by = "Filter by text"
label Command.set_theme = "Switch theme"
label Command.go_to_tab = "Switch tab by name"

unfoldable pub shortcut : Command → String
shortcut Command.quit = "q"
shortcut Command.toggle_tree_view = "t"
shortcut Command.sort_by_cpu = "F3"
shortcut Command.sort_by_mem = "F4"
shortcut Command.sort_by_pid = "F1"
shortcut Command.sort_by_name = "F2"
shortcut Command.sort_by_user = "F5"
shortcut Command.toggle_sort_order = "S"
shortcut Command.cycle_sort = "s"
shortcut Command.switch_to_general = "Alt+1"
shortcut Command.switch_to_processes = "Alt+2"
shortcut Command.open_filter = "/"
shortcut Command.next_tab = "Tab"
shortcut Command.prev_tab = "Shift+Tab"
shortcut Command.kill_process = "F9"
shortcut Command.force_kill_process = "F10"
shortcut Command.nice_down = "F7"
shortcut Command.nice_up = "F8"
shortcut Command.clear_filter = "Esc"
shortcut Command.switch_to_network = "Alt+3"
shortcut Command.sort_net_by_rx = ""
shortcut Command.sort_net_by_tx = ""
shortcut Command.sort_net_by_name = ""
shortcut Command.sort_net_by_errors = ""
shortcut Command.switch_to_containers = "Alt+4"
shortcut Command.sort_containers_by_cpu = ""
shortcut Command.sort_containers_by_mem = ""
shortcut Command.sort_containers_by_name = ""
shortcut Command.sort_containers_by_net_rx = ""
shortcut Command.stop_container = "F9"
shortcut Command.kill_container = "F10"
shortcut Command.restart_container = "F11"
shortcut Command.switch_to_kube = "Alt+5"
shortcut Command.switch_to_gpu = "Alt+6"
shortcut Command.show_help = "?"
shortcut Command.toggle_pause = "Space"
shortcut Command.refresh_now = "r"
shortcut Command.show_log = "Ctrl+L"
shortcut Command.inspect_row = "Enter"
shortcut Command.copy_row_id = "y"
shortcut Command.kube_pods = "P"
shortcut Command.kube_nodes = "N"
shortcut Command.kube_deployments = "D"
shortcut Command.kube_toggle_scope = "A"
shortcut Command.kill_named = "kill <name>"
shortcut Command.stop_named = "stop <name>"
shortcut Command.restart_named = "restart <name>"
shortcut Command.sort_by = "sort <field>"
shortcut Command.filter_by = "filter <text>"
shortcut Command.set_theme = "theme <name>"
shortcut Command.go_to_tab = "tab <name>"

unfoldable pub search_text : Command → Text
unfolding label shortcut
search_text command = codes (label command) ++ (b' ' ∷ codes (shortcut command))

unfoldable pub Command-discrete : Discrete Command
Command-discrete = hlevel

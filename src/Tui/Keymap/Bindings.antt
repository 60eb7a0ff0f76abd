-- ===== src/Tui/Keymap/Bindings.antt =====
-- The rows of the keymap, in their order (`BINDINGS` of crates/muxtop-tui/src/keymap.rs).
use muxtop.Base.{true, false, List, [], ◌∷◌, ◌++◌}
use muxtop.Base.Int.{pos, negsuc}
use muxtop.Core.Actions.{Signal}
use muxtop.Tui.Tabs.{Tab, KubeSubview, GpuSubview}
use muxtop.Tui.Keymap.Keys.{
  Binding, binding, Group, char, f, tab, back_tab, enter, esc, up, down, left, right, home, end,
  page_up, page_down, no_mods, ctrl, alt, global, on_tab, quit, help, palette, command_mode,
  toggle_pause, refresh, toggle_log, next_tab, prev_tab, go_tab, next_subview, prev_subview,
  row_down, row_up, row_page_down, row_page_up, row_half_down, row_half_up, row_first, row_last,
  col_left, col_right, open_inspector, actions_menu, copy_selection, open_filter, back, cycle_sort,
  reverse_sort, toggle_tree, renice, kill, container_stop, container_kill, container_restart,
  kube_subview, toggle_kube_scope, gpu_subview,
}

abbrev pub processes_bindings : List Binding
processes_bindings =
    binding (char b't') no_mods toggle_tree (on_tab Tab.processes) Group.table "t" "Tree view" true
      true
    ∷ binding (f 5) no_mods toggle_tree (on_tab Tab.processes) Group.table "F5" "Tree view" false
        false
    ∷ binding (f 7) no_mods (renice (pos 1)) (on_tab Tab.processes) Group.actions "F7"
        "Lower priority (nice +1)" false true
    ∷ binding (char b'-') no_mods (renice (pos 1)) (on_tab Tab.processes) Group.actions "-"
        "Lower priority (nice +1)" false false
    ∷ binding (f 8) no_mods (renice (negsuc 0)) (on_tab Tab.processes) Group.actions "F8"
        "Raise priority (nice -1)" false true
    ∷ binding (char b'+') no_mods (renice (negsuc 0)) (on_tab Tab.processes) Group.actions "+"
        "Raise priority (nice -1)" false false
    ∷ binding (f 9) no_mods (kill Signal.term) (on_tab Tab.processes) Group.actions "F9"
        "Kill process (SIGTERM)" true true
    ∷ binding (f 10) no_mods (kill Signal.kill) (on_tab Tab.processes) Group.actions "F10"
        "Force kill (SIGKILL)" false true
    ∷ []

abbrev pub containers_bindings : List Binding
containers_bindings =
    binding (f 9) no_mods container_stop (on_tab Tab.containers) Group.actions "F9" "Stop container"
      true true
    ∷ binding (f 10) no_mods container_kill (on_tab Tab.containers) Group.actions "F10"
        "Kill container" false true
    ∷ binding (f 11) no_mods container_restart (on_tab Tab.containers) Group.actions "F11"
        "Restart container" false true
    ∷ []

abbrev pub kube_bindings : List Binding
kube_bindings =
    binding (char b'P') no_mods (kube_subview KubeSubview.pods) (on_tab Tab.kube) Group.navigation
      "P" "Pods sub-view" true true
    ∷ binding (char b'N') no_mods (kube_subview KubeSubview.nodes) (on_tab Tab.kube)
        Group.navigation "N" "Nodes sub-view" false true
    ∷ binding (char b'D') no_mods (kube_subview KubeSubview.deployments) (on_tab Tab.kube)
        Group.navigation "D" "Deployments sub-view" false true
    ∷ binding (char b'A') no_mods toggle_kube_scope (on_tab Tab.kube) Group.actions "A"
        "Toggle namespace scope" true true
    ∷ []

abbrev pub gpu_bindings : List Binding
gpu_bindings =
    binding (char b'D') no_mods (gpu_subview GpuSubview.devices) (on_tab Tab.gpu) Group.navigation
      "D" "Devices sub-view" true true
    ∷ binding (char b'P') no_mods (gpu_subview GpuSubview.procs) (on_tab Tab.gpu) Group.navigation
        "P" "Processes sub-view" false true
    ∷ []

abbrev pub application_bindings : List Binding
application_bindings =
    binding (char b'q') no_mods quit global Group.app "q" "Quit" true true
    ∷ binding (char b'c') ctrl quit global Group.app "Ctrl+C" "Quit" false false
    ∷ binding (char b'?') no_mods help global Group.app "?" "Help" true true
    ∷ binding (f 1) no_mods help global Group.app "F1" "Help" false false
    ∷ binding (char b'p') ctrl palette global Group.app "Ctrl+P" "Command palette" true true
    ∷ binding (char b'k') ctrl palette global Group.app "Ctrl+K" "Command palette" false false
    ∷ binding (char b':') no_mods command_mode global Group.app ":" "Command mode" false true
    ∷ binding (char b' ') no_mods toggle_pause global Group.app "Space" "Pause / resume refresh"
        true true
    ∷ binding (char b'r') no_mods refresh global Group.app "r" "Refresh now" false true
    ∷ binding (char b'l') ctrl toggle_log global Group.app "Ctrl+L" "Message log" false true
    ∷ []

abbrev pub navigation_bindings : List Binding
navigation_bindings =
    binding tab no_mods next_tab global Group.navigation "Tab" "Next tab" true true
    ∷ binding back_tab no_mods prev_tab global Group.navigation "Shift+Tab" "Previous tab" false
        true
    ∷ binding (char b'1') alt (go_tab Tab.general) global Group.navigation "Alt+1" "General tab"
        false true
    ∷ binding (char b'2') alt (go_tab Tab.processes) global Group.navigation "Alt+2" "Processes tab"
        false true
    ∷ binding (char b'3') alt (go_tab Tab.network) global Group.navigation "Alt+3" "Network tab"
        false true
    ∷ binding (char b'4') alt (go_tab Tab.containers) global Group.navigation "Alt+4"
        "Containers tab" false true
    ∷ binding (char b'5') alt (go_tab Tab.kube) global Group.navigation "Alt+5" "Kubernetes tab"
        false true
    ∷ binding (char b'6') alt (go_tab Tab.gpu) global Group.navigation "Alt+6" "GPU tab" false true
    ∷ binding (char b']') no_mods next_subview global Group.navigation "]" "Next sub-view" false
        true
    ∷ binding (char b'[') no_mods prev_subview global Group.navigation "[" "Previous sub-view" false
        true
    ∷ []

abbrev pub row_bindings : List Binding
row_bindings =
    binding (char b'j') no_mods row_down global Group.table "j" "Move down" false true
    ∷ binding down no_mods row_down global Group.table "↓" "Move down" false false
    ∷ binding (char b'k') no_mods row_up global Group.table "k" "Move up" false true
    ∷ binding up no_mods row_up global Group.table "↑" "Move up" false false
    ∷ binding page_down no_mods row_page_down global Group.table "PgDn" "Page down" false true
    ∷ binding page_up no_mods row_page_up global Group.table "PgUp" "Page up" false true
    ∷ binding (char b'd') ctrl row_half_down global Group.table "Ctrl+D" "Half page down" false true
    ∷ binding (char b'u') ctrl row_half_up global Group.table "Ctrl+U" "Half page up" false true
    ∷ binding (char b'g') no_mods row_first global Group.table "g" "First row" false true
    ∷ binding home no_mods row_first global Group.table "Home" "First row" false false
    ∷ binding (char b'G') no_mods row_last global Group.table "G" "Last row" false true
    ∷ binding end no_mods row_last global Group.table "End" "Last row" false false
    ∷ []

abbrev pub column_bindings : List Binding
column_bindings =
    binding (char b'h') no_mods col_left global Group.table "h" "Scroll columns left" false true
    ∷ binding left no_mods col_left global Group.table "←" "Scroll columns left" false false
    ∷ binding (char b'l') no_mods col_right global Group.table "l" "Scroll columns right" false true
    ∷ binding right no_mods col_right global Group.table "→" "Scroll columns right" false false
    ∷ binding enter no_mods open_inspector global Group.table "Enter" "Inspect selected row" true
        true
    ∷ binding (char b'i') no_mods open_inspector global Group.table "i" "Inspect selected row" false
        false
    ∷ binding (char b'x') no_mods actions_menu global Group.actions "x" "Actions menu" true true
    ∷ binding (char b'y') no_mods copy_selection global Group.table "y" "Copy row identifier" false
        true
    ∷ []

abbrev pub sort_filter_bindings : List Binding
sort_filter_bindings =
    binding (char b'/') no_mods open_filter global Group.sort_filter "/" "Filter" true true
    ∷ binding (f 4) no_mods open_filter global Group.sort_filter "F4" "Filter" false false
    ∷ binding (f 3) no_mods open_filter global Group.sort_filter "F3" "Search" false false
    ∷ binding (char b's') no_mods cycle_sort global Group.sort_filter "s" "Cycle sort column" true
        true
    ∷ binding (f 6) no_mods cycle_sort global Group.sort_filter "F6" "Cycle sort column" false false
    ∷ binding (char b'S') no_mods reverse_sort global Group.sort_filter "S" "Reverse sort order"
        false true
    ∷ binding (char b'I') no_mods reverse_sort global Group.sort_filter "I" "Reverse sort order"
        false false
    ∷ binding esc no_mods back global Group.sort_filter "Esc" "Back / clear filter" false true
    ∷ []

-- Order matters: the first binding whose key and scope match wins.
unfoldable pub bindings : List Binding
bindings =
    processes_bindings
    ++ (containers_bindings
        ++ (kube_bindings
            ++ (gpu_bindings
                ++ (application_bindings
                    ++ (navigation_bindings
                        ++ (row_bindings ++ (column_bindings ++ sort_filter_bindings)))))))

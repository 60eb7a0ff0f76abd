-- ===== src/Tui/App/Dispatch.antt =====
-- Actions, whatever asked for them: a key, the palette, the actions menu
-- (`dispatch` of crates/muxtop-tui/src/app.rs).
use Prim.Native.String.{String}
use muxtop.Base.{
  ℕ, ◌+◌, ◌-◌, min, Bool, true, false, not, ◌&&◌, some, List, [], ◌∷◌, map, filter_by, ◌==◌,
  if◌then◌else◌,
}
use muxtop.Base.Int.{pos, negsuc}
use muxtop.Base.Texts.{codes}
use muxtop.Core.Process.Search.{is_empty}
use muxtop.Tui.Keymap.{for_tab, is_tab_scope}
use muxtop.Tui.Keymap.Keys.{Action, Group, Binding, is_local_only}
use muxtop.Tui.Notify.{Level}
use muxtop.Tui.Notify as Notify
use muxtop.Tui.App.Commands.{Command}
use muxtop.Tui.App.Host.{Host, Overlay, ConfirmAction}
use muxtop.Tui.App.View.{item_count, move_selection, select_index}
use muxtop.Tui.App.Edit.{
  go_to_tab, go_next, go_prev, cycle_subview, filter_editing, filter_text, set_filter_editing,
  clear_filter, cycle_sort, reverse_sort, toggle_tree, switch_kube_subview, switch_gpu_subview,
}
use muxtop.Tui.App.Palette.{refilter_ctx}
use muxtop.Tui.App.State.{AppState, is_remote, notify, quit, mark_dirty, on_view}
use muxtop.Tui.App.Requests.{
  toggle_kube_scope, request_container_action, request_kill, request_renice,
}
use muxtop.Tui.App.Overlays.{open_overlay, close_overlay, copy_selection}

-- Commands that cannot work against a remote host.
abbrev pub remote_blocked_commands : List Command
remote_blocked_commands =
    Command.kill_process ∷ Command.force_kill_process ∷ Command.kill_named ∷ Command.nice_down
    ∷ Command.nice_up ∷ Command.stop_container ∷ Command.kill_container ∷ Command.restart_container
    ∷ Command.stop_named ∷ Command.restart_named ∷ Command.kube_toggle_scope ∷ []

abbrev is_actions : Group → Bool
is_actions Group.actions = true
is_actions group = false

abbrev pub is_no_overlay : Overlay → Bool
is_no_overlay Overlay.no_overlay = true
is_no_overlay _ = false

abbrev menu_row : Binding → String × (String × Action)
menu_row b = (b.display, (b.label, b.action))

abbrev pub no_rows : {A : Type 0} → List A → Bool
no_rows [] = true
no_rows (x ∷ xs) = false

abbrev pub page : ℕ
page = 20

abbrev pub max_col_scroll : ℕ
max_col_scroll = 8

module _ {host : Host} where
  open host use {std}

  unfoldable pub excluded_commands : AppState host → List Command
  unfolding is_remote
  excluded_commands s = if is_remote s then remote_blocked_commands else []

  unfoldable pub refilter_palette : AppState host → AppState host
  unfolding excluded_commands refilter_ctx
  refilter_palette s = record s {
    palette = refilter_ctx host (excluded_commands s) (some s.view.tab) s.palette;
  }

  abbrev opened : Overlay → AppState host → AppState host
  opened overlay s = mark_dirty (
      refilter_palette
        (record s { overlay = overlay; palette = record s.palette { input = []; selected = 0 } }))

  unfoldable pub open_palette : AppState host → AppState host
  unfolding refilter_palette mark_dirty
  open_palette s = opened Overlay.palette s

  unfoldable pub open_command_line : AppState host → AppState host
  unfolding refilter_palette mark_dirty
  open_command_line s = opened Overlay.command s

  -- What `x` offers on the active tab: the key, the label and the action.
  unfoldable pub tab_actions : AppState host → List (String × (String × Action))
  unfolding for_tab is_remote
  tab_actions s = map menu_row (
      filter_by (λ b. not (is_remote s && is_local_only b.action))
        (filter_by (λ b. is_actions b.group && b.primary)
          (filter_by (λ b. is_tab_scope b.scope s.view.tab) (for_tab s.view.tab))))

  unfoldable pub go_back : AppState host → AppState host
  unfolding close_overlay filter_editing set_filter_editing filter_text clear_filter
  go_back s =
      if not (is_no_overlay s.overlay)
      then close_overlay s
      else if not (Notify.is_empty s.notifier)
      then record s { notifier = Notify.dismiss_all s.notifier }
      else if filter_editing s.view
      then on_view (set_filter_editing false) s
      else if not (is_empty (filter_text s.view))
      then on_view (clear_filter s.clock) s
      else s

  abbrev pause_toggled : AppState host → AppState host
  pause_toggled s =
      notify Level.info
        (if not s.paused then codes "Paused — press Space to resume" else codes "Resumed")
        (record s { paused = not s.paused })

  abbrev refreshed : AppState host → AppState host
  refreshed s =
      if s.paused
      then notify Level.info (codes "Resumed") (record s { paused = false })
      else notify Level.info (codes "Refreshing on the next collector tick") s

  abbrev inspected : AppState host → AppState host
  inspected s =
      if item_count s.view == 0
      then notify Level.info (codes "Nothing selected") s
      else open_overlay Overlay.inspector s

  abbrev menu_opened : AppState host → AppState host
  menu_opened s =
      if no_rows (tab_actions s)
      then notify Level.info (codes "No actions available on this tab") s
      else open_overlay Overlay.actions (record s { actions_selected = 0 })

  unfoldable pub perform : Action → AppState host → AppState host
  unfolding quit notify open_overlay open_palette open_command_line item_count tab_actions
      copy_selection go_to_tab go_next go_prev cycle_subview move_selection select_index
      set_filter_editing go_back cycle_sort reverse_sort toggle_tree request_renice request_kill
      request_container_action switch_kube_subview toggle_kube_scope switch_gpu_subview
  perform Action.quit s = quit s
  perform Action.help s = open_overlay Overlay.help s
  perform Action.palette s = open_palette s
  perform Action.command_mode s = open_command_line s
  perform Action.toggle_log s = open_overlay Overlay.log s
  perform Action.toggle_pause s = pause_toggled s
  perform Action.refresh s = refreshed s
  perform Action.next_tab s = on_view go_next s
  perform Action.prev_tab s = on_view go_prev s
  perform (Action.go_tab tab) s = on_view (go_to_tab tab) s
  perform Action.next_subview s = on_view (cycle_subview (pos 1)) s
  perform Action.prev_subview s = on_view (cycle_subview (negsuc 0)) s
  perform Action.row_down s = on_view (move_selection (pos 1)) s
  perform Action.row_up s = on_view (move_selection (negsuc 0)) s
  perform Action.row_page_down s = on_view (move_selection (pos page)) s
  perform Action.row_page_up s = on_view (move_selection (negsuc 19)) s
  perform Action.row_half_down s = on_view (move_selection (pos 10)) s
  perform Action.row_half_up s = on_view (move_selection (negsuc 9)) s
  perform Action.row_first s = on_view (select_index 0) s
  perform Action.row_last s = on_view (λ v. select_index (item_count v - 1) v) s
  perform Action.col_left s = on_view (λ v. record v { col_scroll = v.col_scroll - 1 }) s
  perform Action.col_right s =
      on_view (λ v. record v { col_scroll = min (v.col_scroll + 1) max_col_scroll }) s
  perform Action.open_inspector s = inspected s
  perform Action.actions_menu s = menu_opened s
  perform Action.copy_selection s = copy_selection s
  perform Action.open_filter s = on_view (set_filter_editing true) s
  perform Action.back s = go_back s
  perform Action.cycle_sort s = on_view cycle_sort s
  perform Action.reverse_sort s = on_view reverse_sort s
  perform Action.toggle_tree s = on_view toggle_tree s
  perform (Action.renice delta) s = request_renice delta s
  perform (Action.kill signal) s = request_kill signal s
  perform Action.container_stop s = request_container_action ConfirmAction.stop_container s
  perform Action.container_kill s = request_container_action ConfirmAction.kill_container s
  perform Action.container_restart s = request_container_action ConfirmAction.restart_container s
  perform (Action.kube_subview sv) s = on_view (switch_kube_subview sv) s
  perform Action.toggle_kube_scope s = toggle_kube_scope s
  perform (Action.gpu_subview sv) s = on_view (switch_gpu_subview sv) s

  unfoldable pub dispatch : Action → AppState host → AppState host
  unfolding is_local_only is_remote notify perform
  dispatch action s =
      if is_local_only action && is_remote s
      then notify Level.warning (codes "Actions are disabled in remote mode") s
      else perform action s

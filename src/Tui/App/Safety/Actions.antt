-- ===== src/Tui/App/Safety/Actions.antt =====
-- What `dispatch` leaves alone (crates/muxtop-tui/src/app.rs).
use muxtop.Base.{
  ◌≡◌, refl, ap, true, not, ◌&&◌, Option, none, some, if_ind, Result, ok, err, ◌==◌, arith,
}
use muxtop.Base.Int.{ℤ}
use muxtop.Core.Process.{Text, ProcessInfo}
use muxtop.Core.Actions.{Signal}
use muxtop.Core.Containers.{ContainerSnapshot}
use muxtop.Core.Process.Search.{is_empty}
use muxtop.Tui.Clipboard.{copy}
use muxtop.Tui.Keymap.Keys.{Action, is_local_only}
use muxtop.Tui.Notify as Notify
use muxtop.Tui.App.Host.{Host, ConfirmAction}
use muxtop.Tui.App.View.{item_count}
use muxtop.Tui.App.Edit.{
  filter_editing, filter_text, selected_process, selected_container, selected_identifier,
}
use muxtop.Tui.App.State.{AppState, is_remote, notify, quit}
use muxtop.Tui.App.Requests.{
  asked, asked_kill, asked_renice, toggle_kube_scope, request_container_action, request_kill,
  request_renice,
}
use muxtop.Tui.App.Overlays.{open_overlay, close_overlay, copy_selection, copied, reported_copy}
use muxtop.Tui.App.Dispatch.{tab_actions, no_rows, go_back, perform, dispatch, is_no_overlay}
use muxtop.Tui.App.Safety.{Keeps, Spares, kept, effects, effects_of, is_plain}

module _ {host : Host} where
  open host use {Terminal}

  reported_copy-kept :
      (id : Text) (r : Result Text (Unit {0}) × Terminal) (s : AppState host)
      → kept (reported_copy id r s) ≡ kept s
  unfolding notify
  reported_copy-kept id (ok u, t) s = refl
  reported_copy-kept id (err e, t) s = refl

  copied-kept : (id : Option Text) (s : AppState host) → kept (copied id s) ≡ kept s
  unfolding notify
  copied-kept none s = refl
  copied-kept (some id) s = reported_copy-kept id (copy host.write_all id s.terminal) s

  pub copy_selection-kept : (s : AppState host) → kept (copy_selection s) ≡ kept s
  unfolding copy_selection
  copy_selection-kept s = copied-kept (selected_identifier s.view) s

  pub go_back-kept : (s : AppState host) → kept (go_back s) ≡ kept s
  unfolding go_back close_overlay
  go_back-kept s = if_ind (Keeps s) (not (is_no_overlay s.overlay)) refl (
      if_ind (Keeps s) (not (Notify.is_empty s.notifier)) refl (
        if_ind (Keeps s) (filter_editing s.view) refl
          (if_ind (Keeps s) (not (is_empty (filter_text s.view))) refl refl)))

  -- An action that is neither local only nor opens the palette.
  pub perform-kept :
      (a : Action) (s : AppState host) → is_plain a ≡ true → kept (perform a s) ≡ kept s
  unfolding perform is_local_only notify open_overlay quit
  perform-kept Action.quit s h = refl
  perform-kept Action.help s h = refl
  perform-kept Action.palette s h = absurd (ground arith)
  perform-kept Action.command_mode s h = absurd (ground arith)
  perform-kept Action.toggle_pause s h = refl
  perform-kept Action.refresh s h = if_ind (Keeps s) s.paused refl refl
  perform-kept Action.toggle_log s h = refl
  perform-kept Action.next_tab s h = refl
  perform-kept Action.prev_tab s h = refl
  perform-kept (Action.go_tab tab) s h = refl
  perform-kept Action.next_subview s h = refl
  perform-kept Action.prev_subview s h = refl
  perform-kept Action.row_down s h = refl
  perform-kept Action.row_up s h = refl
  perform-kept Action.row_page_down s h = refl
  perform-kept Action.row_page_up s h = refl
  perform-kept Action.row_half_down s h = refl
  perform-kept Action.row_half_up s h = refl
  perform-kept Action.row_first s h = refl
  perform-kept Action.row_last s h = refl
  perform-kept Action.col_left s h = refl
  perform-kept Action.col_right s h = refl
  perform-kept Action.open_inspector s h = if_ind (Keeps s) (item_count s.view == 0) refl refl
  perform-kept Action.actions_menu s h = if_ind (Keeps s) (no_rows (tab_actions s)) refl refl
  perform-kept Action.copy_selection s h = copy_selection-kept s
  perform-kept Action.open_filter s h = refl
  perform-kept Action.back s h = go_back-kept s
  perform-kept Action.cycle_sort s h = refl
  perform-kept Action.reverse_sort s h = refl
  perform-kept Action.toggle_tree s h = refl
  perform-kept (Action.renice delta) s h = absurd (ground arith)
  perform-kept (Action.kill signal) s h = absurd (ground arith)
  perform-kept Action.container_stop s h = absurd (ground arith)
  perform-kept Action.container_kill s h = absurd (ground arith)
  perform-kept Action.container_restart s h = absurd (ground arith)
  perform-kept (Action.kube_subview sv) s h = refl
  perform-kept Action.toggle_kube_scope s h = absurd (ground arith)
  perform-kept (Action.gpu_subview sv) s h = refl

  asked-effects :
      (build : Text → Text → ConfirmAction) (c : Option (ContainerSnapshot host.std.F32))
      (s : AppState host)
      → effects (asked build c s) ≡ effects s
  asked-effects build none s = refl
  asked-effects build (some c) s = refl

  pub request_container_action-effects :
      (build : Text → Text → ConfirmAction) (s : AppState host)
      → effects (request_container_action build s) ≡ effects s
  unfolding request_container_action
  request_container_action-effects build s =
      if_ind (Spares s) (is_remote s) refl (asked-effects build (selected_container s.view) s)

  asked_kill-effects :
      (signal : Signal) (p : Option (ProcessInfo host.std.F32)) (s : AppState host)
      → effects (asked_kill signal p s) ≡ effects s
  unfolding notify
  asked_kill-effects signal none s = refl
  asked_kill-effects signal (some p) s = refl

  pub request_kill-effects :
      (signal : Signal) (s : AppState host) → effects (request_kill signal s) ≡ effects s
  unfolding request_kill
  request_kill-effects signal s = asked_kill-effects signal (selected_process s.view) s

  asked_renice-effects :
      (delta : ℤ) (p : Option (ProcessInfo host.std.F32)) (s : AppState host)
      → effects (asked_renice delta p s) ≡ effects s
  unfolding notify
  asked_renice-effects delta none s = refl
  asked_renice-effects delta (some p) s = refl

  pub request_renice-effects :
      (delta : ℤ) (s : AppState host) → effects (request_renice delta s) ≡ effects s
  unfolding request_renice
  request_renice-effects delta s = asked_renice-effects delta (selected_process s.view) s

  pub toggle_kube_scope-effects : (s : AppState host) → effects (toggle_kube_scope s) ≡ effects s
  unfolding toggle_kube_scope
  toggle_kube_scope-effects s = if_ind (Spares s) s.cluster_engine refl refl

  plain-effects :
      (a : Action) (s : AppState host) → is_plain a ≡ true → effects (perform a s) ≡ effects s
  plain-effects a s h = ap (effects_of host) (perform-kept a s h)

  pub perform-effects : (a : Action) (s : AppState host) → effects (perform a s) ≡ effects s
  unfolding perform is_local_only
  perform-effects Action.palette s = refl
  perform-effects Action.command_mode s = refl
  perform-effects (Action.renice delta) s = request_renice-effects delta s
  perform-effects (Action.kill signal) s = request_kill-effects signal s
  perform-effects Action.container_stop s = request_container_action-effects _ s
  perform-effects Action.container_kill s = request_container_action-effects _ s
  perform-effects Action.container_restart s = request_container_action-effects _ s
  perform-effects Action.toggle_kube_scope s = toggle_kube_scope-effects s
  perform-effects a s = plain-effects a s refl

  -- No action, from whatever it is asked, reaches a process or a container by itself.
  pub dispatch-effects : (a : Action) (s : AppState host) → effects (dispatch a s) ≡ effects s
  unfolding dispatch
  dispatch-effects a s =
      if_ind (Spares s) (is_local_only a && is_remote s) refl (perform-effects a s)

-- ===== src/Tui/App/Safety/Commands.antt =====
-- What a command of the palette leaves alone (crates/muxtop-tui/src/app.rs).
use mathlib.Core.Bool.{decide}
use muxtop.Base.{
  ◌≡◌, refl, ap, Bool, true, false, not, ◌&&◌, Option, none, some, List, [], ◌∷◌, ltb, length,
  filter_by, if_ind, inl, inr, Bool-cases, Result, ok, err, arith,
}
use muxtop.Core.Process.{Text, ProcessInfo}
use muxtop.Core.Containers.{ContainerSnapshot}
use muxtop.Tui.Tabs.{Tab}
use muxtop.Tui.Theme.{ThemeKind, parse_theme}
use muxtop.Tui.Keymap.Keys.{Action, is_local_only}
use muxtop.Tui.App.Commands.{Command, is_verb_only, Command-discrete}
use muxtop.Tui.App.Host.{Host, ConfirmAction}
use muxtop.Tui.App.View.{View}
use muxtop.Tui.App.Edit.{go_to_tab}
use muxtop.Tui.App.Palette.{has, same}
use muxtop.Tui.App.State.{AppState, is_remote, notify, on_view}
use muxtop.Tui.App.Dispatch.{dispatch, remote_blocked_commands}
use muxtop.Tui.App.Invoke.{
  kill_named, aimed, process_matches, container_named, aimed_container, sort_by_name, told_sort,
  sorted_on, set_theme, themed, go_to_tab_named, went, carry_out, execute_command, invoked,
  execute_invocation,
}
use muxtop.Tui.App.Safety.{Keeps, Spares, kept, effects, effects_of, is_plain}
use muxtop.Tui.App.Safety.Actions.{
  perform-kept, copy_selection-kept, request_kill-effects, request_renice-effects,
  request_container_action-effects, toggle_kube_scope-effects,
}

module _ {host : Host} where
  open host use {std}
  open host.std use {F32, lowercase, is_whitespace}

  pub dispatch-kept :
      (a : Action) (s : AppState host) → is_plain a ≡ true → kept (dispatch a s) ≡ kept s
  unfolding dispatch
  dispatch-kept a s h = if_ind (Keeps s) (is_local_only a && is_remote s) refl (perform-kept a s h)

  carry_out-kept :
      (cmd : Command) (s : AppState host)
      → has remote_blocked_commands cmd ≡ false
      → kept (carry_out cmd s) ≡ kept s
  unfolding carry_out is_local_only Command-discrete decide notify
  carry_out-kept Command.quit s h = dispatch-kept Action.quit s refl
  carry_out-kept Command.toggle_tree_view s h =
      dispatch-kept Action.toggle_tree (on_view (go_to_tab Tab.processes) s) refl
  carry_out-kept Command.toggle_pause s h = dispatch-kept Action.toggle_pause s refl
  carry_out-kept Command.refresh_now s h = dispatch-kept Action.refresh s refl
  carry_out-kept Command.inspect_row s h = dispatch-kept Action.open_inspector s refl
  carry_out-kept Command.copy_row_id s h = copy_selection-kept s
  carry_out-kept Command.kill_process s h = absurd (ground arith)
  carry_out-kept Command.force_kill_process s h = absurd (ground arith)
  carry_out-kept Command.nice_down s h = absurd (ground arith)
  carry_out-kept Command.nice_up s h = absurd (ground arith)
  carry_out-kept Command.stop_container s h = absurd (ground arith)
  carry_out-kept Command.kill_container s h = absurd (ground arith)
  carry_out-kept Command.restart_container s h = absurd (ground arith)
  carry_out-kept Command.kube_toggle_scope s h = absurd (ground arith)
  carry_out-kept cmd s h = refl

  plain-effects :
      (cmd : Command) (s : AppState host)
      → has remote_blocked_commands cmd ≡ false
      → effects (carry_out cmd s) ≡ effects s
  plain-effects cmd s h = ap (effects_of host) (carry_out-kept cmd s h)

  carry_out-effects : (cmd : Command) (s : AppState host) → effects (carry_out cmd s) ≡ effects s
  unfolding carry_out Command-discrete decide notify
  carry_out-effects Command.kill_process s = request_kill-effects _ s
  carry_out-effects Command.force_kill_process s = request_kill-effects _ s
  carry_out-effects Command.nice_down s = request_renice-effects _ s
  carry_out-effects Command.nice_up s = request_renice-effects _ s
  carry_out-effects Command.stop_container s = request_container_action-effects _ s
  carry_out-effects Command.kill_container s = request_container_action-effects _ s
  carry_out-effects Command.restart_container s = request_container_action-effects _ s
  carry_out-effects Command.kube_toggle_scope s =
      toggle_kube_scope-effects (on_view (go_to_tab Tab.kube) s)
  carry_out-effects Command.kill_named s = refl
  carry_out-effects Command.stop_named s = refl
  carry_out-effects Command.restart_named s = refl
  carry_out-effects cmd s = plain-effects cmd s refl

  execute_command-effects :
      (cmd : Command) (s : AppState host) → effects (execute_command cmd s) ≡ effects s
  unfolding execute_command
  execute_command-effects cmd s =
      if_ind (Spares s) (is_remote s && has remote_blocked_commands cmd) refl
        (carry_out-effects cmd s)

  -- On a remote host a command changes nothing that is kept, whichever it is.
  execute_command-kept :
      (cmd : Command) (s : AppState host)
      → is_remote s ≡ true
      → kept (execute_command cmd s) ≡ kept s
  unfolding execute_command
  execute_command-kept cmd s remote =
      rw remote (elim (Bool-cases (has remote_blocked_commands cmd)) [
        | inl e ↦ rw e refl
        | inr e ↦ rw e (carry_out-kept cmd s e)
      ])

  told_sort-kept :
      (f : Text) (r : Bool × View std) (s : AppState host) → kept (told_sort f r s) ≡ kept s
  unfolding notify
  told_sort-kept f (true, v) s = refl
  told_sort-kept f (false, v) s = refl

  sort_by_name-kept : (field : Text) (s : AppState host) → kept (sort_by_name field s) ≡ kept s
  unfolding sort_by_name
  sort_by_name-kept field s = told_sort-kept _ (sorted_on s.view.tab _ s.view) s

  themed-kept : (r : Result Text ThemeKind) (s : AppState host) → kept (themed r s) ≡ kept s
  unfolding notify
  themed-kept (ok kind) s = refl
  themed-kept (err e) s = refl

  set_theme-kept : (name : Text) (s : AppState host) → kept (set_theme name s) ≡ kept s
  unfolding set_theme
  set_theme-kept name s = themed-kept (parse_theme is_whitespace lowercase.lower name) s

  went-kept : (name : Text) (tab : Option Tab) (s : AppState host) → kept (went name tab s) ≡ kept s
  unfolding notify
  went-kept name none s = refl
  went-kept name (some tab) s = refl

  go_to_tab_named-kept : (name : Text) (s : AppState host) → kept (go_to_tab_named name s) ≡ kept s
  unfolding go_to_tab_named
  go_to_tab_named-kept name s = went-kept name _ s

  aimed-effects :
      (needle : Text) (ps : List (ProcessInfo F32)) (s : AppState host)
      → effects (aimed needle ps s) ≡ effects s
  unfolding notify
  aimed-effects needle [] s = refl
  aimed-effects needle (p ∷ ps) s = if_ind (Spares s) (ltb 1 (length (p ∷ ps))) refl refl

  kill_named-effects : (name : Text) (s : AppState host) → effects (kill_named name s) ≡ effects s
  unfolding kill_named
  kill_named-effects name s =
      aimed-effects name
        (filter_by (process_matches std (lowercase.lower name)) s.view.visible_processes) s

  aimed_container-effects :
      (needle : Text) (build : Text → Text → ConfirmAction) (c : Option (ContainerSnapshot F32))
      (s : AppState host)
      → effects (aimed_container needle build c s) ≡ effects s
  unfolding notify
  aimed_container-effects needle build none s = refl
  aimed_container-effects needle build (some c) s = refl

  container_named-effects :
      (name : Text) (build : Text → Text → ConfirmAction) (s : AppState host)
      → effects (container_named name build s) ≡ effects s
  unfolding container_named
  container_named-effects name build s =
      if_ind (Spares s) (is_remote s) refl (aimed_container-effects name build _ s)

  container_named-kept :
      (name : Text) (build : Text → Text → ConfirmAction) (s : AppState host)
      → is_remote s ≡ true
      → kept (container_named name build s) ≡ kept s
  unfolding container_named
  container_named-kept name build s remote = rw remote refl

  invoked-effects : (cmd : Command) (s : AppState host) → effects (invoked cmd s) ≡ effects s
  unfolding notify
  invoked-effects cmd s = if_ind (Spares s) (is_verb_only cmd) refl (execute_command-effects cmd s)

  invoked-kept :
      (cmd : Command) (s : AppState host) → is_remote s ≡ true → kept (invoked cmd s) ≡ kept s
  unfolding notify
  invoked-kept cmd s remote =
      if_ind (Keeps s) (is_verb_only cmd) refl (execute_command-kept cmd s remote)

  -- No command of the palette, with or without an argument, reaches a process or a container.
  pub execute_invocation-effects :
      (cmd : Command) (arg : Option Text) (s : AppState host)
      → effects (execute_invocation cmd arg s) ≡ effects s
  unfolding execute_invocation
  execute_invocation-effects cmd none s = invoked-effects cmd s
  execute_invocation-effects Command.kill_named (some name) s = kill_named-effects name s
  execute_invocation-effects Command.stop_named (some name) s = container_named-effects name _ s
  execute_invocation-effects Command.restart_named (some name) s = container_named-effects name _ s
  execute_invocation-effects Command.sort_by (some field) s =
      ap (effects_of host) (sort_by_name-kept field s)
  execute_invocation-effects Command.filter_by (some text) s = refl
  execute_invocation-effects Command.set_theme (some name) s =
      ap (effects_of host) (set_theme-kept name s)
  execute_invocation-effects Command.go_to_tab (some name) s =
      ap (effects_of host) (go_to_tab_named-kept name s)
  execute_invocation-effects cmd (some arg) s = invoked-effects cmd s

  -- On a remote host no command changes what is kept, but for the verb `kill`.
  pub execute_invocation-kept :
      (cmd : Command) (arg : Option Text) (s : AppState host)
      → is_remote s ≡ true
      → not (same Command.kill_named cmd) ≡ true
      → kept (execute_invocation cmd arg s) ≡ kept s
  unfolding execute_invocation Command-discrete decide
  execute_invocation-kept cmd none s remote h = invoked-kept cmd s remote
  execute_invocation-kept Command.kill_named (some name) s remote h = absurd (ground arith)
  execute_invocation-kept Command.stop_named (some name) s remote h =
      container_named-kept name _ s remote
  execute_invocation-kept Command.restart_named (some name) s remote h =
      container_named-kept name _ s remote
  execute_invocation-kept Command.sort_by (some field) s remote h = sort_by_name-kept field s
  execute_invocation-kept Command.filter_by (some text) s remote h = refl
  execute_invocation-kept Command.set_theme (some name) s remote h = set_theme-kept name s
  execute_invocation-kept Command.go_to_tab (some name) s remote h = go_to_tab_named-kept name s
  execute_invocation-kept cmd (some arg) s remote h = invoked-kept cmd s remote

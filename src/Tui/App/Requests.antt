-- ===== src/Tui/App/Requests.antt =====
-- What opens a confirmation and what a confirmed action does (crates/muxtop-tui/src/app.rs).
use muxtop.Base.{ℕ, true, Option, none, some, List, [], ◌∷◌, ◌++◌, if◌then◌else◌, Result, ok, err}
use muxtop.Base.Int.{ℤ, pos, ◌+ℤ◌, wrap_i32}
use muxtop.Base.Texts.{codes}
use muxtop.Core.Process.{Text, ProcessInfo}
use muxtop.Core.Actions.{Signal, CoreError, kill_process, get_process_priority, renice_process}
use muxtop.Core.Containers.{ContainerSnapshot}
use muxtop.Tui.Notify.{Level}
use muxtop.Tui.App.Host.{Host, ConfirmAction, Task, signal_name}
use muxtop.Tui.App.Edit.{first_row, selected_process, selected_container}
use muxtop.Tui.App.State.{AppState, is_remote, notify, on_view}

abbrev or_zero : {E : Type 0} → Result E ℤ → ℤ
or_zero (ok n) = n
or_zero (err e) = pos 0

module _ {host : Host} where
  open host use {std, posix, Terminal, EngineError, ClusterError, display_i32, display_error}
  open host.std use {display_u32, F32, F64}

  unfoldable pub toggle_kube_scope : AppState host → AppState host
  unfolding notify
  toggle_kube_scope s =
      if s.cluster_engine
      then on_view (λ v. record v { kube = first_row v.kube })
          (record s { tasks = Task.toggle_scope ∷ s.tasks; needs_redraw = true })
      else notify Level.warning
          (codes "Namespace scope is local-only (unavailable in remote mode / --no-kube)") s

  abbrev pub notify_all : List (Level × Text) → AppState host → AppState host
  notify_all [] s = s
  notify_all ((level, msg) ∷ rest) s = notify_all rest (notify level msg s)

  unfoldable pub pump_action_results : AppState host → AppState host
  unfolding notify
  pump_action_results s = notify_all s.action_rx (record s { action_rx = [] })

  abbrev pub asked :
      (Text → Text → ConfirmAction) → Option (ContainerSnapshot F32) → AppState host → AppState host
  asked build none s = s
  asked build (some c) s = record s { confirm = some (build c.id_full c.name) }

  unfoldable pub request_container_action :
      (Text → Text → ConfirmAction) → AppState host → AppState host
  unfolding is_remote notify selected_container
  request_container_action build s =
      if is_remote s
      then notify Level.warning (codes "Actions are disabled in remote mode") s
      else asked build (selected_container s.view) s

  abbrev no_process : AppState host → AppState host
  no_process s = notify Level.info (codes "No process selected") s

  abbrev pub asked_kill : Signal → Option (ProcessInfo F32) → AppState host → AppState host
  asked_kill signal none s = no_process s
  asked_kill signal (some p) s = record s {
    confirm = some (ConfirmAction.kill_process p.pid p.name signal);
  }

  unfoldable pub request_kill : Signal → AppState host → AppState host
  unfolding notify selected_process
  request_kill signal s = asked_kill signal (selected_process s.view) s

  abbrev pub asked_renice : ℤ → Option (ProcessInfo F32) → AppState host → AppState host
  asked_renice delta none s = no_process s
  asked_renice delta (some p) s = record s {
    confirm = some (ConfirmAction.renice_process p.pid p.name delta);
  }

  unfoldable pub request_renice : ℤ → AppState host → AppState host
  unfolding notify selected_process
  request_renice delta s = asked_renice delta (selected_process s.view) s

  abbrev spawned : Task → AppState host → AppState host
  spawned task s =
      if s.container_engine
      then record s { tasks = task ∷ s.tasks }
      else notify Level.error (codes "No container engine is configured") s

  abbrev reported_kill :
      ℕ
      → Text
      → Signal
      → Result (CoreError EngineError ClusterError) (Unit {0}) × host.posix.Os
      → AppState host
      → AppState host
  reported_kill pid name signal (ok u, os) s =
      notify Level.success
        (codes "Sent "
          ++ (signal_name signal
              ++ (codes " to " ++ (name ++ (codes " (PID " ++ (display_u32 pid ++ codes ")"))))))
        (record s { os = os })
  reported_kill pid name signal (err e, os) s =
      notify Level.error (codes "Kill failed: " ++ display_error e) (record s { os = os })

  abbrev reported_renice :
      ℕ
      → Text
      → ℤ
      → Result (CoreError EngineError ClusterError) (Unit {0}) × host.posix.Os
      → AppState host
      → AppState host
  reported_renice pid name new_nice (ok u, os) s =
      notify Level.success
        (codes "Reniced "
          ++ (name
              ++ (codes " (PID "
                  ++ (display_u32 pid ++ (codes ") to nice=" ++ display_i32 new_nice)))))
        (record s { os = os })
  reported_renice pid name new_nice (err e, os) s =
      notify Level.error (codes "Renice failed: " ++ display_error e) (record s { os = os })

  abbrev reniced :
      ℕ
      → Text
      → ℤ
      → Result (CoreError EngineError ClusterError) ℤ × host.posix.Os
      → AppState host
      → AppState host
  reniced pid name delta (current, os) s =
      let new_nice = wrap_i32 (or_zero current +ℤ delta) in
      reported_renice pid name new_nice
        (renice_process EngineError ClusterError posix pid new_nice os) s

  unfoldable pub execute_confirm : ConfirmAction → AppState host → AppState host
  unfolding notify signal_name
  execute_confirm (ConfirmAction.kill_process pid name signal) s =
      reported_kill pid name signal (kill_process EngineError ClusterError posix pid signal s.os) s
  execute_confirm (ConfirmAction.renice_process pid name delta) s =
      reniced pid name delta (get_process_priority EngineError ClusterError posix pid s.os) s
  execute_confirm (ConfirmAction.stop_container id name) s = spawned (Task.stop id name) s
  execute_confirm (ConfirmAction.kill_container id name) s = spawned (Task.kill id name) s
  execute_confirm (ConfirmAction.restart_container id name) s = spawned (Task.restart id name) s

-- ===== src/Tui/App/Safety/Runs.antt =====
-- A viewer of a remote host, over a whole run of the main loop
-- (crates/muxtop-tui/src/lib.rs, crates/muxtop-tui/src/app.rs).
use muxtop.Base.{◌≡◌, refl, ◌∙◌, Bool, false, not, ◌||◌, Option, none, some, List, [], ◌∷◌, if_ind}
use muxtop.Core.Process.{Text}
use muxtop.Core.Containers.{ContainersSnapshot}
use muxtop.Tui.Notify.{Level}
use muxtop.Tui.App.Host.{Host}
use muxtop.Tui.App.State.{
  AppState, notify, mark_dirty, advance, take_needs_redraw, apply_snapshot, with_containers,
}
use muxtop.Tui.App.Requests.{pump_action_results, notify_all}
use muxtop.Tui.App.Dispatch.{is_no_overlay}
use muxtop.Tui.App.Input.{MouseEventKind, handle_mouse_event, wheel_on_overlay, wheel_on_table}
use muxtop.Tui.App.Loop.{Event, Turn, handled, drawn, received, turn, run}
use muxtop.Tui.App.Safety.{Keeps, kept}
use muxtop.Tui.App.Safety.Remote.{IsViewer, Frozen, kept-Frozen, handle_key_event-Frozen}

module _ {host : Host} where
  wheel_on_overlay-kept :
      (m : MouseEventKind) (s : AppState host) → kept (wheel_on_overlay m s) ≡ kept s
  unfolding mark_dirty
  wheel_on_overlay-kept MouseEventKind.scroll_down s = refl
  wheel_on_overlay-kept MouseEventKind.scroll_up s = refl
  wheel_on_overlay-kept MouseEventKind.other s = refl

  wheel_on_table-kept :
      (m : MouseEventKind) (s : AppState host) → kept (wheel_on_table m s) ≡ kept s
  unfolding mark_dirty
  wheel_on_table-kept MouseEventKind.scroll_down s = refl
  wheel_on_table-kept MouseEventKind.scroll_up s = refl
  wheel_on_table-kept MouseEventKind.other s = refl

  handle_mouse_event-kept :
      (m : MouseEventKind) (s : AppState host) → kept (handle_mouse_event m s) ≡ kept s
  unfolding handle_mouse_event
  handle_mouse_event-kept m s =
      if_ind (Keeps s) (not (is_no_overlay s.overlay)) (wheel_on_overlay-kept m s)
        (wheel_on_table-kept m s)

  with_containers-kept :
      (cs : Option (ContainersSnapshot host.std.F32)) (s : AppState host)
      → kept (with_containers cs s) ≡ kept s
  with_containers-kept none s = refl
  with_containers-kept (some cs) s = refl

  apply_snapshot-kept : (snap : _) (s : AppState host) → kept (apply_snapshot snap s) ≡ kept s
  unfolding apply_snapshot mark_dirty
  apply_snapshot-kept snap s =
      if_ind (Keeps s) s.paused refl (with_containers-kept snap.containers s)

  notify_all-kept :
      (sent : List (Level × Text)) (s : AppState host) → kept (notify_all sent s) ≡ kept s
  unfolding notify
  notify_all-kept [] s = refl
  notify_all-kept ((level, msg) ∷ rest) s = notify_all-kept rest (notify level msg s)

  pump_action_results-kept : (s : AppState host) → kept (pump_action_results s) ≡ kept s
  unfolding pump_action_results
  pump_action_results-kept s = notify_all-kept s.action_rx (record s { action_rx = [] })

  abbrev settled : AppState host → AppState host
  settled s = record s { needs_redraw = false }

  handled-Frozen : (e : Event host) (s : AppState host) → IsViewer s → Frozen s (handled e s).1
  handled-Frozen (Event.key k) s v = handle_key_event-Frozen k s v
  handled-Frozen (Event.mouse m) s v =
      kept-Frozen s (handle_mouse_event m s) v (handle_mouse_event-kept m s)
  handled-Frozen (Event.snapshot snap) s v =
      kept-Frozen s (apply_snapshot snap s) v (apply_snapshot-kept snap s)
  handled-Frozen (Event.resize w h) s v = kept-Frozen s s v refl
  handled-Frozen Event.tick s v = kept-Frozen s (handled Event.tick s).1 v refl

  drawn-Frozen :
      (pending : Bool) (s : AppState host) (r : Bool × AppState host)
      → Frozen s r.1
      → Frozen s (drawn pending r)
  unfolding advance
  drawn-Frozen pending s (any, t) f = if_ind (Frozen s) (pending || any) f f

  Frozen-trans : (s t u : AppState host) → Frozen s t → Frozen t u → Frozen s u
  Frozen-trans s t u ((os, tasks), v) ((os', tasks'), v') = ((os' ∙ os, tasks' ∙ tasks), v')

  turn-Frozen : (t : Turn host) (s : AppState host) → IsViewer s → Frozen s (turn t s)
  unfolding turn take_needs_redraw
  turn-Frozen t s v =
      let p = pump_action_results (received t s) in
      let quiet = kept-Frozen s (settled p) v (pump_action_results-kept (received t s)) in
      let (same, v') = quiet in
      Frozen-trans s (settled p) (turn t s) quiet (
        drawn-Frozen p.needs_redraw (settled p) (handled t.event (settled p))
          (handled-Frozen t.event (settled p) v'))

  -- While the program views a remote host, no confirmation is open and the palette does not list the
  -- verb `kill`, no run of the main loop, whatever keys, wheel, snapshots, resizes and messages it is
  -- given, calls the operating system, starts a task or opens a confirmation.
  pub run-Frozen : (ts : List (Turn host)) (s : AppState host) → IsViewer s → Frozen s (run ts s)
  unfolding run
  run-Frozen [] s v = kept-Frozen s s v refl
  run-Frozen (t ∷ ts) s v =
      let first = turn-Frozen t s v in
      let (same, v') = first in
      if_ind (Frozen s) s.running
        (Frozen-trans s (turn t s) (run ts (turn t s)) first (run-Frozen ts (turn t s) v'))
        (kept-Frozen s s v refl)

-- ===== src/Tui/App/Loop.antt =====
-- One turn of the main loop after another (`run` of crates/muxtop-tui/src/lib.rs, without the
-- drawing). A turn starts with the time and with what the tasks have sent since the last one.
use muxtop.Base.{ℕ, Bool, true, ◌||◌, List, [], ◌∷◌, ◌++◌, if◌then◌else◌}
use muxtop.Core.Process.{Text}
use muxtop.Core.System.{SystemSnapshot}
use muxtop.Tui.Notify.{Level}
use muxtop.Tui.Notify as Notify
use muxtop.Tui.App.Host.{Host}
use muxtop.Tui.App.State.{AppState, advance, take_needs_redraw, apply_snapshot}
use muxtop.Tui.App.Requests.{pump_action_results}
use muxtop.Tui.App.Input.{KeyEvent, MouseEventKind, handle_key_event, handle_mouse_event}

pub data Event (host : Host) : Type 0 where
  tick : Event host
  key : KeyEvent → Event host
  mouse : MouseEventKind → Event host
  resize : ℕ → ℕ → Event host
  snapshot : SystemSnapshot host.std.F32 host.std.F64 → Event host

pub record Turn (host : Host) : Type 0 where
  pub now : ℕ
  pub sent : List (Level × Text)
  pub event : Event host

module _ {host : Host} where
  abbrev expired : Bool × Notify.Notifier → AppState host → Bool × AppState host
  expired (any, notifier) s = (any, record s { notifier = notifier })

  -- The flag says whether the event asks for a frame.
  abbrev pub handled : Event host → AppState host → Bool × AppState host
  handled (Event.key k) s = (true, handle_key_event k s)
  handled (Event.mouse m) s = (true, handle_mouse_event m s)
  handled (Event.snapshot snap) s = (true, apply_snapshot snap s)
  handled (Event.resize w h) s = (true, s)
  handled Event.tick s = expired (Notify.expire s.clock s.notifier) s

  abbrev pub drawn : Bool → Bool × AppState host → AppState host
  drawn pending (any, s) = if pending || any then advance s else s

  abbrev pub received : Turn host → AppState host → AppState host
  received t s = record s { clock = t.now; action_rx = s.action_rx ++ t.sent }

  abbrev pub taken : Event host → Bool × AppState host → AppState host
  taken e (pending, s) = drawn pending (handled e s)

  unfoldable pub turn : Turn host → AppState host → AppState host
  unfolding pump_action_results take_needs_redraw handle_key_event handle_mouse_event apply_snapshot
      advance Notify.expire
  turn t s = taken t.event (take_needs_redraw (pump_action_results (received t s)))

  -- `while app.running()`, for as many turns as events come.
  unfoldable pub run : List (Turn host) → AppState host → AppState host
  unfolding turn
  run [] s = s
  run (t ∷ ts) s = let rest = run ts (turn t s) in if s.running then rest else s

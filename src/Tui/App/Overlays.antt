-- ===== src/Tui/App/Overlays.antt =====
-- The overlays, and the copy of a row (crates/muxtop-tui/src/app.rs).
use muxtop.Base.{true, Option, none, some, [], ◌++◌, Result, ok, err}
use muxtop.Base.Texts.{codes}
use muxtop.Core.Process.{Text}
use muxtop.Tui.Notify.{Level}
use muxtop.Tui.Clipboard.{copy}
use muxtop.Tui.App.Host.{Host, Overlay}
use muxtop.Tui.App.Edit.{selected_identifier}
use muxtop.Tui.App.State.{AppState, notify}

module _ {host : Host} where
  open host use {std, posix, Terminal, EngineError, ClusterError, display_i32, display_error}
  open host.std use {display_u32, F32, F64}

  unfoldable pub open_overlay : Overlay → AppState host → AppState host
  open_overlay overlay s = record s { overlay = overlay; overlay_scroll = 0; needs_redraw = true }

  unfoldable pub close_overlay : AppState host → AppState host
  close_overlay s = record s {
    overlay = Overlay.no_overlay;
    overlay_scroll = 0;
    palette = record s.palette { input = []; selected = 0; arg = none };
    needs_redraw = true;
  }

  abbrev pub reported_copy :
      Text → Result Text (Unit {0}) × Terminal → AppState host → AppState host
  reported_copy id (ok u, t) s =
      notify Level.success (codes "Copied " ++ id) (record s { terminal = t })
  reported_copy id (err e, t) s =
      notify Level.error (codes "Clipboard unavailable: " ++ e) (record s { terminal = t })

  abbrev pub copied : Option Text → AppState host → AppState host
  copied none s = notify Level.info (codes "Nothing selected") s
  copied (some id) s = reported_copy id (copy host.write_all id s.terminal) s

  unfoldable pub copy_selection : AppState host → AppState host
  unfolding notify selected_identifier copy
  copy_selection s = copied (selected_identifier s.view) s

-- ===== src/Tui/App/Examples.antt =====
-- The application of crates/muxtop-tui/src/app.rs at concrete inputs.
use mathlib.Core.Bool.{decide}
use muxtop.Base.{ℕ, ◌≡◌, refl, true, false, none, some, List, [], ◌∷◌, arith}
use muxtop.Base.Int.{pos}
use muxtop.Base.Texts.{codes}
use muxtop.Core.Process.{ProcessInfo}
use muxtop.Core.Actions.{kill_process}
use muxtop.Core.Actions.Examples.{willing, idle}
use muxtop.Core.Std.Plain.{plain}
use muxtop.Core.System.{SystemSnapshot}
use muxtop.Tui.Tabs.{Tab}
use muxtop.Tui.Keymap.Keys.{
  KeyCode, no_mods, KeyCode-discrete, KeyModifiers-discrete, normalise, scope_matches,
}
use muxtop.Tui.Keymap.Bindings.{bindings}
use muxtop.Tui.App.Commands.{is_verb_only, verb, Command-discrete}
use muxtop.Tui.App.Host.{Host, ConnectionMode}
use muxtop.Tui.App.View.{item_count, process_count, move_selection, select_index, scroll_rows}
use muxtop.Tui.App.View.Selection.{LandsOn, rows-LandsOn}
use muxtop.Tui.App.Palette.{PaletteState, refilter_ctx}
use muxtop.Tui.App.State.{AppState, new, new_view}
use muxtop.Tui.App.Palette as Palette
use muxtop.Tui.App.Palette.Offers.{all_allowed, refilter_ctx-allowed}
use muxtop.Tui.App.Edit.{after_filter_change, write_filter, set_filter, clear_filter}
use muxtop.Tui.App.Edit.Clamped.{IsClamped, filters-IsClamped}
use muxtop.Tui.App.Input.{KeyEvent, handle_key_event}
use muxtop.Tui.App.Dispatch.{remote_blocked_commands}
use muxtop.Tui.App.Loop.{Event, Turn, run}
use muxtop.Tui.App.Safety.{effects}
use muxtop.Tui.App.Safety.Keys.{handle_key_event-effects}
use muxtop.Tui.App.Safety.Remote.{IsViewer, Frozen}
use muxtop.Tui.App.Safety.Runs.{run-Frozen}

abbrev terminal_free : Host
terminal_free = record {
  std = plain;
  posix = willing;
  Terminal = List ℕ;
  write_all = λ bs t. (true, bs);
  EngineError = Unit;
  ClusterError = Unit;
  display_i32 = λ z. codes "?";
  display_error = λ e. codes "error";
  fuzzy_score = λ query haystack. some 1;
}

abbrev proc : ℕ → ProcessInfo ℕ
proc pid = record {
  pid = pid;
  parent_pid = none;
  name = codes "sleep";
  command = codes "sleep 9";
  user = codes "u";
  cpu_percent = pid;
  memory_bytes = 0;
  memory_percent = 0;
  status = codes "Running";
}

abbrev two_processes : SystemSnapshot ℕ ℕ
two_processes = record {
  cpu = record { global_usage = 0; cores = [] };
  memory = record { total = 0; used = 0; available = 0; swap_total = 0; swap_used = 0 };
  load = record { one = 0; five = 0; fifteen = 0; uptime_secs = 0 };
  processes = proc 7 ∷ proc 9 ∷ [];
  networks = record { interfaces = []; total_rx = 0; total_tx = 0 };
  containers = none;
  kube = none;
  gpu = none;
  timestamp_ms = 0;
}

abbrev started : AppState terminal_free
started = new idle [] 0

-- The process table with two rows, the second of them selected.
abbrev table : AppState terminal_free
table = record started {
  view = record new_view {
    tab = Tab.processes;
    main = record { selected = 1; scroll_offset = 0; filter_input = []; filter_active = false };
    last_snapshot = some two_processes;
    visible_processes = proc 9 ∷ proc 7 ∷ [];
  };
}

abbrev viewer : AppState terminal_free
viewer = record table { connection_mode = ConnectionMode.remote (codes "h") (codes "h:4242") }

abbrev press : KeyCode → KeyEvent
press code = record { code = code; modifiers = no_mods }

abbrev pressed : KeyCode → Turn terminal_free
pressed code = record { now = 1; sent = []; event = Event.key (press code) }

viewer-IsViewer : IsViewer viewer
unfolding new new_view Palette.new is_verb_only verb decide Command-discrete
viewer-IsViewer = (refl, (refl, refl))

-- F9, then the typed command `kill s` and Enter.
abbrev attempts : List (Turn terminal_free)
attempts =
    record { now = 1; sent = []; event = Event.snapshot two_processes }
    ∷ pressed (KeyCode.f 9)
    ∷ pressed (KeyCode.char b':')
    ∷ pressed (KeyCode.char b'k')
    ∷ pressed KeyCode.enter
    ∷ []

run-Frozen_example : Frozen viewer (run attempts viewer)
run-Frozen_example = run-Frozen attempts viewer viewer-IsViewer

-- F9 on the process table opens a dialog and does no more.
handle_key_event-effects_example :
    effects (handle_key_event (press (KeyCode.f 9)) table) ≡ effects table
unfolding new
handle_key_event-effects_example = handle_key_event-effects (press (KeyCode.f 9)) table refl

two_rows : item_count table.view ≡ 2
unfolding new item_count process_count
two_rows = refl

rows-LandsOn_example :
    LandsOn table.view (move_selection (pos 20) table.view)
    × (LandsOn table.view (select_index 5 table.view)
        × LandsOn table.view (scroll_rows (pos 20) table.view))
rows-LandsOn_example = rows-LandsOn (pos 20) 5 table.view (rw two_rows (omega arith))

filters-IsClamped_example :
    IsClamped (after_filter_change false 3 (write_filter (codes "zz") table.view))
    × (IsClamped (set_filter (codes "zz") 3 table.view) × IsClamped (clear_filter 3 table.view))
filters-IsClamped_example = filters-IsClamped (codes "zz") 3 table.view

-- What is typed after `:` names the verb that a viewer is not offered.
abbrev typed_kill : PaletteState
typed_kill = record Palette.new { input = codes "kill s" }

refilter_ctx-allowed_example :
    all_allowed remote_blocked_commands
      (refilter_ctx terminal_free remote_blocked_commands (some Tab.processes) typed_kill)
    ≡ true
refilter_ctx-allowed_example =
    refilter_ctx-allowed terminal_free remote_blocked_commands (some Tab.processes) typed_kill

-- F9 and then y: the second process is signalled, once.
f9_then_y :
    (handle_key_event
      (press (KeyCode.char b'y'))
      (handle_key_event (press (KeyCode.f 9)) table)).os.calls
    ≡ pos 7 ∷ []
unfolding handle_key_event decide KeyCode-discrete new bindings KeyModifiers-discrete normalise
    scope_matches kill_process
f9_then_y = refl

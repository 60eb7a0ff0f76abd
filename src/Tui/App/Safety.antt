-- ===== src/Tui/App/Safety.antt =====
-- What reaches a process or a container, and when (crates/muxtop-tui/src/app.rs).
pub mod Actions
pub mod Commands
pub mod Keys
pub mod Remote
pub mod Runs
use muxtop.Base.{ℕ, ◌≡◌, Bool, true, false, not, ◌&&◌, Option, List, filter_by}
use muxtop.Tui.Keymap.Keys.{Action, is_local_only}
use muxtop.Tui.App.Commands.{Command}
use muxtop.Tui.App.Host.{Host, ConnectionMode, ConfirmAction, Task}
use muxtop.Tui.App.State.{AppState}

-- The parts of the state that a key of the tables leaves alone.
abbrev pub Kept : Host → Type 0
Kept host =
    host.posix.Os
    × (List Task × (Option ConfirmAction × (ConnectionMode × List (Command × Option ℕ))))

abbrev pub kept : {host : Host} → AppState host → Kept host
kept s = (s.os, (s.tasks, (s.confirm, (s.connection_mode, s.palette.filtered))))

abbrev pub is_destructive : Task → Bool
is_destructive (Task.stop id name) = true
is_destructive (Task.kill id name) = true
is_destructive (Task.restart id name) = true
is_destructive Task.toggle_scope = false

-- The operating system, and the tasks that stop, kill or restart a container.
abbrev pub effects : {host : Host} → AppState host → host.posix.Os × List Task
effects s = (s.os, filter_by is_destructive s.tasks)

abbrev pub effects_of : (host : Host) → Kept host → host.posix.Os × List Task
effects_of host (os, (tasks, rest)) = (os, filter_by is_destructive tasks)

abbrev pub Keeps : {host : Host} → AppState host → AppState host → Type 0
Keeps s t = kept t ≡ kept s

abbrev pub Spares : {host : Host} → AppState host → AppState host → Type 0
Spares s t = effects t ≡ effects s

abbrev pub opens_palette : Action → Bool
opens_palette Action.palette = true
opens_palette Action.command_mode = true
opens_palette _ = false

abbrev pub is_plain : Action → Bool
is_plain a = not (is_local_only a) && not (opens_palette a)

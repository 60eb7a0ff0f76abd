-- ===== src/Tui/App/Host.antt =====
-- What the application takes from outside, and the modes of crates/muxtop-tui/src/app.rs.
--
-- The standard library (`Std`), the system calls (`Posix`), the terminal, the fuzzy matcher, the
-- printing of numbers and the engines are a record of functions. A task that the application spawns
-- for an engine is a value; when it ends, its message comes back as an event.
use muxtop.Base.{ℕ, zero, suc, Bool, true, false, Option, List, ◌++◌, take}
use muxtop.Base.Int.{ℤ, pos, negsuc}
use muxtop.Base.Texts.{codes}
use muxtop.Core.Process.{Text}
use muxtop.Core.Actions.{Signal, Posix, CoreError}
use muxtop.Core.Std.{Std}
use muxtop.Tui.Sanitize.{scrub_ctrl}

pub record Host : Type 1 where
  pub std : Std
  pub posix : Posix
  pub Terminal : Type 0
  pub write_all : List ℕ → Terminal → Bool × Terminal
  pub EngineError : Type 0
  pub ClusterError : Type 0
  -- `to_string` of signed numbers and of errors.
  pub display_i32 : ℤ → Text
  pub display_error : CoreError EngineError ClusterError → Text
  -- The score of a haystack for a query, by the crate nucleo.
  pub fuzzy_score : Text → Text → Option ℕ

pub data Overlay : Type 0 where
  no_overlay palette command help actions inspector log : Overlay

unfoldable pub is_text_input : Overlay → Bool
is_text_input Overlay.palette = true
is_text_input Overlay.command = true
is_text_input o = false

-- The address of a remote server is a text.
pub data ConnectionMode : Type 0 where
  local : ConnectionMode
  remote : Text → Text → ConnectionMode

pub data ConfirmAction : Type 0 where
  kill_process : ℕ → Text → Signal → ConfirmAction
  renice_process : ℕ → Text → ℤ → ConfirmAction
  stop_container kill_container restart_container : Text → Text → ConfirmAction

unfoldable pub short_id : Text → Text
short_id id = take 12 id

unfoldable pub signal_name : Signal → Text
signal_name Signal.kill = codes "SIGKILL"
signal_name Signal.term = codes "SIGTERM"

abbrev is_positive : ℤ → Bool
is_positive (pos n) = elim n [ zero ↦ false | suc m ↦ true ]
is_positive (negsuc n) = false

abbrev direction : Bool → Text
direction true = codes "lower priority (+1)"
direction false = codes "higher priority (-1)"

-- The prompt of the confirmation dialog.
unfoldable pub prompt : (ℕ → Text) → ConfirmAction → Text
unfolding signal_name short_id
prompt display_u32 (kill_process pid name signal) =
    codes "Send "
    ++ (signal_name signal
        ++ (codes " to "
            ++ (scrub_ctrl name ++ (codes " (PID " ++ (display_u32 pid ++ codes ")?  [y/n]")))))
prompt display_u32 (renice_process pid name delta) =
    codes "Renice "
    ++ (scrub_ctrl name
        ++ (codes " (PID "
            ++ (display_u32 pid
                ++ (codes ") to " ++ (direction (is_positive delta) ++ codes "?  [y/n]")))))
prompt display_u32 (stop_container id name) =
    codes "Stop container "
    ++ (scrub_ctrl name ++ (codes " (" ++ (short_id id ++ codes ")?  [y/n]")))
prompt display_u32 (kill_container id name) =
    codes "Kill container "
    ++ (scrub_ctrl name ++ (codes " (" ++ (short_id id ++ codes ")?  [y/n]")))
prompt display_u32 (restart_container id name) =
    codes "Restart container "
    ++ (scrub_ctrl name ++ (codes " (" ++ (short_id id ++ codes ")?  [y/n]")))

-- A future that runs beside the application.
pub data Task : Type 0 where
  stop kill restart : Text → Text → Task
  toggle_scope : Task

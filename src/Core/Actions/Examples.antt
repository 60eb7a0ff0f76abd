-- ===== src/Core/Actions/Examples.antt =====
-- An operating system that logs the process ids of its calls (crates/muxtop-core/src/actions.rs).
use muxtop.Base.{ℕ, ◌^◌, ◌-◌, ◌≡◌, inr, err, arith, List, [], ◌∷◌}
use muxtop.Base.Int.{ℤ, pos, negsuc}
use muxtop.Core.Actions.{
  Signal, process_not_found, Posix, kill_process, renice_process, get_process_priority,
}
use muxtop.Core.Actions.Pids.{invalid_pids_refused}

pub record System : Type 0 where
  pub calls : List ℤ
  pub code : ℕ

abbrev pub logged : ℤ → System → System
logged pid s = record s { calls = pid ∷ s.calls }

-- Every call succeeds, and every process has the nice value -1.
abbrev pub willing : Posix
willing = record {
  Os = System;
  kill = λ pid sig s. (pos 0, logged pid s);
  setpriority = λ which who nice s. (pos 0, logged (pos who) s);
  getpriority = λ which who s. (negsuc 0, logged (pos who) s);
  errno = λ s. s.code;
  set_errno_raw = λ code s. record s { code = code };
  sigterm = 15;
  sigkill = 9;
  esrch = 3;
  eperm = 1;
  prio_process = 0;
}

abbrev pub idle : System
idle = record { calls = []; code = 7 }

-- The process id that wraps to -1.
abbrev all_ones : ℕ
all_ones = 2 ^ 32 - 1

invalid_pids_refused_example :
    (kill_process Unit Unit willing all_ones Signal.kill idle
      ≡ (err (process_not_found all_ones), idle))
    × (renice_process Unit Unit willing all_ones (negsuc 4) idle
        ≡ (err (process_not_found all_ones), idle))
    × (get_process_priority Unit Unit willing all_ones idle
        ≡ (err (process_not_found all_ones), idle))
invalid_pids_refused_example =
    invalid_pids_refused Unit Unit willing all_ones Signal.kill (negsuc 4) idle (inr (omega arith))

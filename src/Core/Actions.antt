-- ===== src/Core/Actions.antt =====
-- Signals and nice values (crates/muxtop-core/src/actions.rs and error.rs), on POSIX.
--
-- The system calls are a parameter: a record of functions of the state of the operating system,
-- which includes `errno`. The text of an error message is kept as the values it is formatted from.
pub mod Pids
pub mod Examples
use muxtop.Base.{
  ℕ, zero, suc, ◌+◌, ◌-◌, ◌*◌, ◌^◌, Bool, true, false, Option, none, some, List, Result, ok, err,
  leb, ◌==◌, if◌then◌else◌,
}
use muxtop.Base.Int.{ℤ, pos, negsuc}
use muxtop.Core.Process.{Text}

pub data Signal : Type 0 where
  term kill : Signal

-- What is denied in the text of a permission error.
pub data Denied : Type 0 where
  sending : Signal → ℕ → Denied
  changing : ℕ → ℤ → Denied
  reading : ℕ → Denied

-- An I/O error is its `errno`.
pub data CoreError (EngineError ClusterError : Type 0) : Type 0 where
  collection : Text → CoreError EngineError ClusterError
  process_not_found : ℕ → CoreError EngineError ClusterError
  permission : Denied → CoreError EngineError ClusterError
  io : ℕ → CoreError EngineError ClusterError
  channel_closed : CoreError EngineError ClusterError
  engine : EngineError → CoreError EngineError ClusterError
  cluster : ClusterError → CoreError EngineError ClusterError

-- The calls of `libc` and its constants.
pub record Posix : Type 1 where
  pub Os : Type 0
  pub kill : ℤ → ℕ → Os → ℤ × Os
  pub setpriority : ℕ → ℕ → ℤ → Os → ℤ × Os
  pub getpriority : ℕ → ℕ → Os → ℤ × Os
  pub errno : Os → ℕ
  pub set_errno_raw : ℕ → Os → Os
  pub sigterm : ℕ
  pub sigkill : ℕ
  pub esrch : ℕ
  pub eperm : ℕ
  pub prio_process : ℕ

-- `i32::try_from` of a `u32`.
abbrev pub try_from : ℕ → Option ℤ
try_from n = if leb n (2 ^ 31 - 1) then some (pos n) else none

abbrev pub is_zero : ℤ → Bool
is_zero (pos zero) = true
is_zero (pos (suc n)) = false
is_zero (negsuc n) = false

abbrev pub is_nonpositive : ℤ → Bool
is_nonpositive (pos n) = is_zero (pos n)
is_nonpositive (negsuc n) = true

-- The cast of an `i32` to the unsigned `id_t`.
abbrev pub as_id_t : ℤ → ℕ
as_id_t (pos n) = n
as_id_t (negsuc n) = 2 ^ 32 - 1 - n

unfoldable pub as_libc : Posix → Signal → ℕ
as_libc posix Signal.term = posix.sigterm
as_libc posix Signal.kill = posix.sigkill

module _ (EngineError ClusterError : Type 0) where
  abbrev pub positive_pid : ℕ → Option ℤ → Result (CoreError EngineError ClusterError) ℤ
  positive_pid pid none = err (process_not_found pid)
  positive_pid pid (some pid_i32) =
      if is_nonpositive pid_i32 then err (process_not_found pid) else ok pid_i32

  unfoldable pub validate_pid : ℕ → Result (CoreError EngineError ClusterError) ℤ
  validate_pid pid = positive_pid pid (try_from pid)

  module _ (posix : Posix) where
    open posix use {Os, setpriority, getpriority, errno, set_errno_raw, esrch, eperm, prio_process}

    -- The error that an `errno` stands for.
    abbrev pub error_of :
        {A : Type 0} → ℕ → Denied → ℕ → Result (CoreError EngineError ClusterError) A
    error_of pid denied code =
        if code == esrch
        then err (process_not_found pid)
        else if code == eperm
        then err (permission denied)
        else err (io code)

    -- `validate_pid(pid)?` before a call.
    abbrev pub checked :
        {A : Type 0}
        → Result (CoreError EngineError ClusterError) ℤ
        → (ℤ → Os → Result (CoreError EngineError ClusterError) A × Os)
        → Os
        → Result (CoreError EngineError ClusterError) A × Os
    checked (ok pid_i32) call os = call pid_i32 os
    checked (err e) call os = (err e, os)

    abbrev pub kill_result :
        ℕ → Signal → ℤ × Os → Result (CoreError EngineError ClusterError) (Unit {0}) × Os
    kill_result pid signal (ret, os) =
        (if is_zero ret then ok tt else error_of pid (sending signal pid) (errno os), os)

    unfoldable pub kill_process :
        ℕ → Signal → Os → Result (CoreError EngineError ClusterError) (Unit {0}) × Os
    unfolding validate_pid as_libc
    kill_process pid signal os =
        checked (validate_pid pid)
          (λ pid_i32 s. kill_result pid signal (posix.kill pid_i32 (as_libc posix signal) s)) os

    abbrev pub renice_result :
        ℕ → ℤ → ℤ × Os → Result (CoreError EngineError ClusterError) (Unit {0}) × Os
    renice_result pid nice_value (ret, os) = (
      if is_zero ret
          then ok tt
          else if errno os == 0
          then ok tt
          else error_of pid (changing pid nice_value) (errno os),
      os,
    )

    unfoldable pub renice_process :
        ℕ → ℤ → Os → Result (CoreError EngineError ClusterError) (Unit {0}) × Os
    unfolding validate_pid
    renice_process pid nice_value os =
        checked (validate_pid pid)
          (λ pid_i32 s.
            renice_result pid nice_value
              (setpriority prio_process (as_id_t pid_i32) nice_value (set_errno_raw 0 s)))
          os

    abbrev pub priority_result : ℕ → ℤ × Os → Result (CoreError EngineError ClusterError) ℤ × Os
    priority_result pid (ret, os) =
        (if errno os == 0 then ok ret else error_of pid (reading pid) (errno os), os)

    unfoldable pub get_process_priority :
        ℕ → Os → Result (CoreError EngineError ClusterError) ℤ × Os
    unfolding validate_pid
    get_process_priority pid os =
        checked (validate_pid pid)
          (λ pid_i32 s.
            priority_result pid (getpriority prio_process (as_id_t pid_i32) (set_errno_raw 0 s)))
          os

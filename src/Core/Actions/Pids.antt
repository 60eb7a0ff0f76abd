-- ===== src/Core/Actions/Pids.antt =====
-- Which calls reach the operating system (crates/muxtop-core/src/actions.rs).
use muxtop.Base.{
  ℕ, zero, suc, ◌-◌, ◌^◌, ◌≤◌, ◌<◌, ◌≡◌, ◌⊎◌, inl, inr, refl, ok, err, arith, le→leb, lt→leb,
}
use muxtop.Base.Int.{ℤ, pos}
use muxtop.Core.Actions.{
  Signal, process_not_found, Posix, validate_pid, as_libc, kill_process, renice_process,
  get_process_priority,
}

module _ (EngineError ClusterError : Type 0) where
  valid_pid :
      (pid : ℕ) → 0 < pid → pid < 2 ^ 31 → validate_pid EngineError ClusterError pid ≡ ok (pos pid)
  unfolding validate_pid
  valid_pid zero h k = absurd (omega arith)
  valid_pid (suc n) h k = rw (le→leb (suc n) (2 ^ 31 - 1) (omega arith)) refl

  invalid_pid :
      (pid : ℕ)
      → (pid ≡ 0) ⊎ (2 ^ 31 ≤ pid)
      → validate_pid EngineError ClusterError pid ≡ err (process_not_found pid)
  unfolding validate_pid
  invalid_pid zero h = refl
  invalid_pid (suc n) (inl h) = absurd (omega arith)
  invalid_pid (suc n) (inr h) = rw (lt→leb (suc n) (2 ^ 31 - 1) (omega arith)) refl

  module _ (posix : Posix) where
    open posix use {Os, kill, setpriority, getpriority, errno, set_errno_raw, prio_process}

    -- The process id 0 and those that do not fit into a positive `i32` are refused by all three
    -- actions, and the operating system is not called.
    pub invalid_pids_refused :
        (pid : ℕ) (signal : Signal) (nice_value : ℤ) (os : Os)
        → (pid ≡ 0) ⊎ (2 ^ 31 ≤ pid)
        → (kill_process EngineError ClusterError posix pid signal os
            ≡ (err (process_not_found pid), os))
          × (renice_process EngineError ClusterError posix pid nice_value os
              ≡ (err (process_not_found pid), os))
          × (get_process_priority EngineError ClusterError posix pid os
              ≡ (err (process_not_found pid), os))
    unfolding kill_process renice_process get_process_priority
    invalid_pids_refused pid signal nice_value os h =
        let e = invalid_pid pid h in (rw e refl, rw e refl, rw e refl)

    -- For every other process id each action leaves the operating system as one system call with
    -- this positive id does; the calls for a nice value come after `errno` is cleared.
    pub valid_pids_call :
        (pid : ℕ) (signal : Signal) (nice_value : ℤ) (os : Os)
        → 0 < pid
        → pid < 2 ^ 31
        → ((kill_process EngineError ClusterError posix pid signal os).1
            ≡ (kill (pos pid) (as_libc posix signal) os).1)
          × ((renice_process EngineError ClusterError posix pid nice_value os).1
              ≡ (setpriority prio_process pid nice_value (set_errno_raw 0 os)).1)
          × ((get_process_priority EngineError ClusterError posix pid os).1
              ≡ (getpriority prio_process pid (set_errno_raw 0 os)).1)
    unfolding kill_process renice_process get_process_priority
    valid_pids_call pid signal nice_value os h k =
        let e = valid_pid pid h k in (rw e refl, rw e refl, rw e refl)

    -- For a valid process id, a nice value that is read while `errno` stays 0 is returned as it is,
    -- also -1, which is what an error returns too.
    pub get_process_priority_reads :
        (pid : ℕ) (os : Os)
        → 0 < pid
        → pid < 2 ^ 31
        → errno (getpriority prio_process pid (set_errno_raw 0 os)).1 ≡ 0
        → (get_process_priority EngineError ClusterError posix pid os).0
          ≡ ok (getpriority prio_process pid (set_errno_raw 0 os)).0
    unfolding get_process_priority
    get_process_priority_reads pid os h k e = rw (valid_pid pid h k) (rw e refl)

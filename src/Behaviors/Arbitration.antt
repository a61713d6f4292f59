-- ===== src/Behaviors/Arbitration.antt =====
-- behaviors/arbitration.py: the lock files of the robots' buses, as the process ids that they hold;
-- 0 stands for a file that cannot be read as one. Which process ids are alive is the operating
-- system's answer, and an argument, as is whether it holds a serial lock for the port. A bus is
-- given by its key. The check and the write of `acquire_bus_lock` are two functions, since another
-- process may come in between.
use interlatent.Base.{
  ℕ, String, string_key, Bool, true, false, not, ◌&&◌, ◌||◌, Option, none, some, ◌==◌,
  if◌then◌else◌,
}
use interlatent.Base.Dict.{Dict, get, put, remove}

abbrev pub Locks : Type 0
Locks = Dict String ℕ

-- `_pid_alive`, where `signalled` says whether the system knows the process
unfoldable pub pid_alive : (ℕ → Bool) → ℕ → Bool
pid_alive signalled pid = not (pid == 0) && signalled pid

unfoldable pub held_by_other : (ℕ → Bool) → ℕ → Option ℕ → Bool
held_by_other signalled own none = false
held_by_other signalled own (some pid) =
    not (pid == 0) && not (pid == own) && pid_alive signalled pid

-- Whether the call goes on to write: no conflict, or `force`.
unfoldable pub may_acquire : (ℕ → Bool) → Bool → Locks → String → ℕ → Bool → Bool
may_acquire signalled serial_conflict locks key own force =
    force || not (serial_conflict || held_by_other signalled own (get key locks))

unfoldable pub write_lock : Locks → String → ℕ → Locks
write_lock locks key own = put key own locks

-- The lock files, and whether the lock is claimed; otherwise `RobotBusyError` is raised.
unfoldable pub acquire_bus_lock : (ℕ → Bool) → Bool → Locks → String → ℕ → Bool → Locks × Bool
acquire_bus_lock signalled serial_conflict locks key own force =
    if may_acquire signalled serial_conflict locks key own force
    then (write_lock locks key own, true)
    else (locks, false)

-- `release` of a lock that is not released yet
unfoldable pub release : Locks → String → ℕ → Locks
release locks key own = elim (get key locks) [
  | none ↦ locks
  | some pid ↦ if pid == own then remove key locks else locks
]

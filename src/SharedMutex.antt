-- ===== src/SharedMutex.antt =====
-- `std::shared_mutex`, as the program uses it: who holds it, and what each call does. The `try` calls
-- fail only when the mutex is held in a way that excludes them.
use concurrent_project.Prelude.{
  ℕ, ◌+◌, ◌-◌, Bool, true, false, not, ◌&&◌, Option, none, some, ◌==◌, if◌then◌else◌,
}

pub record SharedMutex : Type 0 where
  pub exclusive : Bool
  pub readers : ℕ

abbrev pub unheld : SharedMutex
unheld = record { exclusive = false; readers = 0 }

-- `none`: the mutex is held, and the call returns false.
unfoldable pub try_lock : SharedMutex → Option SharedMutex
try_lock m =
    if not m.exclusive && (m.readers == 0) then some (record m { exclusive = true }) else none

unfoldable pub try_lock_shared : SharedMutex → Option SharedMutex
try_lock_shared m = if m.exclusive then none else some (record m { readers = m.readers + 1 })

unfoldable pub unlock : SharedMutex → SharedMutex
unlock m = record m { exclusive = false }

unfoldable pub unlock_shared : SharedMutex → SharedMutex
unlock_shared m = record m { readers = m.readers - 1 }

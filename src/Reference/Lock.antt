-- ===== src/Reference/Lock.antt =====
-- reference/shared-lock.c: the lock of a region, on POSIX's read-write lock. An `acquire` is given what
-- the call of POSIX returns; `none` means that the caller has to wait.
use concurrent_project.Prelude.{
  ℕ, Bool, true, false, Option, none, some, ◌==◌, if◌then◌else◌, ◌>>=◌,
}
use concurrent_project.SharedMutex.{
  SharedMutex, unheld, try_lock, try_lock_shared, unlock, unlock_shared,
}

unfoldable pub shared_lock_init : (code : ℕ) → Option SharedMutex
shared_lock_init code = if code == 0 then some unheld else none

unfoldable pub shared_lock_acquire : (code : ℕ) → SharedMutex → Option (Bool × SharedMutex)
shared_lock_acquire code lock =
    if code == 0 then (do held ← try_lock lock; some (true, held)) else some (false, lock)

unfoldable pub shared_lock_acquire_shared : (code : ℕ) → SharedMutex → Option (Bool × SharedMutex)
shared_lock_acquire_shared code lock =
    if code == 0 then (do held ← try_lock_shared lock; some (true, held)) else some (false, lock)

-- pthread_rwlock_unlock: the writer's hold is given back, or a reader's.
abbrev pub rwlock_unlock : SharedMutex → SharedMutex
rwlock_unlock lock = if lock.exclusive then unlock lock else unlock_shared lock

unfoldable pub shared_lock_release : SharedMutex → SharedMutex
shared_lock_release lock = rwlock_unlock lock

unfoldable pub shared_lock_release_shared : SharedMutex → SharedMutex
shared_lock_release_shared lock = rwlock_unlock lock

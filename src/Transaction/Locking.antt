-- ===== src/Transaction/Locking.antt =====
-- 358982/Transaction.cpp: taking, checking and giving back the locks of the written words.
pub mod Rollback
pub mod Acquire
use concurrent_project.Prelude.{
  ℕ, ◌+◌, Bool, true, false, not, ◌&&◌, List, [], ◌∷◌, ◌==◌, if◌then◌else◌,
}
use concurrent_project.Prelude.Int32.{int, leb_int, ltb_int}
use concurrent_project.Heap.{update}
use concurrent_project.VersionedLock.{get_version_locked}
use concurrent_project.VersionedLock
use concurrent_project.Region.{TransactionalMemory, Store, get_versioned_lock}
use concurrent_project.Transaction.Types.{Write, Read, Transaction, contains, insert, erase}

-- The method `unlocked_and_old`, on the word of a lock.
unfoldable pub unlocked_and_old : (read_version v : ℕ) → Bool
unlocked_and_old read_version v =
    let version_locked = get_version_locked v in
    not version_locked.1 && leb_int version_locked.0 read_version

-- What locking and unlocking change: the set of the locks that the transaction holds, and the words
-- of all locks.
pub record Held : Type 0 where
  pub locked_set : List ℕ
  pub locks : ℕ → ℕ

abbrev pub write_lock : TransactionalMemory → Write → ℕ
write_lock tm w = get_versioned_lock tm w.destination w.segment_index

-- `versioned_lock->unlock()` and the erasure.
abbrev pub release : ℕ → Held → Held
release l h = record {
  locked_set = erase l h.locked_set;
  locks = update h.locks l (VersionedLock.unlock (h.locks l));
}

-- `versioned_lock->try_lock()` and the insertion.
abbrev pub acquire : ℕ → Held → Held
acquire l h = record {
  locked_set = insert l h.locked_set;
  locks = update h.locks l (VersionedLock.try_lock (h.locks l) (h.locks l)).0;
}

unfoldable pub unlock_write_set : TransactionalMemory → List Write → Held → Held
unlock_write_set tm [] h = h
unlock_write_set tm (w ∷ ws) h =
    unlock_write_set tm ws
      (if contains (write_lock tm w) h.locked_set then release (write_lock tm w) h else h)

-- The loop of `lock_write_set` over the writes that are left; `all` is the whole write set.
unfoldable pub lock_writes : TransactionalMemory → (all left : List Write) → Held → Bool × Held
unfolding unlock_write_set
lock_writes tm all [] h = (true, h)
lock_writes tm all (w ∷ ws) h =
    let l = write_lock tm w in
    let next = lock_writes tm all ws h in
    let locked = lock_writes tm all ws (acquire l h) in
    if contains l h.locked_set
    then next
    else if not (VersionedLock.try_lock (h.locks l) (h.locks l)).1
    then (false, unlock_write_set tm all h)
    else locked

unfoldable pub lock_write_set : TransactionalMemory → List Write → Held → Bool × Held
unfolding lock_writes
lock_write_set tm write_set h = lock_writes tm write_set write_set h

-- The closure that `validate_read_set` hands to `std::all_of`.
unfoldable pub is_valid_read : Transaction → Store → Read → Bool
is_valid_read tx s r =
    let versioned_lock = get_versioned_lock s.tm r.source r.segment_index in
    let version_locked = get_version_locked (s.locks versioned_lock) in
    if ltb_int tx.read_version version_locked.0
    then false
    else if contains versioned_lock tx.locked_set
    then true
    else not version_locked.1

abbrev pub all_of {ℓ} : {A : Type ℓ} → (A → Bool) → List A → Bool
all_of p [] = true
all_of p (x ∷ xs) = p x && all_of p xs

unfoldable pub validate_read_set : Transaction → Store → Bool
unfolding is_valid_read
validate_read_set tx s =
    if tx.write_version == int (tx.read_version + 1)
    then true
    else all_of (is_valid_read tx s) tx.read_set

-- ===== src/Transaction/Commit.antt =====
-- 358982/Transaction.cpp: the end of a transaction.
pub mod WriteBack
pub mod Outcome
pub mod Ready
pub mod Atomic
use concurrent_project.Prelude.{ℕ, ◌+◌, Bool, true, false, not, List, [], ◌∷◌, if◌then◌else◌}
use concurrent_project.Prelude.Int32.{int}
use concurrent_project.Heap.{Memory, update, store}
use concurrent_project.VersionedLock
use concurrent_project.Region.{TransactionalMemory, Store}
use concurrent_project.Transaction.Types.{Write, Transaction}
use concurrent_project.Transaction.Locking.{
  Held, write_lock, unlock_write_set, lock_write_set, validate_read_set,
}

-- `atomic_fetch_add(&tm->global_clock, 1) + 1`
unfoldable pub increment_and_fetch_global_clock : Transaction → Store → Transaction × Store
increment_and_fetch_global_clock tx s =
    let fetched = s.global_clock in
    (
      record tx { write_version = int (fetched + 1) },
      record s { tm = record (s.tm) { global_clock = int (fetched + 1) } },
    )

-- What the loop of `write_write_set_and_unlock` changes.
pub record Written : Type 0 where
  pub memory : Memory
  pub locks : ℕ → ℕ

unfoldable pub write_back :
    TransactionalMemory → (write_version : ℕ) → List Write → Written → Written
write_back tm write_version [] s = s
write_back tm write_version (w ∷ ws) s =
    let versioned_lock = write_lock tm w in
    write_back tm write_version ws (record {
      memory = store s.memory w.destination w.bytes;
      locks =
          update s.locks versioned_lock
            (VersionedLock.set_version (s.locks versioned_lock) write_version);
    })

-- Puts back into a transaction and a store what the loops on locks have changed.
abbrev pub with_held : Transaction → Store → Held → Transaction × Store
with_held tx s h = (record tx { locked_set = h.locked_set }, record s { locks = h.locks })

abbrev pub held_of : Transaction → Store → Held
held_of tx s = record { locked_set = tx.locked_set; locks = s.locks }

unfoldable pub write_write_set_and_unlock : Transaction → Store → Transaction × Store
unfolding write_back unlock_write_set
write_write_set_and_unlock tx s =
    let t =
      write_back s.tm tx.write_version tx.write_set
        (record { memory = s.memory; locks = s.locks }) in
    with_held tx (record s { memory = t.memory })
      (unlock_write_set s.tm tx.write_set (record { locked_set = tx.locked_set; locks = t.locks }))

-- `end_wr` from the increment of the clock on.
unfoldable pub commit_locked : Transaction → Store → Bool × Transaction × Store
unfolding increment_and_fetch_global_clock validate_read_set write_write_set_and_unlock
commit_locked tx s =
    let (tx1, s1) = increment_and_fetch_global_clock tx s in
    let undone = with_held tx1 s1 (unlock_write_set s1.tm tx1.write_set (held_of tx1 s1)) in
    let done = write_write_set_and_unlock tx1 s1 in
    if not (validate_read_set tx1 s1) then (false, undone.0, undone.1) else (true, done.0, done.1)

unfoldable pub end_wr : Transaction → Store → Bool × Transaction × Store
unfolding lock_write_set commit_locked
end_wr tx s =
    let (ok, h) = lock_write_set s.tm tx.write_set (held_of tx s) in
    let (tx1, s1) = with_held tx s h in if not ok then (false, tx1, s1) else commit_locked tx1 s1

abbrev pub end_ro : Transaction → Store → Bool × Transaction × Store
end_ro tx s = (true, tx, s)

unfoldable pub end : Transaction → Store → Bool × Transaction × Store
end tx s = if tx.is_ro then end_ro tx s else end_wr tx s

-- ===== src/Transaction/Locking/Rollback.antt =====
-- `lock_write_set` takes all the locks that it needs, or leaves every lock as it was.
use concurrent_project.Prelude.{
  Bool-cases, ℕ, ◌≡◌, refl, ◌⊎◌, inl, inr, Bool, true, false, List, [], arith,
}
use concurrent_project.VersionedLock.{get_version_locked}
use concurrent_project.VersionedLock.Cycle.{try_lock-lt, try_lock_alone}
use concurrent_project.Region.{TransactionalMemory}
use concurrent_project.Transaction.Types.{Write, contains}
use concurrent_project.Transaction.Locking.{Held, lock_write_set}
use concurrent_project.Transaction.Locking.Acquire.{
  guards, AreWords, Holds, Locks, lock_writes-Locks,
}

-- No lock is held.
abbrev pub none_held : (ℕ → ℕ) → Held
none_held locks = record { locked_set = []; locks = locks }

none_held-Holds :
    (tm : TransactionalMemory) (all : List Write) (base : ℕ → ℕ)
    → Holds tm all base (none_held base)
none_held-Holds tm all base = record { held = λ l m. cc; other = λ l m. refl }

pub lock_write_set-Locks :
    (tm : TransactionalMemory) (ws : List Write) (locks : ℕ → ℕ)
    → AreWords locks
    → Locks tm ws ws locks (none_held locks) (lock_write_set tm ws (none_held locks))
unfolding lock_write_set
lock_write_set-Locks tm ws locks words =
    lock_writes-Locks tm ws ws locks (none_held locks) words (λ l g. g)
      (none_held-Holds tm ws locks)

-- The two outcomes: every lock that guards a write was free, and is now locked at its version and
-- held, and no other has changed; or one was taken, no word of a lock has changed, and none is held.
abbrev pub AllOrNone : TransactionalMemory → List Write → (ℕ → ℕ) → Bool × Held → Type 0
AllOrNone tm ws locks (ok, h) =
    ((ok ≡ true)
      × ((l : ℕ)
          → guards tm l ws ≡ true
          → (get_version_locked (locks l)).1 ≡ false
            × (get_version_locked (h.locks l) ≡ ((get_version_locked (locks l)).0, true)))
      × ((l : ℕ) → guards tm l ws ≡ false → h.locks l ≡ locks l)
      × ((l : ℕ) → contains l h.locked_set ≡ guards tm l ws))
    ⊎ ((ok ≡ false)
        × ((l : ℕ) → (h.locks l ≡ locks l) × (contains l h.locked_set ≡ false))
        × ((l : ℕ) × (guards tm l ws ≡ true) × ((get_version_locked (locks l)).1 ≡ true)))

Locks-AllOrNone :
    (tm : TransactionalMemory) (ws : List Write) (locks : ℕ → ℕ) (r : Bool × Held)
    → AreWords locks
    → Locks tm ws ws locks (none_held locks) r
    → AllOrNone tm ws locks r
Locks-AllOrNone tm ws locks (ok, h) words (inl (done, inv, set)) = inl (
  done,
  λ l g. ground (arith, set l, inv.held l, try_lock_alone (locks l) (words l)),
  λ l g. ground (arith, set l, inv.other l),
  λ l. set l,
)
Locks-AllOrNone tm ws locks (ok, h) words (inr (failed, restored, (l, guarded, taken))) =
    inr (failed, restored, (l, guarded, ground (arith, try_lock_alone (locks l) (words l))))

-- From no lock held and 32-bit lock words: either every lock that guards a write was free, and is now
-- locked at its version and held, and no other has changed; or the call fails, a lock that guards a
-- write was taken, every lock's word is as before, and none is held.
pub lock_write_set-AllOrNone :
    (tm : TransactionalMemory) (ws : List Write) (locks : ℕ → ℕ)
    → AreWords locks
    → AllOrNone tm ws locks (lock_write_set tm ws (none_held locks))
lock_write_set-AllOrNone tm ws locks words =
    Locks-AllOrNone tm ws locks _ words (lock_write_set-Locks tm ws locks words)

Locks-AreWords :
    (tm : TransactionalMemory) (ws : List Write) (locks : ℕ → ℕ) (r : Bool × Held)
    → AreWords locks
    → Locks tm ws ws locks (none_held locks) r
    → AreWords r.1.locks
Locks-AreWords tm ws locks (ok, h) words (inl (done, inv, set)) l =
    elim (Bool-cases (contains l h.locked_set)) [
      | inl c ↦ rw ((inv.held l c).1) (try_lock-lt (locks l) (locks l) (words l))
      | inr c ↦ rw (inv.other l c) (words l)
    ]
Locks-AreWords tm ws locks (ok, h) words (inr (failed, restored, taken)) l =
    rw ((restored l).0) (words l)

pub lock_write_set-AreWords :
    (tm : TransactionalMemory) (ws : List Write) (locks : ℕ → ℕ)
    → AreWords locks
    → AreWords (lock_write_set tm ws (none_held locks)).1.locks
lock_write_set-AreWords tm ws locks words =
    Locks-AreWords tm ws locks _ words (lock_write_set-Locks tm ws locks words)

-- ===== src/Transaction/Commit/Ready.antt =====
-- The state in which a transaction validates: it holds the locks that guard its writes.
use concurrent_project.VersionedLock.Pack.{FitsVersion}
use concurrent_project.Prelude.{ℕ, ◌+◌, ◌≡◌, refl, true, false, List, [], ◌∷◌, arith}
use concurrent_project.Prelude.Int32.{int}
use concurrent_project.VersionedLock.{get_version_locked}
use concurrent_project.VersionedLock
use concurrent_project.VersionedLock.Cycle.{get-injective, unlock-lt, unlock_lem}
use concurrent_project.Region.{TransactionalMemory, Store, get_versioned_lock}
use concurrent_project.Transaction.Types.{Write, Read, Transaction, contains}
use concurrent_project.Transaction.Locking.{
  Held, unlocked_and_old, unlock_write_set, is_valid_read, all_of,
}
use concurrent_project.Transaction.Locking.Acquire.{guards, AreWords, unlock_write_set_lem}
use concurrent_project.Transaction.Commit.{Written, write_back, held_of}
use concurrent_project.Transaction.Commit.WriteBack.{write_back-locks, write_back-lt}

-- The tick of the clock moves no lock.
abbrev pub ticked : TransactionalMemory → TransactionalMemory
ticked tm = record tm { global_clock = int (tm.global_clock + 1) }

pub lock-ticked :
    (tm : TransactionalMemory) (p i : ℕ)
    → get_versioned_lock (ticked tm) p i ≡ get_versioned_lock tm p i
unfolding get_versioned_lock
lock-ticked tm p i = refl

pub guards-ticked :
    (tm : TransactionalMemory) (l : ℕ) (ws : List Write) → guards (ticked tm) l ws ≡ guards tm l ws
guards-ticked tm l [] = refl
guards-ticked tm l (w ∷ ws) =
    ground (arith, guards-ticked tm l ws, lock-ticked tm w.destination w.segment_index)

-- In the state in which a transaction validates, it holds the locks that guard its writes, which
-- were free in `base`.
pub record Ready (tx : Transaction) (s : Store) (base : ℕ → ℕ) : Type 0 where
  pub words : AreWords s.locks
  pub set : (l : ℕ) → contains l tx.locked_set ≡ guards s.tm l tx.write_set
  pub mine :
      (l : ℕ)
      → guards s.tm l tx.write_set ≡ true
      → ((get_version_locked (base l)).1 ≡ false)
        × (get_version_locked (s.locks l) ≡ ((get_version_locked (base l)).0, true))
  pub other : (l : ℕ) → guards s.tm l tx.write_set ≡ false → s.locks l ≡ base l

module _ (tx : Transaction) (s : Store) (base : ℕ → ℕ) (ready : Ready tx s base) where
  is_valid_read-old :
      (r : Read)
      → is_valid_read tx s r
        ≡ unlocked_and_old tx.read_version (base (get_versioned_lock s.tm r.source r.segment_index))
  unfolding is_valid_read unlocked_and_old
  is_valid_read-old r =
      let l = get_versioned_lock s.tm r.source r.segment_index in
      ground (arith, ready.set l, ready.mine l, ready.other l)

  pub reads_valid :
      (rs : List Read)
      → all_of (is_valid_read tx s) rs
        ≡ all_of
            (λ r.
              unlocked_and_old tx.read_version
                (base (get_versioned_lock s.tm r.source r.segment_index)))
            rs
  reads_valid [] = refl
  reads_valid (r ∷ rs) = ground (arith, is_valid_read-old r, reads_valid rs)

  -- Giving the locks back restores them.
  pub restored :
      AreWords base
      → (l : ℕ)
      → ((unlock_write_set s.tm tx.write_set (held_of tx s)).locks l ≡ base l)
        × (contains l (unlock_write_set s.tm tx.write_set (held_of tx s)).locked_set ≡ false)
  restored base_words l = ground (
    arith,
    unlock_write_set_lem s.tm tx.write_set (held_of tx s) l,
    ready.set l,
    ready.mine l,
    ready.other l,
    unlock_lem (s.locks l) (ready.words l),
    unlock-lt (s.locks l),
    get-injective (VersionedLock.unlock (s.locks l)) (base l),
    base_words l,
  )

  -- The write-back puts the words and the versions in, and gives the locks back.
  abbrev pub written_back : Written
  written_back =
      write_back s.tm tx.write_version tx.write_set (record { memory = s.memory; locks = s.locks })

  pub published :
      FitsVersion tx.write_version
      → (l : ℕ)
      → let h : Held =
          unlock_write_set s.tm tx.write_set
            (record { locked_set = tx.locked_set; locks = written_back.locks }) in
        (guards s.tm l tx.write_set ≡ true
          → get_version_locked (h.locks l) ≡ (tx.write_version, false))
        × (guards s.tm l tx.write_set ≡ false → h.locks l ≡ base l)
        × (contains l h.locked_set ≡ false)
  published fits l = ground (
    arith,
    unlock_write_set_lem s.tm tx.write_set
        (record { locked_set = tx.locked_set; locks = written_back.locks }) l,
    ready.set l,
    ready.mine l,
    ready.other l,
    write_back-locks s.tm tx.write_version tx.write_set
        (record { memory = s.memory; locks = s.locks }) l fits,
    write_back-lt s.tm tx.write_version tx.write_set (record { memory = s.memory; locks = s.locks })
        l (ready.words l),
    unlock_lem (written_back.locks l),
  )

-- ===== src/Transaction/Commit/Outcome.antt =====
-- What the end of a read-write transaction comes to, for the client and for the other threads.
use concurrent_project.Prelude.{
  ℕ, ◌+◌, ◌≡◌, refl, ◌⊎◌, Bool, true, false, not, ◌&&◌, ◌||◌, List, [], ◌∷◌, arith, ◌==◌, reverse,
}
use concurrent_project.Prelude.Int32.{int}
use concurrent_project.Heap.{load}
use concurrent_project.VersionedLock.{get_version_locked}
use concurrent_project.Region.{Store, get_versioned_lock}
use concurrent_project.Transaction.Types.{Write, Transaction, contains}
use concurrent_project.Transaction.Locking.{write_lock, unlocked_and_old, all_of}
use concurrent_project.Transaction.Locking.Acquire.{guards}
use concurrent_project.Transaction.Reading.Words.{seen}
use concurrent_project.Transaction.Commit.WriteBack.{AreWordsAt}

-- Every lock that guards a write is free.
abbrev pub all_free : Store → List Write → Bool
all_free s = all_of (λ w. not (get_version_locked (s.locks (write_lock s.tm w))).1)

-- Every word that was read is unlocked and no newer than the transaction's read version.
abbrev pub all_old : Transaction → Store → Bool
all_old tx s =
    all_of
      (λ r.
        unlocked_and_old tx.read_version
          (s.locks (get_versioned_lock s.tm r.source r.segment_index)))
      tx.read_set

-- The transaction may commit in `s`: its locks are free, and nobody has committed since it began, or
-- else all that it read is still old.
abbrev pub can_commit : Transaction → Store → Bool
can_commit tx s =
    all_free s tx.write_set
    && (int (s.global_clock + 1) == int (tx.read_version + 1) || all_old tx s)

-- The effect of a commit.
pub record Committed (tx : Transaction) (s : Store) (tx' : Transaction) (s' : Store) : Type 0 where
  pub words :
      (a : ℕ)
      → AreWordsAt s.align a tx.write_set
      → load s'.memory a s.align ≡ seen a (reverse tx.write_set) (load s.memory a s.align)
  pub versions :
      (l : ℕ)
      → guards s.tm l tx.write_set ≡ true
      → get_version_locked (s'.locks l) ≡ (int (s.global_clock + 1), false)
  pub others : (l : ℕ) → guards s.tm l tx.write_set ≡ false → s'.locks l ≡ s.locks l
  pub clock : s'.global_clock ≡ int (s.global_clock + 1)
  pub released : (l : ℕ) → contains l tx'.locked_set ≡ false

-- The effect of an abort.
pub record Aborted (s : Store) (tx' : Transaction) (s' : Store) : Type 0 where
  pub memory : s'.memory ≡ s.memory
  pub locks : (l : ℕ) → s'.locks l ≡ s.locks l
  pub clock : (s'.global_clock ≡ s.global_clock) ⊎ (s'.global_clock ≡ int (s.global_clock + 1))
  pub released : (l : ℕ) → contains l tx'.locked_set ≡ false

-- What `end_wr` comes to.
abbrev pub IsAtomic : Transaction → Store → Bool × Transaction × Store → Type 0
IsAtomic tx s (ok, tx', s') =
    (ok ≡ can_commit tx s) × (ok ≡ true → Committed tx s tx' s') × (ok ≡ false → Aborted s tx' s')

pub all_free-true :
    (s : Store) (ws : List Write)
    → ((l : ℕ) → guards s.tm l ws ≡ true → (get_version_locked (s.locks l)).1 ≡ false)
    → all_free s ws ≡ true
all_free-true s [] h = refl
all_free-true s (w ∷ ws) h =
    ground (arith, h (write_lock s.tm w), all_free-true s ws (λ l g. h l (ground arith)))

pub all_free-false :
    (s : Store) (ws : List Write) (l : ℕ)
    → guards s.tm l ws ≡ true
    → (get_version_locked (s.locks l)).1 ≡ true
    → all_free s ws ≡ false
all_free-false s [] l g taken = cc
all_free-false s (w ∷ ws) l g taken = ground (arith, all_free-false s ws l)

-- ===== src/Transaction/Opacity/Ready.antt =====
-- A read of a read-only transaction between two words.
use concurrent_project.Prelude.{
  ℕ, ◌+◌, ◌*◌, ◌^◌, ◌≤◌, ◌<◌, ◌≡◌, ◌∙◌, ◌⊎◌, inl, inr, true, List, [], ◌∷◌, ◌++◌, arith, All,
}
use mathlib.Core.Path.{subst}
use concurrent_project.Prelude.Int32.{minus_one}
use concurrent_project.Heap.{Memory, load}
use concurrent_project.VersionedLock.{get_version_locked}
use concurrent_project.VersionedLock
use concurrent_project.Region.{Store}
use concurrent_project.Transaction.Types.{Read, Transaction}
use concurrent_project.Transaction.Locking.{is_valid_read, validate_read_set}
use concurrent_project.Transaction.Reading.{Outcome, note_read}
use concurrent_project.Transaction.Reading.Words.{Apart}
use concurrent_project.Transaction.Reading.ReadWrite.{reads}
use concurrent_project.Transaction.Opacity.Moves.{version, lock_of, IsTimed}
use concurrent_project.Transaction.Opacity.Waits.{Later, all_of-old}

-- A free lock that passes for old has no newer version, in the order of numbers.
pub passed-le :
    (read_version v : ℕ)
    → read_version < 2 ^ 30
    → (get_version_locked v).0 < 2 ^ 30
    → VersionedLock.unlocked_and_old v read_version ≡ true
    → (get_version_locked v).0 ≤ read_version
unfolding VersionedLock.unlocked_and_old get_version_locked
passed-le read_version v fits fits' old = ground (arith, old)

-- What was read was no newer than the read version.
abbrev pub AreOld : (s : Store) (read_version : ℕ) → List Read → Type 0
AreOld s read_version = All (λ r. version s (lock_of s r.source r.segment_index) ≤ read_version)

valid-AreOld :
    (IsWord : (a segment_index : ℕ) → Type 0) (tx : Transaction) (s : Store)
    → tx.write_version ≡ minus_one
    → tx.read_version ≤ s.global_clock
    → IsTimed IsWord s
    → s.global_clock < 2 ^ 30
    → validate_read_set tx s ≡ true
    → AreOld s tx.read_version tx.read_set
unfolding validate_read_set
valid-AreOld IsWord tx s fresh begun timed small valid =
    all_of-old IsWord tx s tx.read_set (omega (arith, begun, small)) timed small
      (ground (arith, fresh, begun, small, valid))

module _ (IsWord : (a segment_index : ℕ) → Type 0) (source target segment_index total : ℕ) where
  abbrev pub lock_at : (s : Store) → (j : ℕ) → ℕ
  lock_at s j = lock_of s (source + j * s.align) segment_index

  -- A transaction between two words of a scan.
  pub record IsReady (tx : Transaction) (s : Store) : Type 0 where
    pub fresh : tx.write_version ≡ minus_one
    pub begun : tx.read_version ≤ s.global_clock
    pub timed : IsTimed IsWord s
    pub small : s.global_clock < 2 ^ 30
    pub apart :
        (j k : ℕ)
        → j < total
        → k < total
        → Apart s.align (source + j * s.align) (target + k * s.align)

  -- What a scan of the words from `i` to `i + n` comes to.
  pub record Scans (n i : ℕ) (tx : Transaction) (s : Store) (r : Outcome) : Type 0 where
    pub rest : r.2 ≡ record s { memory = r.2.memory }
    pub apart :
        (c : ℕ)
        → ((k : ℕ) → i ≤ k → k < i + n → Apart s.align c (target + k * s.align))
        → load (r.2.memory) c s.align ≡ load s.memory c s.align
    pub noted :
        r.0 ≡ true
        → r.1 ≡ record tx {
          read_version = r.1.read_version;
          read_set = tx.read_set ++ reads source target segment_index n i s.align;
        }
    pub later :
        r.0 ≡ true
        → (r.1.read_version ≡ tx.read_version)
          ⊎ ((r.1.read_version ≡ s.global_clock) × AreOld s tx.read_version tx.read_set)
    pub copied :
        r.0 ≡ true
        → (j : ℕ) → i ≤ j
        → j < i + n
        → (load (r.2.memory) (target + j * s.align) s.align
            ≡ load s.memory (source + j * s.align) s.align)
          × (version s (lock_at s j) ≤ r.1.read_version)

  pub later-le :
      (tx : Transaction) (s : Store) (v : ℕ)
      → IsReady tx s
      → Later IsWord tx s v
      → v ≤ s.global_clock
  later-le tx s v ready (inl e) = omega (arith, e, ready.begun)
  later-le tx s v ready (inr (e, valid)) = omega (arith, e)

  pub IsReady-next :
      (tx : Transaction) (s : Store) (v : ℕ) (m : Memory) (r : Read)
      → IsReady tx s
      → v ≤ s.global_clock
      → IsReady (note_read (record tx { read_version = v }) r) (record s { memory = m })
  IsReady-next tx s v m r ready le = record {
    fresh = ready.fresh;
    begun = le;
    timed = record { words = ready.timed.words; timed = ready.timed.timed };
    small = ready.small;
    apart = ready.apart;
  }

  pub Later-same :
      (tx : Transaction) (s : Store) (m : Memory) (v : ℕ)
      → Later IsWord tx (record s { memory = m }) v
      → Later IsWord tx s v
  unfolding validate_read_set is_valid_read
  Later-same tx s m v later = later

  -- The read version moves twice only when it moves at the first word.
  pub later-later :
      (tx : Transaction) (s : Store) (v v' : ℕ) (r : Read)
      → IsReady tx s
      → Later IsWord tx s v
      → (v' ≡ v) ⊎ ((v' ≡ s.global_clock) × AreOld s v (tx.read_set ++ r ∷ []))
      → (v' ≡ tx.read_version) ⊎ ((v' ≡ s.global_clock) × AreOld s tx.read_version tx.read_set)
  later-later tx s v v' r ready (inl e) (inl e') = inl (e' ∙ e)
  later-later tx s v v' r ready (inl e) (inr (e', old)) =
      inr (e', subst (λ u. AreOld s u tx.read_set) e (All-prefix _ tx.read_set old))
    where
      All-prefix : (P : Read → Type 0) (rs : List Read) → All P (rs ++ r ∷ []) → All P rs
      All-prefix P [] h = tt
      All-prefix P (x ∷ rs) h = (h.0, All-prefix P rs h.1)
  later-later tx s v v' r ready (inr (e, valid)) (inl e') =
      inr (e' ∙ e, valid-AreOld IsWord tx s ready.fresh ready.begun ready.timed ready.small valid)
  later-later tx s v v' r ready (inr (e, valid)) (inr (e', old)) =
      inr (e', valid-AreOld IsWord tx s ready.fresh ready.begun ready.timed ready.small valid)

  pub later-grows :
      (s : Store) (v v' : ℕ) {P : Type 0}
      → v ≤ s.global_clock
      → (v' ≡ v) ⊎ ((v' ≡ s.global_clock) × P)
      → v ≤ v'
  later-grows s v v' le (inl e) = omega (arith, e)
  later-grows s v v' le (inr (e, old)) = omega (arith, e, le)

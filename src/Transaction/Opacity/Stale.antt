-- ===== src/Transaction/Opacity/Stale.antt =====
-- A read-only transaction copies a word before it looks at the word's lock, and looks once: the copy may be
-- older than the version that it accepts.
use concurrent_project.Prelude.{
  ℕ, suc, ◌+◌, ◌^◌, ◌<◌, ◌≡◌, refl, sym, ap, ◌∙◌, true, false, [], arith, reverse,
}
use concurrent_project.Prelude.Int32.{int}
use concurrent_project.Heap.{load, store, memcpy}
use concurrent_project.Heap.Bytes.{load-store_self, load-store_disjoint, length-load, load-memcpy}
use concurrent_project.VersionedLock.{get_version_locked}
use concurrent_project.VersionedLock
use concurrent_project.Region.{Store, get_versioned_lock}
use concurrent_project.Transaction.Types.{Transaction, create, ro_retries}
use concurrent_project.Transaction.Locking.Acquire.{AreWords, guards}
use concurrent_project.Transaction.Reading.{read_only_wait}
use concurrent_project.Transaction.Reading.Words.{Apart, seen}
use concurrent_project.Transaction.Commit.{increment_and_fetch_global_clock, end_wr}
use concurrent_project.Transaction.Commit.WriteBack.{AreWordsAt}
use concurrent_project.Transaction.Commit.Atomic.{end_wr-IsAtomic}

-- A free lock at exactly the reader's version passes.
accepted :
    (v version : ℕ)
    → get_version_locked v ≡ (version, false)
    → VersionedLock.unlocked_and_old v version ≡ true
unfolding get_version_locked VersionedLock.unlocked_and_old
accepted v version e = ground (arith, ap (λ p. p.0) e, ap (λ p. p.1) e)

wait-accepts :
    (left versioned_lock source target : ℕ) (tx : Transaction) (s : Store)
    → VersionedLock.unlocked_and_old (s.locks versioned_lock) tx.read_version ≡ true
    → read_only_wait (suc left) versioned_lock source target tx s ≡ (true, tx, s)
unfolding read_only_wait
wait-accepts left versioned_lock source target tx s ok = rw (ok, read_only_wait) refl

-- The reader that begins between the tick of the clock and the write-back of the commit of `tx` in `s`.
abbrev pub reader_during : Transaction → Store → Transaction
reader_during tx s = create (increment_and_fetch_global_clock tx s).1.tm true

-- Its word at `a`, copied to `target` before the write-back, in the store after the commit.
abbrev pub copied_before : (a target : ℕ) → Transaction → Store → Store
copied_before a target tx s =
    let s' = (end_wr tx s).2 in
    record s' { memory = store s'.memory target (load s.memory a s.align) }

reader-version :
    (tx : Transaction) (s : Store) → (reader_during tx s).read_version ≡ int (s.global_clock + 1)
unfolding create increment_and_fetch_global_clock
reader-version tx s = refl

-- A transaction that holds no lock commits, and the locks of the words at `a` and `b` are among those of its writes,
-- each of which is the word at `b` or apart from it; lock words have 32 bits and the clock is below 2 ^ 30 - 1. A
-- read-only transaction that begins after the commit has moved the clock copies the word at `a`, to a buffer
-- apart from `b`, before the commit writes it: the check that follows the commit accepts the old word at
-- `a`, and a read of `b` then accepts the word that the commit leaves there.
pub stale_read :
    (tx : Transaction) (s : Store) (a b target target' segment_index : ℕ)
    → tx.locked_set ≡ []
    → AreWords s.locks
    → s.global_clock + 1 < 2 ^ 30
    → (end_wr tx s).0 ≡ true
    → guards s.tm (get_versioned_lock s.tm a segment_index) tx.write_set ≡ true
    → guards s.tm (get_versioned_lock s.tm b segment_index) tx.write_set ≡ true
    → AreWordsAt s.align b tx.write_set
    → Apart s.align b target
    → let reader = reader_during tx s in
      let s1 = copied_before a target tx s in
      let r =
        read_only_wait ro_retries (get_versioned_lock s.tm a segment_index) a target reader s1 in
      let r' =
        read_only_wait ro_retries
          (get_versioned_lock s.tm b segment_index)
          b
          target'
          reader
          (record s1 { memory = memcpy s1.memory target' b s.align }) in
      (r ≡ (true, reader, s1))
      × (load s1.memory target s.align ≡ load s.memory a s.align)
      × (r'.0 ≡ true)
      × (load r'.2.memory target' s.align ≡ seen b (reverse tx.write_set) (load s.memory b s.align))
stale_read tx s a b target target' segment_index empty words small ok guarded guarded' places
      apart =
    let (decided, commits, aborts) = end_wr-IsAtomic tx s empty words small in
    let c = commits ok in
    let s1 = copied_before a target tx s in
    let reader = reader_during tx s in
    let s2 : Store = record s1 { memory = memcpy s1.memory target' b s.align } in
    let free : (k : ℕ)
        → guards s.tm k tx.write_set ≡ true
        → VersionedLock.unlocked_and_old (s1.locks k) reader.read_version ≡ true =
      λ k g.
        accepted (s1.locks k) reader.read_version
          (c.versions k g ∙ ap (λ v. (v, false)) (sym (reader-version tx s))) in
    let r' =
      wait-accepts 9 (get_versioned_lock s.tm b segment_index) b target' reader s2
        (free _ guarded') in
    (
      wait-accepts 9 (get_versioned_lock s.tm a segment_index) a target reader s1 (free _ guarded),
      ap (load s1.memory target) (sym (length-load s.memory a s.align))
          ∙ load-store_self (end_wr tx s).2.memory target (load s.memory a s.align),
      ap (λ r. r.0) r',
      ap (λ r. load (r.2.memory) target' s.align) r'
          ∙ load-memcpy s1.memory target' b s.align
          ∙ load-store_disjoint (end_wr tx s).2.memory b s.align target (load s.memory a s.align)
              (ground (arith, apart, length-load s.memory a s.align))
          ∙ c.words b places,
    )

-- ===== src/Transaction/Opacity/Reads.antt =====
-- A read of a read-write transaction, as the transaction and the others see it.
use concurrent_project.Prelude.{
  ℕ, zero, suc, ◌+◌, ◌*◌, ◌/◌, ◌^◌, ◌≤◌, ◌<◌, ◌≡◌, sym, ap, ◌∙◌, Bool, true, arith, reverse,
}
use mathlib.Core.Path.{subst}
use native.Mathlib.Decide.{ℕ_discrete}
use concurrent_project.Heap.{load}
use concurrent_project.VersionedLock.{get_version_locked}
use concurrent_project.Region.{Store, TransactionalMemory, get_versioned_lock}
use concurrent_project.Transaction.Types.{Transaction}
use concurrent_project.Transaction.Locking.{unlocked_and_old}
use concurrent_project.Transaction.Reading.{read_write_read}
use concurrent_project.Transaction.Reading.Words.{seen}
use concurrent_project.Transaction.Reading.ReadWrite.{
  ReadsWords, reads, read_write_read-ReadsWords, words_old, Disjoint,
}
use concurrent_project.Transaction.Opacity.{IsPrivate, after_read, Live, AreShared}
use concurrent_project.Transaction.Opacity.Moves.{Moves, IsFixed-Moves, lock_of, IsTimed, IsFixed}
use concurrent_project.Transaction.Opacity.Still.{
  still-Moves, reads-places, noted-IsFixed, reads-member, given_at-All,
}

-- A lock that is unlocked and old has no newer version, in the order of numbers.
old-le :
    (read_version v : ℕ)
    → read_version < 2 ^ 30
    → (get_version_locked v).0 < 2 ^ 30
    → unlocked_and_old read_version v ≡ true
    → (get_version_locked v).0 ≤ read_version
unfolding unlocked_and_old
old-le read_version v fits fits' old = ground (arith, old)

words_old-at :
    (source target segment_index n i read_version : ℕ) (tm : TransactionalMemory) (locks : ℕ → ℕ)
    (j : ℕ)
    → words_old source target segment_index n i read_version tm locks ≡ true
    → i ≤ j
    → j < i + n
    → unlocked_and_old read_version
        (locks (get_versioned_lock tm (source + j * tm.align) segment_index))
      ≡ true
words_old-at source target segment_index zero i read_version tm locks j old lo hi =
    absurd (omega (arith, lo, hi))
words_old-at source target segment_index (suc n) i read_version tm locks j old lo hi =
    elim (ℕ_discrete i j) [
      | yes e ↦
          subst
            (λ k.
              unlocked_and_old read_version
                (locks (get_versioned_lock tm (source + k * tm.align) segment_index))
              ≡ true)
            e (ground (arith, old))
      | no ne ↦
          words_old-at source target segment_index n (i + 1) read_version tm locks j
            (ground (arith, old)) (omega (arith, lo, ne)) (omega (arith, hi))
    ]

module _ (IsWord : (a segment_index : ℕ) → Type 0) (s : Store) (l : Live) (timed : IsTimed IsWord s)
    (fixed : IsFixed IsWord s l) (small : s.global_clock + 1 < 2 ^ 30) where
  -- A word that passes for old is the word of the begin.
  pub old-same :
      (a i : ℕ)
      → IsWord a i
      → unlocked_and_old l.tx.read_version (s.locks (lock_of s a i)) ≡ true
      → load s.memory a s.align ≡ load l.view a s.align
  old-same a i place old = fixed.same a i place (
      old-le l.tx.read_version (s.locks (lock_of s a i)) (omega (arith, fixed.begun, small))
        (omega (arith, timed.timed (lock_of s a i), small)) old)

  pub read-view :
      (source size target segment_index : ℕ)
      → AreShared IsWord s source size segment_index
      → Disjoint s.align (size / s.align) source target
      → let r = read_write_read source size target segment_index l.tx s in
        r.0 ≡ true
        → (j : ℕ) → j < size / s.align
        → load (r.2.memory) (target + j * s.align) s.align
          ≡ seen
              (source + j * s.align)
              (reverse l.tx.write_set)
              (load l.view (source + j * s.align) s.align)
  read-view source size target segment_index shared disjoint ok j lt =
      let done =
        read_write_read-ReadsWords source size target segment_index l.tx s disjoint fixed.whole in
      let old =
        words_old-at source target segment_index (size / s.align) 0 l.tx.read_version s.tm s.locks j
          (sym done.succeeds ∙ ok) (omega arith) (omega (arith, lt)) in
      done.copied ok j (omega arith) (omega (arith, lt))
      ∙ ap (seen (source + j * s.align) (reverse l.tx.write_set))
          (old-same (source + j * s.align) segment_index (shared j lt) old)

module _ (IsWord : (a segment_index : ℕ) → Type 0) where
  -- A read, of words that need not be shared, leaves the others as they were.
  module _ (s : Store) (l : Live) (source size target segment_index : ℕ)
      (private : IsPrivate IsWord s size target)
      (disjoint : Disjoint s.align (size / s.align) source target)
      (fixed : IsFixed IsWord s l) where
    abbrev pub outcome : Bool × Transaction × Store
    outcome = read_write_read source size target segment_index l.tx s

    pub done : ReadsWords source target segment_index (size / s.align) 0 l.tx s outcome
    done = read_write_read-ReadsWords source size target segment_index l.tx s disjoint fixed.whole

    pub read-Moves : Moves IsWord s outcome.2
    read-Moves =
        still-Moves IsWord s outcome.2 done.rest.0 done.rest.1
          (λ a i place. done.apart a (λ k lo hi. private a i k place (omega (arith, hi))))

    pub read-IsFixed :
        (timed : IsTimed IsWord s)
        → s.global_clock + 1 < 2 ^ 30
        → AreShared IsWord s source size segment_index
        → outcome.0 ≡ true
        → IsFixed IsWord outcome.2 (after_read source size target segment_index l s)
    read-IsFixed timed small shared ok =
        let rs = reads source target segment_index (size / s.align) 0 s.align in
        let after = after_read source size target segment_index l s in
        IsFixed-Moves IsWord after read-Moves (
          subst
            (λ tx.
              IsFixed IsWord s
                (record { tx = tx; view = l.view; shown = l.shown; given = after.given }))
            (sym (done.noted ok))
            (noted-IsFixed IsWord s l rs _
              (reads-places IsWord source target segment_index (size / s.align) 0 s.align
                (λ k lt. shared k (omega (arith, lt))))
              (given_at-All l.tx.write_set source target segment_index (size / s.align) 0 s.align
                outcome.2.memory _
                (λ j lo hi. (
                  read-view IsWord s l timed fixed small source size target segment_index shared
                      disjoint ok j (omega (arith, hi)),
                  reads-member source target segment_index (size / s.align) 0 s.align j lo hi,
                )))
              fixed))

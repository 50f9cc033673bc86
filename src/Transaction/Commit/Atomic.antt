-- ===== src/Transaction/Commit/Atomic.antt =====
-- `end_wr` is atomic: it commits exactly when it may, and then in full, or it leaves no trace but the
-- clock.
use concurrent_project.VersionedLock.Pack.{FitsVersion}
use concurrent_project.Prelude.{
  ℕ, ◌+◌, ◌^◌, ◌<◌, ◌≡◌, refl, inl, inr, Bool, true, false, not, ◌&&◌, ◌||◌, [], arith, ◌==◌,
  if◌then◌else◌, Bool-cases, ap, ◌∙◌, sym,
}
use concurrent_project.Prelude.Int32.{int}
use concurrent_project.VersionedLock.{get_version_locked}
use concurrent_project.Region.{Store, get_versioned_lock}
use concurrent_project.Transaction.Types.{Transaction, contains}
use concurrent_project.Transaction.Locking.{
  Held, unlock_write_set, lock_write_set, validate_read_set,
}
use concurrent_project.Transaction.Locking.Acquire.{guards, AreWords}
use concurrent_project.Transaction.Locking.Rollback.{
  lock_write_set-AreWords, none_held, AllOrNone, lock_write_set-AllOrNone,
}
use concurrent_project.Transaction.Commit.{
  held_of, with_held, write_write_set_and_unlock, commit_locked, end_wr,
}
use concurrent_project.Transaction.Commit.WriteBack.{write_back-memory}
use concurrent_project.Transaction.Commit.Outcome.{
  all_free-false, Aborted, all_old, all_free-true, IsAtomic, Committed, all_free, can_commit,
}
use concurrent_project.Transaction.Commit.Ready.{
  restored, published, reads_valid, guards-ticked, ticked, Ready,
}

if-or : (c x : Bool) → (if c then true else x) ≡ (true && (c || x))
if-or true x = refl
if-or false x = refl

-- From the tick of the clock on, the locks being held.
module _ (tx : Transaction) (s : Store) (h : Held) (words : AreWords s.locks)
    (held_words : AreWords h.locks)
    (own : (l : ℕ)
      → guards s.tm l tx.write_set ≡ true
      → ((get_version_locked (s.locks l)).1 ≡ false)
        × (get_version_locked (h.locks l) ≡ ((get_version_locked (s.locks l)).0, true)))
    (other : (l : ℕ) → guards s.tm l tx.write_set ≡ false → h.locks l ≡ s.locks l)
    (set : (l : ℕ) → contains l h.locked_set ≡ guards s.tm l tx.write_set) where
  abbrev ticked_tx : Transaction
  ticked_tx = record tx { locked_set = h.locked_set; write_version = int (s.global_clock + 1) }

  abbrev ticked_store : Store
  ticked_store = record s { tm = ticked (s.tm); locks = h.locks }

  ready : Ready ticked_tx ticked_store s.locks
  ready = record {
    words = held_words;
    set = λ l. set l ∙ sym (guards-ticked s.tm l tx.write_set);
    mine = λ l g. own l (sym (guards-ticked s.tm l tx.write_set) ∙ g);
    other = λ l g. other l (sym (guards-ticked s.tm l tx.write_set) ∙ g);
  }

  free : all_free s tx.write_set ≡ true
  free = all_free-true s tx.write_set (λ l g. (own l g).0)

  valid : validate_read_set ticked_tx ticked_store ≡ can_commit tx s
  unfolding validate_read_set get_versioned_lock
  valid =
      rw (free, reads_valid ticked_tx ticked_store s.locks ready tx.read_set)
        (if-or (int (s.global_clock + 1) == int (tx.read_version + 1)) (all_old tx s))

  committed :
      FitsVersion (int (s.global_clock + 1))
      → let (tx', s') = write_write_set_and_unlock ticked_tx ticked_store in Committed tx s tx' s'
  unfolding write_write_set_and_unlock
  committed fits = record {
    words = λ a place.
        write_back-memory (ticked (s.tm)) _ s.align a tx.write_set
          (record { memory = s.memory; locks = h.locks }) place;
    versions = λ l g.
        (published ticked_tx ticked_store s.locks ready fits l).0
          (guards-ticked s.tm l tx.write_set ∙ g);
    others = λ l g.
        (published ticked_tx ticked_store s.locks ready fits l).1
          (guards-ticked s.tm l tx.write_set ∙ g);
    clock = refl;
    released = λ l. (published ticked_tx ticked_store s.locks ready fits l).2;
  }

  aborted :
      let h' = unlock_write_set (ticked (s.tm)) tx.write_set (held_of ticked_tx ticked_store) in
      Aborted s
        (record ticked_tx { locked_set = h'.locked_set })
        (record ticked_store { locks = h'.locks })
  aborted = record {
    memory = refl;
    locks = λ l. (restored ticked_tx ticked_store s.locks ready words l).0;
    clock = inr refl;
    released = λ l. (restored ticked_tx ticked_store s.locks ready words l).1;
  }

  commit_locked-IsAtomic :
      FitsVersion (int (s.global_clock + 1))
      → IsAtomic tx s
          (commit_locked (record tx { locked_set = h.locked_set }) (record s { locks = h.locks }))
  unfolding commit_locked
  commit_locked-IsAtomic fits = elim (Bool-cases (validate_read_set ticked_tx ticked_store)) [
    | inl ok ↦ rw (ok, commit_locked) (sym ok ∙ valid, (λ _. committed fits), λ e. cc)
    | inr fail ↦ rw (fail, commit_locked) (sym fail ∙ valid, (λ e. cc), λ _. aborted)
  ]

-- What `end_wr` does with the outcome of `lock_write_set`.
abbrev pub finish : Transaction → Store → Bool × Held → Bool × Transaction × Store
finish tx s (ok, h) =
    let (tx1, s1) = with_held tx s h in if not ok then (false, tx1, s1) else commit_locked tx1 s1

finish-IsAtomic :
    (tx : Transaction) (s : Store) (r : Bool × Held)
    → AreWords s.locks
    → FitsVersion (int (s.global_clock + 1))
    → AreWords r.1.locks
    → AllOrNone s.tm tx.write_set s.locks r
    → IsAtomic tx s (finish tx s r)
finish-IsAtomic tx s (ok, h) words fits held_words (inl (done, own, other, set)) =
    rw done (commit_locked-IsAtomic tx s h words held_words own other set fits)
finish-IsAtomic tx s (ok, h) words fits held_words
      (inr (failed, restored_locks, (l, guarded, taken))) =
    rw failed (
      rw (all_free-false s tx.write_set l guarded taken),
      (λ e. cc),
      λ _. record {
        memory = refl;
        locks = λ k. (restored_locks k).0;
        clock = inl refl;
        released = λ k. (restored_locks k).1;
      },
    )

-- For a transaction that holds no lock, 32-bit lock words and a clock below 2 ^ 30 - 1: `end_wr` commits
-- exactly when the locks that guard its writes are free and either the clock is still at the read
-- version or all that it read is unlocked and no newer than the read version. A commit publishes every
-- word that is a written word or overlaps none as the transaction saw it, puts the guarding locks at the
-- next version and unlocked, and changes no other lock. Otherwise memory and every lock are as before,
-- and the clock has moved by one or not at all. In either case it holds no lock at the end.
pub end_wr-IsAtomic :
    (tx : Transaction) (s : Store)
    → tx.locked_set ≡ []
    → AreWords s.locks
    → s.global_clock + 1 < 2 ^ 30
    → IsAtomic tx s (end_wr tx s)
unfolding end_wr
end_wr-IsAtomic tx s empty words small =
    finish-IsAtomic tx s (lock_write_set s.tm tx.write_set (held_of tx s)) words (inl fits)
      (rw start (lock_write_set-AreWords s.tm tx.write_set s.locks words))
      (rw start (lock_write_set-AllOrNone s.tm tx.write_set s.locks words))
  where
    fits : int (s.global_clock + 1) < 2 ^ 30
    fits = omega arith

    start : held_of tx s ≡ none_held s.locks
    start = ap (λ set. record { locked_set = set; locks = s.locks }) empty

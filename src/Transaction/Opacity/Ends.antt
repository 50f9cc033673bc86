-- ===== src/Transaction/Opacity/Ends.antt =====
-- The end of a transaction, as the others see it.
use concurrent_project.Prelude.{
  ℕ, ◌+◌, ◌^◌, ◌<◌, ◌≡◌, refl, sym, ap, ◌∙◌, inl, inr, Bool, false, ◌==◌, if◌then◌else◌, List, [],
  ◌∷◌, arith, All, reverse, Bool-cases,
}
use mathlib.Core.Path.{subst}
use concurrent_project.Heap.{load}
use concurrent_project.VersionedLock.{get_version_locked}
use concurrent_project.VersionedLock.Cycle.{unlock-lt}
use concurrent_project.Region.{Store, TransactionalMemory, get_versioned_lock}
use concurrent_project.Transaction.Types.{Write, Transaction}
use concurrent_project.Transaction.Locking.{
  Held, write_lock, lock_write_set, unlock_write_set, validate_read_set,
}
use concurrent_project.Transaction.Locking.Acquire.{AreWords, guards, unlock_write_set_lem}
use concurrent_project.Transaction.Locking.Rollback.{none_held, lock_write_set-AreWords}
use concurrent_project.Transaction.Reading.Words.{AreWrites, seen}
use concurrent_project.Transaction.Commit.{
  held_of, with_held, increment_and_fetch_global_clock, write_write_set_and_unlock, commit_locked,
  end_wr,
}
use concurrent_project.Transaction.Commit.WriteBack.{
  AreWordsAt, write_back-lt, seen-reverse-cons, seen-nil,
}
use concurrent_project.Transaction.Commit.Outcome.{Committed, Aborted}
use concurrent_project.Transaction.Commit.Atomic.{end_wr-IsAtomic}
use concurrent_project.Transaction.Opacity.{Live, IsLayout}
use concurrent_project.Transaction.Opacity.Moves.{lock_of, IsTimed, IsFixed, Moves}

unlock_write_set-AreWords :
    (tm : TransactionalMemory) (ws : List Write) (h : Held)
    → AreWords h.locks
    → AreWords (unlock_write_set tm ws h).locks
unlock_write_set-AreWords tm ws h words l =
    ground (arith, unlock_write_set_lem tm ws h l, unlock-lt (h.locks l), words l)

-- Only the clock of the region moves, and lock words stay words.
abbrev Kept : Store → Bool × Transaction × Store → Type 0
Kept s r = (r.2.tm ≡ record (s.tm) { global_clock = r.2.global_clock }) × AreWords r.2.locks

commit_locked-Kept : (tx : Transaction) (s : Store) → AreWords s.locks → Kept s (commit_locked tx s)
unfolding commit_locked increment_and_fetch_global_clock write_write_set_and_unlock
commit_locked-Kept tx s words =
    let (tx1, s1) = increment_and_fetch_global_clock tx s in
    elim (Bool-cases (validate_read_set tx1 s1)) [
      | inl ok ↦
          rw (ok, commit_locked)
            (
              refl,
              unlock_write_set-AreWords _ tx.write_set _
                  (λ l. write_back-lt _ _ tx.write_set _ l (words l)),
            )
      | inr fail ↦ rw (fail, commit_locked) (refl, unlock_write_set-AreWords _ tx.write_set _ words)
    ]

end_wr-Kept :
    (tx : Transaction) (s : Store) → tx.locked_set ≡ [] → AreWords s.locks → Kept s (end_wr tx s)
unfolding end_wr
end_wr-Kept tx s empty words =
    let (ok, h) = lock_write_set s.tm tx.write_set (held_of tx s) in
    let start : held_of tx s ≡ none_held s.locks =
      ap (λ set. record { locked_set = set; locks = s.locks }) empty in
    let held_words : AreWords h.locks =
      subst (λ k. AreWords (lock_write_set s.tm tx.write_set k).1.locks) (sym start)
        (lock_write_set-AreWords s.tm tx.write_set s.locks words) in
    elim (Bool-cases ok) [
      | inl locked ↦
          rw (locked, end_wr)
            (commit_locked-Kept (with_held tx s h).0 (with_held tx s h).1 held_words)
      | inr failed ↦ rw (failed, end_wr) (refl, held_words)
    ]

module _ (IsWord : (a segment_index : ℕ) → Type 0) where
  -- A write to a word goes to the segment of the word.
  same_segment :
      {align : ℕ} (layout : IsLayout align IsWord) (a i : ℕ) (w : Write)
      → IsWord a i
      → IsWord w.destination w.segment_index
      → w.destination ≡ a
      → w.segment_index ≡ i
  same_segment layout a i w place written e =
      elim (layout.separate a i w.destination w.segment_index place written) [
        | inl (here, segment) ↦ sym segment
        | inr apart ↦ absurd (omega (arith, layout.positive, apart, e))
      ]

  pub places-AreWordsAt :
      {align : ℕ} (layout : IsLayout align IsWord) (a i : ℕ) (ws : List Write)
      → IsWord a i
      → AreWrites align ws
      → All (λ w. IsWord w.destination w.segment_index) ws
      → AreWordsAt align a ws
  places-AreWordsAt layout a i [] place whole written = tt
  places-AreWordsAt layout a i (w ∷ ws) place whole written = (
    (
      whole.0,
      elim (layout.separate a i w.destination w.segment_index place written.0) [
        | inl (here, segment) ↦ inl here
        | inr apart ↦ inr apart
      ],
    ),
    places-AreWordsAt layout a i ws place whole.1 written.1,
  )

  -- A word whose lock guards no write is not written.
  seen-unguarded :
      {align : ℕ} (layout : IsLayout align IsWord) (tm : TransactionalMemory) (a i : ℕ)
      (ws : List Write) (word : List ℕ)
      → IsWord a i
      → All (λ w. IsWord w.destination w.segment_index) ws
      → guards tm (get_versioned_lock tm a i) ws ≡ false
      → seen a (reverse ws) word ≡ word
  seen-unguarded layout tm a i [] word place written free = sym (seen-nil a word)
  seen-unguarded layout tm a i (w ∷ ws) word place written free =
      let other : (w.destination == a) ≡ false = elim (Bool-cases (w.destination == a)) [
        | inl here ↦
            let e : w.destination ≡ a = ground (arith, here) in
            let segment = same_segment layout a i w place written.0 e in
            let lock : write_lock tm w ≡ get_versioned_lock tm a i = rw (e, segment) refl in
            absurd (ground (arith, lock, free))
        | inr there ↦ there
      ] in
      seen-reverse-cons a ws w word
      ∙ ap (λ b. seen a (reverse ws) (if b then w.bytes else word)) other
      ∙ seen-unguarded layout tm a i ws word place written.1 (ground (arith, free))

  module _ (l : Live) (s : Store) (layout : IsLayout s.align IsWord) (timed : IsTimed IsWord s)
      (fixed : IsFixed IsWord s l) (small : s.global_clock + 1 < 2 ^ 30) where
    Committed-Moves :
        {tx' : Transaction} {s' : Store}
        → s'.tm ≡ record (s.tm) { global_clock = s'.global_clock }
        → Committed l.tx s tx' s'
        → Moves IsWord s s'
    Committed-Moves {s' = s'} region c = record {
      region = region;
      later = omega (arith, c.clock, small);
      word = λ a i place. elim (Bool-cases (guards s.tm (lock_of s a i) l.tx.write_set)) [
        | inl guarded ↦
            inr (omega (arith, small, ap (λ v. v.0) (c.versions (lock_of s a i) guarded)))
        | inr free ↦ inl (
          c.words a (places-AreWordsAt layout a i l.tx.write_set place fixed.whole fixed.written)
              ∙ seen-unguarded layout s.tm a i l.tx.write_set (load s.memory a s.align) place
                  fixed.written free,
          c.others (lock_of s a i) free,
        )
      ];
    }

    Committed-IsTimed :
        {tx' : Transaction} {s' : Store}
        → AreWords s'.locks
        → Committed l.tx s tx' s'
        → IsTimed IsWord s'
    Committed-IsTimed {s' = s'} words c = record {
      words = words;
      timed = λ k. elim (Bool-cases (guards s.tm k l.tx.write_set)) [
        | inl guarded ↦ omega (arith, c.clock, ap (λ v. v.0) (c.versions k guarded))
        | inr free ↦ omega (
          arith,
          small,
          c.clock,
          timed.timed k,
          ap (λ v. (get_version_locked v).0) (c.others k free),
        )
      ];
    }

    Aborted-Moves :
        {tx' : Transaction} {s' : Store}
        → s'.tm ≡ record (s.tm) { global_clock = s'.global_clock }
        → Aborted s tx' s'
        → Moves IsWord s s'
    Aborted-Moves region c = record {
      region = region;
      later = ground (arith, small, c.clock);
      word = λ a i place. inl (ap (λ m. load m a s.align) c.memory, c.locks (lock_of s a i));
    }

    Aborted-IsTimed :
        {tx' : Transaction} {s' : Store} → AreWords s'.locks → Aborted s tx' s' → IsTimed IsWord s'
    Aborted-IsTimed words c = record {
      words = words;
      timed = λ k.
          ground
            (arith, small, c.clock, timed.timed k, ap (λ v. (get_version_locked v).0) (c.locks k));
    }

    pub end_wr-Moves : Moves IsWord s (end_wr l.tx s).2 × IsTimed IsWord (end_wr l.tx s).2
    end_wr-Moves =
        let (decided, commits, aborts) = end_wr-IsAtomic l.tx s fixed.empty timed.words small in
        let (region, words) = end_wr-Kept l.tx s fixed.empty timed.words in
        elim (Bool-cases (end_wr l.tx s).0) [
          | inl ok ↦ (Committed-Moves region (commits ok), Committed-IsTimed words (commits ok))
          | inr failed ↦
              (Aborted-Moves region (aborts failed), Aborted-IsTimed words (aborts failed))
        ]

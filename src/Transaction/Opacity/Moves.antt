-- ===== src/Transaction/Opacity/Moves.antt =====
-- What a step of one transaction does to the others: a word is as it was and so is its lock, or the lock's version is
-- newer than all of them.
use concurrent_project.Prelude.Int32.{minus_one}
use concurrent_project.Prelude.{
  reverse, ℕ, ◌+◌, ◌≤◌, ◌<◌, ◌≡◌, sym, ap, ◌∙◌, ◌⊎◌, inl, inr, List, [], ◌∷◌, arith, All,
}
use mathlib.Core.Path.{subst}
use mathlib.Core.List.{Memᴰ}
use concurrent_project.Heap.{load}
use concurrent_project.VersionedLock.{get_version_locked}
use concurrent_project.Region.{Store, get_versioned_lock}
use concurrent_project.Transaction.Locking.Acquire.{AreWords}
use concurrent_project.Transaction.Reading.Words.{AreWrites, seen}
use concurrent_project.Transaction.Opacity.{Given, Live}

abbrev pub version : (s : Store) → (l : ℕ) → ℕ
version s l = (get_version_locked (s.locks l)).0

abbrev pub lock_of : (s : Store) → (a i : ℕ) → ℕ
lock_of s a i = get_versioned_lock s.tm a i

module _ (IsWord : (a segment_index : ℕ) → Type 0) where
  -- The store between two calls: lock words have 32 bits, and no version is ahead of the clock.
  pub record IsTimed (s : Store) : Type 0 where
    pub words : AreWords s.locks
    pub timed : (l : ℕ) → version s l ≤ s.global_clock

  -- What a read has given is the transaction's own last write at the time, or else the word of the view.
  abbrev pub IsGiven : (l : Live) (align : ℕ) → Given → Type 0
  IsGiven l align g =
      (g.bytes ≡ seen g.entry.source (reverse g.writes) (load l.view g.entry.source align))
      × Memᴰ g.entry l.tx.read_set

  -- A running transaction: a shared word whose lock is no newer than its read version is what it was at
  -- its begin.
  pub record IsFixed (s : Store) (l : Live) : Type 0 where
    pub empty : l.tx.locked_set ≡ []
    pub fresh : l.tx.write_version ≡ minus_one
    pub begun : l.tx.read_version ≤ s.global_clock
    pub whole : AreWrites s.align l.tx.write_set
    pub written : All (λ w. IsWord w.destination w.segment_index) l.tx.write_set
    pub noted : All (λ r. IsWord r.source r.segment_index) l.tx.read_set
    pub same :
        (a i : ℕ)
        → IsWord a i
        → version s (lock_of s a i) ≤ l.tx.read_version
        → load s.memory a s.align ≡ load l.view a s.align
    pub shown : All (λ p. (load l.view p.0.source s.align ≡ p.1) × Memᴰ p.0 l.tx.read_set) l.shown
    pub given : All (IsGiven l s.align) l.given

  pub record Moves (s s' : Store) : Type 0 where
    pub region : s'.tm ≡ record (s.tm) { global_clock = s'.global_clock }
    pub later : (s.global_clock ≤ s'.global_clock) × (s'.global_clock ≤ s.global_clock + 1)
    pub word :
        (a i : ℕ)
        → IsWord a i
        → ((load s'.memory a s.align ≡ load s.memory a s.align)
            × (s'.locks (lock_of s a i) ≡ s.locks (lock_of s a i)))
          ⊎ (s.global_clock < version s' (lock_of s a i))

  align-Moves : {s s' : Store} → Moves s s' → s'.align ≡ s.align
  align-Moves moves = ap (λ tm. tm.align) moves.region

  lock_of-Moves : {s s' : Store} → Moves s s' → (a i : ℕ) → lock_of s' a i ≡ lock_of s a i
  unfolding get_versioned_lock
  lock_of-Moves moves a i = ap (λ tm. get_versioned_lock tm a i) moves.region

  pub IsFixed-Moves : {s s' : Store} (l : Live) → Moves s s' → IsFixed s l → IsFixed s' l
  IsFixed-Moves {s} {s'} l moves fixed = record {
    empty = fixed.empty;
    fresh = fixed.fresh;
    begun = omega (arith, fixed.begun, moves.later);
    whole = subst (λ n. AreWrites n l.tx.write_set) (sym (align-Moves moves)) fixed.whole;
    written = fixed.written;
    noted = fixed.noted;
    shown =
        subst (λ n. All (λ p. (load l.view p.0.source n ≡ p.1) × Memᴰ p.0 l.tx.read_set) l.shown)
          (sym (align-Moves moves)) fixed.shown;
    given = subst (λ n. All (IsGiven l n) l.given) (sym (align-Moves moves)) fixed.given;
    same = λ a i place old.
        subst (λ n. load s'.memory a n ≡ load l.view a n) (sym (align-Moves moves))
          (same a i place (moves.word a i place)
            (subst (λ k. version s' k ≤ l.tx.read_version) (lock_of-Moves moves a i) old));
  }
    where
      same :
          (a i : ℕ)
          → IsWord a i
          → ((load s'.memory a s.align ≡ load s.memory a s.align)
              × (s'.locks (lock_of s a i) ≡ s.locks (lock_of s a i)))
            ⊎ (s.global_clock < version s' (lock_of s a i))
          → version s' (lock_of s a i) ≤ l.tx.read_version
          → load s'.memory a s.align ≡ load l.view a s.align
      same a i place (inl (kept, locked)) old =
          kept
          ∙ fixed.same a i place
              (subst (λ v. (get_version_locked v).0 ≤ l.tx.read_version) locked old)
      same a i place (inr newer) old = absurd (omega (arith, newer, old, fixed.begun))

  pub All-Moves :
      {s s' : Store} (ls : List Live) → Moves s s' → All (IsFixed s) ls → All (IsFixed s') ls
  All-Moves [] moves h = tt
  All-Moves (l ∷ ls) moves h = (IsFixed-Moves l moves h.0, All-Moves ls moves h.1)

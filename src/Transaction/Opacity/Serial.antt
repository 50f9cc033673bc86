-- ===== src/Transaction/Opacity/Serial.antt =====
-- What a running transaction reads, and what it has read when it commits, is the memory of its begin.
use concurrent_project.Prelude.{
  ℕ, ◌+◌, ◌*◌, ◌/◌, ◌^◌, ◌≤◌, ◌<◌, ◌≡◌, sym, ap, ◌∙◌, inl, inr, Bool, true, false, ◌&&◌, ◌||◌, ◌==◌,
  List, [], ◌∷◌, ◌++◌, arith, All, All-middle, All-map, reverse, Bool-cases,
}
use concurrent_project.Prelude.Int32.{int}
use concurrent_project.Heap.{load}
use concurrent_project.Region.{Store, get_versioned_lock}
use concurrent_project.Transaction.Types.{Read}
use concurrent_project.Transaction.Locking.{unlocked_and_old, all_of}
use concurrent_project.Transaction.Reading.{read_write_read}
use concurrent_project.Transaction.Reading.Words.{seen}
use concurrent_project.Transaction.Reading.ReadWrite.{Disjoint}
use concurrent_project.Transaction.Commit.{end_wr}
use concurrent_project.Transaction.Commit.Outcome.{all_free}
use concurrent_project.Transaction.Commit.Atomic.{end_wr-IsAtomic}
use concurrent_project.Transaction.Opacity.{Live, System, IsLayout, AreShared, Reach, starts, goes}
use concurrent_project.Transaction.Opacity.Moves.{lock_of, IsTimed, IsFixed}
use concurrent_project.Transaction.Opacity.Ends.{places-AreWordsAt}
use concurrent_project.Transaction.Opacity.Reads.{old-same, read-view}
use concurrent_project.Transaction.Opacity.Still.{All-member}
use concurrent_project.Transaction.Opacity.Snapshot.{IsConsistent, Step-IsConsistent}

Reach-IsConsistent :
    (IsWord : (a segment_index : ℕ) → Type 0) (start : Store) (n : ℕ) (sys : System)
    → IsLayout start.align IsWord
    → IsTimed IsWord start
    → start.global_clock + n < 2 ^ 30
    → Reach IsWord start n sys
    → IsConsistent IsWord sys × (sys.store.global_clock ≤ start.global_clock + n)
Reach-IsConsistent IsWord start n sys layout timed small starts =
    (record { layout = layout; timed = timed; fixed = tt }, omega arith)
Reach-IsConsistent IsWord start n sys' layout timed small (goes {n = k} {sys = sys} reach step) =
    let (c, le) = Reach-IsConsistent IsWord start k sys layout timed (omega (arith, small)) reach in
    let (c', le') = Step-IsConsistent IsWord step (omega (arith, small, le)) c in
    (c', omega (arith, le, le'))

module _ (IsWord : (a segment_index : ℕ) → Type 0) (s : Store) (l : Live)
    (layout : IsLayout s.align IsWord) (timed : IsTimed IsWord s) (fixed : IsFixed IsWord s l)
    (small : s.global_clock + 1 < 2 ^ 30) where
  reads-hold :
      (rs : List Read)
      → All (λ r. IsWord r.source r.segment_index) rs
      → ((int (s.global_clock + 1) == int (l.tx.read_version + 1))
          || all_of
              (λ r.
                unlocked_and_old l.tx.read_version
                  (s.locks (get_versioned_lock s.tm r.source r.segment_index)))
              rs)
        ≡ true
      → All (λ r. load s.memory r.source s.align ≡ load l.view r.source s.align) rs
  reads-hold [] shared valid = tt
  reads-hold (r ∷ rs) shared valid =
      let k = lock_of s r.source r.segment_index in
      (
        elim (Bool-cases (int (s.global_clock + 1) == int (l.tx.read_version + 1))) [
          | inl still ↦
              let now : s.global_clock ≡ l.tx.read_version =
                ground (arith, still, small, fixed.begun) in
              fixed.same r.source r.segment_index shared.0 (omega (arith, timed.timed k, now))
          | inr moved ↦
              old-same IsWord s l timed fixed small r.source r.segment_index shared.0
                (ground (arith, moved, valid))
        ],
        reads-hold rs shared.1 (ground (arith, valid)),
      )

  end-serial :
      (end_wr l.tx s).0 ≡ true
      → All (λ r. load s.memory r.source s.align ≡ load l.view r.source s.align) l.tx.read_set
        × All
            (λ g.
              g.bytes
              ≡ seen g.entry.source (reverse g.writes) (load s.memory g.entry.source s.align))
            l.given
        × ((a i : ℕ)
            → IsWord a i
            → load (end_wr l.tx s).2.memory a s.align
              ≡ seen a (reverse l.tx.write_set) (load s.memory a s.align))
  end-serial ok =
      let (decided, commits, aborts) = end_wr-IsAtomic l.tx s fixed.empty timed.words small in
      let hold =
        reads-hold l.tx.read_set fixed.noted
          (second (all_free s l.tx.write_set) _ (sym decided ∙ ok)) in
      (
        hold,
        All-map _ _ l.given
            (λ g h.
              h.0
              ∙ ap (seen g.entry.source (reverse g.writes)) (
                  sym (
                    All-member (λ r. load s.memory r.source s.align ≡ load l.view r.source s.align)
                      g.entry l.tx.read_set hold h.1)))
            fixed.given,
        λ a i place.
            (commits ok).words a
              (places-AreWordsAt IsWord layout a i l.tx.write_set place fixed.whole fixed.written),
      )
    where
      second : (b c : Bool) → (b && c) ≡ true → c ≡ true
      second true c h = h
      second false c h = absurd (cc)

-- Transactions run together on a region whose shared words do not overlap, in any order of their methods
-- and of changes to private memory: their reads are of shared words into private buffers and their writes to
-- shared words. They start in a store whose lock words have 32 bits and in which no version is ahead of the
-- clock, and take so few steps that the clock stays below 2 ^ 30.
-- All that the reads of a running read-only transaction have given it, taken together, is what stood at one time in
-- shared memory: when the transaction began, or before the read at which it last moved its read version.
pub Reach-shown :
    (IsWord : (a segment_index : ℕ) → Type 0) (start s : Store) (n : ℕ) (before : List Live)
    (l : Live) (after : List Live)
    → IsLayout start.align IsWord
    → IsTimed IsWord start
    → start.global_clock + n < 2 ^ 30
    → Reach IsWord start n (record { store = s; running = before ++ l ∷ after })
    → All (λ p. load l.view p.0.source s.align ≡ p.1) l.shown
Reach-shown IsWord start s n before l after layout timed small reach =
    let (c, le) = Reach-IsConsistent IsWord start n _ layout timed small reach in
    let (hb, hl, ha) = All-middle (IsFixed IsWord s) before l after c.fixed in
    All-map _ _ l.shown (λ p h. h.0) hl.shown

-- Transactions run together on a region whose shared words do not overlap, in any order of their methods
-- and of changes to private memory: their reads are of shared words into private buffers and their writes to
-- shared words. They start in a store whose lock words have 32 bits and in which no version is ahead of the
-- clock, and take so few steps that the clock stays below 2 ^ 30 - 1.
-- Every read of shared words into a buffer apart from them by a running read-write transaction, also by
-- one that can no longer commit, gives, if it succeeds, for each word the transaction's own last write, or else
-- what stood in shared memory when the transaction began.
pub Reach-view :
    (IsWord : (a segment_index : ℕ) → Type 0) (start s : Store) (n : ℕ) (before : List Live)
    (l : Live) (after : List Live)
    → IsLayout start.align IsWord
    → IsTimed IsWord start
    → start.global_clock + n + 1 < 2 ^ 30
    → Reach IsWord start n (record { store = s; running = before ++ l ∷ after })
    → (source size target segment_index : ℕ) → AreShared IsWord s source size segment_index
    → Disjoint s.align (size / s.align) source target
    → let r = read_write_read source size target segment_index l.tx s in
      r.0 ≡ true
      → (j : ℕ) → j < size / s.align
      → load (r.2.memory) (target + j * s.align) s.align
        ≡ seen
            (source + j * s.align)
            (reverse l.tx.write_set)
            (load l.view (source + j * s.align) s.align)
Reach-view IsWord start s n before l after layout timed small reach =
    let (c, le) = Reach-IsConsistent IsWord start n _ layout timed (omega (arith, small)) reach in
    let (hb, hl, ha) = All-middle (IsFixed IsWord s) before l after c.fixed in
    read-view IsWord s l c.timed hl (omega (arith, le, small))

-- Transactions run together on a region whose shared words do not overlap, in any order of their methods
-- and of changes to private memory: their reads are of shared words into private buffers and their writes to
-- shared words. They start in a store whose lock words have 32 bits and in which no version is ahead of the
-- clock, and take so few steps that the clock stays below 2 ^ 30 - 1.
-- When a running read-write transaction commits, every word that it has read is in shared memory what it was
-- when the transaction began; all that its reads have given is its own last write before the read, or else
-- the word that stands in shared memory before the commit; and the commit makes of each shared word the
-- transaction's last write to it or leaves it.
pub Reach-serial :
    (IsWord : (a segment_index : ℕ) → Type 0) (start s : Store) (n : ℕ) (before : List Live)
    (l : Live) (after : List Live)
    → IsLayout start.align IsWord
    → IsTimed IsWord start
    → start.global_clock + n + 1 < 2 ^ 30
    → Reach IsWord start n (record { store = s; running = before ++ l ∷ after })
    → (end_wr l.tx s).0 ≡ true
    → All (λ r. load s.memory r.source s.align ≡ load l.view r.source s.align) l.tx.read_set
      × All
          (λ g.
            g.bytes ≡ seen g.entry.source (reverse g.writes) (load s.memory g.entry.source s.align))
          l.given
      × ((a i : ℕ)
          → IsWord a i
          → load (end_wr l.tx s).2.memory a s.align
            ≡ seen a (reverse l.tx.write_set) (load s.memory a s.align))
Reach-serial IsWord start s n before l after layout timed small reach =
    let (c, le) = Reach-IsConsistent IsWord start n _ layout timed (omega (arith, small)) reach in
    let (hb, hl, ha) = All-middle (IsFixed IsWord s) before l after c.fixed in
    end-serial IsWord s l c.layout c.timed hl (omega (arith, le, small))

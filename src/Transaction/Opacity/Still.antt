-- ===== src/Transaction/Opacity/Still.antt =====
-- Steps that move no lock and no clock, and the entries of a read.
use concurrent_project.Transaction.Reading.Words.{seen}
use concurrent_project.Heap.{load, Memory}
use concurrent_project.Prelude.{
  reverse, ◌≤◌, ℕ, zero, suc, ◌+◌, ◌*◌, ◌<◌, ◌≡◌, sym, ap, ◌∙◌, inl, List, [], ◌∷◌, ◌++◌, reverse,
  arith, All, All-append, All-map,
}
use mathlib.Core.Path.{subst}
use mathlib.Core.List.{Memᴰ}
use mathlib.Core.List.Memᴰ
use native.Mathlib.Decide.{ℕ_discrete}
use concurrent_project.VersionedLock.{get_version_locked}
use concurrent_project.Heap.{Memory, load}
use concurrent_project.Region.{Store}
use concurrent_project.Transaction.Types.{Write, Read}
use concurrent_project.Transaction.Locking.Acquire.{AreWords}
use concurrent_project.Transaction.Reading.Words.{seen}
use concurrent_project.Transaction.Reading.ReadWrite.{reads}
use concurrent_project.Transaction.Opacity.{given_at, Given, Live, SameWords}
use concurrent_project.Transaction.Opacity.Moves.{lock_of, IsTimed, IsFixed, Moves}

pub All-member : (P : Read → Type 0) (r : Read) (rs : List Read) → All P rs → Memᴰ r rs → P r
All-member P r [] h m = elim m [ ]
All-member P r (x ∷ rs) h (Memᴰ.head e) = subst P (sym e) h.0
All-member P r (x ∷ rs) h (Memᴰ.tail m) = All-member P r rs h.1 m

pub reads-member :
    (source target segment_index n i align j : ℕ)
    → i ≤ j
    → j < i + n
    → Memᴰ
        (record { source = source + j * align; segment_index = segment_index })
        (reads source target segment_index n i align)
reads-member source target segment_index zero i align j lo hi = absurd (omega (arith, lo, hi))
reads-member source target segment_index (suc n) i align j lo hi = elim (ℕ_discrete i j) [
  | yes e ↦
      Memᴰ.head
        (ap (λ k. record { source = source + k * align; segment_index = segment_index }) (sym e))
  | no ne ↦ Memᴰ.tail (
      reads-member source target segment_index n (i + 1) align j (omega (arith, lo, ne))
        (omega (arith, hi)))
]

pub given_at-All :
    (writes : List Write) (source target segment_index n i align : ℕ) (m : Memory)
    (P : Given → Type 0)
    → ((j : ℕ)
        → i ≤ j
        → j < i + n
        → P (record {
          entry = record { source = source + j * align; segment_index = segment_index };
          writes = writes;
          bytes = load m (target + j * align) align;
        }))
    → All P (given_at writes source target segment_index n i align m)
given_at-All writes source target segment_index zero i align m P h = tt
given_at-All writes source target segment_index (suc n) i align m P h = (
  h i (omega arith) (omega arith),
  given_at-All writes source target segment_index n (i + 1) align m P
      (λ j lo hi. h j (omega (arith, lo)) (omega (arith, hi))),
)

module _ (IsWord : (a segment_index : ℕ) → Type 0) where
  -- A step that moves no lock and no clock.
  pub still-Moves :
      (s s' : Store)
      → s'.tm ≡ s.tm
      → s'.locks ≡ s.locks
      → SameWords IsWord s.align s.memory s'.memory
      → Moves IsWord s s'
  still-Moves s s' region locks words = record {
    region = region ∙ ap (λ tm. record (s.tm) { global_clock = tm.global_clock }) (sym region);
    later = ground (arith, ap (λ tm. tm.global_clock) region);
    word = λ a i place. inl (words a i place, ap (λ f. f (lock_of s a i)) locks);
  }

  pub still-IsTimed :
      (s s' : Store) → s'.tm ≡ s.tm → s'.locks ≡ s.locks → IsTimed IsWord s → IsTimed IsWord s'
  still-IsTimed s s' region locks timed = record {
    words = subst AreWords (sym locks) timed.words;
    timed = λ l. omega (
      arith,
      timed.timed l,
      ap (λ f. (get_version_locked (f l)).0) locks,
      ap (λ tm. tm.global_clock) region,
    );
  }

  pub reads-places :
      (source target segment_index n i align : ℕ)
      → ((k : ℕ) → k < i + n → IsWord (source + k * align) segment_index)
      → All (λ r. IsWord r.source r.segment_index) (reads source target segment_index n i align)
  reads-places source target segment_index zero i align shared = tt
  reads-places source target segment_index (suc n) i align shared = (
    shared i (omega arith),
    reads-places source target segment_index n (i + 1) align (λ k lt. shared k (omega (arith, lt))),
  )

  pub noted-IsFixed :
      (s : Store) (l : Live) (rs : List Read) (gs : List Given)
      → All (λ r. IsWord r.source r.segment_index) rs
      → All
          (λ g.
            (g.bytes ≡ seen g.entry.source (reverse g.writes) (load l.view g.entry.source s.align))
            × Memᴰ g.entry rs)
          gs
      → IsFixed IsWord s l
      → IsFixed IsWord s (record {
        tx = record (l.tx) { read_set = l.tx.read_set ++ rs };
        view = l.view;
        shown = l.shown;
        given = l.given ++ gs;
      })
  noted-IsFixed s l rs gs shared values fixed = record {
    empty = fixed.empty;
    fresh = fixed.fresh;
    begun = fixed.begun;
    whole = fixed.whole;
    written = fixed.written;
    noted = All-append _ l.tx.read_set rs fixed.noted shared;
    same = fixed.same;
    shown = All-map _ _ l.shown (λ p h. (h.0, Memᴰ.append_left rs h.1)) fixed.shown;
    given =
        All-append _ l.given gs
          (All-map _ _ l.given (λ g h. (h.0, Memᴰ.append_left rs h.1)) fixed.given)
          (All-map _ _ gs (λ g h. (h.0, Memᴰ.append_right l.tx.read_set h.1)) values);
  }

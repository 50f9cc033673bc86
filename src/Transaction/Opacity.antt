-- ===== src/Transaction/Opacity.antt =====
-- 358982/Transaction.cpp: transactions that run together on one region, method by method, and what each of
-- them may rely on.
pub mod Moves
pub mod Ends
pub mod Waits
pub mod Ready
pub mod Scans
pub mod Still
pub mod Views
pub mod Reads
pub mod Snapshot
pub mod Serial
pub mod Stale
mod Tests
use concurrent_project.Prelude.{
  ◌==◌, zero, suc, if◌then◌else◌, ℕ, ◌+◌, ◌*◌, ◌/◌, ◌<◌, ◌≡◌, ◌⊎◌, Bool, true, false, List, [], ◌∷◌,
  ◌++◌,
}
use concurrent_project.Heap.{Memory, load}
use concurrent_project.Region.{Store}
use concurrent_project.Transaction.Types.{Write, Read, Transaction, create, write}
use concurrent_project.Transaction.Reading.{read_write_read, read_only_read}
use concurrent_project.Transaction.Reading.Words.{Apart}
use concurrent_project.Transaction.Reading.ReadWrite.{Disjoint}
use concurrent_project.Transaction.Commit.{end_wr, end_ro}

-- What a read of a read-write transaction has given for a word, with the transaction's writes at the time.
pub record Given : Type 0 where
  pub entry : Read
  pub writes : List Write
  pub bytes : List ℕ

-- A running transaction, with the memory as it was when it began, or, after a read-only transaction has
-- moved its read version, as it was then; and with what its reads have given.
pub record Live : Type 0 where
  pub tx : Transaction
  pub view : Memory
  pub shown : List (Read × List ℕ)
  pub given : List Given

-- The words of a buffer into which `n` words were read, from the word `i` on.
abbrev pub words_at : (source target segment_index n i align : ℕ) → Memory → List (Read × List ℕ)
words_at source target segment_index zero i align m = []
words_at source target segment_index (suc n) i align m =
    (
      record { source = source + i * align; segment_index = segment_index },
      load m (target + i * align) align,
    )
    ∷ words_at source target segment_index n (i + 1) align m

-- The same for a transaction that has made `writes`.
abbrev pub given_at :
    (writes : List Write) (source target segment_index n i align : ℕ) → Memory → List Given
given_at writes source target segment_index zero i align m = []
given_at writes source target segment_index (suc n) i align m =
    record {
      entry = record { source = source + i * align; segment_index = segment_index };
      writes = writes;
      bytes = load m (target + i * align) align;
    }
    ∷ given_at writes source target segment_index n (i + 1) align m

abbrev pub view_after : Live → Store → Transaction → Memory
view_after l s tx = if tx.read_version == l.tx.read_version then l.view else s.memory

-- A read-only transaction after a read.
abbrev pub after_scan : (source size target segment_index : ℕ) → Live → Store → Live
after_scan source size target segment_index l s =
    let (ok, tx, s') = read_only_read source size target segment_index l.tx s in
    record {
      tx = tx;
      view = view_after l s tx;
      shown = l.shown ++ words_at source target segment_index (size / s.align) 0 s.align s'.memory;
      given = l.given;
    }

-- A read-write transaction after a read.
abbrev pub after_read : (source size target segment_index : ℕ) → Live → Store → Live
after_read source size target segment_index l s =
    let (ok, tx, s') = read_write_read source size target segment_index l.tx s in
    record {
      tx = tx;
      view = l.view;
      shown = l.shown;
      given =
          l.given
          ++ given_at l.tx.write_set source target segment_index (size / s.align) 0 s.align
              s'.memory;
    }

pub record System : Type 0 where
  pub store : Store
  pub running : List Live

-- Which addresses are those of a shared word, with the index of its segment: an address has one index,
-- two words do not overlap, and none is empty.
pub record IsLayout (align : ℕ) (IsWord : (a segment_index : ℕ) → Type 0) : Type 0 where
  pub positive : 0 < align
  pub separate : (a i b j : ℕ) → IsWord a i → IsWord b j → ((a ≡ b) × (i ≡ j)) ⊎ Apart align a b

module _ (IsWord : (a segment_index : ℕ) → Type 0) where
  -- The words of a call are shared.
  abbrev pub AreShared : (s : Store) → (a size segment_index : ℕ) → Type 0
  AreShared s a size segment_index =
      (k : ℕ) → k < size / s.align → IsWord (a + k * s.align) segment_index

  -- The buffer of a call is private.
  abbrev pub IsPrivate : (s : Store) → (size target : ℕ) → Type 0
  IsPrivate s size target =
      (a i k : ℕ) → IsWord a i → k < size / s.align → Apart s.align a (target + k * s.align)

  -- The private memory is another, and the shared words are the same.
  abbrev pub SameWords : (align : ℕ) → (m m' : Memory) → Type 0
  SameWords align m m' = (a i : ℕ) → IsWord a i → load m' a align ≡ load m a align

  -- A method of one transaction, or a change of private memory. A transaction whose read has failed is
  -- over, as one is that has ended.
  pub data Step : System → System → Type 0 where
    begins :
        {s : Store} {running : List Live}
        → (is_ro : Bool)
        → Step
            (record { store = s; running = running })
            (record {
              store = s;
              running =
                  record { tx = create s.tm is_ro; view = s.memory; shown = []; given = [] }
                  ∷ running;
            })
    scans :
        {s : Store}
        → (before : List Live) → (l : Live) → (after : List Live) → l.tx.is_ro ≡ true
        → (source size target segment_index : ℕ) → AreShared s source size segment_index
        → IsPrivate s size target
        → (read_only_read source size target segment_index l.tx s).0 ≡ true
        → Step
            (record { store = s; running = before ++ l ∷ after })
            (record {
              store = (read_only_read source size target segment_index l.tx s).2;
              running = before ++ after_scan source size target segment_index l s ∷ after;
            })
    stops :
        {s : Store}
        → (before : List Live) → (l : Live) → (after : List Live) → l.tx.is_ro ≡ true
        → (source size target segment_index : ℕ) → AreShared s source size segment_index
        → IsPrivate s size target
        → (read_only_read source size target segment_index l.tx s).0 ≡ false
        → Step
            (record { store = s; running = before ++ l ∷ after })
            (record {
              store = (read_only_read source size target segment_index l.tx s).2;
              running = before ++ after;
            })
    leaves :
        {s : Store}
        → (before : List Live) → (l : Live) → (after : List Live) → l.tx.is_ro ≡ true
        → Step
            (record { store = s; running = before ++ l ∷ after })
            (record { store = (end_ro l.tx s).2; running = before ++ after })
    reads :
        {s : Store}
        → (before : List Live) → (l : Live) → (after : List Live) → l.tx.is_ro ≡ false
        → (source size target segment_index : ℕ) → AreShared s source size segment_index
        → IsPrivate s size target
        → Disjoint s.align (size / s.align) source target
        → (read_write_read source size target segment_index l.tx s).0 ≡ true
        → Step
            (record { store = s; running = before ++ l ∷ after })
            (record {
              store = (read_write_read source size target segment_index l.tx s).2;
              running = before ++ after_read source size target segment_index l s ∷ after;
            })
    fails :
        {s : Store}
        → (before : List Live) → (l : Live) → (after : List Live) → l.tx.is_ro ≡ false
        → (source size target segment_index : ℕ) → IsPrivate s size target
        → Disjoint s.align (size / s.align) source target
        → (read_write_read source size target segment_index l.tx s).0 ≡ false
        → Step
            (record { store = s; running = before ++ l ∷ after })
            (record {
              store = (read_write_read source size target segment_index l.tx s).2;
              running = before ++ after;
            })
    writes :
        {s : Store}
        → (before : List Live) → (l : Live) → (after : List Live)
        → (source size target segment_index : ℕ) → AreShared s target size segment_index
        → Step
            (record { store = s; running = before ++ l ∷ after })
            (record {
              store = s;
              running =
                  before
                  ++ record {
                    tx = write l.tx s source size target segment_index;
                    view = l.view;
                    shown = l.shown;
                    given = l.given;
                  }
                    ∷ after;
            })
    ends :
        {s : Store}
        → (before : List Live) → (l : Live) → (after : List Live) → l.tx.is_ro ≡ false
        → Step
            (record { store = s; running = before ++ l ∷ after })
            (record { store = (end_wr l.tx s).2; running = before ++ after })
    computes :
        {s : Store} {running : List Live} {m : Memory}
        → SameWords s.align s.memory m
        → Step
            (record { store = s; running = running })
            (record { store = record s { memory = m }; running = running })

  -- The systems after `n` steps.
  pub data Reach (start : Store) : ℕ → System → Type 0 where
    starts : Reach start 0 (record { store = start; running = [] })
    goes :
        {n : ℕ} {sys sys' : System} → Reach start n sys → Step sys sys' → Reach start (n + 1) sys'

-- ===== src/Transaction/Types.antt =====
-- 358982/Transaction.hpp: the data of a transaction; its constructor, `write` and `clean_up`.
use concurrent_project.Prelude.{
  ℕ, zero, suc, ◌+◌, ◌*◌, ◌/◌, Bool, false, List, [], ◌∷◌, ◌++◌, ◌==◌, ◌||◌, if◌then◌else◌,
}
use concurrent_project.Prelude.Int32.{minus_one}
use concurrent_project.Heap.{Memory, load}
use concurrent_project.SharedMutex
use concurrent_project.Region.{Store, TransactionalMemory}

-- `bytes` is what the private block `data`, of `align` bytes, holds.
pub record Write : Type 0 where
  pub destination : ℕ
  pub bytes : List ℕ
  pub segment_index : ℕ

-- `source` is the field `data`.
pub record Read : Type 0 where
  pub source : ℕ
  pub segment_index : ℕ

-- The vectors in order of insertion. The set of locks is a list with no order of its own: the code
-- only asks whether it has a lock, and inserts and erases.
pub record Transaction : Type 0 where
  pub is_ro : Bool
  pub read_version : ℕ
  pub write_version : ℕ
  pub read_set : List Read
  pub write_set : List Write
  pub locked_set : List ℕ

abbrev pub ro_retries : ℕ
ro_retries = 10

-- `std::set<VersionedLock*>`
abbrev pub contains : ℕ → List ℕ → Bool
contains a [] = false
contains a (x ∷ xs) = a == x || contains a xs

abbrev pub insert : ℕ → List ℕ → List ℕ
insert a xs = if contains a xs then xs else a ∷ xs

abbrev pub erase : ℕ → List ℕ → List ℕ
erase a [] = []
erase a (x ∷ xs) = if a == x then erase a xs else x ∷ erase a xs

-- The constructor.
unfoldable pub create : TransactionalMemory → (is_ro : Bool) → Transaction
create tm is_ro = record {
  is_ro = is_ro;
  read_version = tm.global_clock;
  write_version = minus_one;
  read_set = [];
  write_set = [];
  locked_set = [];
}

-- The loop of `write` over `n` words from the word `i` on. `malloc` is taken to succeed.
unfoldable pub write_words :
    (n i align : ℕ) → Memory → (source target segment_index : ℕ) → List Write → List Write
write_words zero i align m source target segment_index write_set = write_set
write_words (suc n) i align m source target segment_index write_set =
    write_words n (i + 1) align m source target segment_index (
      write_set
      ++ record {
        destination = target + i * align;
        bytes = load m (source + i * align) align;
        segment_index = segment_index;
      }
        ∷ [])

unfoldable pub write : Transaction → Store → (source size target segment_index : ℕ) → Transaction
unfolding write_words
write tx s source size target segment_index =
    let n_words = size / s.align in
    record tx {
      write_set = write_words n_words 0 s.align s.memory source target segment_index tx.write_set;
    }

-- The transaction is over; its private blocks are no part of the model.
unfoldable pub clean_up : Transaction → Store → Transaction × Store
clean_up tx s = (
  record tx { read_set = [] },
  record s { tm = record (s.tm) { freeing_lock = SharedMutex.unlock_shared s.freeing_lock } },
)

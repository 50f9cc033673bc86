-- ===== src/Api.antt =====
-- 358982/tm.cpp: the exported functions, over a region's store and a transaction.
-- A region's handle stands for its store, and a transaction's for its record.

pub mod Kept
pub mod Runs
pub mod Segments
mod Tests
use concurrent_project.Prelude.{
  ℕ, zero, suc, ◌+◌, ◌%◌, ◌^◌, Bool, true, false, Option, none, some, List, [], ◌∷◌, ◌++◌, ltb,
  ◌==◌, if◌then◌else◌,
}
use concurrent_project.Prelude.Int32.{int}
use concurrent_project.Heap.{Memory, update}
use concurrent_project.SharedMutex
use concurrent_project.MemorySegment.{MemorySegment}
use concurrent_project.MemorySegment
use concurrent_project.Region.{
  TransactionalMemory, Store, in_use, to_be_deleted, get_pointer_top_digits,
  create_opaque_data_pointer, create_transparent_data_pointer, free_marked_segments_if_time,
  realloc_segments,
}
use concurrent_project.Region
use concurrent_project.Transaction.Types.{Transaction, clean_up}
use concurrent_project.Transaction.Types
use concurrent_project.Transaction.Reading
use concurrent_project.Transaction.Commit

-- How a call ends: it returns; it still spins in a loop on a lock, which the state does not let it
-- leave; or an exception leaves a `noexcept` function, which ends the process.
pub data Call {ℓ} (A : Type ℓ) : Type ℓ where
  returns : A → Call A
  spins : Call A
  terminates : Call A

-- `enum class Alloc` of include/tm.hpp
pub data Alloc : Type 0 where
  success abort nomem : Alloc

-- `none` is `invalid_shared`.
unfoldable pub tm_create :
    (block : Option ℕ) (lock_array object size align : ℕ) → Memory → (ℕ → ℕ) → Option Store
tm_create block lock_array object size align memory locks =
    Region.create block lock_array object size align memory locks

-- The loop of `tm_destroy` over `n` entries from index `i` on: what it gives back to the allocator.
unfoldable pub destroy_segments : (n i : ℕ) → Store → List ℕ → List ℕ
destroy_segments zero i s log = log
destroy_segments (suc n) i s log =
    destroy_segments n (i + 1) s
      (if s.segment_status i == in_use then log ++ MemorySegment.free (s.segments i) else log)

-- The two arrays are deleted as well; nothing of the region is read after this.
unfoldable pub tm_destroy : Store → List ℕ
unfolding destroy_segments
tm_destroy s = destroy_segments s.max_segments 0 s s.freed_segments

unfoldable pub tm_start : Store → ℕ
tm_start s = create_opaque_data_pointer (s.start_segment.data_address) 0

unfoldable pub tm_size : Store → ℕ
tm_size s = s.size

unfoldable pub tm_align : Store → ℕ
tm_align s = s.align

unfoldable pub tm_begin : (is_ro : Bool) → Store → Call (Transaction × Store)
tm_begin is_ro s = elim (free_marked_segments_if_time s) [
  | none ↦ spins
  | some s1 ↦ elim (SharedMutex.try_lock_shared s1.freeing_lock) [
    | none ↦ spins
    | some held ↦
        returns
          (Types.create s1.tm is_ro, record s1 { tm = record (s1.tm) { freeing_lock = held } })
  ]
]

-- `transactions_committed_since_last_free.fetch_add(1)`
abbrev pub count_end : Store → Store
count_end s = record s {
  tm = record (s.tm) {
    transactions_committed_since_last_free = int (s.transactions_committed_since_last_free + 1);
  };
}

unfoldable pub tm_end : Transaction → Store → Bool × Store
tm_end tx s =
    let (ok, tx1, s1) = Commit.end tx s in let (tx2, s2) = clean_up tx1 s1 in (ok, count_end s2)

-- On failure the transaction is cleaned up and deleted.
unfoldable pub tm_read : (source size target : ℕ) → Transaction → Store → Bool × Transaction × Store
tm_read source size target tx s =
    let p = create_transparent_data_pointer s.tm source in
    let segment_index = get_pointer_top_digits source in
    let (ok, tx1, s1) = Reading.read p size target segment_index tx s in
    let cleaned = clean_up tx1 s1 in if ok then (true, tx1, s1) else (false, cleaned.0, cleaned.1)

unfoldable pub tm_write : (source size target : ℕ) → Transaction → Store → Bool × Transaction
tm_write source size target tx s =
    let p = create_transparent_data_pointer s.tm target in
    let segment_index = get_pointer_top_digits target in
    (true, Types.write tx s source size p segment_index)

-- The entry of a new segment.
abbrev install : (new_index : ℕ) → MemorySegment → Store → Store
install new_index segment s = record s {
  tm = record (s.tm) {
    segments = update s.segments new_index segment;
    segment_status = update s.segment_status new_index in_use;
  };
}

-- `new MemorySegment` and the lines below it.
unfoldable pub alloc_segment :
    (block : Option ℕ) (lock_array size new_index : ℕ) → Store → Call (Alloc × ℕ × Store)
alloc_segment block lock_array size new_index s =
    elim (MemorySegment.create block lock_array size s.align s.memory s.locks) [
      | none ↦ terminates
      | some (segment, memory', locks') ↦ returns (
        success,
        create_opaque_data_pointer segment.data_address new_index,
        install new_index segment (record s { memory = memory'; locks = locks' }),
      )
    ]

-- The results of the allocator, and what `realloc` leaves behind the old entries, are arguments.
unfoldable pub tm_alloc :
    (block : Option ℕ) (lock_array : ℕ) (junk_segments : ℕ → MemorySegment) (junk_status : ℕ → ℕ)
    (size : ℕ)
    → Store
    → Call (Alloc × ℕ × Store)
unfolding alloc_segment
tm_alloc block lock_array junk_segments junk_status size s =
    let new_index = s.n_segments in
    let s1 : Store = record s { tm = record (s.tm) { n_segments = (s.n_segments + 1) % 2 ^ 16 } } in
    if ltb new_index s.max_segments
    then alloc_segment block lock_array size new_index s1
    else elim (realloc_segments junk_segments junk_status new_index s1) [
      | none ↦ spins
      | some s2 ↦ alloc_segment block lock_array size new_index s2
    ]

unfoldable pub tm_free : (target : ℕ) → Store → Bool × Store
tm_free target s =
    let segment_index = get_pointer_top_digits target in
    (
      true,
      record s {
        tm = record (s.tm) { segment_status = update s.segment_status segment_index to_be_deleted };
      },
    )

-- ===== src/Region.antt =====
-- 358982/TransactionalMemory.hpp and TransactionalMemory.cpp: one shared memory region.
-- The fields of the object, with the parts of the process's memory that the region's code reads and
-- writes: the bytes, the words of the locks, and the log of the segments' blocks given back to the allocator,
-- which are their words and their arrays of locks. Other blocks are not in the log: the segment objects, the
-- tables that `realloc` moves, and what a transaction owns.
pub mod Pointers
pub mod Segments
pub mod Samples
mod Tests
use concurrent_project.Prelude.{
  ℕ, zero, suc, ◌+◌, ◌-◌, ◌*◌, ◌/◌, ◌%◌, ◌^◌, Bool, Option, none, some, List, [], ◌∷◌, ◌++◌,
  bit_and, bit_or, ltb, ◌==◌, if◌then◌else◌,
}
use concurrent_project.Heap.{Memory, update}
use concurrent_project.SharedMutex.{SharedMutex, unheld}
use concurrent_project.SharedMutex
use concurrent_project.MemorySegment.{MemorySegment, null_segment}
use concurrent_project.MemorySegment

-- `struct SegmentStatus`
abbrev pub absent : ℕ
absent = 0

abbrev pub in_use : ℕ
in_use = 1

abbrev pub to_be_deleted : ℕ
to_be_deleted = 2

abbrev pub deleted : ℕ
deleted = 3

-- The two arrays are functions: at an index from `max_segments` on they give what an access past the
-- end would find.
pub record TransactionalMemory : Type 0 where
  pub start_segment : MemorySegment
  pub size : ℕ
  pub align : ℕ
  pub global_clock : ℕ
  pub freeing_lock : SharedMutex
  pub allocating_lock : SharedMutex
  pub transactions_committed_since_last_free : ℕ
  pub segment_status : ℕ → ℕ
  pub max_segments : ℕ
  pub n_segments : ℕ
  pub segments : ℕ → MemorySegment
  pub real_segment_address_prefix : ℕ

pub record Store : Type 0 where
  pub tm : TransactionalMemory
  pub open tm use *
  pub memory : Memory
  pub locks : ℕ → ℕ
  pub freed_segments : List ℕ

abbrev pub cleaning_period : ℕ
cleaning_period = 100000

-- The 16 high bits of a pointer, and the rest.
abbrev pub mask : ℕ
mask = 0xffff_0000_0000_0000

abbrev pub clear_mask : ℕ
clear_mask = 0x0000_ffff_ffff_ffff

unfoldable pub get_pointer_top_digits : ℕ → ℕ
get_pointer_top_digits p = bit_and p mask / 2 ^ 48 % 2 ^ 16

unfoldable pub change_pointer_top_digits_to : (p n : ℕ) → ℕ
change_pointer_top_digits_to p n = bit_or (bit_and p clear_mask) (n * 2 ^ 48 % 2 ^ 64)

unfoldable pub create_opaque_data_pointer : (p segment_index : ℕ) → ℕ
unfolding change_pointer_top_digits_to
create_opaque_data_pointer p segment_index = change_pointer_top_digits_to p segment_index

unfoldable pub create_transparent_data_pointer : TransactionalMemory → ℕ → ℕ
unfolding change_pointer_top_digits_to
create_transparent_data_pointer tm p = change_pointer_top_digits_to p tm.real_segment_address_prefix

-- The difference of the pointers is a `long`, which the division by the unsigned `align` turns into
-- an `unsigned long`. The result is the lock's address, in locks.
unfoldable pub get_versioned_lock : TransactionalMemory → (p segment_index : ℕ) → ℕ
get_versioned_lock tm p segment_index =
    let segment = tm.segments segment_index in
    let diff = (p + 2 ^ 64 - segment.data_address) % 2 ^ 64 in
    let index = diff / tm.align in segment.versioned_locks + index

-- The constructor, once `new MemorySegment` has made the start segment. `object` is the address of
-- that object, whose high digits become the prefix.
abbrev pub start_region :
    (start_segment : MemorySegment) (object size align : ℕ) → TransactionalMemory
unfolding get_pointer_top_digits
start_region start_segment object size align = record {
  start_segment = start_segment;
  size = size;
  align = align;
  global_clock = 0;
  freeing_lock = unheld;
  allocating_lock = unheld;
  transactions_committed_since_last_free = 0;
  segment_status = λ i. if i == 0 then in_use else absent;
  max_segments = 1000;
  n_segments = 1;
  segments = λ i. if i == 0 then start_segment else null_segment;
  real_segment_address_prefix = get_pointer_top_digits object;
}

-- The constructor. The results of `aligned_alloc` and `new` are arguments, as in
-- `MemorySegment.create`; `none` is the exception.
unfoldable pub create :
    (block : Option ℕ) (lock_array object size align : ℕ) → Memory → (ℕ → ℕ) → Option Store
unfolding start_region
create block lock_array object size align memory locks =
    elim (MemorySegment.create block lock_array size align memory locks) [
      | none ↦ none
      | some (segment, memory', locks') ↦ some (record {
        tm = start_region segment object size align;
        memory = memory';
        locks = locks';
        freed_segments = [];
      })
    ]

-- What the loop of `free_marked_segments_if_time` changes.
pub record Sweep : Type 0 where
  pub status : ℕ → ℕ
  pub log : List ℕ

-- The loop over `n` entries from index `i` on.
unfoldable pub free_marked : (n i : ℕ) → (ℕ → MemorySegment) → Sweep → Sweep
free_marked zero i segments w = w
free_marked (suc n) i segments w = free_marked n (i + 1) segments (
    if w.status i == to_be_deleted
    then record {
      status = update w.status i deleted;
      log = w.log ++ MemorySegment.free (segments i);
    }
    else w)

-- An `int` compared with a `size_t` is converted to 64 bits, its sign extended.
abbrev pub to_size : ℕ → ℕ
to_size x = if ltb x (2 ^ 31) then x else x + 2 ^ 64 - 2 ^ 32

-- `none`: the thread spins in `while (!freeing_lock.try_lock())`.
unfoldable pub free_marked_segments_if_time : Store → Option Store
unfolding free_marked
free_marked_segments_if_time s =
    if ltb (to_size s.transactions_committed_since_last_free) cleaning_period
    then some s
    else elim (SharedMutex.try_lock s.freeing_lock) [
      | none ↦ none
      | some held ↦
          let w =
            free_marked s.max_segments 0 s.segments
              (record { status = s.segment_status; log = s.freed_segments }) in
          some (record s {
            tm = record tm {
              segment_status = w.status;
              transactions_committed_since_last_free = 0;
              freeing_lock = SharedMutex.unlock held;
            };
            freed_segments = w.log;
          })
    ]
  where
    open s use {tm}

-- `realloc` keeps the first `max_segments` entries of the two arrays. What it leaves behind them is
-- indeterminate: `junk_segments` and `junk_status`. `none`: the thread spins.
unfoldable pub realloc_segments :
    (junk_segments : ℕ → MemorySegment) (junk_status : ℕ → ℕ) (new_index : ℕ) → Store → Option Store
realloc_segments junk_segments junk_status new_index s =
    elim (SharedMutex.try_lock s.allocating_lock) [
      | none ↦ if ltb s.max_segments new_index then some s else none
      | some held ↦ some (record s {
        tm = record tm {
          segments = λ i. if ltb i s.max_segments then s.segments i else junk_segments i;
          segment_status = λ i. if ltb i s.max_segments then s.segment_status i else junk_status i;
          max_segments = s.max_segments * 2 % 2 ^ 64;
          allocating_lock = SharedMutex.unlock held;
        };
      })
    ]
  where
    open s use {tm}

-- ===== src/MemorySegment.antt =====
-- 358982/MemorySegment.cpp: a block of shared memory with one lock for each aligned word of it.
pub mod Fresh
use concurrent_project.Prelude.{
  ℕ, zero, suc, ◌+◌, ◌/◌, ◌<◌, Bool, ◌&&◌, Option, none, some, List, [], ◌∷◌, ltb, leb,
}
use concurrent_project.Heap.{Memory, update, memset}
use concurrent_project.VersionedLock

-- `data` and `versioned_locks` are addresses. Locks are numbered one by one: the lock at index `i`
-- of a segment is the lock `versioned_locks + i`.
pub record MemorySegment : Type 0 where
  pub size : ℕ
  pub data_address : ℕ
  pub versioned_locks : ℕ

-- What a null or an indeterminate segment pointer is read as. Following one is undefined.
abbrev pub null_segment : MemorySegment
null_segment = record { size = 0; data_address = 0; versioned_locks = 0 }

-- The loop that sets up `n` locks from `locks[i]` on.
unfoldable pub init_locks : (n i : ℕ) → (ℕ → ℕ) → ℕ → ℕ
init_locks zero i locks = locks
init_locks (suc n) i locks = init_locks n (i + 1) (update locks i VersionedLock.init)

-- The constructor. `aligned_alloc` returned `block`, `none` for a null pointer, and `new` returned
-- the array of locks at `lock_array`. The result `none` is the exception.
unfoldable pub create :
    (block : Option ℕ) (lock_array size align : ℕ)
    → Memory
    → (ℕ → ℕ)
    → Option (MemorySegment × Memory × (ℕ → ℕ))
unfolding init_locks
create none lock_array size align memory locks = none
create (some block) lock_array size align memory locks =
    let memory' = memset memory block 0 size in
    let locks_n = size / align in
    some (
      record { size = size; data_address = block; versioned_locks = lock_array },
      memory',
      init_locks locks_n lock_array locks,
    )

unfoldable pub contains_address : MemorySegment → ℕ → Bool
contains_address s addr = leb s.data_address addr && ltb addr (s.data_address + s.size)

-- What `free` gives back to the allocator.
unfoldable pub free : MemorySegment → List ℕ
free s = s.data_address ∷ s.versioned_locks ∷ []

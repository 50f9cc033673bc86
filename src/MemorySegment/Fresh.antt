-- ===== src/MemorySegment/Fresh.antt =====
-- A new segment is all zeros, and its locks are free at version 0.
use concurrent_project.Prelude.{
  none, Option, ℕ, zero, suc, ◌+◌, ◌/◌, ◌≤◌, ◌<◌, ◌≡◌, refl, ◌⊎◌, some, arith, replicate,
}
use concurrent_project.Heap.{Memory, update, load}
use concurrent_project.Heap.Bytes.{load-memset}
use concurrent_project.VersionedLock
use concurrent_project.MemorySegment.{MemorySegment, init_locks, create}

init_locks-outside :
    (n i : ℕ) (locks : ℕ → ℕ) (j : ℕ) → (j < i) ⊎ (i + n ≤ j) → init_locks n i locks j ≡ locks j
unfolding init_locks
init_locks-outside zero i locks j h = refl
init_locks-outside (suc n) i locks j h =
    ground (arith, init_locks-outside n (i + 1) (update locks i VersionedLock.init) j)

init_locks-inside :
    (n i : ℕ) (locks : ℕ → ℕ) (j : ℕ)
    → i ≤ j
    → j < i + n
    → init_locks n i locks j ≡ VersionedLock.init
unfolding init_locks
init_locks-inside zero i locks j lo hi = absurd (omega arith)
init_locks-inside (suc n) i locks j lo hi = ground (
  arith,
  init_locks-inside n (i + 1) (update locks i VersionedLock.init) j,
  init_locks-outside n (i + 1) (update locks i VersionedLock.init) j,
)

-- What a constructor's outcome is held to, `locks` being the locks before it.
abbrev pub IsFresh : (size align : ℕ) → (ℕ → ℕ) → Option (MemorySegment × Memory × (ℕ → ℕ)) → Type 0
IsFresh size align locks none = ⊥
IsFresh size align locks (some (segment, memory, locks')) =
    (load memory segment.data_address segment.size ≡ replicate size 0)
    × (segment.size ≡ size)
    × ((i : ℕ) → i < size / align → locks' (segment.versioned_locks + i) ≡ VersionedLock.init)
    × ((j : ℕ)
        → (j < segment.versioned_locks) ⊎ (segment.versioned_locks + size / align ≤ j)
        → locks' j ≡ locks j)

-- With a block from the allocator the constructor succeeds: the block is `size` zero bytes, each of
-- its `size / align` locks is initial, and no other lock has changed.
pub create-IsFresh :
    (block lock_array size align : ℕ) (memory : Memory) (locks : ℕ → ℕ)
    → IsFresh size align locks (create (some block) lock_array size align memory locks)
unfolding create
create-IsFresh block lock_array size align memory locks = (
  load-memset memory block 0 size,
  refl,
  λ i h. init_locks-inside (size / align) lock_array locks _ (omega arith) (omega arith),
  init_locks-outside (size / align) lock_array locks,
)

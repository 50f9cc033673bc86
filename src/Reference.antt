-- ===== src/Reference.antt =====
-- reference/tm.c: a transactional memory on one read-write lock, with a doubly linked list of the
-- segments that transactions have allocated. Results of malloc, of posix_memalign and of the lock's
-- calls are arguments. A result `none` is an access through a pointer to no node, or, where a
-- comment says so, a call that has to wait.
pub mod Lock
pub mod Chain
pub mod Segments
pub mod Unlink
pub mod Snapshot
pub mod Lifecycle
mod Tests
pub mod Refinement
pub mod Refine
pub mod Destroy
pub mod Runs
use concurrent_project.Prelude.{
  ℕ, zero, suc, ◌+◌, ◌-◌, ◌%◌, ◌^◌, Bool, true, false, Option, none, some, List, [], ◌∷◌, ltb, ◌==◌,
  if◌then◌else◌, ◌>>=◌,
}
use concurrent_project.Heap.{Memory, update, memcpy, memset}
use concurrent_project.SharedMutex.{SharedMutex}
use concurrent_project.Api.{Alloc, success, nomem}
use concurrent_project.Reference.Lock.{
  shared_lock_init, shared_lock_acquire, shared_lock_acquire_shared, shared_lock_release,
  shared_lock_release_shared,
}

abbrev pub read_only_tx : ℕ
read_only_tx = 2 ^ 64 - 1 - 10

abbrev pub read_write_tx : ℕ
read_write_tx = 2 ^ 64 - 1 - 11

abbrev pub invalid_tx : ℕ
invalid_tx = 2 ^ 64 - 1

-- `struct segment_node`
pub record SegmentNode : Type 0 where
  pub prev : ℕ
  pub next : ℕ

abbrev pub node : (prev next : ℕ) → SegmentNode
node prev next = record { prev = prev; next = next }

abbrev pub node_size : ℕ
node_size = 16

-- A block on the heap that begins with a node, or any other.
pub data Block : Type 0 where
  plain : Block
  linked : SegmentNode → Block

-- The live blocks by their addresses, and the bytes of the segments.
pub record Store : Type 0 where
  pub blocks : ℕ → Option Block
  pub memory : Memory

-- `struct region`
pub record Region : Type 0 where
  pub lock : SharedMutex
  pub start : ℕ
  pub allocs : ℕ
  pub size : ℕ
  pub align : ℕ

abbrev pub allocate : (address : ℕ) → Block → Store → Store
allocate address block s = record s { blocks = update s.blocks address (some block) }

abbrev pub release : (address : ℕ) → Store → Store
release address s = record s { blocks = update s.blocks address none }

-- `none` is invalid_shared.
unfoldable pub tm_create :
    (malloc memalign : Option ℕ) → (init_code size align : ℕ) → Store → Option (ℕ × Region) × Store
unfolding shared_lock_init
tm_create none memalign init_code size align s = (none, s)
tm_create (some region) none init_code size align s =
    let s1 = allocate region plain s in (none, release region s1)
tm_create (some region) (some start) init_code size align s =
    let s2 = allocate start plain (allocate region plain s) in
    elim (shared_lock_init init_code) [
      | none ↦ (none, release region (release start s2))
      | some lock ↦ (
        some
            (region, record { lock = lock; start = start; allocs = 0; size = size; align = align }),
        record s2 { memory = memset s2.memory start 0 size },
      )
    ]

-- `p->prev` and `p->next` of a node, read and written.
abbrev pub as_node : Option Block → Option SegmentNode
as_node none = none
as_node (some plain) = none
as_node (some (linked n)) = some n

unfoldable pub node_at : ℕ → Store → Option SegmentNode
node_at p s = as_node (s.blocks p)

unfoldable pub set_prev : (p prev : ℕ) → Store → Option Store
unfolding node_at
set_prev p prev s = do n ← node_at p s; some (allocate p (linked (record n { prev = prev })) s)

unfoldable pub set_next : (p next : ℕ) → Store → Option Store
unfolding node_at
set_next p next s = do n ← node_at p s; some (allocate p (linked (record n { next = next })) s)

-- The loop that frees the list of segments, on fuel.
unfoldable pub free_allocs : (fuel : ℕ) → (allocs : ℕ) → Store → Option Store
unfolding node_at
free_allocs zero allocs s = none
free_allocs (suc fuel) allocs s = elim (allocs == 0) [
  | true ↦ some s
  | false ↦ elim (node_at allocs s) [
    | none ↦ none
    | some n ↦ free_allocs fuel n.next (release allocs s)
  ]
]

-- `shared_lock_cleanup`, which gives back what the system keeps for the lock, changes nothing of the model.
unfoldable pub tm_destroy : (fuel shared : ℕ) → Region → Store → Option Store
unfolding free_allocs
tm_destroy fuel shared r s = do
  s ← free_allocs fuel r.allocs s
  some (release shared (release r.start s))

unfoldable pub tm_start : Region → ℕ
tm_start r = r.start

unfoldable pub tm_size : Region → ℕ
tm_size r = r.size

unfoldable pub tm_align : Region → ℕ
tm_align r = r.align

-- `none`: the caller waits for the lock.
unfoldable pub tm_begin : (is_ro : Bool) → (code : ℕ) → Region → Option (ℕ × Region)
unfolding shared_lock_acquire shared_lock_acquire_shared
tm_begin is_ro code r =
    if is_ro
    then (do
      (ok, lock) ← shared_lock_acquire_shared code r.lock
      some (if ok then read_only_tx else invalid_tx, record r { lock = lock }))
    else do
      (ok, lock) ← shared_lock_acquire code r.lock
      some (if ok then read_write_tx else invalid_tx, record r { lock = lock })

unfoldable pub tm_end : (tx : ℕ) → Region → Bool × Region
unfolding shared_lock_release shared_lock_release_shared
tm_end tx r =
    if tx == read_only_tx
    then (true, record r { lock = shared_lock_release_shared r.lock })
    else (true, record r { lock = shared_lock_release r.lock })

unfoldable pub tm_read : (source size target : ℕ) → Store → Bool × Store
tm_read source size target s = (true, record s { memory = memcpy s.memory target source size })

unfoldable pub tm_write : (source size target : ℕ) → Store → Bool × Store
tm_write source size target s = (true, record s { memory = memcpy s.memory target source size })

-- The alignment that tm_alloc asks for.
abbrev pub alloc_align : (align : ℕ) → ℕ
alloc_align align = if ltb align 8 then 8 else align

-- `memalign` gives the address of a block for an alignment and a size. Beside the result there is the
-- address of the segment.
unfoldable pub tm_alloc :
    (memalign : (align size : ℕ) → Option ℕ)
    → (size : ℕ) → Region
    → Store
    → Option (Alloc × ℕ × Region × Store)
unfolding set_prev
tm_alloc memalign size r s = elim (memalign (alloc_align r.align) (node_size + size)) [
  | none ↦ some (nomem, 0, r, s)
  | some sn ↦ do
    s ←
        if r.allocs == 0
        then some (allocate sn (linked (node 0 r.allocs)) s)
        else set_prev r.allocs sn (allocate sn (linked (node 0 r.allocs)) s)
    some (
      success,
      sn + node_size,
      record r { allocs = sn },
      record s { memory = memset s.memory (sn + node_size) 0 size },
    )
]

-- `sn->prev->next = sn->next`, or the list begins behind `sn`.
unfoldable pub unlink_before : (sn : ℕ) → Region → Store → Option (Region × Store)
unfolding node_at set_next
unlink_before sn r s = do
  n ← node_at sn s
  if n.prev == 0
      then some (record r { allocs = n.next }, s)
      else do s ← set_next n.prev n.next s; some (r, s)

-- `sn->next->prev = sn->prev`, if there is a next node.
unfoldable pub unlink_behind : (sn : ℕ) → Store → Option Store
unfolding node_at set_prev
unlink_behind sn s = do n ← node_at sn s; if n.next == 0 then some s else set_prev n.next n.prev s

unfoldable pub tm_free : (segment : ℕ) → Region → Store → Option (Bool × Region × Store)
unfolding unlink_before unlink_behind
tm_free segment r s =
    let sn = (segment + 2 ^ 64 - node_size) % 2 ^ 64 in
    do (r, s) ← unlink_before sn r s; s ← unlink_behind sn s; some (true, r, release sn s)

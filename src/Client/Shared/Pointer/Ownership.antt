-- ===== src/Client/Shared/Pointer/Ownership.antt =====
-- A pointer in shared memory is null or owns what it points to.
use concurrent_project.Prelude.{
  replicate, ℕ, ◌+◌, ◌^◌, ◌≤◌, ◌<◌, ◌≡◌, ◌≢◌, refl, sym, ap, ◌∙◌, ◌⊎◌, true, false, none, some,
  List, ◌∷◌, ltb, ◌==◌, if◌then◌else◌, arith,
}
use concurrent_project.Heap.{Memory, load, store, memset}
use concurrent_project.Heap.Bytes.{load-memset, load-store_disjoint, load-store_self}
use concurrent_project.Client.Closures.{eval}
use concurrent_project.Client.Shared.{Shared, read, write}
use concurrent_project.Client.Shared.Words.{word_of, bytes_of, length-bytes_of, word_of-bytes_of}
use concurrent_project.Client.Shared.Pointer.{alloc, free}

-- What the cell of a shared pointer holds.
abbrev pub held : Memory → Shared → ℕ
held m shared = word_of (load m shared.address 8)

pub held-store :
    (m : Memory) (shared : Shared) (w : ℕ)
    → w < 2 ^ 64
    → held (store m shared.address (bytes_of 8 w)) shared ≡ w
held-store m shared w small =
    ap word_of (
      ap (load (store m shared.address (bytes_of 8 w)) shared.address) (sym (length-bytes_of 8 w))
      ∙ load-store_self m shared.address (bytes_of 8 w))
    ∙ word_of-bytes_of 8 w small

-- The block that is asked for, and the memory after it and the write of its address.
abbrev pub block_size : (sizeof size : ℕ) → ℕ
block_size sizeof size = if ltb 0 size then size else sizeof

abbrev pub allocated : (sizeof size target : ℕ) → Shared → Memory → Memory
allocated sizeof size target shared m =
    store (memset m target 0 (block_size sizeof size)) shared.address (bytes_of 8 target)

eval-alloc :
    (sizeof size target : ℕ) (news : List ℕ) (shared : Shared) (m : Memory)
    → held m shared ≡ 0
    → eval (alloc true sizeof size shared) (target ∷ news) m
      ≡ some (target, allocated sizeof size target shared m)
unfolding alloc eval read write
eval-alloc sizeof size target news shared m null =
    let empty : (held m shared == 0) ≡ true = ground (arith, null) in rw (empty, eval) refl

eval-alloc_again :
    (sizeof size : ℕ) (news : List ℕ) (shared : Shared) (m : Memory)
    → held m shared ≢ 0
    → eval (alloc true sizeof size shared) news m ≡ none
unfolding alloc eval read write
eval-alloc_again sizeof size news shared m owns =
    let full : (held m shared == 0) ≡ false = ground (arith, owns) in rw (full, eval) refl

eval-free :
    (news : List ℕ) (shared : Shared) (m : Memory)
    → held m shared ≢ 0
    → eval (free true shared) news m ≡ some (tt, store m shared.address (bytes_of 8 0))
unfolding free eval read write
eval-free news shared m owns =
    let full : (held m shared == 0) ≡ false = ground (arith, owns) in rw (full, eval) refl

eval-free_again :
    (news : List ℕ) (shared : Shared) (m : Memory)
    → held m shared ≡ 0
    → eval (free true shared) news m ≡ none
unfolding free eval read write
eval-free_again news shared m null =
    let empty : (held m shared == 0) ≡ true = ground (arith, null) in rw (empty, eval) refl

-- In assertion mode, at a shared pointer that is null, with a new block that is not null and does not overlap the
-- pointer: an allocation gives the block, filled with zeros, and the pointer then holds its address; a second
-- allocation throws; a free empties the pointer; and a second free throws.
pub alloc-free_cycle :
    (sizeof size target : ℕ) (news : List ℕ) (shared : Shared) (m : Memory)
    → held m shared ≡ 0
    → target ≢ 0
    → target < 2 ^ 64
    → (target + block_size sizeof size ≤ shared.address) ⊎ (shared.address + 8 ≤ target)
    → let m1 = allocated sizeof size target shared m in
      let m2 = store m1 shared.address (bytes_of 8 0) in
      (eval (alloc true sizeof size shared) (target ∷ news) m ≡ some (target, m1))
      × (held m1 shared ≡ target)
      × (load m1 target (block_size sizeof size) ≡ replicate (block_size sizeof size) 0)
      × (eval (alloc true sizeof size shared) news m1 ≡ none)
      × (eval (free true shared) news m1 ≡ some (tt, m2))
      × (held m2 shared ≡ 0)
      × (eval (free true shared) news m2 ≡ none)
alloc-free_cycle sizeof size target news shared m null some_block small apart =
    let m1 = allocated sizeof size target shared m in
    let m2 = store m1 shared.address (bytes_of 8 0) in
    let zeroed = memset m target 0 (block_size sizeof size) in
    let owns : held m1 shared ≡ target = held-store zeroed shared target small in
    let full : held m1 shared ≢ 0 = λ e. some_block (sym owns ∙ e) in
    let empty : held m2 shared ≡ 0 = held-store m1 shared 0 (omega arith) in
    (
      eval-alloc sizeof size target news shared m null,
      owns,
      load-store_disjoint zeroed target (block_size sizeof size) shared.address (bytes_of 8 target)
            (ground (arith, apart, length-bytes_of 8 target))
          ∙ load-memset m target 0 (block_size sizeof size),
      eval-alloc_again sizeof size news shared m1 full,
      eval-free news shared m1 full,
      empty,
      eval-free_again news shared m2 empty,
    )

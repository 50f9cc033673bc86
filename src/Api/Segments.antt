-- ===== src/Api/Segments.antt =====
-- 358982/tm.cpp: allocating and freeing segments.
use concurrent_project.Heap.Bytes.{load-memset}
use concurrent_project.Prelude.{
  none, sym, ap, ◌∙◌, ◌-◌, ℕ, ◌+◌, ◌/◌, ◌%◌, ◌^◌, ◌<◌, ◌≡◌, ◌≢◌, refl, Bool, true, false, not, some,
  arith, ltb, if◌then◌else◌, replicate,
}
use concurrent_project.Heap.{memset, update, load}
use concurrent_project.SharedMutex.{SharedMutex}
use concurrent_project.SharedMutex
use concurrent_project.MemorySegment.{MemorySegment}
use concurrent_project.MemorySegment
use concurrent_project.Region.{
  realloc_segments, create_opaque_data_pointer, Store, in_use, to_be_deleted,
  get_pointer_top_digits, create_transparent_data_pointer,
}
use concurrent_project.Region.Segments.{realloc_segments-held}
use concurrent_project.Region.Pointers.{top-create_opaque, create_transparent-create_opaque}
use concurrent_project.Transaction.Types.{Transaction, clean_up}
use concurrent_project.Transaction.Locking.{Held, lock_write_set}
use concurrent_project.Transaction.Commit.{end, end_wr, commit_locked, held_of}
use concurrent_project.Transaction.Commit.Atomic.{finish}
use concurrent_project.Api.{
  spins, returns, success, spins, tm_alloc, tm_free, tm_end, alloc_segment,
}

-- The two branches of a test leave the same statuses.
if-status :
    (c : Bool) (x y : Bool × Transaction × Store) (status : ℕ → ℕ)
    → x.2.segment_status ≡ status
    → y.2.segment_status ≡ status
    → (if c then x else y).2.segment_status ≡ status
if-status true x y status ex ey = ex
if-status false x y status ex ey = ey

commit_locked-status :
    (tx : Transaction) (s : Store) → (commit_locked tx s).2.segment_status ≡ s.segment_status
unfolding commit_locked
commit_locked-status tx s = if-status _ _ _ s.segment_status refl refl

finish-status :
    (tx : Transaction) (s : Store) (r : Bool × Held)
    → (finish tx s r).2.segment_status ≡ s.segment_status
finish-status tx s (ok, h) =
    if-status (not ok) _ _ s.segment_status refl (
      commit_locked-status (record tx { locked_set = h.locked_set }) (record s { locks = h.locks }))

end_wr-status : (tx : Transaction) (s : Store) → (end_wr tx s).2.segment_status ≡ s.segment_status
unfolding end_wr
end_wr-status tx s = finish-status tx s (lock_write_set s.tm tx.write_set (held_of tx s))

end-status : (tx : Transaction) (s : Store) → (end tx s).2.segment_status ≡ s.segment_status
unfolding end
end-status tx s = if-status tx.is_ro _ _ s.segment_status refl (end_wr-status tx s)

-- A segment that a transaction frees is marked for deletion after the transaction's end, whether that
-- commits or aborts.
pub tm_end-tm_free_marked :
    (tx : Transaction) (target : ℕ) (s : Store)
    → (tm_end tx (tm_free target s).1).1.segment_status (get_pointer_top_digits target)
      ≡ to_be_deleted
unfolding tm_end tm_free clean_up
tm_end-tm_free_marked tx target s = ground (arith, end-status tx (tm_free target s).1)

-- What a call of `tm_alloc` in `s` comes to, when it makes a segment whose bytes are at `block`: the
-- opaque pointer names the next entry of the table and the block, the entry is in use and holds the
-- segment, the other entries are as before, and the block is all zeros.
pub record Allocated (size block : ℕ) (s : Store) (opaque : ℕ) (t : Store) : Type 0 where
  pub index : get_pointer_top_digits opaque ≡ s.n_segments
  pub address : create_transparent_data_pointer t.tm opaque ≡ block
  pub entry :
      (t.segment_status s.n_segments ≡ in_use)
      × ((t.segments s.n_segments).data_address ≡ block)
      × ((t.segments s.n_segments).size ≡ size)
  pub others :
      (i : ℕ)
      → i ≢ s.n_segments
      → (t.segments i ≡ s.segments i) × (t.segment_status i ≡ s.segment_status i)
  pub zeros : load t.memory block size ≡ replicate size 0
  pub next : t.n_segments ≡ (s.n_segments + 1) % 2 ^ 16

abbrev with_segment : (size block lock_array : ℕ) → Store → Store
with_segment size block lock_array s = record s {
  tm = record (s.tm) {
    n_segments = (s.n_segments + 1) % 2 ^ 16;
    segments =
        update s.segments s.n_segments
          (record { size = size; data_address = block; versioned_locks = lock_array });
    segment_status = update s.segment_status s.n_segments in_use;
  };
  memory = memset s.memory block 0 size;
  locks = MemorySegment.init_locks (size / s.align) lock_array s.locks;
}

tm_alloc_lem :
    (block lock_array : ℕ) (junk_segments : ℕ → MemorySegment) (junk_status : ℕ → ℕ) (size : ℕ)
    (s : Store)
    → s.n_segments < s.max_segments
    → tm_alloc (some block) lock_array junk_segments junk_status size s
      ≡ returns (
        success,
        create_opaque_data_pointer block s.n_segments,
        with_segment size block lock_array s,
      )
unfolding tm_alloc alloc_segment MemorySegment.create
tm_alloc_lem block lock_array junk_segments junk_status size s room = rw has_room refl
  where
    has_room : ltb s.n_segments s.max_segments ≡ true
    has_room = ground (arith, room)

-- While there is room in the table and the index fits 16 bits, an allocation for which the allocator
-- returns a block with the region's prefix succeeds: the opaque pointer names the next entry of the
-- table and the block, the entry is in use and holds the segment, the other entries are as before, the
-- block is all zeros, and the counter has moved by one.
pub tm_alloc-Allocated :
    (block lock_array : ℕ) (junk_segments : ℕ → MemorySegment) (junk_status : ℕ → ℕ) (size : ℕ)
    (s : Store)
    → s.n_segments < s.max_segments
    → s.n_segments < 2 ^ 16
    → block < 2 ^ 64
    → get_pointer_top_digits block ≡ s.real_segment_address_prefix
    → (opaque : ℕ) × (t : Store) × (tm_alloc
          (some block)
          lock_array
          junk_segments
          junk_status
          size
          s
        ≡ returns (success, opaque, t))
      × Allocated size block s opaque t
tm_alloc-Allocated block lock_array junk_segments junk_status size s room small fits prefix = (
  create_opaque_data_pointer block s.n_segments,
  with_segment size block lock_array s,
  tm_alloc_lem block lock_array junk_segments junk_status size s room,
  record {
    index = top-create_opaque block s.n_segments small;
    address = create_transparent-create_opaque _ block s.n_segments small fits prefix;
    entry = ground arith;
    others = λ i h. ground arith;
    zeros = load-memset s.memory block 0 size;
    next = refl;
  },
)

-- When the counter of segments is 2 ^ 16 - 1 and the table has room, two allocations for which the allocator
-- returns blocks with the region's prefix succeed, and the second puts its segment into entry 0, that of the
-- start segment: its opaque pointer names entry 0, which now holds the new block.
pub tm_alloc-overwrites :
    (block lock_array block' lock_array' : ℕ) (junk_segments : ℕ → MemorySegment)
    (junk_status : ℕ → ℕ) (size size' : ℕ) (s : Store)
    → s.n_segments ≡ 2 ^ 16 - 1
    → s.n_segments < s.max_segments
    → block' < 2 ^ 64
    → get_pointer_top_digits block' ≡ s.real_segment_address_prefix
    → (opaque : ℕ) × (t : Store) × (opaque' : ℕ) × (t' : Store) × (tm_alloc
          (some block)
          lock_array
          junk_segments
          junk_status
          size
          s
        ≡ returns (success, opaque, t))
      × (tm_alloc (some block') lock_array' junk_segments junk_status size' t
          ≡ returns (success, opaque', t'))
      × (get_pointer_top_digits opaque' ≡ 0)
      × (create_transparent_data_pointer t'.tm opaque' ≡ block')
      × ((t'.segments 0).data_address ≡ block')
      × (t'.segment_status 0 ≡ in_use)
tm_alloc-overwrites block lock_array block' lock_array' junk_segments junk_status size size' s last
      room fits prefix =
    let t = with_segment size block lock_array s in
    let again : t.n_segments ≡ 0 = omega (arith, last) in
    let (opaque', t', e', a) =
      tm_alloc-Allocated block' lock_array' junk_segments junk_status size' t
        (omega (arith, again, room)) (omega (arith, again)) fits prefix in
    (
      create_opaque_data_pointer block s.n_segments,
      t,
      opaque',
      t',
      tm_alloc_lem block lock_array junk_segments junk_status size s room,
      e',
      a.index ∙ again,
      a.address,
      ap (λ n. (t'.segments n).data_address) (sym again) ∙ a.entry.1,
      ap (λ n. t'.segment_status n) (sym again) ∙ a.entry.0,
    )

-- While another thread grows the table, an allocation for which the allocator returns a block spins when its
-- index is the first that the table does not cover. When its index lies further behind, it succeeds although
-- the table has not grown, and puts its segment behind the end of the table.
pub tm_alloc-held :
    (block lock_array : ℕ) (junk_segments : ℕ → MemorySegment) (junk_status : ℕ → ℕ) (size : ℕ)
    (s : Store)
    → s.allocating_lock.exclusive ≡ true
    → (s.n_segments ≡ s.max_segments
        → tm_alloc (some block) lock_array junk_segments junk_status size s ≡ spins)
      × (s.max_segments < s.n_segments
          → (opaque : ℕ) × (t : Store) × (tm_alloc
                (some block)
                lock_array
                junk_segments
                junk_status
                size
                s
              ≡ returns (success, opaque, t))
            × (t.max_segments ≡ s.max_segments)
            × (t.max_segments < s.n_segments)
            × ((t.segments s.n_segments).data_address ≡ block))
unfolding tm_alloc alloc_segment realloc_segments MemorySegment.create SharedMutex.try_lock
tm_alloc-held block lock_array junk_segments junk_status size s held = (
  λ e. ground (arith, e, held),
  λ beyond.
      let full : ltb s.n_segments s.max_segments ≡ false = ground (arith, beyond) in
      let past : ltb s.max_segments s.n_segments ≡ true = ground (arith, beyond) in
      let s1 : Store = record s {
        tm = record (s.tm) { n_segments = (s.n_segments + 1) % 2 ^ 16 };
      } in
      let stays : realloc_segments junk_segments junk_status s.n_segments s1 ≡ some s1 =
        realloc_segments-held junk_segments junk_status s.n_segments s1 held
        ∙ ap (λ b. if b then some s1 else none) past in
      (
        create_opaque_data_pointer block s.n_segments,
        with_segment size block lock_array s,
        rw (full, stays) refl,
        refl,
        beyond,
        ground arith,
      ),
)

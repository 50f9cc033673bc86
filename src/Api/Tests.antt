-- ===== src/Api/Tests.antt =====
-- The theorems on the exported functions, at concrete calls.
use concurrent_project.Prelude.{true, ℕ, ◌≡◌, ◌<◌, refl, false, some, [], ◌∷◌, arith}
use concurrent_project.SharedMutex
use concurrent_project.SharedMutex.{SharedMutex, unheld}
use concurrent_project.MemorySegment
use concurrent_project.MemorySegment.{null_segment, MemorySegment}
use concurrent_project.Region.{
  free_marked, free_marked_segments_if_time, Sweep, Store, get_pointer_top_digits, to_be_deleted,
  in_use, create_transparent_data_pointer,
}
use concurrent_project.Region.Samples.{region, world}
use concurrent_project.Transaction.Types.{Transaction}
use concurrent_project.Transaction.Types
use concurrent_project.Api.{returns, success, spins, tm_alloc, tm_free, tm_end, tm_begin}
use concurrent_project.Api.Segments.{
  Allocated, tm_alloc-Allocated, tm_alloc-overwrites, tm_alloc-held, tm_end-tm_free_marked,
}
use concurrent_project.Api.Runs.{
  frees, System, Step, begins, done, more, IsCounted, Steps-freed_segments,
}

abbrev sample : Transaction
sample = Types.create region false

tm_alloc-Allocated_example :
    (opaque : ℕ) × (t : Store) × (tm_alloc (some 8192) 200 (λ i. null_segment) (λ i. 9) 8 world
      ≡ returns (success, opaque, t))
    × Allocated 8 8192 world opaque t
unfolding get_pointer_top_digits
tm_alloc-Allocated_example =
    tm_alloc-Allocated 8192 200 (λ i. null_segment) (λ i. 9) 8 world (omega arith) (omega arith)
      (omega arith) refl

-- A region whose counter of segments stands at its last value.
abbrev full : Store
full = record world { tm = record region { n_segments = 65535; max_segments = 128000 } }

tm_alloc-overwrites_example :
    (opaque : ℕ) × (t : Store) × (opaque' : ℕ) × (t' : Store) × (tm_alloc
        (some 8192)
        200
        (λ i. null_segment)
        (λ i. 9)
        8
        full
      ≡ returns (success, opaque, t))
    × (tm_alloc (some 12288) 300 (λ i. null_segment) (λ i. 9) 16 t ≡ returns (success, opaque', t'))
    × (get_pointer_top_digits opaque' ≡ 0)
    × (create_transparent_data_pointer t'.tm opaque' ≡ 12288)
    × ((t'.segments 0).data_address ≡ 12288)
    × (t'.segment_status 0 ≡ in_use)
unfolding get_pointer_top_digits
tm_alloc-overwrites_example =
    tm_alloc-overwrites 8192 200 12288 300 (λ i. null_segment) (λ i. 9) 8 16 full refl (omega arith)
      (omega arith) refl

-- Another thread grows a table of four entries, and more allocations have begun.
abbrev growing : Store
growing = record world {
  tm = record region { allocating_lock = record { exclusive = true; readers = 0 }; n_segments = 6 };
}

tm_alloc-held_example :
    (growing.n_segments ≡ 4
      → tm_alloc (some 8192) 200 (λ i. null_segment) (λ i. 9) 8 growing ≡ spins)
    × (4 < 6
        → (opaque : ℕ) × (t : Store) × (tm_alloc
              (some 8192)
              200
              (λ i. null_segment)
              (λ i. 9)
              8
              growing
            ≡ returns (success, opaque, t))
          × (t.max_segments ≡ 4)
          × (t.max_segments < 6)
          × ((t.segments 6).data_address ≡ 8192))
tm_alloc-held_example = tm_alloc-held 8192 200 (λ i. null_segment) (λ i. 9) 8 growing refl

tm_end-tm_free_marked_example :
    (tm_end sample (tm_free 281_474_976_718_848 world).1).1.segment_status
      (get_pointer_top_digits 281_474_976_718_848)
    ≡ to_be_deleted
tm_end-tm_free_marked_example = tm_end-tm_free_marked sample 281_474_976_718_848 world

-- Nobody runs and a cleaning is due.
abbrev due : Store
due = record world { tm = record region { transactions_committed_since_last_free = 100000 } }

abbrev idle : System
idle = record { store = due; running = [] }

idle-IsCounted : IsCounted idle
idle-IsCounted = record { shared = refl; count = refl }

-- The first segment is marked, and then a transaction begins.
abbrev marked : Store
unfolding tm_free
marked = (tm_free 4096 due).1

abbrev begun : Store
begun = record marked {
  tm = record (marked.tm) {
    transactions_committed_since_last_free = 0;
    segment_status = (free_marked 4 0 marked.segments swept).status;
    freeing_lock = record { exclusive = false; readers = 1 };
  };
  freed_segments = 4096 ∷ 100 ∷ [];
}
  where
    swept : Sweep
    swept = record { status = marked.segment_status; log = [] }

abbrev quiet : System
quiet = record { store = marked; running = [] }

begin_marked : Step quiet (record { store = begun; running = sample ∷ [] })
unfolding tm_begin tm_free free_marked_segments_if_time free_marked get_pointer_top_digits
    SharedMutex.try_lock SharedMutex.unlock SharedMutex.try_lock_shared Types.create
    MemorySegment.free marked begun sample
begin_marked = begins false sample refl

Steps-freed_segments_example : quiet.running ≡ []
unfolding tm_free quiet marked begun
Steps-freed_segments_example =
    Steps-freed_segments idle-IsCounted (more done (frees 4096)) begin_marked (λ e. cc)

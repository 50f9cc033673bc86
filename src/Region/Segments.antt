-- ===== src/Region/Segments.antt =====
-- Freeing and reallocating the table of segments.
use concurrent_project.Heap.{update}
use concurrent_project.Prelude.{
  ◌%◌, Bool-cases, inl, inr, leb, ◌&&◌, sym, ℕ, zero, suc, ◌+◌, ◌*◌, ◌^◌, ◌≤◌, ◌<◌, ◌≡◌, ◌≢◌, refl,
  true, false, none, some, List, [], ◌++◌, arith, ltb, ◌==◌, if◌then◌else◌, ◌∙◌,
}
use mathlib.Core.List.{append-nil, append_assoc}
use concurrent_project.SharedMutex.{SharedMutex}
use concurrent_project.SharedMutex
use concurrent_project.MemorySegment.{MemorySegment}
use concurrent_project.MemorySegment
use concurrent_project.Region.{
  Sweep, Store, to_be_deleted, deleted, to_size, cleaning_period, free_marked,
  free_marked_segments_if_time, realloc_segments,
}

-- What freeing the marked segments among the `n` entries from `i` on gives back, in order.
abbrev pub marked : (n i : ℕ) → (ℕ → ℕ) → (ℕ → MemorySegment) → List ℕ
marked zero i status segments = []
marked (suc n) i status segments =
    (if status i == to_be_deleted then MemorySegment.free (segments i) else [])
    ++ marked n (i + 1) status segments

marked-update :
    (n j : ℕ) (status : ℕ → ℕ) (segments : ℕ → MemorySegment) (i v : ℕ)
    → i < j
    → marked n j (update status i v) segments ≡ marked n j status segments
marked-update zero j status segments i v h = refl
marked-update (suc n) j status segments i v h =
    ground (arith, marked-update n (j + 1) status segments i v)

-- The status of an entry after its segment has been freed if it was marked.
abbrev pub swept : ℕ → ℕ
swept status = if status == to_be_deleted then deleted else status

abbrev freeing : Sweep → ℕ → MemorySegment → Sweep
freeing w i segment = record {
  status = update w.status i deleted;
  log = w.log ++ MemorySegment.free segment;
}

free_marked-status :
    (n i : ℕ) (segments : ℕ → MemorySegment) (w : Sweep) (j : ℕ)
    → (free_marked n i segments w).status j
      ≡ (if leb i j && ltb j (i + n) then swept (w.status j) else w.status j)
unfolding free_marked
free_marked-status zero i segments w j = ground arith
free_marked-status (suc n) i segments w j = ground (
  arith,
  free_marked-status n (i + 1) segments (freeing w i (segments i)) j,
  free_marked-status n (i + 1) segments w j,
)

free_marked-log :
    (n i : ℕ) (segments : ℕ → MemorySegment) (w : Sweep)
    → (free_marked n i segments w).log ≡ w.log ++ marked n i w.status segments
unfolding free_marked
free_marked-log zero i segments w = sym (append-nil w.log)
free_marked-log (suc n) i segments w = elim (Bool-cases (w.status i == to_be_deleted)) [
  | inl e ↦
      rw (e, free_marked)
        (free_marked-log n (i + 1) segments (freeing w i (segments i))
          ∙ rw (marked-update n (i + 1) w.status segments i deleted (omega arith), append_assoc))
  | inr e ↦ rw (e, free_marked) (free_marked-log n (i + 1) segments w)
]

-- A second pass finds nothing to free.
marked-swept :
    (n i : ℕ) (status : ℕ → ℕ) (segments : ℕ → MemorySegment)
    → marked n i (λ j. swept (status j)) segments ≡ []
marked-swept zero i status segments = refl
marked-swept (suc n) i status segments = ground (arith, marked-swept n (i + 1) status segments)

-- Nobody holds the mutex.
abbrev pub IsUnheld : SharedMutex → Type 0
IsUnheld m = (m.exclusive ≡ false) × (m.readers ≡ 0)

-- It is time to clean.
abbrev pub IsDue : Store → Type 0
IsDue s = cleaning_period ≤ to_size s.transactions_committed_since_last_free

-- What a cleaning in `s` comes to: every marked segment of the table is given back once, in order,
-- and becomes deleted, no other status changes, and the counter starts again.
pub record Cleaned (s t : Store) : Type 0 where
  pub statuses :
      (j : ℕ)
      → t.segment_status j
        ≡ (if ltb j s.max_segments then swept (s.segment_status j) else s.segment_status j)
  pub log :
      t.freed_segments ≡ s.freed_segments ++ marked s.max_segments 0 s.segment_status s.segments
  pub counter : t.transactions_committed_since_last_free ≡ 0
  pub unheld : IsUnheld t.freeing_lock
  pub table : (t.segments ≡ s.segments) × (t.max_segments ≡ s.max_segments)
  pub memory : (t.memory ≡ s.memory) × (t.locks ≡ s.locks) × (t.global_clock ≡ s.global_clock)

abbrev sweep_of : Store → Sweep
sweep_of s = record { status = s.segment_status; log = s.freed_segments }

abbrev cleaned : Store → Store
cleaned s = record s {
  tm = record (s.tm) {
    segment_status = (free_marked s.max_segments 0 s.segments (sweep_of s)).status;
    transactions_committed_since_last_free = 0;
    freeing_lock = record (s.freeing_lock) { exclusive = false };
  };
  freed_segments = (free_marked s.max_segments 0 s.segments (sweep_of s)).log;
}

-- When a cleaning is due and nobody holds the freeing lock, the call returns, and the cleaning is done
-- in full: every marked segment of the table is given back once, in order, and becomes deleted, no
-- other status changes, the counter starts again and the lock is given back.
pub free_marked_segments_if_time-Cleaned :
    (s : Store)
    → IsDue s
    → IsUnheld s.freeing_lock
    → (t : Store) × (free_marked_segments_if_time s ≡ some t) × Cleaned s t
unfolding free_marked_segments_if_time SharedMutex.try_lock SharedMutex.unlock
free_marked_segments_if_time-Cleaned s due unheld = (
  cleaned s,
  ground arith,
  record {
    statuses = λ j. ground (arith, free_marked-status s.max_segments 0 s.segments (sweep_of s) j);
    log = free_marked-log s.max_segments 0 s.segments (sweep_of s);
    counter = refl;
    unheld = (refl, unheld.1);
    table = (refl, refl);
    memory = (refl, refl, refl);
  },
)

-- Any call that gives a block back runs when a cleaning is due and nobody holds the freeing lock.
pub free_marked_segments_if_time-IsUnheld :
    (s t : Store)
    → free_marked_segments_if_time s ≡ some t
    → t.freed_segments ≢ s.freed_segments
    → IsDue s × IsUnheld s.freeing_lock
unfolding free_marked_segments_if_time SharedMutex.try_lock
free_marked_segments_if_time-IsUnheld s t e changed = ground arith

-- When nobody holds the allocating lock and the size can be doubled in 64 bits, the call returns, the
-- table has twice its size and keeps its entries, and the lock is given back.
pub realloc_segments-doubles :
    (junk_segments : ℕ → MemorySegment) (junk_status : ℕ → ℕ) (new_index : ℕ) (s : Store)
    → IsUnheld s.allocating_lock
    → 2 * s.max_segments < 2 ^ 64
    → (t : Store) × (realloc_segments junk_segments junk_status new_index s ≡ some t)
      × (t.max_segments ≡ 2 * s.max_segments)
      × ((i : ℕ)
          → i < s.max_segments
          → (t.segments i ≡ s.segments i) × (t.segment_status i ≡ s.segment_status i))
      × IsUnheld t.allocating_lock
      × (t.memory ≡ s.memory)
      × (t.locks ≡ s.locks)
unfolding realloc_segments SharedMutex.try_lock SharedMutex.unlock
realloc_segments-doubles junk_segments junk_status new_index s unheld small = (
  record s {
    tm = record (s.tm) {
      segments = λ i. if ltb i s.max_segments then s.segments i else junk_segments i;
      segment_status = λ i. if ltb i s.max_segments then s.segment_status i else junk_status i;
      max_segments = s.max_segments * 2 % 2 ^ 64;
      allocating_lock = record (s.allocating_lock) { exclusive = false };
    };
  },
  ground arith,
  omega arith,
  λ i h. ground arith,
  (refl, unheld.1),
  refl,
  refl,
)

-- While another thread grows the table, the call returns with nothing done when the index lies past the
-- first that the table does not cover, and spins otherwise.
pub realloc_segments-held :
    (junk_segments : ℕ → MemorySegment) (junk_status : ℕ → ℕ) (new_index : ℕ) (s : Store)
    → s.allocating_lock.exclusive ≡ true
    → realloc_segments junk_segments junk_status new_index s
      ≡ (if ltb s.max_segments new_index then some s else none)
unfolding realloc_segments SharedMutex.try_lock
realloc_segments-held junk_segments junk_status new_index s held = ground arith

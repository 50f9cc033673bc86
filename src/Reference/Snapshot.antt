-- ===== src/Reference/Snapshot.antt =====
-- What a transaction that only reads can rely on.
use concurrent_project.Prelude.{
  sym, ap, ℕ, ◌+◌, ◌<◌, ◌≤◌, ◌≡◌, refl, ◌∙◌, Bool, some, List, [], ◌∷◌, arith, ◌⊎◌,
}
use concurrent_project.Heap.{load}
use concurrent_project.Heap.Bytes.{load-memcpy_disjoint}
use concurrent_project.Reference.{tm_read}
use concurrent_project.Reference.Chain.{Blocks}
use concurrent_project.Reference.Runs.{
  State, Call, begins, ends, reads, writes, allocs, frees, perform, run, Allowed, AllAllowed,
}
use concurrent_project.Reference.Refine.{IsIsolated, Holds}
use concurrent_project.Reference.Refinement.{perform-Performs}

-- A read puts its bytes outside `n` bytes at `a`.
abbrev pub Spares : (a n : ℕ) → Call → Type 0
Spares a n (reads source size target) = (a + n ≤ target) ⊎ (target + size ≤ a)
Spares a n (begins is_ro code) = Unit {0}
Spares a n (ends tx) = Unit {0}
Spares a n (writes source size target) = Unit {0}
Spares a n (allocs memalign size) = Unit {0}
Spares a n (frees segment) = Unit {0}

-- There is a read-only transaction all along.
abbrev pub WhileReading : (a n : ℕ) → List Call → State → Type 0
WhileReading a n [] st = Unit {0}
WhileReading a n (c ∷ calls) st =
    (0 < st.readers)
    × Spares a n c
    × ((st' : State) → perform c st ≡ some st' → WhileReading a n calls st')

abbrev Unchanged : (a n : ℕ) → State → State → Type 0
Unchanged a n st st' =
    (load st'.store.memory a n ≡ load st.store.memory a n) × (st'.store.blocks ≡ st.store.blocks)

begins-store :
    (is_ro : Bool) (code : ℕ) (st st' : State)
    → perform (begins is_ro code) st ≡ some st'
    → st'.store ≡ st.store
unfolding perform
begins-store is_ro code st st' e = ground arith

perform-Unchanged :
    (a n : ℕ) (c : Call) (st st' : State) (xs : List ℕ)
    → IsIsolated st
    → 0 < st.readers
    → Allowed c st xs
    → Spares a n c
    → perform c st ≡ some st'
    → Unchanged a n st st'
unfolding perform tm_read
perform-Unchanged a n (begins is_ro code) st st' xs iso reader allowed spares e =
    let same = begins-store is_ro code st st' e in
    (ap (λ s. load s.memory a n) same, ap (λ s. s.blocks) same)
perform-Unchanged a n (ends tx) st st' xs iso reader allowed spares e = ground arith
perform-Unchanged a n (reads source size target) st st' xs iso reader allowed spares e =
    ground (arith, load-memcpy_disjoint st.store.memory target source size a n)
perform-Unchanged a n (writes source size target) st st' xs iso reader allowed spares e =
    absurd (omega (arith, iso.apart))
perform-Unchanged a n (allocs memalign size) st st' xs iso reader allowed spares e =
    absurd (omega (arith, iso.apart, allowed.0))
perform-Unchanged a n (frees segment) st st' xs iso reader allowed spares e =
    absurd (omega (arith, iso.apart, allowed.0))

run-cons :
    (c : Call) (calls : List Call) (st st1 : State)
    → perform c st ≡ some st1
    → run (c ∷ calls) st ≡ run calls st1
unfolding run
run-cons c calls st st1 e = rw (e, run) refl

-- As long as a read-only transaction is live, whatever allowed calls are made beside it, the memory
-- outside the buffers of the readers and the blocks stay as they are: all its reads see one state.
pub run-snapshot :
    (a n : ℕ) (base : Blocks) (calls : List Call) (st : State) (xs : List ℕ)
    → Holds base st xs
    → AllAllowed calls st xs
    → WhileReading a n calls st
    → (st' : State) → run calls st ≡ some st'
    → (load st'.store.memory a n ≡ load st.store.memory a n) × (st'.store.blocks ≡ st.store.blocks)
unfolding run
run-snapshot a n base [] st xs h allowed reading st' e = ground arith
run-snapshot a n base (c ∷ calls) st xs h allowed reading st' e =
    let (st1, e1, h1, align, start) = perform-Performs base c st xs h allowed.0 in
    let first : Unchanged a n st st1 =
      perform-Unchanged a n c st st1 xs h.isolated reading.0 allowed.0 reading.1 e1 in
    let later : Unchanged a n st1 st' =
      run-snapshot a n base calls st1 _ h1 (allowed.1 st1 e1) (reading.2 st1 e1) st'
        (sym (run-cons c calls st st1 e1) ∙ e) in
    (later.0 ∙ first.0, later.1 ∙ first.1)

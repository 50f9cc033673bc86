-- ===== src/Client/Tests.antt =====
-- The theorems on clients, with a library that only keeps track of its transactions.
use concurrent_project.Prelude.{
  ℕ, ◌+◌, ◌≡◌, refl, true, false, some, none, List, [], ◌∷◌, arith, ltb, if◌then◌else◌, ap,
  replicate, inr,
}
use concurrent_project.Heap.{Memory, load, store, memset}
use concurrent_project.Api.{success}
use concurrent_project.Client.{
  Library, value, Closure, Transaction, returns, reads, writes, allocs, frees, create, read, write,
  alloc, free, run, destroy, attempt, with_transaction, Transactional, ends,
}
use concurrent_project.Client.Closures.{eval, Holds}
use concurrent_project.Client.Closures.Runs.{run-eval}
use concurrent_project.Client.Shared.{Shared}
use concurrent_project.Client.Shared.Words.{word_of, bytes_of}
use concurrent_project.Client.Shared.Pointer
use concurrent_project.Client.Shared.Pointer.Ownership.{held, allocated, alloc-free_cycle}
use concurrent_project.Client.Protocol.{Tracks, Transactional-closes}

abbrev others : List ℕ → List ℕ
others [] = []
others (tx ∷ rest) = rest

-- Each transaction has the handle 7; a read from address 100 on fails.
abbrev tracker : Library (List ℕ)
tracker = record {
  begin = λ ro s. (7, 7 ∷ s);
  end = λ tx s. (true, others s);
  read = λ tx source size s. (ltb source 100, [], if ltb source 100 then s else others s);
  write = λ tx source size target s. (true, s);
  alloc = λ tx size s. (success, 4096, s);
  free = λ tx target s. (true, s);
}

tracker-Tracks : Tracks tracker (λ s. s)
tracker-Tracks = record {
  begins = λ ro s. refl;
  ending = λ tx s rest h. ap others h;
  reading = λ tx source size s rest h. ground (arith, h, ap others h);
  writing = λ tx source size target s rest h. h;
  allocating = λ tx size s rest h. h;
  freeing = λ tx target s rest h. h;
}

-- It reads, frees what it has been given, and returns.
abbrev client : Closure ℕ
client = reads 50 8 (λ bytes. frees 4096 (returns 3))

abbrev before : List ℕ
before = 1 ∷ []

abbrev after : List ℕ
unfolding attempt with_transaction create run read free destroy
after = (attempt tracker true false client before).1

client_ends : Transactional tracker true false client (value 3) after before
unfolding attempt with_transaction create run read free destroy
client_ends = ends refl (λ e. cc)

Transactional-closes_example : after ≡ before
Transactional-closes_example =
    Transactional-closes tracker true (λ s. s) tracker-Tracks false client (value 3) after before
      client_ends

-- A library with one transaction at a time on a memory of its own; it allocates at 4096.
abbrev pub alone : Library Memory
alone = record {
  begin = λ ro m. (7, m);
  end = λ tx m. (true, m);
  read = λ tx source size m. (true, load m source size, m);
  write = λ tx source size target m. (true, store m target source);
  alloc = λ tx size m. (success, 4096, memset m 4096 0 size);
  free = λ tx target m. (true, m);
}

pub alone-Holds : Holds alone (λ m. m)
alone-Holds = record {
  reading = λ tx source size m ok. (refl, refl);
  writing = λ tx source size target m ok. refl;
  allocating = λ tx size m ok. refl;
  freeing = λ tx target m ok. refl;
}

-- It makes a block, and writes a byte into it.
abbrev maker : Closure ℕ
maker = allocs 8 (λ target. writes (9 ∷ []) 1 (target + 1) (returns target))

abbrev live : Transaction
live = record { tx = 7; aborted = false; is_ro = false }

abbrev made : Memory
made = store (memset (λ a. 1) 4096 0 8) 4097 (9 ∷ [])

run-eval_example : (news : List ℕ) × (eval maker news (λ a. 1) ≡ some (4096, made))
unfolding run alloc write
run-eval_example = run-eval alone true (λ m. m) alone-Holds maker live (λ a. 1) 4096 live made refl

-- A null pointer at address 64, and a new block of 24 bytes.
abbrev cell : Shared
cell = record { address = 64 }

abbrev nulls : Memory
nulls = λ a. 0

cell_null : held nulls cell ≡ 0
unfolding load word_of
cell_null = refl

alloc-free_cycle_example :
    let m1 = allocated 24 0 4096 cell nulls in
    let m2 = store m1 64 (bytes_of 8 0) in
    (eval (Pointer.alloc true 24 0 cell) (4096 ∷ []) nulls ≡ some (4096, m1))
    × (held m1 cell ≡ 4096)
    × (load m1 4096 24 ≡ replicate 24 0)
    × (eval (Pointer.alloc true 24 0 cell) [] m1 ≡ none)
    × (eval (Pointer.free true cell) [] m1 ≡ some (tt, m2))
    × (held m2 cell ≡ 0)
    × (eval (Pointer.free true cell) [] m2 ≡ none)
alloc-free_cycle_example =
    alloc-free_cycle 24 0 4096 [] cell nulls cell_null (λ e. cc) (omega arith) (inr (omega arith))

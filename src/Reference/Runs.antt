-- ===== src/Reference/Runs.antt =====
-- Calls of any number of transactions on one region, and an abstract view of it: the list of the nodes
-- of its allocated segments, the latest first.
use concurrent_project.Prelude.{
  ℕ, ◌+◌, ◌-◌, ◌^◌, ◌<◌, ◌≡◌, ◌≢◌, Bool, true, false, Option, none, some, List, [], ◌∷◌, ◌==◌,
  if◌then◌else◌, ◌>>=◌, ◌⊎◌,
}
use concurrent_project.Reference.{
  Store, Region, node_size, read_only_tx, read_write_tx, alloc_align, tm_begin, tm_end, tm_read,
  tm_write, tm_alloc, tm_free,
}

-- A region with the numbers of its transactions that have begun and not ended.
pub record State : Type 0 where
  pub region : Region
  pub store : Store
  pub readers : ℕ
  pub writers : ℕ

pub data Call : Type 0 where
  begins : (is_ro : Bool) → (code : ℕ) → Call
  ends : (tx : ℕ) → Call
  reads : (source size target : ℕ) → Call
  writes : (source size target : ℕ) → Call
  allocs : (memalign : (align size : ℕ) → Option ℕ) → (size : ℕ) → Call
  frees : (segment : ℕ) → Call

-- One for a test that holds.
abbrev pub one_if : Bool → ℕ
one_if b = if b then 1 else 0

-- A begin that has to wait changes nothing and may be called again. `none` is a fault.
unfoldable pub perform : Call → State → Option State
perform (begins is_ro code) st = elim (tm_begin is_ro code st.region) [
  | none ↦ some st
  | some (tx, r) ↦ some (record st {
    region = r;
    readers = st.readers + one_if (tx == read_only_tx);
    writers = st.writers + one_if (tx == read_write_tx);
  })
]
perform (ends tx) st = some (record st {
  region = (tm_end tx st.region).1;
  readers = st.readers - one_if (tx == read_only_tx);
  writers = st.writers - one_if (tx == read_write_tx);
})
perform (reads source size target) st =
    some (record st { store = (tm_read source size target st.store).1 })
perform (writes source size target) st =
    some (record st { store = (tm_write source size target st.store).1 })
perform (allocs memalign size) st = do
  (result, target, r, s) ← tm_alloc memalign size st.region st.store
  some (record st { region = r; store = s })
perform (frees segment) st = do
  (ok, r, s) ← tm_free segment st.region st.store
  some (record st { region = r; store = s })

unfoldable pub run : List Call → State → Option State
unfolding perform
run [] st = some st
run (c ∷ calls) st = elim (perform c st) [ none ↦ none | some st' ↦ run calls st' ]

-- The same calls on the abstract list.
unfoldable pub remove : ℕ → List ℕ → List ℕ
remove x [] = []
remove x (y ∷ ys) = if y == x then ys else y ∷ remove x ys

abbrev pub given : Option ℕ → List ℕ → List ℕ
given none xs = xs
given (some sn) xs = sn ∷ xs

unfoldable pub abstract_call : (align : ℕ) → Call → List ℕ → List ℕ
unfolding remove
abstract_call align (allocs memalign size) xs =
    given (memalign (alloc_align align) (node_size + size)) xs
abstract_call align (frees segment) xs = remove (segment - node_size) xs
abstract_call align (begins is_ro code) xs = xs
abstract_call align (ends tx) xs = xs
abstract_call align (reads source size target) xs = xs
abstract_call align (writes source size target) xs = xs

unfoldable pub replay : (align : ℕ) → List Call → List ℕ → List ℕ
unfolding abstract_call
replay align [] xs = xs
replay align (c ∷ calls) xs = replay align calls (abstract_call align c xs)

-- A node of the abstract list.
abbrev pub has : ℕ → List ℕ → Bool
has x [] = false
has x (y ∷ ys) = if y == x then true else has x ys

-- What the interface asks of its callers, and POSIX promises of an allocation: a transaction that ends
-- is live; one that writes, allocates or frees is read-write and live; what is freed is a segment; and a
-- new block is not null, not in use, and inside the address space.
abbrev pub Allowed : Call → State → List ℕ → Type 0
Allowed (begins is_ro code) st xs = Unit {0}
Allowed (ends tx) st xs =
    ((tx ≡ read_only_tx) × (0 < st.readers)) ⊎ ((tx ≡ read_write_tx) × (0 < st.writers))
Allowed (reads source size target) st xs = Unit {0}
Allowed (writes source size target) st xs = 0 < st.writers
Allowed (allocs memalign size) st xs =
    (0 < st.writers)
    × ((sn : ℕ)
        → memalign (alloc_align st.region.align) (node_size + size) ≡ some sn
        → (sn ≢ 0) × (st.store.blocks sn ≡ none) × (sn + node_size + size < 2 ^ 64))
Allowed (frees segment) st xs =
    (0 < st.writers) × ((x : ℕ) × (segment ≡ x + node_size) × (has x xs ≡ true))

abbrev pub AllAllowed : List Call → State → List ℕ → Type 0
AllAllowed [] st xs = Unit {0}
AllAllowed (c ∷ calls) st xs =
    Allowed c st xs
    × ((st' : State)
        → perform c st ≡ some st'
        → AllAllowed calls st' (abstract_call st.region.align c xs))

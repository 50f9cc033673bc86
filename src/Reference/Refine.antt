-- ===== src/Reference/Refine.antt =====
-- The calls on a region keep its list of segments as the abstract list, and exclude each other.
use concurrent_project.Prelude.{
  ℕ, ◌<◌, ◌≡◌, ◌≢◌, refl, ap, ◌∙◌, Bool, true, none, some, List, [], ◌∷◌, ◌++◌, arith, ◌==◌,
  Bool-cases, Option-cases, inl, inr, ◌⊎◌, All,
}
use concurrent_project.SharedMutex.{try_lock, try_lock_shared, unlock, unlock_shared}
use concurrent_project.Reference.{read_only_tx, read_write_tx, tm_begin, tm_end, tm_read, tm_write}
use concurrent_project.Reference.Lock.{
  shared_lock_acquire, shared_lock_acquire_shared, shared_lock_release, shared_lock_release_shared,
}
use concurrent_project.Reference.Chain.{Blocks}
use concurrent_project.Reference.Segments.{IsList}
use concurrent_project.Reference.Runs.{
  State, Call, begins, ends, reads, writes, perform, remove, abstract_call, has, Allowed, one_if,
}

-- The lock is held by the transactions that are live: one that may write, or any number that only read.
pub record IsIsolated (st : State) : Type 0 where
  pub writing : one_if st.region.lock.exclusive ≡ st.writers
  pub reading : st.region.lock.readers ≡ st.readers
  pub apart : (st.writers ≡ 0) ⊎ (st.readers ≡ 0)

-- What a call that leaves the segments alone leaves alone.
abbrev SameSegments : State → State → Type 0
SameSegments st st' =
    (st'.store.blocks ≡ st.store.blocks)
    × (st'.region.allocs ≡ st.region.allocs)
    × (st'.region.align ≡ st.region.align)
    × (st'.region.start ≡ st.region.start)

begins-total : (is_ro : Bool) (code : ℕ) (st : State) → perform (begins is_ro code) st ≢ none
unfolding perform
begins-total is_ro code st h = ground arith

begins-IsIsolated :
    (is_ro : Bool) (code : ℕ) (st st' : State)
    → IsIsolated st
    → perform (begins is_ro code) st ≡ some st'
    → IsIsolated st' × SameSegments st st'
unfolding perform tm_begin shared_lock_acquire shared_lock_acquire_shared try_lock try_lock_shared
begins-IsIsolated is_ro code st st' iso h = ground arith

ends-IsIsolated :
    (tx : ℕ) (st st' : State)
    → ((tx ≡ read_only_tx) × (0 < st.readers)) ⊎ ((tx ≡ read_write_tx) × (0 < st.writers))
    → IsIsolated st
    → perform (ends tx) st ≡ some st'
    → IsIsolated st' × SameSegments st st'
unfolding perform tm_end shared_lock_release shared_lock_release_shared unlock unlock_shared
ends-IsIsolated tx st st' allowed iso h = ground arith

-- The state stands for the abstract list `xs`: its nodes are the list in the store, they were not live
-- in the blocks `base`, and the other blocks are those of `base`.
pub record Holds (base : Blocks) (st : State) (xs : List ℕ) : Type 0 where
  pub list : IsList st.region st.store xs
  pub isolated : IsIsolated st
  pub outside : (a : ℕ) → All (λ y. y ≢ a) xs → st.store.blocks a ≡ base a
  pub unused : All (λ x. base x ≡ none) xs

IsList-same :
    (st st' : State) (xs : List ℕ)
    → SameSegments st st'
    → IsList st.region st.store xs
    → IsList st'.region st'.store xs
IsList-same st st' xs same l = record {
  head = same.1 ∙ l.head;
  chain = rw (same.0) l.chain;
  distinct = l.distinct;
  small = l.small;
}

Holds-same :
    (base : Blocks) (st st' : State) (xs : List ℕ)
    → SameSegments st st'
    → IsIsolated st'
    → Holds base st xs
    → Holds base st' xs
Holds-same base st st' xs same iso h = record {
  list = IsList-same st st' xs same h.list;
  isolated = iso;
  outside = λ a out. ap (λ b. b a) same.0 ∙ h.outside a out;
  unused = h.unused;
}

-- A node of the list stands somewhere in it, and `remove` takes it out there.
pub remove-middle :
    (x : ℕ) (xs : List ℕ)
    → has x xs ≡ true
    → (ys : List ℕ) × (zs : List ℕ) × (xs ≡ ys ++ x ∷ zs) × (remove x xs ≡ ys ++ zs)
unfolding remove
remove-middle x [] h = cc
remove-middle x (y ∷ xs) h = elim (Bool-cases (y == x)) [
  | inl here ↦ ([], xs, ground (arith, here), rw (here, remove) refl)
  | inr other ↦
      let (ys, zs, e, r) = remove-middle x xs (ground (arith, other)) in
      (y ∷ ys, zs, ap (λ l. y ∷ l) e, rw (other, remove) (ap (λ l. y ∷ l) r))
]

-- A call goes well, keeps the alignment and the start, and leads to a state that stands for the
-- abstract call's list.
abbrev pub Performs : Blocks → Call → State → List ℕ → Type 0
Performs base c st xs =
    (st' : State) × (perform c st ≡ some st')
    × Holds base st' (abstract_call st.region.align c xs)
    × (st'.region.align ≡ st.region.align)
    × (st'.region.start ≡ st.region.start)

module _ (base : Blocks) (st : State) (xs : List ℕ) (h : Holds base st xs) where
  pub begins-Performs : (is_ro : Bool) (code : ℕ) → Performs base (begins is_ro code) st xs
  unfolding abstract_call
  begins-Performs is_ro code = elim (Option-cases (perform (begins is_ro code) st)) [
    | inl fault ↦ absurd (begins-total is_ro code st fault)
    | inr (st', e) ↦
        let (iso, same) = begins-IsIsolated is_ro code st st' h.isolated e in
        (st', e, Holds-same base st st' xs same iso h, same.2, same.3)
  ]

  pub ends-Performs : (tx : ℕ) → Allowed (ends tx) st xs → Performs base (ends tx) st xs
  unfolding abstract_call perform
  ends-Performs tx allowed =
      let (iso, same) = ends-IsIsolated tx st _ allowed h.isolated refl in
      (_, refl, Holds-same base st _ xs same iso h, same.2, same.3)

  pub reads-Performs : (source size target : ℕ) → Performs base (reads source size target) st xs
  unfolding abstract_call perform tm_read
  reads-Performs source size target =
      (_, refl, Holds-same base st _ xs (refl, refl, refl, refl) iso h, refl, refl)
    where
      iso : IsIsolated (record st { store = (tm_read source size target st.store).1 })
      iso = record {
        writing = h.isolated.writing;
        reading = h.isolated.reading;
        apart = h.isolated.apart;
      }

  pub writes-Performs : (source size target : ℕ) → Performs base (writes source size target) st xs
  unfolding abstract_call perform tm_write
  writes-Performs source size target =
      (_, refl, Holds-same base st _ xs (refl, refl, refl, refl) iso h, refl, refl)
    where
      iso : IsIsolated (record st { store = (tm_write source size target st.store).1 })
      iso = record {
        writing = h.isolated.writing;
        reading = h.isolated.reading;
        apart = h.isolated.apart;
      }

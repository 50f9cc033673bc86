-- ===== src/Election.antt =====
-- sync-examples/election4.c: in each round every thread tries to become the leader by a compare-and-swap.
-- Access by access, for any number of threads and rounds.
pub mod Leaders
pub mod Ends
mod Tests
use concurrent_project.Prelude.{
  ℕ, zero, suc, ◌+◌, Bool, true, false, List, [], ◌∷◌, ◌++◌, ◌==◌, if◌then◌else◌, length,
}
use concurrent_project.Heap.{update}

-- `leader` and `nb_leaders`, by round; 0 is no leader.
pub record Shared : Type 0 where
  pub leader : ℕ → ℕ
  pub nb_leaders : ℕ → ℕ

-- Before the compare-and-swap of a round, or before the count of a leader.
pub data Place : Type 0 where
  electing counting : Place

pub record Thread : Type 0 where
  pub tid : ℕ
  pub place : Place
  pub r : ℕ

-- `atomic_compare_exchange_strong(&leader[r], &expected, tid)` with `expected` 0.
abbrev pub compare_exchange : (ℕ → ℕ) → (r tid : ℕ) → Bool × (ℕ → ℕ)
compare_exchange leader r tid =
    if leader r == 0 then (true, update leader r tid) else (false, leader)

-- The next access of `elect`.
unfoldable pub elect : (runs : ℕ) → Thread → Shared → Thread × Shared
elect runs t s = elim t.place [
  | electing ↦
      let (exchanged, leader) = compare_exchange s.leader t.r t.tid in
      if t.r == runs
      then (t, s)
      else if exchanged
      then (record t { place = counting }, record s { leader = leader })
      else (record t { r = t.r + 1 }, s)
  | counting ↦ (
    record t { place = electing; r = t.r + 1 },
    record s { nb_leaders = update s.nb_leaders t.r (s.nb_leaders t.r + 1) },
  )
]

pub record System : Type 0 where
  pub shared : Shared
  pub threads : List Thread

-- Threads number `tid` and on.
abbrev pub threads_from : (tid n : ℕ) → List Thread
threads_from tid zero = []
threads_from tid (suc n) = record { tid = tid; place = electing; r = 0 } ∷ threads_from (tid + 1) n

abbrev pub start : (nbthreads : ℕ) → System
start nbthreads = record {
  shared = record { leader = λ r. 0; nb_leaders = λ r. 0 };
  threads = threads_from 1 nbthreads;
}

pub data Reach (nbthreads runs : ℕ) : System → Type 0 where
  starts : Reach nbthreads runs (start nbthreads)
  goes :
      {s : Shared}
      → (before : List Thread) → (t : Thread) → (after : List Thread)
      → Reach nbthreads runs (record { shared = s; threads = before ++ t ∷ after })
      → Reach nbthreads runs
          (record { shared = (elect runs t s).1; threads = before ++ (elect runs t s).0 ∷ after })

-- The loop of `main` that looks for a round without exactly one leader, with the rounds left.
unfoldable pub check : (left r : ℕ) → Shared → ℕ
check zero r s = r
check (suc left) r s = elim (s.nb_leaders r == 1) [ true ↦ check left (r + 1) s | false ↦ r ]

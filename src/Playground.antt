-- ===== src/Playground.antt =====
-- playground/: threads that add to a shared counter under a lock, statement by statement.
pub mod Counting
pub mod Schedule
pub mod Progress
mod Tests
use concurrent_project.Prelude.{
  ℕ, zero, suc, ◌+◌, ◌-◌, ◌%◌, ◌^◌, Bool, true, false, List, [], ◌∷◌, ◌++◌, ◌==◌, if◌then◌else◌,
  replicate,
}

-- Where a thread stands in the loop of `entry_point`: before the guard has the lock; in
-- `shared_access`, where `++counter` loads and then stores; before the guard gives the lock back.
pub data Place : Type 0 where
  locking : Place
  accessing : Place
  adding : (loaded : ℕ) → Place
  checking : Place
  unlocking : Place

-- `left` is the number of rounds of which `check_counter` does not know.
pub record Thread : Type 0 where
  pub place : Place
  pub left : ℕ

-- The flag of the lock, and the two counters of runner.cpp, `int`s.
pub record Shared : Type 0 where
  pub flag : Bool
  pub counter : ℕ
  pub check_counter : ℕ

abbrev pub rounds : ℕ
rounds = 10000

-- `flag.compare_exchange_strong(expected, true)` with `expected` false.
abbrev pub compare_exchange : Bool → Bool × Bool
compare_exchange flag = if flag then (false, flag) else (true, true)

-- The next statement of a thread. A thread that waits for the lock, and one that has ended, stay.
unfoldable pub next : Thread → Shared → Thread × Shared
next t s = elim t.place [
  | locking ↦
      let (exchanged, flag) = compare_exchange s.flag in
      if t.left == 0
      then (t, s)
      else if exchanged
      then (record t { place = accessing }, record s { flag = flag })
      else (t, s)
  | accessing ↦ (record t { place = adding s.counter }, s)
  | adding loaded ↦ (record t { place = checking }, record s { counter = (loaded + 1) % 2 ^ 32 })
  | checking ↦ (
    record { place = unlocking; left = t.left - 1 },
    record s { check_counter = (s.check_counter + 1) % 2 ^ 32 },
  )
  | unlocking ↦ (record t { place = locking }, record s { flag = false })
]

pub record System : Type 0 where
  pub shared : Shared
  pub threads : List Thread

-- `main` with `nbworkers` threads of `repeats` rounds each, which are `rounds` in the code.
abbrev pub start : (nbworkers repeats : ℕ) → System
start nbworkers repeats = record {
  shared = record { flag = false; counter = 0; check_counter = 0 };
  threads = replicate nbworkers (record { place = locking; left = repeats });
}

-- Any of the threads goes on.
pub data Step : System → System → Type 0 where
  goes :
      {s : Shared}
      → (before : List Thread) → (t : Thread) → (after : List Thread)
      → Step
          (record { shared = s; threads = before ++ t ∷ after })
          (record { shared = (next t s).1; threads = before ++ (next t s).0 ∷ after })

pub data Reach (nbworkers repeats : ℕ) : System → Type 0 where
  starts : Reach nbworkers repeats (start nbworkers repeats)
  later :
      {sys sys' : System}
      → Reach nbworkers repeats sys
      → Step sys sys'
      → Reach nbworkers repeats sys'

-- `shared_check`: whether no inconsistency is found.
unfoldable pub shared_check : Shared → Bool
shared_check s = s.counter == s.check_counter

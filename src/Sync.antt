-- ===== src/Sync.antt =====
-- grading/grading.cpp: class `Sync`, by which the master starts the workers' runs and waits for their end,
-- access by access; and `Latch` of grading/common.hpp, on which the master sleeps. Error messages are
-- numbers. The clock `runtime` is left out.
pub mod Phases
pub mod Turns
pub mod Workers
pub mod Ends
pub mod Closing
pub mod Answers
mod Tests
pub mod Safety
use concurrent_project.Prelude.{
  ℕ, suc, ◌+◌, ◌%◌, ◌^◌, ◌≡◌, Bool, true, false, Option, none, some, List, [], ◌∷◌, ◌++◌, ◌==◌,
  if◌then◌else◌, replicate,
}

-- `enum class Status`
pub data Status : Type 0 where
  wait run abort done fail quit : Status

-- The atomics, and the latch. `errors` are the messages that have been reported since the last start, the
-- latest first; no code reads it.
pub record Shared : Type 0 where
  pub nbready : ℕ
  pub status : Status
  pub errmsg : Option ℕ
  pub raised : Bool
  pub errors : List ℕ

-- Where a worker stands: in `worker_wait`, in its poll of the status, before its count, as the last one
-- before its two stores, or in its wait for the run; in its work; in `worker_notify`, before each of its
-- stores, before its count, and as the last one before its load and stores; or it has ended.
pub data Place : Type 0 where
  polling : Place
  arriving : Place
  resetting : Place
  starting : Place
  waiting_run : Place
  working : Place
  reporting : (error : ℕ) → Place
  aborting : Place
  counting : Place
  clearing : Place
  deciding : Place
  finishing : (aborted : Bool) → Place
  raising : Place
  ended : Place

-- `runs` counts the runs of which the worker has notified. A worker whose run has thrown leaves after it.
pub record Thread : Type 0 where
  pub place : Place
  pub runs : ℕ
  pub leaves : Bool

-- How a run ends: it returns, with an error or none, or it throws.
pub data Outcome : Type 0 where
  returns : (error : Option ℕ) → Outcome
  throws : Outcome

-- "Internal worker exception(s)"
abbrev pub internal_exception : ℕ
internal_exception = 0

abbrev pub notifying : Option ℕ → Place
notifying none = counting
notifying (some e) = reporting e

-- After `worker_notify` the worker waits for the next run, or it leaves.
abbrev pub resting : Bool → Place
resting leaves = if leaves then ended else polling

-- A round of the poll in `worker_wait`, and of the wait for the run.
abbrev pub poll : Status → Place
poll wait = arriving
poll quit = ended
poll other = polling

abbrev pub await_run : Status → Place
await_run run = working
await_run abort = working
await_run other = waiting_run

abbrev pub is_abort : Status → Bool
is_abort abort = true
is_abort other = false

-- The next access of a worker of `worker_wait` or `worker_notify`, or the end of its work. A worker that
-- waits, and one that has ended, stays.
unfoldable pub next : (nbworkers : ℕ) → Outcome → Thread → Shared → Thread × Shared
next nbworkers outcome t s = elim t.place [
  | polling ↦ (record t { place = poll s.status }, s)
  | arriving ↦ (
    record t { place = if (s.nbready + 1) % 2 ^ 32 == nbworkers then resetting else waiting_run },
    record s { nbready = (s.nbready + 1) % 2 ^ 32 },
  )
  | resetting ↦ (record t { place = starting }, record s { nbready = 0 })
  | starting ↦ (record t { place = working }, record s { status = run })
  | waiting_run ↦ (record t { place = await_run s.status }, s)
  | working ↦ elim outcome [
    | returns error ↦ (record t { place = notifying error }, s)
    | throws ↦ (record t { place = reporting internal_exception; leaves = true }, s)
  ]
  | reporting e ↦
      (record t { place = aborting }, record s { errmsg = some e; errors = e ∷ s.errors })
  | aborting ↦ (record t { place = counting }, record s { status = abort })
  | counting ↦ (
    record t {
      place = if (s.nbready + 1) % 2 ^ 32 == nbworkers then clearing else resting t.leaves;
      runs = t.runs + 1;
    },
    record s { nbready = (s.nbready + 1) % 2 ^ 32 },
  )
  | clearing ↦ (record t { place = deciding }, record s { nbready = 0 })
  | deciding ↦ (record t { place = finishing (is_abort s.status) }, s)
  | finishing aborted ↦
      (record t { place = raising }, record s { status = if aborted then fail else done })
  | raising ↦ (record t { place = resting t.leaves }, record s { raised = true })
  | ended ↦ (t, s)
]

-- Where the master stands: it has an answer, before the first start the empty one; it waits for the latch;
-- it is awake; or it has thrown, or joined.
pub data Master : Type 0 where
  returned : (error : Option ℕ) → Master
  waiting : Master
  woken : Master
  overrun : Master
  unreachable : Master
  joined : Master

unfoldable pub master_notify : Shared → Shared
master_notify s = record s { status = wait; errors = [] }

unfoldable pub master_join : Shared → Shared
master_join s = record s { status = quit }

-- `Latch::wait`, which is over when the latch is raised: `none` while it is not.
unfoldable pub latch_wait : Shared → Option Shared
latch_wait s = if s.raised then some (record s { raised = false }) else none

-- The rest of `master_wait`.
unfoldable pub answer : Shared → Master
answer s = elim s.status [ done ↦ returned none | fail ↦ returned s.errmsg | other ↦ unreachable ]

-- `rounds` counts the calls of `master_notify`.
pub record System : Type 0 where
  pub shared : Shared
  pub threads : List Thread
  pub master : Master
  pub rounds : ℕ

abbrev pub start : (nbworkers : ℕ) → System
start nbworkers = record {
  shared = record { nbready = 0; status = done; errmsg = none; raised = false; errors = [] };
  threads = replicate nbworkers (record { place = polling; runs = 0; leaves = false });
  master = returned none;
  rounds = 0;
}

-- A worker goes on; or the master starts a round, which it does not after an error, wakes up when the
-- latch is raised, runs out of time, looks at the status, or joins.
pub data Step (nbworkers : ℕ) : System → System → Type 0 where
  goes :
      {s : Shared} {m : Master} {r : ℕ}
      → (before : List Thread) → (t : Thread) → (after : List Thread) → (outcome : Outcome)
      → Step nbworkers
          (record { shared = s; threads = before ++ t ∷ after; master = m; rounds = r })
          (record {
            shared = (next nbworkers outcome t s).1;
            threads = before ++ (next nbworkers outcome t s).0 ∷ after;
            master = m;
            rounds = r;
          })
  notifies :
      {s : Shared} {ts : List Thread} {r : ℕ}
      → Step nbworkers
          (record { shared = s; threads = ts; master = returned none; rounds = r })
          (record { shared = master_notify s; threads = ts; master = waiting; rounds = r + 1 })
  wakes :
      {s s' : Shared} {ts : List Thread} {r : ℕ}
      → latch_wait s ≡ some s'
      → Step nbworkers
          (record { shared = s; threads = ts; master = waiting; rounds = r })
          (record { shared = s'; threads = ts; master = woken; rounds = r })
  times_out :
      {s : Shared} {ts : List Thread} {r : ℕ}
      → Step nbworkers
          (record { shared = s; threads = ts; master = waiting; rounds = r })
          (record { shared = s; threads = ts; master = overrun; rounds = r })
  looks :
      {s : Shared} {ts : List Thread} {r : ℕ}
      → Step nbworkers
          (record { shared = s; threads = ts; master = woken; rounds = r })
          (record { shared = s; threads = ts; master = answer s; rounds = r })
  joins :
      {s : Shared} {ts : List Thread} {error : Option ℕ} {r : ℕ}
      → Step nbworkers
          (record { shared = s; threads = ts; master = returned error; rounds = r })
          (record { shared = master_join s; threads = ts; master = joined; rounds = r })

pub data Reach (nbworkers : ℕ) : System → Type 0 where
  starts : Reach nbworkers (start nbworkers)
  later : {sys sys' : System} → Reach nbworkers sys → Step nbworkers sys sys' → Reach nbworkers sys'

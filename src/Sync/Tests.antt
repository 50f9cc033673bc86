-- ===== src/Sync/Tests.antt =====
-- A round of one worker that reports an error, and the theorems at its states.
use concurrent_project.Prelude.{
  ℕ, ◌≡◌, refl, ◌⊎◌, List, [], ◌∷◌, arith, Bool, true, false, Option, none, some,
}
use concurrent_project.Sync.{
  Status, wait, run, abort, fail, Shared, Place, polling, arriving, resetting, starting, working,
  reporting, aborting, counting, clearing, deciding, finishing, raising, Thread, Master, returned,
  waiting, next, Outcome, returns, System, Step, goes, notifies, wakes, looks, Reach, starts, later,
  answer, latch_wait, master_notify,
}
use concurrent_project.Sync.Phases.{Idle, AllAt}
use concurrent_project.Sync.Safety.{Reach-returned}

-- One worker, and a master.
abbrev alone : Shared → Place → (runs : ℕ) → Master → (rounds : ℕ) → System
alone s place runs m rounds = record {
  shared = s;
  threads = record { place = place; runs = runs; leaves = false } ∷ [];
  master = m;
  rounds = rounds;
}

abbrev shared : (nbready : ℕ) → Status → (raised : Bool) → (errors : List ℕ) → Option ℕ → Shared
shared nbready status raised errors errmsg = record {
  nbready = nbready;
  status = status;
  errmsg = errmsg;
  raised = raised;
  errors = errors;
}

goes_on :
    (s : Shared) (place : Place) (runs : ℕ) (m : Master) (rounds : ℕ)
    → let t : Thread = record { place = place; runs = runs; leaves = false } in
      let o : Outcome = returns (some 9) in
      Step 1 (alone s place runs m rounds) (record {
        shared = (next 1 o t s).1;
        threads = (next 1 o t s).0 ∷ [];
        master = m;
        rounds = rounds;
      })
goes_on s place runs m rounds =
    goes [] (record { place = place; runs = runs; leaves = false }) [] (returns (some 9))

running_Reach : Reach 1 (alone (shared 0 run false [] none) working 0 waiting 1)
unfolding next master_notify
running_Reach =
    later
      (later
        (later
          (later (later starts notifies)
            (goes_on (shared 0 wait false [] none) polling 0 waiting 1))
          (goes_on (shared 0 wait false [] none) arriving 0 waiting 1))
        (goes_on (shared 1 wait false [] none) resetting 0 waiting 1))
      (goes_on (shared 0 wait false [] none) starting 0 waiting 1)

counting_Reach : Reach 1 (alone (shared 0 abort false (9 ∷ []) (some 9)) counting 0 waiting 1)
unfolding next
counting_Reach =
    later
      (later (later running_Reach (goes_on (shared 0 run false [] none) working 0 waiting 1))
        (goes_on (shared 0 run false [] none) (reporting 9) 0 waiting 1))
      (goes_on (shared 0 run false (9 ∷ []) (some 9)) aborting 0 waiting 1)

raised_Reach : Reach 1 (alone (shared 0 fail true (9 ∷ []) (some 9)) polling 1 waiting 1)
unfolding next
raised_Reach =
    later
      (later
        (later
          (later
            (later counting_Reach
              (goes_on (shared 0 abort false (9 ∷ []) (some 9)) counting 0 waiting 1))
            (goes_on (shared 1 abort false (9 ∷ []) (some 9)) clearing 1 waiting 1))
          (goes_on (shared 0 abort false (9 ∷ []) (some 9)) deciding 1 waiting 1))
        (goes_on (shared 0 abort false (9 ∷ []) (some 9)) (finishing true) 1 waiting 1))
      (goes_on (shared 0 fail false (9 ∷ []) (some 9)) raising 1 waiting 1)

abbrev final : System
final = alone (shared 0 fail false (9 ∷ []) (some 9)) polling 1 (returned (some 9)) 1

final-Reach : Reach 1 final
unfolding latch_wait answer
final-Reach = later (later raised_Reach (wakes refl)) looks

abbrev message : Option ℕ
message = some 9

Reach-returned_example :
    AllAt Idle 1 final.threads
    × (((message ≡ none) × (final.shared.errors ≡ []))
        ⊎ ((e : ℕ) × (es : List ℕ) × (message ≡ some e) × (final.shared.errors ≡ e ∷ es)))
Reach-returned_example = Reach-returned 1 (some 9) (omega arith) (omega arith) final-Reach refl

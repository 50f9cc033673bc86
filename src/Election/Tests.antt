-- ===== src/Election/Tests.antt =====
-- Runs of the leader election.
use concurrent_project.Heap.{update}
use concurrent_project.Election.Ends.{Takes, starting, taking, lefts, Takes-bounded}
use concurrent_project.Prelude.{inr, ◌≤◌, ◌+◌, arith, ◌≡◌, All, ◌≤◌, ◌∷◌, ℕ, []}
use concurrent_project.Election.{
  start, electing, counting, Thread, System, elect, Reach, starts, goes, check,
}
use concurrent_project.Election.Leaders.{IsEnded, Reach-check}

-- Two threads and one round: the second thread is the leader.
abbrev second_leads : System
unfolding elect
second_leads = record {
  shared = record { leader = update (λ r. 0) 0 2; nb_leaders = update (λ r. 0) 0 1 };
  threads =
      record { tid = 1; place = electing; r = 1 }
      ∷ record { tid = 2; place = electing; r = 1 }
      ∷ [];
}

second_leads-Reach : Reach 2 1 second_leads
unfolding elect
second_leads-Reach =
    let first : Thread = record { tid = 1; place = electing; r = 0 } in
    let second : Thread = record { tid = 2; place = electing; r = 0 } in
    let counting_second : Thread = record { tid = 2; place = counting; r = 0 } in
    let ended : Thread = record { tid = 2; place = electing; r = 1 } in
    goes [] first (ended ∷ [])
      (goes (first ∷ []) counting_second [] (goes (first ∷ []) second [] starts))

Reach-check_example :
    ((r : ℕ) → second_leads.shared.nb_leaders r ≤ 1)
    × (All (IsEnded 1) second_leads.threads → check 1 0 second_leads.shared ≡ 1)
Reach-check_example = Reach-check 2 1 (omega arith) second_leads second_leads-Reach

-- The second thread has won the first of two rounds.
abbrev winning : System
unfolding elect
winning =
    let first : Thread = record { tid = 1; place = electing; r = 0 } in
    let second : Thread = record { tid = 2; place = electing; r = 0 } in
    record {
      shared = (elect 2 second (start 2).shared).1;
      threads = first ∷ record { tid = 2; place = counting; r = 0 } ∷ [];
    }

winning-Takes : Takes 2 2 1 winning
unfolding elect
winning-Takes =
    let first : Thread = record { tid = 1; place = electing; r = 0 } in
    taking (first ∷ []) (record { tid = 2; place = electing; r = 0 }) [] (inr (λ e. cc)) starting

Takes-bounded_example : 1 + lefts 2 winning.threads ≤ 8
Takes-bounded_example = Takes-bounded 2 2 1 winning winning-Takes

-- ===== src/Barrier/Tests.antt =====
-- The theorem on the barrier, for two threads of which one has passed the wait.
use concurrent_project.Prelude.{ℕ, ◌≤◌, [], ◌∷◌, arith, All}
use concurrent_project.Barrier.{
  leave, Place, outside, waiting_leave, setting_leave, leaving, Thread, next, System, goes, Reach,
  starts, later,
}
use concurrent_project.Barrier.Safety.{Reach-order}

abbrev at_place : Place → ℕ → Thread
at_place place arrivals = record { place = place; arrivals = arrivals }

abbrev passed : System
passed = record {
  barrier = record { step = 2; mode = leave };
  threads = at_place waiting_leave 1 ∷ at_place leaving 1 ∷ [];
}

passed-Reach : Reach 2 passed
unfolding next
passed-Reach =
    later
      (later (later starts (goes [] (at_place outside 0) (at_place outside 0 ∷ [])))
        (goes (at_place waiting_leave 1 ∷ []) (at_place outside 0) []))
      (goes (at_place waiting_leave 1 ∷ []) (at_place setting_leave 1) [])

Reach-order_example : All (λ u. 1 ≤ u.arrivals) passed.threads
Reach-order_example =
    Reach-order 2 (record { step = 2; mode = leave }) (at_place waiting_leave 1 ∷ [])
      (at_place leaving 1) [] (omega arith) (omega arith) passed-Reach tt

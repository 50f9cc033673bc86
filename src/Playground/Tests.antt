-- ===== src/Playground/Tests.antt =====
-- The theorems on the counter, at runs of one thread and of two.
use concurrent_project.Prelude.{ℕ, ◌≡◌, ◌*◌, ◌%◌, ◌^◌, refl, Bool, true, false, [], ◌∷◌}
use concurrent_project.Playground.{
  Thread, Shared, Place, System, locking, adding, checking, unlocking, rounds, next, goes, Reach,
  starts, later, shared_check, accessing, Step,
}
use concurrent_project.Playground.Progress.{CanEnd, Reach-CanEnd}
use concurrent_project.Playground.Schedule.{Reach-shared_check}

abbrev fresh : Thread
fresh = record { place = locking; left = rounds }

-- The second of two threads has the lock.
abbrev locked : System
locked = record {
  shared = record { flag = true; counter = 0; check_counter = 0 };
  threads = fresh ∷ record { place = accessing; left = rounds } ∷ [];
}

locked-Reach : Reach 2 rounds locked
unfolding next
locked-Reach = later starts (goes (fresh ∷ []) fresh [])

-- One thread, in its one round.
abbrev alone : Bool → (counter check_counter left : ℕ) → Place → System
alone flag counter check_counter left place = record {
  shared = record { flag = flag; counter = counter; check_counter = check_counter };
  threads = record { place = place; left = left } ∷ [];
}

goes_on :
    (flag : Bool) (counter check_counter left : ℕ) (place : Place)
    → let t : Thread = record { place = place; left = left } in
      let s : Shared = record { flag = flag; counter = counter; check_counter = check_counter } in
      Step
        (alone flag counter check_counter left place)
        (record { shared = (next t s).1; threads = (next t s).0 ∷ [] })
goes_on flag counter check_counter left place = goes [] (record { place = place; left = left }) []

ended-Reach : Reach 1 1 (alone false 1 1 0 locking)
unfolding next
ended-Reach =
    later
      (later
        (later (later (later starts (goes_on false 0 0 1 locking)) (goes_on true 0 0 1 accessing))
          (goes_on true 0 0 1 (adding 0)))
        (goes_on true 1 0 1 checking))
      (goes_on true 1 1 0 unlocking)

Reach-shared_check_example :
    (shared_check (alone false 1 1 0 locking).shared ≡ true) × (1 ≡ 1 * 1 % 2 ^ 32)
Reach-shared_check_example = Reach-shared_check 1 1 ended-Reach ((refl, refl), tt)

Reach-CanEnd_example : CanEnd locked
Reach-CanEnd_example = Reach-CanEnd 2 rounds locked locked-Reach

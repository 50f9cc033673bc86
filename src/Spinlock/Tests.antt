-- ===== src/Spinlock/Tests.antt =====
-- The theorem on the spin lock, for two threads that call it.
use concurrent_project.Prelude.{refl, true, false, [], ◌∷◌}
use concurrent_project.Spinlock.{
  outside, exchanging, waiting, holding, lock, go_on, go, perform, System, moves, Steps, done, more,
}
use concurrent_project.Spinlock.Exclusion.{IsExclusive, Steps-IsExclusive}

abbrev idle : System
idle = record { flag = false; places = outside ∷ outside ∷ [] }

-- The first thread has the lock, and the second waits.
abbrev contended : System
contended = record { flag = true; places = holding ∷ waiting 0 ∷ [] }

contended-Steps : Steps idle contended
unfolding perform go
contended-Steps =
    more
      (more
        (more (more done (moves [] outside (outside ∷ []) lock tt))
          (moves (exchanging ∷ []) outside [] lock tt))
        (moves [] exchanging (exchanging ∷ []) go_on tt))
      (moves (holding ∷ []) exchanging [] go_on tt)

Steps-IsExclusive_example : IsExclusive contended
Steps-IsExclusive_example = Steps-IsExclusive contended-Steps refl

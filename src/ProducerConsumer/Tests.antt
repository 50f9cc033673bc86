-- ===== src/ProducerConsumer/Tests.antt =====
-- One text through a buffer of one place, and the theorems at such runs.
use concurrent_project.Prelude.{ℕ, ◌+◌, ◌<◌, ◌≤◌, ◌≡◌, refl, inr, [], ◌∷◌, arith}
use concurrent_project.ProducerConsumer.{
  Text, System, Reach, starts, later, produces, consumes, produce, consume, check, start,
}
use concurrent_project.ProducerConsumer.Order.{Reach-consumed}
use concurrent_project.ProducerConsumer.Locked
use concurrent_project.ProducerConsumer.Locked.{procon2, procon4, next, acquiring}
use concurrent_project.ProducerConsumer.Refinement.{IsRefined, Reach-IsRefined}
use concurrent_project.ProducerConsumer.Wakeups.{Reach-wakes}

abbrev text : ℕ → Text
text r = (r + 5) ∷ []

abbrev produced : System → System
unfolding produce
produced sys = record sys {
  shared = (produce 1 1 text sys.producer sys.shared).1;
  producer = (produce 1 1 text sys.producer sys.shared).0;
}

abbrev consumed : System → System
unfolding consume
consumed sys = record sys {
  shared = (consume 1 1 text sys.consumer sys.shared).1;
  consumer = (consume 1 1 text sys.consumer sys.shared).0;
}

abbrev final : System
unfolding produced consumed
final = consumed (consumed (consumed (produced (produced (produced (start []))))))

final-Reach : Reach 1 1 text [] final
unfolding final
final-Reach =
    later
      (later (later (later (later (later starts produces) produces) produces) consumes) consumes)
      consumes

check_runs : check 1 0 final.shared ≡ 1
unfolding check final
check_runs = refl

Reach-consumed_example :
    (1 ≤ final.shared.produced_until)
    × (final.shared.produced_until ≤ 1 + 1)
    × ((i : ℕ) → i < 1 → (final.shared.consumed i ≡ text i) × (final.shared.produced i ≡ text i))
    × (final.consumer.r ≡ 1 → check 1 0 final.shared ≡ 1)
unfolding final
Reach-consumed_example = Reach-consumed 1 1 text [] final final-Reach

-- procon4.c: the consumer finds nothing and sleeps, and the producer wakes it.
abbrev p : Locked.System → Locked.System
unfolding next
p sys = Locked.after_produce procon4 1 1 text sys

abbrev c : Locked.System → Locked.System
unfolding next
c sys = Locked.after_consume procon4 1 1 text sys

abbrev asleep : Locked.System
unfolding p c
asleep = c (c (Locked.start []))

abbrev ended : Locked.System
unfolding asleep
ended = c (c (c (c (c (c (p (p (p (p (p (p asleep)))))))))))

asleep-Reach : Locked.Reach procon4 1 1 text [] asleep
unfolding asleep
asleep-Reach = Locked.consumes (Locked.consumes Locked.starts)

ended-Reach : Locked.Reach procon4 1 1 text [] ended
unfolding ended
ended-Reach = Locked.consumes (
    Locked.consumes (
      Locked.consumes (
        Locked.consumes (
          Locked.consumes (
            Locked.consumes (
              Locked.produces (
                Locked.produces (
                  Locked.produces
                    (Locked.produces (Locked.produces (Locked.produces asleep-Reach)))))))))))

Reach-IsRefined_example : IsRefined 1 1 text [] asleep
unfolding asleep
Reach-IsRefined_example = Reach-IsRefined procon4 1 1 text [] asleep asleep-Reach

Reach-wakes_example :
    (ended.producing.r ≡ 1)
    × (ended.consuming.r ≡ 1)
    × (ended.producing.place ≡ acquiring)
    × (ended.consuming.place ≡ acquiring)
unfolding ended
Reach-wakes_example =
    Reach-wakes 1 1 text [] ended (omega arith) ended-Reach (inr (refl, refl)) (inr (refl, refl))

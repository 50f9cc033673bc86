-- ===== src/ProducerConsumer/Refinement.antt =====
-- The programs with a lock refine the one with atomics.
use mathlib.Core.Path.{subst}
use concurrent_project.Prelude.{
  sym, ℕ, ◌+◌, ◌≡◌, refl, Bool, true, false, if◌then◌else◌, arith, inl, inr,
}
use concurrent_project.ProducerConsumer
use concurrent_project.ProducerConsumer.{Text, Shared, checking, produce, consume}
use concurrent_project.ProducerConsumer.Locked.{
  Program, Place, testing, sleeping, Thread, producer, consumer, next, woken, System, after_produce,
  after_consume, Reach, starts, produces, consumes, Lock,
}
use concurrent_project.ProducerConsumer.Simulation.{
  abstract, inside, one_if, HasRound, signal-abstract, produces-Refines, consumes-Refines,
  KeepsLock, next-KeepsLock,
}

inside-signal :
    (b : Bool) (place : Place) → inside (if b then woken place else place) ≡ inside place
inside-signal false place = refl
inside-signal true sleeping = refl
inside-signal true other = refl

HasRound-signal :
    (runs : ℕ) (b : Bool) (place : Place) (r : ℕ)
    → HasRound runs place r
    → HasRound runs (if b then woken place else place) r
HasRound-signal runs false place r h = h
HasRound-signal runs true sleeping r h = tt
HasRound-signal runs true testing r h = h
HasRound-signal runs true other r h = tt

-- One thread at most has the lock, exactly when it is held, and the state is one of the program with
-- atomics.
pub record IsRefined (size runs : ℕ) (text : ℕ → Text) (zero_text : Text) (sys : System)
    : Type 0 where
  pub exclusive : inside sys.producing.place + inside sys.consuming.place ≡ one_if sys.held
  pub producing_round : HasRound runs sys.producing.place sys.producing.r
  pub consuming_round : HasRound runs sys.consuming.place sys.consuming.r
  pub atomics : ProducerConsumer.Reach size runs text zero_text (abstract sys)

same-Reach :
    (size runs : ℕ) (text : ℕ → Text) (zero_text : Text)
    → (a b : ProducerConsumer.System) → a.shared ≡ b.shared
    → a.producer ≡ b.producer
    → a.consumer ≡ b.consumer
    → ProducerConsumer.Reach size runs text zero_text b
    → ProducerConsumer.Reach size runs text zero_text a
same-Reach size runs text zero_text a b e1 e2 e3 reach =
    subst (ProducerConsumer.Reach size runs text zero_text)
      (λ i. record { shared = sym e1 i; producer = sym e2 i; consumer = sym e3 i }) reach

module _ (program : Program) (size runs : ℕ) (text : ℕ → Text) (zero_text : Text) where
  produce-IsRefined :
      (sys : System)
      → IsRefined size runs text zero_text sys
      → IsRefined size runs text zero_text (after_produce program size runs text sys)
  unfolding next KeepsLock
  produce-IsRefined sys i = record {
    exclusive = omega (arith, own.0, i.exclusive, inside-signal lock.signalled sys.consuming.place);
    producing_round = own.1;
    consuming_round =
        HasRound-signal runs lock.signalled sys.consuming.place sys.consuming.r i.consuming_round;
    atomics =
        elim (produces-Refines program size runs text t.place t.r sys.held sys.shared
          i.producing_round) [
            | inl (e, e') ↦
                same-Reach size runs text zero_text _ (abstract sys) e e'
                  (signal-abstract lock.signalled sys.consuming) i.atomics
            | inr (e, e') ↦
                same-Reach size runs text zero_text _ _ e e'
                  (signal-abstract lock.signalled sys.consuming)
                  (ProducerConsumer.later i.atomics ProducerConsumer.produces)
          ];
  }
    where
      t : Thread
      t = sys.producing

      lock : Lock
      lock = (next program size runs text producer t sys.held sys.shared).1

      own : KeepsLock program size runs text producer t sys.held sys.shared
      own =
          next-KeepsLock program size runs text producer t.place t.r sys.held sys.shared
            (omega (arith, i.exclusive)) i.producing_round

  consume-IsRefined :
      (sys : System)
      → IsRefined size runs text zero_text sys
      → IsRefined size runs text zero_text (after_consume program size runs text sys)
  unfolding next KeepsLock
  consume-IsRefined sys i = record {
    exclusive = omega (arith, own.0, i.exclusive, inside-signal lock.signalled sys.producing.place);
    producing_round =
        HasRound-signal runs lock.signalled sys.producing.place sys.producing.r i.producing_round;
    consuming_round = own.1;
    atomics =
        elim (consumes-Refines program size runs text t.place t.r sys.held sys.shared
          i.consuming_round) [
            | inl (e, e') ↦
                same-Reach size runs text zero_text _ (abstract sys) e
                  (signal-abstract lock.signalled sys.producing) e' i.atomics
            | inr (e, e') ↦
                same-Reach size runs text zero_text _ _ e
                  (signal-abstract lock.signalled sys.producing) e'
                  (ProducerConsumer.later i.atomics ProducerConsumer.consumes)
          ];
  }
    where
      t : Thread
      t = sys.consuming

      lock : Lock
      lock = (next program size runs text consumer t sys.held sys.shared).1

      own : KeepsLock program size runs text consumer t sys.held sys.shared
      own =
          next-KeepsLock program size runs text consumer t.place t.r sys.held sys.shared
            (omega (arith, i.exclusive)) i.consuming_round

  -- procon2.c and procon4.c refine procon3.c: every state that the threads can reach with the lock is,
  -- without the lock and with each place at its counterpart, a state that they can reach with the
  -- atomic counters; and one thread at most is between its lock_acquire and its lock_release, exactly
  -- when the lock is held.
  pub Reach-IsRefined :
      (sys : System)
      → Reach program size runs text zero_text sys
      → IsRefined size runs text zero_text sys
  Reach-IsRefined sys starts = record {
    exclusive = refl;
    producing_round = tt;
    consuming_round = tt;
    atomics = ProducerConsumer.starts;
  }
  Reach-IsRefined sys (produces {sys = before} reach) =
      produce-IsRefined before (Reach-IsRefined before reach)
  Reach-IsRefined sys (consumes {sys = before} reach) =
      consume-IsRefined before (Reach-IsRefined before reach)

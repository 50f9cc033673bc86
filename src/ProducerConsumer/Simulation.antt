-- ===== src/ProducerConsumer/Simulation.antt =====
-- What each step of a program with a lock is in the one with atomics.
use concurrent_project.Prelude.{
  ◌≤◌, ℕ, ◌+◌, ◌≡◌, ◌≢◌, refl, Bool, true, false, ◌==◌, if◌then◌else◌, arith, Bool-cases, inl, inr,
  ◌⊎◌,
}
use concurrent_project.ProducerConsumer
use concurrent_project.ProducerConsumer.{Text, Shared, checking, produce, consume}
use concurrent_project.ProducerConsumer.Locked.{
  Program, procon2, procon4, Place, acquiring, testing, retrying, sleeping, moving, counting,
  releasing, waking, Thread, Role, producer, consumer, ready, next, fails, held_after, released,
  woken, signal, System, Lock,
}

-- The same thread in the program with atomics: a round is over with its count.
abbrev pub abstract_place : Place → (r : ℕ) → ProducerConsumer.Thread
abstract_place acquiring r = record { place = checking; r = r }
abstract_place testing r = record { place = checking; r = r }
abstract_place retrying r = record { place = checking; r = r }
abstract_place sleeping r = record { place = checking; r = r }
abstract_place moving r = record { place = ProducerConsumer.moving; r = r }
abstract_place counting r = record { place = ProducerConsumer.counting; r = r }
abstract_place releasing r = record { place = checking; r = r + 1 }
abstract_place waking r = record { place = checking; r = r + 1 }

abbrev pub abstract_thread : Thread → ProducerConsumer.Thread
abstract_thread t = abstract_place t.place t.r

abbrev pub abstract : System → ProducerConsumer.System
abstract sys = record {
  shared = sys.shared;
  producer = abstract_thread sys.producing;
  consumer = abstract_thread sys.consuming;
}

-- One for a thread that has the lock.
abbrev pub inside : Place → ℕ
inside acquiring = 0
inside testing = 1
inside retrying = 1
inside sleeping = 0
inside moving = 1
inside counting = 1
inside releasing = 1
inside waking = 0

abbrev pub one_if : Bool → ℕ
one_if b = if b then 1 else 0

-- A thread that is to test, or sleeps after its test, has a round left.
abbrev pub HasRound : ℕ → Place → ℕ → Type 0
HasRound runs testing r = r ≢ runs
HasRound runs sleeping r = r ≢ runs
HasRound runs other r = Unit {0}

pub signal-abstract : (b : Bool) (t : Thread) → abstract_thread (signal b t) ≡ abstract_thread t
signal-abstract b t = go b t.place t.r
  where
    go :
        (b : Bool) (place : Place) (r : ℕ)
        → abstract_place (if b then woken place else place) r ≡ abstract_place place r
    go false place r = refl
    go true sleeping r = refl
    go true other r = refl

module _ (program : Program) (size runs : ℕ) (text : ℕ → Text) where
  -- A step changes nothing of the abstract state, or it is a step of the program with atomics.
  abbrev pub Refines :
      Thread → Shared → ProducerConsumer.Thread × Shared → Thread × Lock × Shared → Type 0
  Refines t s there after =
      ((after.2 ≡ s) × (abstract_thread after.0 ≡ abstract_thread t))
      ⊎ ((after.2 ≡ there.1) × (abstract_thread after.0 ≡ there.0))

  released-abstract :
      (p : Program) (r : ℕ)
      → abstract_thread (released p (record { place = releasing; r = r }))
        ≡ record { place = checking; r = r + 1 }
  released-abstract procon2 r = refl
  released-abstract procon4 r = refl

  fails-abstract :
      (p : Program) (r : ℕ) → abstract_place (fails p) r ≡ record { place = checking; r = r }
  fails-abstract procon2 r = refl
  fails-abstract procon4 r = refl

  acquiring-abstract :
      (r : ℕ) (held : Bool)
      → abstract_place (if r == runs then acquiring else if held then acquiring else testing) r
        ≡ record { place = checking; r = r }
  acquiring-abstract r held = elim (Bool-cases (r == runs)) [
    | inl e ↦ rw e refl
    | inr e ↦ elim (Bool-cases held) [ inl h ↦ rw (e, h) refl | inr h ↦ rw (e, h) refl ]
  ]

  not_last : (r : ℕ) → r ≢ runs → (r == runs) ≡ false
  not_last r h = ground (arith, h)

  pub produces-Refines :
      (place : Place) (r : ℕ) (held : Bool) (s : Shared)
      → HasRound runs place r
      → let t : Thread = record { place = place; r = r } in
        Refines t s
          (produce size runs text (abstract_thread t) s)
          (next program size runs text producer t held s)
  unfolding next produce
  produces-Refines acquiring r held s h = inl (refl, acquiring-abstract r held)
  produces-Refines testing r held s h = elim (Bool-cases (ready size text producer r s)) [
    | inl go ↦ inr (refl, rw (go, not_last r h) refl)
    | inr fail ↦ inl (refl, rw fail (fails-abstract program r))
  ]
  produces-Refines retrying r held s h = inl (refl, refl)
  produces-Refines sleeping r held s h = inl (refl, refl)
  produces-Refines moving r held s h = inr (refl, refl)
  produces-Refines counting r held s h = inr (refl, refl)
  produces-Refines releasing r held s h = inl (refl, released-abstract program r)
  produces-Refines waking r held s h = inl (refl, refl)

  pub consumes-Refines :
      (place : Place) (r : ℕ) (held : Bool) (s : Shared)
      → HasRound runs place r
      → let t : Thread = record { place = place; r = r } in
        Refines t s
          (consume size runs text (abstract_thread t) s)
          (next program size runs text consumer t held s)
  unfolding next consume
  consumes-Refines acquiring r held s h = inl (refl, acquiring-abstract r held)
  consumes-Refines testing r held s h = elim (Bool-cases (ready size text consumer r s)) [
    | inl go ↦ inr (refl, rw (go, not_last r h) refl)
    | inr fail ↦ inl (refl, rw fail (fails-abstract program r))
  ]
  consumes-Refines retrying r held s h = inl (refl, refl)
  consumes-Refines sleeping r held s h = inl (refl, refl)
  consumes-Refines moving r held s h = inr (refl, refl)
  consumes-Refines counting r held s h = inr (refl, refl)
  consumes-Refines releasing r held s h = inl (refl, released-abstract program r)
  consumes-Refines waking r held s h = inl (refl, refl)

  -- What a step of a thread does to its own hold of the lock, and its rounds.
  unfoldable pub KeepsLock : Role → Thread → Bool → Shared → Type 0
  KeepsLock role t held s =
      (inside (next program size runs text role t held s).0.place + one_if held
        ≡ inside t.place + one_if (next program size runs text role t held s).1.held)
      × HasRound runs (next program size runs text role t held s).0.place
          (next program size runs text role t held s).0.r

  pub next-KeepsLock :
      (role : Role) (place : Place) (r : ℕ) (held : Bool) (s : Shared)
      → inside place ≤ one_if held
      → HasRound runs place r
      → KeepsLock role (record { place = place; r = r }) held s
  unfolding KeepsLock next
  next-KeepsLock role acquiring r held s h round = elim (Bool-cases (r == runs)) [
    | inl e ↦ rw e (refl, tt)
    | inr e ↦ elim (Bool-cases held) [
      | inl up ↦ rw (e, up) (refl, tt)
      | inr down ↦ rw (e, down) (refl, ground (arith, e))
    ]
  ]
  next-KeepsLock role testing r held s h round = elim (Bool-cases (ready size text role r s)) [
    | inl go ↦ rw go (refl, tt)
    | inr fail ↦ rw fail (failed program h)
  ]
    where
      failed :
          (p : Program)
          → 1 ≤ one_if held
          → (inside (fails p) + one_if held ≡ 1 + one_if (if false then held else held_after p))
            × HasRound runs (fails p) r
      failed procon2 le = (ground arith, tt)
      failed procon4 le = (ground arith, round)
  next-KeepsLock role retrying r held s h round = (ground arith, tt)
  next-KeepsLock role sleeping r held s h round = (refl, round)
  next-KeepsLock role moving r held s h round = (refl, tt)
  next-KeepsLock role counting r held s h round = (refl, tt)
  next-KeepsLock role waking r held s h round = (refl, tt)
  next-KeepsLock role releasing r held s h round = freed program h
    where
      freed :
          (p : Program)
          → 1 ≤ one_if held
          → (inside (released p (record { place = releasing; r = r })).place + one_if held ≡ 1)
            × HasRound runs
                (released p (record { place = releasing; r = r })).place
                (released p (record { place = releasing; r = r })).r
      freed procon2 le = (ground arith, tt)
      freed procon4 le = (ground arith, tt)

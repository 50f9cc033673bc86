-- ===== src/ProducerConsumer/Wakeups.antt =====
-- procon4.c: no wake-up is lost, so that the two threads never wait for each other.
use concurrent_project.Prelude.{
  ℕ, ◌+◌, ◌<◌, ◌≡◌, ◌≢◌, refl, Bool, true, false, ltb, ◌==◌, if◌then◌else◌, arith, Bool-cases, inl,
  inr, ◌⊎◌,
}
use concurrent_project.ProducerConsumer.{Text, Shared}
use concurrent_project.ProducerConsumer.Order.{InBounds, Reach-invariant}
use concurrent_project.ProducerConsumer.Locked.{
  procon4, Place, acquiring, testing, retrying, sleeping, moving, counting, releasing, waking,
  Thread, Role, producer, consumer, ready, next, woken, System, Reach, starts, produces, consumes,
}
use concurrent_project.ProducerConsumer.Refinement.{IsRefined, Reach-IsRefined}
use concurrent_project.ProducerConsumer.Simulation.{abstract_place, HasRound, abstract}

-- A thread that is about to wake the other.
abbrev pub wakes : Place → Bool
wakes releasing = true
wakes waking = true
wakes other = false

-- A thread sleeps only while it may not go on, or the other is about to wake it.
abbrev pub MaySleep : (is_ready : Bool) → (place other : Place) → Type 0
MaySleep is_ready sleeping other = (is_ready ≡ false) ⊎ (wakes other ≡ true)
MaySleep is_ready place other = Unit {0}

module _ (size runs : ℕ) (text : ℕ → Text) where
  pub record IsWakeful (sys : System) : Type 0 where
    pub producing :
        MaySleep
          (ready size text producer sys.producing.r sys.shared)
          sys.producing.place
          sys.consuming.place
    pub consuming :
        MaySleep
          (ready size text consumer sys.consuming.r sys.shared)
          sys.consuming.place
          sys.producing.place

  -- A step of the thread itself.
  own-step :
      (role : Role) (place : Place) (r : ℕ) (held : Bool) (s : Shared) (other : Place)
      → MaySleep (ready size text role r s) place other
      → let t : Thread = record { place = place; r = r } in
        let (t', lock, s') = next procon4 size runs text role t held s in
        MaySleep
          (ready size text role t'.r s')
          t'.place
          (if lock.signalled then woken other else other)
  unfolding next
  own-step role acquiring r held s other h = elim (Bool-cases (r == runs)) [
    | inl e ↦ rw e tt
    | inr e ↦ elim (Bool-cases held) [ inl up ↦ rw (e, up) tt | inr down ↦ rw (e, down) tt ]
  ]
  own-step role testing r held s other h = elim (Bool-cases (ready size text role r s)) [
    | inl go ↦ rw go tt
    | inr fail ↦ rw fail (inl refl)
  ]
  own-step role sleeping r held s other h = h
  own-step role place r held s other h = tt

  -- A step of the other thread, of the other role.
  abbrev opposite : Role → Role
  opposite producer = consumer
  opposite consumer = producer

  awake :
      (is_ready b : Bool) (place other : Place)
      → place ≢ sleeping
      → MaySleep is_ready (if b then woken place else place) other
  awake is_ready b sleeping other ne = absurd (ne refl)
  awake is_ready false place other ne = tt
  awake is_ready true place other ne = tt

  -- What a sleeping thread waits for, after a step of the other.
  asleep :
      (role : Role) (other : Place) (r r' : ℕ) (held : Bool) (s : Shared)
      → (ready size text role r' s ≡ false) ⊎ (wakes other ≡ true)
      → let (u, lock, s') =
          next procon4 size runs text (opposite role) (record { place = other; r = r }) held s in
        MaySleep
          (ready size text role r' s')
          (if lock.signalled then acquiring else sleeping)
          u.place
  unfolding next
  asleep role acquiring r r' held s (inl no_go) = inl no_go
  asleep role testing r r' held s (inl no_go) = inl no_go
  asleep role retrying r r' held s (inl no_go) = inl no_go
  asleep role sleeping r r' held s (inl no_go) = inl no_go
  asleep producer moving r r' held s (inl no_go) = inl no_go
  asleep consumer moving r r' held s (inl no_go) = inl no_go
  asleep role counting r r' held s h = inr refl
  asleep role releasing r r' held s h = inr refl
  asleep role waking r r' held s h = tt
  asleep role acquiring r r' held s (inr e) = cc
  asleep role testing r r' held s (inr e) = cc
  asleep role retrying r r' held s (inr e) = cc
  asleep role sleeping r r' held s (inr e) = cc
  asleep role moving r r' held s (inr e) = cc

  other-step :
      (role : Role) (other : Place) (r : ℕ) (held : Bool) (s : Shared) (place : Place) (r' : ℕ)
      → MaySleep (ready size text role r' s) place other
      → let (u, lock, s') =
          next procon4 size runs text (opposite role) (record { place = other; r = r }) held s in
        MaySleep
          (ready size text role r' s')
          (if lock.signalled then woken place else place)
          u.place
  other-step role other r held s sleeping r' h = asleep role other r r' held s h
  other-step role other r held s place r' h = awake _ _ place _ (λ e. cc)

  Reach-IsWakeful :
      {zero_text : Text} (sys : System) → Reach procon4 size runs text zero_text sys → IsWakeful sys
  unfolding next
  Reach-IsWakeful sys starts = record { producing = tt; consuming = tt }
  Reach-IsWakeful sys (produces {sys = sys1} reach) =
      let w = Reach-IsWakeful sys1 reach in
      record {
        producing =
            own-step producer sys1.producing.place sys1.producing.r sys1.held sys1.shared
              sys1.consuming.place w.producing;
        consuming =
            other-step consumer sys1.producing.place sys1.producing.r sys1.held sys1.shared
              sys1.consuming.place sys1.consuming.r w.consuming;
      }
  Reach-IsWakeful sys (consumes {sys = sys1} reach) =
      let w = Reach-IsWakeful sys1 reach in
      record {
        producing =
            other-step producer sys1.consuming.place sys1.consuming.r sys1.held sys1.shared
              sys1.producing.place sys1.producing.r w.producing;
        consuming =
            own-step consumer sys1.consuming.place sys1.consuming.r sys1.held sys1.shared
              sys1.producing.place w.consuming;
      }

-- A thread that does nothing any more by itself: it sleeps, or has made all its rounds.
abbrev pub IsStill : ℕ → Thread → Type 0
IsStill runs t = (t.place ≡ sleeping) ⊎ ((t.place ≡ acquiring) × (t.r ≡ runs))

still_wakes :
    (place : Place) (runs r : ℕ)
    → IsStill runs (record { place = place; r = r })
    → wakes place ≢ true
still_wakes releasing runs r (inl e) w = cc
still_wakes releasing runs r (inr e) w = cc
still_wakes waking runs r (inl e) w = cc
still_wakes waking runs r (inr e) w = cc
still_wakes other runs r h w = cc

sleeps-not-ready :
    (x : Bool) (place other : Place)
    → MaySleep x place other
    → place ≡ sleeping
    → wakes other ≢ true
    → x ≡ false
sleeps-not-ready x sleeping other (inl e) is no_wake = e
sleeps-not-ready x sleeping other (inr e) is no_wake = absurd (no_wake e)
sleeps-not-ready x place other h is no_wake = cc

sleeps-HasRound :
    (runs : ℕ) (place : Place) (r : ℕ) → HasRound runs place r → place ≡ sleeping → r ≢ runs
sleeps-HasRound runs sleeping r h is = h
sleeps-HasRound runs place r h is = cc

still-abstract :
    (runs : ℕ) (place : Place) (r : ℕ)
    → IsStill runs (record { place = place; r = r })
    → (abstract_place place r).r ≡ r
still-abstract runs acquiring r h = refl
still-abstract runs sleeping r h = refl
still-abstract runs place r (inl e) = cc
still-abstract runs place r (inr e) = cc

-- No wake-up of procon4.c is lost: in every state that the threads can reach, when neither of them
-- does anything by itself, then neither of them sleeps, and both have made all their rounds. The buffer
-- has room for one text at least.
pub Reach-wakes :
    (size runs : ℕ) (text : ℕ → Text) (zero_text : Text) (sys : System)
    → 0 < size
    → Reach procon4 size runs text zero_text sys
    → IsStill runs sys.producing
    → IsStill runs sys.consuming
    → (sys.producing.r ≡ runs)
      × (sys.consuming.r ≡ runs)
      × (sys.producing.place ≡ acquiring)
      × (sys.consuming.place ≡ acquiring)
Reach-wakes size runs text zero_text sys pos reach still_p still_c = elim still_p [
  | inl sleeps_p ↦ elim still_c [
    | inl sleeps_c ↦ absurd (
        ground (arith, at_p, at_c, b.producer_at, b.consumer_at, no_p sleeps_p, no_c sleeps_c, pos))
    | inr ended_c ↦ absurd (
        ground (
          arith,
          at_p,
          at_c,
          b.producer_at,
          b.consumer_at,
          b.within,
          no_p sleeps_p,
          ended_c.1,
          pos,
        ))
  ]
  | inr ended_p ↦ elim still_c [
    | inl sleeps_c ↦ absurd (
        ground (
          arith,
          at_p,
          at_c,
          b.producer_at,
          b.consumer_at,
          b.behind,
          no_c sleeps_c,
          ended_p.1,
          sleeps-HasRound runs sys.consuming.place sys.consuming.r i.consuming_round sleeps_c,
        ))
    | inr ended_c ↦ (ended_p.1, ended_c.1, ended_p.0, ended_c.0)
  ]
]
  where
    w : IsWakeful size runs text sys
    w = Reach-IsWakeful size runs text sys reach

    i : IsRefined size runs text zero_text sys
    i = Reach-IsRefined procon4 size runs text zero_text sys reach

    b : InBounds size runs (abstract sys).shared (abstract sys).producer (abstract sys).consumer
    b = (Reach-invariant size runs text i.atomics).0

    at_p : (abstract sys).producer.r ≡ sys.producing.r
    at_p = still-abstract runs sys.producing.place sys.producing.r still_p

    at_c : (abstract sys).consumer.r ≡ sys.consuming.r
    at_c = still-abstract runs sys.consuming.place sys.consuming.r still_c

    no_p :
        sys.producing.place ≡ sleeping
        → ltb sys.producing.r (sys.shared.consumed_until + size) ≡ false
    no_p e =
        sleeps-not-ready _ sys.producing.place sys.consuming.place w.producing e
          (still_wakes sys.consuming.place runs sys.consuming.r still_c)

    no_c : sys.consuming.place ≡ sleeping → ltb sys.consuming.r sys.shared.produced_until ≡ false
    no_c e =
        sleeps-not-ready _ sys.consuming.place sys.producing.place w.consuming e
          (still_wakes sys.producing.place runs sys.producing.r still_p)

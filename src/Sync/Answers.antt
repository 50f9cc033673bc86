-- ===== src/Sync/Answers.antt =====
-- The accesses of the master, and what it finds when it does not sleep.
use concurrent_project.Prelude.{
  ap, ℕ, ◌+◌, ◌<◌, ◌≡◌, ◌≢◌, refl, ◌∙◌, sym, inl, inr, List, arith, true, false, Option, none, some,
}
use concurrent_project.Sync.{
  Shared, Thread, Master, returned, waiting, woken, overrun, joined, answer, latch_wait,
  master_notify, master_join,
}
use concurrent_project.Sync.Phases.{
  Idle, AllAt, Calm, raised_calm, woken_calm, success_calm, failure_calm, joined_calm, Phase,
  idle_phase, gathering_phase, gathered_phase, running_phase, closing_phase, Settled,
}
use concurrent_project.Sync.Turns.{Idle-Gathering}

-- A master that does not sleep finds the workers at rest.
pub awake-Idle :
    (n : ℕ) (s : Shared) (ts : List Thread) (m : Master) (rounds : ℕ)
    → m ≢ waiting
    → m ≢ overrun
    → Phase n s ts m rounds
    → (s.nbready ≡ 0) × Calm s m × AllAt Idle rounds ts
awake-Idle n s ts m rounds w o (idle_phase ready calm h) = (ready, calm, h)
awake-Idle n s ts m rounds w o (gathering_phase r now (_, inl e) a b c d h) = absurd (w e)
awake-Idle n s ts m rounds w o (gathering_phase r now (_, inr e) a b c d h) = absurd (o e)
awake-Idle n s ts m rounds w o (gathered_phase r now (_, inl e) a b c d h) = absurd (w e)
awake-Idle n s ts m rounds w o (gathered_phase r now (_, inr e) a b c d h) = absurd (o e)
awake-Idle n s ts m rounds w o (running_phase r now (_, inl e) a b c d f g h) = absurd (w e)
awake-Idle n s ts m rounds w o (running_phase r now (_, inr e) a b c d f g h) = absurd (o e)
awake-Idle n s ts m rounds w o (closing_phase r now (_, inl e) a b c h) = absurd (w e)
awake-Idle n s ts m rounds w o (closing_phase r now (_, inr e) a b c h) = absurd (o e)

pub notified :
    (n : ℕ) (s : Shared) (ts : List Thread) (rounds : ℕ)
    → 0 < n
    → Phase n s ts (returned none) rounds
    → Phase n (master_notify s) ts waiting (rounds + 1)
unfolding master_notify
notified n s ts rounds pos p =
    let (ready, calm, h) = awake-Idle n s ts (returned none) rounds (λ e. cc) (λ e. cc) p in
    let (h', none_awaits) = Idle-Gathering rounds ts h in
    gathering_phase rounds refl (unraised calm, inl refl) refl refl (ready ∙ sym none_awaits)
      (omega (arith, ready, pos)) h'
  where
    unraised : Calm s (returned none) → s.raised ≡ false
    unraised (raised_calm (inl e) a b) = cc
    unraised (raised_calm (inr e) a b) = cc
    unraised (woken_calm e a b) = a
    unraised (success_calm e a b c) = a
    unraised (failure_calm x e a b c d) = a
    unraised (joined_calm e a b) = a

-- A raised latch means that the round is over.
raised-Idle :
    (n : ℕ) (s : Shared) (ts : List Thread) (m : Master) (rounds : ℕ)
    → s.raised ≡ true
    → Phase n s ts m rounds
    → (s.nbready ≡ 0) × Settled s × AllAt Idle rounds ts
raised-Idle n s ts m rounds up (idle_phase ready calm h) = (ready, settled calm, h)
  where
    settled : Calm s m → Settled s
    settled (raised_calm e a b) = b
    settled (woken_calm e a b) = b
    settled (success_calm e a b c) = cc
    settled (failure_calm x e a b c d) = cc
    settled (joined_calm e a b) = cc
raised-Idle n s ts m rounds up (gathering_phase r now asleep a b c d h) =
    absurd (ground (arith, up, asleep.0))
raised-Idle n s ts m rounds up (gathered_phase r now asleep a b c d h) =
    absurd (ground (arith, up, asleep.0))
raised-Idle n s ts m rounds up (running_phase r now asleep a b c d f g h) =
    absurd (ground (arith, up, asleep.0))
raised-Idle n s ts m rounds up (closing_phase r now asleep a b c h) =
    absurd (ground (arith, up, asleep.0))

pub woken-Phase :
    (n : ℕ) (s s' : Shared) (ts : List Thread) (rounds : ℕ)
    → latch_wait s ≡ some s'
    → Phase n s ts waiting rounds
    → Phase n s' ts woken rounds
unfolding latch_wait
woken-Phase n s s' ts rounds e p =
    let (ready, settled, h) = raised-Idle n s ts waiting rounds (ground (arith, e)) p in
    idle_phase (ground (arith, e, ready))
      (woken_calm refl (ground (arith, e)) (elim settled [
        | inl (a, b) ↦ inl (ground (arith, e, a), ground (arith, e, b))
        | inr (a, (x, xs, b, c)) ↦
            inr (ground (arith, e, a), (x, xs, ground (arith, e, b), ground (arith, e, c)))
      ]))
      h

pub overrun-Phase :
    (n : ℕ) (s : Shared) (ts : List Thread) (rounds : ℕ)
    → Phase n s ts waiting rounds
    → Phase n s ts overrun rounds
overrun-Phase n s ts rounds (idle_phase ready calm h) = idle_phase ready (late calm) h
  where
    late : Calm s waiting → Calm s overrun
    late (raised_calm e a b) = raised_calm (inr refl) a b
    late (woken_calm e a b) = cc
    late (success_calm e a b c) = cc
    late (failure_calm x e a b c d) = cc
    late (joined_calm e a b) = cc
overrun-Phase n s ts rounds (gathering_phase r now asleep a b c d h) =
    gathering_phase r now (asleep.0, inr refl) a b c d h
overrun-Phase n s ts rounds (gathered_phase r now asleep a b c d h) =
    gathered_phase r now (asleep.0, inr refl) a b c d h
overrun-Phase n s ts rounds (running_phase r now asleep a b c d f g h) =
    running_phase r now (asleep.0, inr refl) a b c d f g h
overrun-Phase n s ts rounds (closing_phase r now asleep a b c h) =
    closing_phase r now (asleep.0, inr refl) a b c h

answered : (s : Shared) → s.raised ≡ false → Settled s → Calm s (answer s)
unfolding answer
answered s down (inl (a, b)) = success_calm (rw (a, answer) refl) down a b
answered s down (inr (a, (x, xs, b, c))) =
    failure_calm x (rw (a, answer) (ap returned c)) down a xs b

pub answer-Phase :
    (n : ℕ) (s : Shared) (ts : List Thread) (rounds : ℕ)
    → Phase n s ts woken rounds
    → Phase n s ts (answer s) rounds
answer-Phase n s ts rounds p =
    let (ready, calm, h) = awake-Idle n s ts woken rounds (λ e. cc) (λ e. cc) p in
    idle_phase ready (looked calm) h
  where
    looked : Calm s woken → Calm s (answer s)
    looked (raised_calm (inl e) a b) = cc
    looked (raised_calm (inr e) a b) = cc
    looked (woken_calm e a b) = answered s a b
    looked (success_calm e a b c) = cc
    looked (failure_calm x e a b c d) = cc
    looked (joined_calm e a b) = cc

pub joined-Phase :
    (n : ℕ) (s : Shared) (ts : List Thread) (error : Option ℕ) (rounds : ℕ)
    → Phase n s ts (returned error) rounds
    → Phase n (master_join s) ts joined rounds
unfolding master_join
joined-Phase n s ts error rounds p =
    let (ready, calm, h) = awake-Idle n s ts (returned error) rounds (λ e. cc) (λ e. cc) p in
    idle_phase ready (joined_calm refl (down calm) refl) h
  where
    down : Calm s (returned error) → s.raised ≡ false
    down (raised_calm (inl e) a b) = cc
    down (raised_calm (inr e) a b) = cc
    down (woken_calm e a b) = cc
    down (success_calm e a b c) = a
    down (failure_calm x e a b c d) = a
    down (joined_calm e a b) = cc

-- ===== src/Sync/Workers.antt =====
-- Each access of a worker keeps the phase, or begins the next.
use concurrent_project.Sync.Turns.{
  Others, fill, count-with, length-with, Gathering-Gathered, Gathered-Running, StartingAt-others,
}
use concurrent_project.Prelude.{
  ℕ, ◌+◌, ◌%◌, ◌^◌, ◌<◌, ◌≡◌, ◌≢◌, refl, inl, inr, List, [], ◌∷◌, ◌++◌, ◌==◌, arith, All,
  All-middle, All-fill, length, Bool-cases, Bool,
}
use concurrent_project.Sync.{
  Status, wait, run, abort, done, fail, quit, Shared, Place, polling, arriving, resetting, starting,
  waiting_run, working, ended, Thread, Master, next, Outcome, poll,
}
use concurrent_project.Sync.Phases.{
  awaits-le, count-le-length, Idle, Gathering, Gathered, Running, awaits, sets_run, aborts, rests,
  count, Calm, raised_calm, woken_calm, success_calm, failure_calm, joined_calm, Phase, idle_phase,
  gathering_phase, gathered_phase, running_phase, Asleep, Ending, StartingAt,
}

Calm-ne-wait : (s : Shared) (m : Master) → Calm s m → s.status ≢ wait
Calm-ne-wait s m (raised_calm a b (inl h)) e = cc
Calm-ne-wait s m (raised_calm a b (inr h)) e = cc
Calm-ne-wait s m (woken_calm a b (inl h)) e = cc
Calm-ne-wait s m (woken_calm a b (inr h)) e = cc
Calm-ne-wait s m (success_calm a b h c) e = cc
Calm-ne-wait s m (failure_calm x a b h c d) e = cc
Calm-ne-wait s m (joined_calm a b h) e = cc

poll-Idle :
    (r : ℕ) (status : Status) (runs : ℕ) → status ≢ wait → runs ≡ r → Idle r (poll status) runs
poll-Idle r wait runs ne e = absurd (ne refl)
poll-Idle r run runs ne e = e
poll-Idle r abort runs ne e = e
poll-Idle r done runs ne e = e
poll-Idle r fail runs ne e = e
poll-Idle r quit runs ne e = e

-- A status at the end of a round keeps a worker in its poll.
pub Ending-poll : (status : Status) → Ending status → poll status ≡ polling
Ending-poll wait h = ground (arith, h)
Ending-poll quit h = ground (arith, h)
Ending-poll run h = refl
Ending-poll abort h = refl
Ending-poll done h = refl
Ending-poll fail h = refl

module _ (n : ℕ) (before after : List Thread) (s : Shared) (m : Master) (rounds : ℕ)
    (small : n < 2 ^ 32) (outcome : Outcome) where
  abbrev with : Thread → List Thread
  with t = before ++ t ∷ after

  abbrev After : Thread → Type 0
  After t = Phase n (next n outcome t s).1 (before ++ (next n outcome t s).0 ∷ after) m rounds

  pub Idle-next :
      (place : Place) (runs : ℕ) (leaves : Bool)
      → s.nbready ≡ 0
      → Calm s m
      → Others before after Idle rounds
      → Idle rounds place runs
      → After (record { place = place; runs = runs; leaves = leaves })
  unfolding next
  Idle-next polling runs leaves ready calm others h = idle_phase ready calm (
      fill before after Idle rounds _ others
        (poll-Idle rounds s.status runs (Calm-ne-wait s m calm) h))
  Idle-next ended runs leaves ready calm others h =
      idle_phase ready calm (fill before after Idle rounds _ others h)
  Idle-next other runs leaves ready calm others h = elim h [ ]

  pub Gathering-next :
      (r : ℕ) (place : Place) (runs : ℕ) (leaves : Bool)
      → let t : Thread = record { place = place; runs = runs; leaves = leaves } in
        rounds ≡ r + 1
        → Asleep s m
        → s.status ≡ wait
        → s.errors ≡ []
        → s.nbready ≡ count awaits (with t)
        → s.nbready < n
        → length (with t) ≡ n
        → Others before after Gathering r
        → Gathering r place runs
        → After t
  unfolding next
  Gathering-next r polling runs leaves now asleep status errors ready room len others h =
      let t : Thread = record { place = polling; runs = runs; leaves = leaves } in
      let t' : Thread = record { place = arriving; runs = runs; leaves = leaves } in
      simp status (
        gathering_phase r now asleep status errors
          (omega
            (arith, ready, count-with before after awaits t, count-with before after awaits t'))
          room (fill before after Gathering r t' others h))
  Gathering-next r ended runs leaves now asleep status errors ready room len others h =
      gathering_phase r now asleep status errors ready room
        (fill before after Gathering r _ others h)
  Gathering-next r waiting_run runs leaves now asleep status errors ready room len others h =
      simp status (
        gathering_phase r now asleep status errors ready room
          (fill before after Gathering r _ others h))
  Gathering-next r arriving runs leaves now asleep status errors ready room len others h =
      let t : Thread = record { place = arriving; runs = runs; leaves = leaves } in
      elim (Bool-cases ((s.nbready + 1) % 2 ^ 32 == n)) [
        | inl last ↦
            let s' : Shared = record s { nbready = (s.nbready + 1) % 2 ^ 32 } in
            let full : count awaits before + count awaits after ≡ length before + length after =
              ground (
                arith,
                last,
                ready,
                room,
                len,
                count-with before after awaits t,
                length-with before after t,
              ) in
            let le1 = count-le-length awaits before awaits-le in
            let le2 = count-le-length awaits after awaits-le in
            let b = Gathering-Gathered s r before others.0 (omega (arith, full, le1, le2)) in
            let a = Gathering-Gathered s r after others.1 (omega (arith, full, le1, le2)) in
            let t' : Thread = record { place = resetting; runs = runs; leaves = leaves } in
            rw (last, next)
              (gathered_phase r now asleep status errors
                (omega (arith, count-with before after sets_run t', b.1, a.1))
                (All-fill (λ x. StartingAt s' x.place) before t' after
                  (StartingAt-others s' before b.1) tt (StartingAt-others s' after a.1))
                (fill before after Gathered r t' (b.0, a.0) h))
        | inr more ↦
            let t' : Thread = record { place = waiting_run; runs = runs; leaves = leaves } in
            rw (more, next)
              (gathering_phase r now asleep status errors
                (omega (
                  arith,
                  ready,
                  room,
                  small,
                  count-with before after awaits t,
                  count-with before after awaits t',
                ))
                (ground (arith, more, room)) (fill before after Gathering r t' others h))
      ]
  Gathering-next r other runs leaves now asleep status errors ready room len others h = elim h [ ]

  pub Gathered-next :
      (r : ℕ) (place : Place) (runs : ℕ) (leaves : Bool)
      → let t : Thread = record { place = place; runs = runs; leaves = leaves } in
        rounds ≡ r + 1
        → Asleep s m
        → s.status ≡ wait
        → s.errors ≡ []
        → count sets_run (with t) ≡ 1
        → All (λ x. StartingAt s x.place) (with t)
        → length (with t) ≡ n
        → Others before after Gathered r
        → Gathered r place runs
        → After t
  unfolding next
  Gathered-next r waiting_run runs leaves now asleep status errors one starts len others h =
      simp status (
        gathered_phase r now asleep status errors one starts
          (fill before after Gathered r _ others h))
  Gathered-next r resetting runs leaves now asleep status errors one starts len others h =
      let s' : Shared = record s { nbready = 0 } in
      let t : Thread = record { place = resetting; runs = runs; leaves = leaves } in
      let t' : Thread = record { place = starting; runs = runs; leaves = leaves } in
      gathered_phase r now asleep status errors
        (omega
          (arith, one, count-with before after sets_run t, count-with before after sets_run t'))
        (All-fill (λ x. StartingAt s' x.place) before t' after
          (StartingAt-others s' before (omega (arith, one, count-with before after sets_run t)))
          refl
          (StartingAt-others s' after (omega (arith, one, count-with before after sets_run t))))
        (fill before after Gathered r t' others h)
  Gathered-next r starting runs leaves now asleep status errors one starts len others h =
      let t : Thread = record { place = starting; runs = runs; leaves = leaves } in
      let t' : Thread = record { place = working; runs = runs; leaves = leaves } in
      let b =
        Gathered-Running r before others.0
          (omega (arith, one, count-with before after sets_run t)) in
      let a =
        Gathered-Running r after others.1
          (omega (arith, one, count-with before after sets_run t)) in
      let ready = (All-middle (λ x. StartingAt s x.place) before t after starts).1 in
      running_phase r now asleep (inl refl)
        (λ e. ground (arith, errors, count-with before after aborts t', a.2, b.2)) (inl errors)
        (λ e. cc) (omega (arith, ready, count-with before after rests t', a.1, b.1))
        (omega (arith, ready, len, length-with before after t))
        (fill before after Running r t' (b.0, a.0) h)
  Gathered-next r other runs leaves now asleep status errors one starts len others h = elim h [ ]

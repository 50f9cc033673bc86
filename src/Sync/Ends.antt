-- ===== src/Sync/Ends.antt =====
-- The accesses of the workers while a run is on, and at its end.
use concurrent_project.Sync.Workers.{Ending-poll}
use concurrent_project.Sync.Turns.{Running-Closing, Others, fill, count-with, length-with}
use concurrent_project.Prelude.{
  ap, ℕ, ◌+◌, ◌%◌, ◌^◌, ◌<◌, ◌≡◌, refl, inl, inr, ◌⊎◌, List, [], ◌∷◌, ◌++◌, ◌==◌, arith, All-fill,
  length, Bool-cases, Bool, true, false, none, some,
}
use concurrent_project.Sync.{
  is_abort, internal_exception, run, abort, Shared, Place, polling, waiting_run, working, reporting,
  aborting, counting, clearing, ended, Thread, Master, next, Outcome, returns, throws, poll,
  await_run, resting,
}
use concurrent_project.Sync.Phases.{
  rests-le, count-le-length, Running, Closing, aborts, rests, closes, count, Phase, running_phase,
  closing_phase, Asleep, ClosingAt, Failed, Signals,
}

module _ (n : ℕ) (before after : List Thread) (s : Shared) (m : Master) (rounds : ℕ)
    (small : n < 2 ^ 32) (outcome : Outcome) where
  abbrev with : Thread → List Thread
  with t = before ++ t ∷ after

  abbrev After : Thread → Type 0
  After t = Phase n (next n outcome t s).1 (before ++ (next n outcome t s).0 ∷ after) m rounds

  module _ (r : ℕ) (runs : ℕ) (now : rounds ≡ r + 1) (asleep : Asleep s m)
      (status : (s.status ≡ run) ⊎ (s.status ≡ abort)) (errors : (s.errors ≡ []) ⊎ Failed s)
      (aborted : s.status ≡ abort → 0 < length s.errors) (room : s.nbready < n)
      (others : Others before after Running r) where
    -- A step that writes nothing, of a worker that is not at rest before nor after.
    stays :
        (place place' : Place) (leaves leaves' : Bool)
        → let t : Thread = record { place = place; runs = runs; leaves = leaves } in
          let t' : Thread = record { place = place'; runs = runs; leaves = leaves' } in
          (s.status ≡ run → length s.errors ≡ count aborts (with t))
          → s.nbready ≡ count rests (with t)
          → rests place ≡ rests place'
          → aborts place ≡ aborts place'
          → Running r place' runs
          → Phase n s (with t') m rounds
    stays place place' leaves leaves' reported ready same same' h' =
        let t : Thread = record { place = place; runs = runs; leaves = leaves } in
        let t' : Thread = record { place = place'; runs = runs; leaves = leaves' } in
        running_phase r now asleep status
          (λ e. omega (
            arith,
            reported e,
            same',
            count-with before after aborts t,
            count-with before after aborts t',
          ))
          errors aborted
          (omega
            (arith, ready, same, count-with before after rests t, count-with before after rests t'))
          room (fill before after Running r t' others h')

    poll-stays : poll s.status ≡ polling
    poll-stays = Ending-poll s.status (elim status [ inl e ↦ inl e | inr e ↦ inr (inl e) ])

    await_run-goes : await_run s.status ≡ working
    await_run-goes = elim status [ inl e ↦ rw e refl | inr e ↦ rw e refl ]

    working-next :
        (leaves : Bool) (o : Outcome)
        → let t : Thread = record { place = working; runs = runs; leaves = leaves } in
          (s.status ≡ run → length s.errors ≡ count aborts (with t))
          → s.nbready ≡ count rests (with t)
          → runs ≡ r
          → Phase n (next n o t s).1 (with (next n o t s).0) m rounds
    unfolding next
    working-next leaves (returns none) reported ready h =
        stays working counting leaves leaves reported ready refl refl h
    working-next leaves (returns (some e)) reported ready h =
        stays working (reporting e) leaves leaves reported ready refl refl h
    working-next leaves throws reported ready h =
        stays working (reporting internal_exception) leaves true reported ready refl refl h

    -- At the end of the run the status tells whether an error has been reported.
    signals : (s.status ≡ run → length s.errors ≡ 0) → Signals s
    signals none_open = elim status [
      | inl e ↦ inl (e, nil_of_length s.errors (none_open e))
      | inr e ↦ elim errors [
        | inl no_error ↦ absurd (omega (arith, aborted e, ap length no_error))
        | inr failed ↦ inr (e, failed)
      ]
    ]
      where
        nil_of_length : (es : List ℕ) → length es ≡ 0 → es ≡ []
        nil_of_length [] h = refl
        nil_of_length (e ∷ es) h = absurd (omega (arith, h))

    counting-next :
        (leaves : Bool)
        → let t : Thread = record { place = counting; runs = runs; leaves = leaves } in
          (s.status ≡ run → length s.errors ≡ count aborts (with t))
          → s.nbready ≡ count rests (with t)
          → length (with t) ≡ n
          → runs ≡ r
          → After t
    unfolding next
    counting-next leaves reported ready len h =
        let t : Thread = record { place = counting; runs = runs; leaves = leaves } in
        let s' : Shared = record s { nbready = (s.nbready + 1) % 2 ^ 32 } in
        elim (Bool-cases ((s.nbready + 1) % 2 ^ 32 == n)) [
          | inl last ↦
              let full : count rests before + count rests after ≡ length before + length after =
                ground (
                  arith,
                  last,
                  ready,
                  room,
                  len,
                  count-with before after rests t,
                  length-with before after t,
                ) in
              let le1 = count-le-length rests before rests-le in
              let le2 = count-le-length rests after rests-le in
              let b = Running-Closing s' r before others.0 (omega (arith, full, le1, le2)) in
              let a = Running-Closing s' r after others.1 (omega (arith, full, le1, le2)) in
              let t' : Thread = record { place = clearing; runs = runs + 1; leaves = leaves } in
              rw (last, next)
                (closing_phase r now asleep (elim status [ inl e ↦ inl e | inr e ↦ inr (inl e) ])
                  (omega (arith, count-with before after closes t', b.1, a.1))
                  (All-fill (λ x. ClosingAt s' x.place) before t' after b.3
                    (signals
                      (λ e. omega (arith, reported e, count-with before after aborts t, b.2, a.2)))
                    a.3)
                  (fill before after Closing r t' (b.0, a.0) (omega (arith, h))))
          | inr more ↦
              let t' : Thread = record {
                place = resting leaves;
                runs = runs + 1;
                leaves = leaves;
              } in
              rw (more, next)
                (running_phase r now asleep status
                  (λ e. omega (
                    arith,
                    reported e,
                    (rest leaves).1,
                    count-with before after aborts t,
                    count-with before after aborts t',
                  ))
                  errors aborted
                  (omega (
                    arith,
                    ready,
                    room,
                    small,
                    (rest leaves).0,
                    count-with before after rests t,
                    count-with before after rests t',
                  ))
                  (ground (arith, more, room))
                  (fill before after Running r t' others (at_rest leaves)))
        ]
      where
        rest : (b : Bool) → (rests (resting b) ≡ 1) × (aborts (resting b) ≡ 0)
        rest true = (refl, refl)
        rest false = (refl, refl)

        at_rest : (b : Bool) → Running r (resting b) (runs + 1)
        at_rest true = omega (arith, h)
        at_rest false = omega (arith, h)

    pub Running-next :
        (place : Place) (leaves : Bool)
        → let t : Thread = record { place = place; runs = runs; leaves = leaves } in
          (s.status ≡ run → length s.errors ≡ count aborts (with t))
          → s.nbready ≡ count rests (with t)
          → length (with t) ≡ n
          → Running r place runs
          → After t
    unfolding next
    Running-next polling leaves reported ready len h =
        stays polling (poll s.status) leaves leaves reported ready (rw poll-stays refl)
          (rw poll-stays refl) (rw poll-stays h)
    Running-next ended leaves reported ready len h =
        stays ended ended leaves leaves reported ready refl refl h
    Running-next waiting_run leaves reported ready len h =
        stays waiting_run (await_run s.status) leaves leaves reported ready (rw await_run-goes refl)
          (rw await_run-goes refl) (rw await_run-goes h)
    Running-next working leaves reported ready len h = working-next leaves outcome reported ready h
    Running-next (reporting e) leaves reported ready len h =
        let t : Thread = record { place = reporting e; runs = runs; leaves = leaves } in
        let t' : Thread = record { place = aborting; runs = runs; leaves = leaves } in
        running_phase r now asleep status
          (λ is_run. omega (
            arith,
            reported is_run,
            count-with before after aborts t,
            count-with before after aborts t',
          ))
          (inr (e, s.errors, refl, refl)) (λ is_abort. omega arith)
          (omega (arith, ready, count-with before after rests t, count-with before after rests t'))
          room (fill before after Running r t' others h)
    Running-next aborting leaves reported ready len h =
        let t : Thread = record { place = aborting; runs = runs; leaves = leaves } in
        let t' : Thread = record { place = counting; runs = runs; leaves = leaves } in
        running_phase r now asleep (inr refl) (λ e. cc) errors
          (λ e. elim status [
            | inl is_run ↦ omega (arith, reported is_run, count-with before after aborts t)
            | inr is_abort ↦ aborted is_abort
          ])
          (omega (arith, ready, count-with before after rests t, count-with before after rests t'))
          room (fill before after Running r t' others h)
    Running-next counting leaves reported ready len h = counting-next leaves reported ready len h
    Running-next other leaves reported ready len h = elim h [ ]

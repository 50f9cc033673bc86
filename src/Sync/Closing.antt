-- ===== src/Sync/Closing.antt =====
-- The accesses of the workers at the end of a round.
use concurrent_project.Sync.Workers.{Ending-poll}
use concurrent_project.Sync.Turns.{Closing-Idle, ClosingAt-others, Others, fill, count-with}
use concurrent_project.Prelude.{
  ◌∙◌, ℕ, ◌+◌, ◌≡◌, refl, inl, inr, List, ◌∷◌, ◌++◌, arith, All, All-middle, All-fill, Bool, true,
  false,
}
use concurrent_project.Sync.{
  is_abort, Shared, Place, polling, clearing, deciding, finishing, raising, ended, Thread, Master,
  next, Outcome, resting,
}
use concurrent_project.Sync.Phases.{
  Idle, Closing, closes, count, AllAt, raised_calm, Phase, idle_phase, closing_phase, Asleep,
  Ending, ClosingAt, Signals,
}

module _ (n : ℕ) (before after : List Thread) (s : Shared) (m : Master) (rounds : ℕ)
    (outcome : Outcome) where
  abbrev with : Thread → List Thread
  with t = before ++ t ∷ after

  abbrev After : Thread → Type 0
  After t = Phase n (next n outcome t s).1 (before ++ (next n outcome t s).0 ∷ after) m rounds

  module _ (r : ℕ) (runs : ℕ) (leaves : Bool) (now : rounds ≡ r + 1) (asleep : Asleep s m)
      (ending : Ending s.status) (others : Others before after Closing r) where
    -- The worker that ends the round has its next place, and the shared state is the one given.
    ends :
        (place place' : Place) (s' : Shared)
        → let t : Thread = record { place = place; runs = runs; leaves = leaves } in
          let t' : Thread = record { place = place'; runs = runs; leaves = leaves } in
          count closes (with t) ≡ 1
          → All (λ x. ClosingAt s x.place) (with t)
          → closes place ≡ 1
          → closes place' ≡ 1
          → s'.raised ≡ s.raised
          → Ending s'.status
          → ClosingAt s' place'
          → Closing r place' runs
          → Phase n s' (with t') m rounds
    ends place place' s' one closing before_step after_step latch ending' here h' =
        let t : Thread = record { place = place; runs = runs; leaves = leaves } in
        let t' : Thread = record { place = place'; runs = runs; leaves = leaves } in
        let (cb, ct, ca) = All-middle (λ x. ClosingAt s x.place) before t after closing in
        closing_phase r now (latch ∙ asleep.0, asleep.1) ending'
          (omega (
            arith,
            one,
            before_step,
            after_step,
            count-with before after closes t,
            count-with before after closes t',
          ))
          (All-fill (λ x. ClosingAt s' x.place) before t' after
            (ClosingAt-others s s' before (none_before one before_step) cb) here
            (ClosingAt-others s s' after (none_after one before_step) ca))
          (fill before after Closing r t' others h')
      where
        none_before :
            count closes (with (record { place = place; runs = runs; leaves = leaves })) ≡ 1
            → closes place ≡ 1
            → count closes before ≡ 0
        none_before o c = omega (
          arith,
          o,
          c,
          count-with before after closes (record { place = place; runs = runs; leaves = leaves }),
        )

        none_after :
            count closes (with (record { place = place; runs = runs; leaves = leaves })) ≡ 1
            → closes place ≡ 1
            → count closes after ≡ 0
        none_after o c = omega (
          arith,
          o,
          c,
          count-with before after closes (record { place = place; runs = runs; leaves = leaves }),
        )

    decides : Signals s → (s.nbready ≡ 0) → ClosingAt s (finishing (is_abort s.status))
    decides (inl (e, no_errors)) ready = rw e (ready, no_errors)
    decides (inr (e, failed)) ready = rw e (ready, failed)

    pub Closing-next :
        (place : Place)
        → let t : Thread = record { place = place; runs = runs; leaves = leaves } in
          count closes (with t) ≡ 1
          → All (λ x. ClosingAt s x.place) (with t)
          → Closing r place runs
          → After t
    unfolding next
    Closing-next polling one closing h =
        simp (Ending-poll s.status ending)
          (closing_phase r now asleep ending one closing (fill before after Closing r _ others h))
    Closing-next ended one closing h =
        closing_phase r now asleep ending one closing (fill before after Closing r _ others h)
    Closing-next clearing one closing h =
        ends clearing deciding _ one closing refl refl refl ending
          (refl, (All-middle (λ x. ClosingAt s x.place) before _ after closing).1) h
    Closing-next deciding one closing h =
        let here = (All-middle (λ x. ClosingAt s x.place) before _ after closing).1 in
        ends deciding (finishing (is_abort s.status)) s one closing refl refl refl ending
          (decides here.1 here.0) h
    Closing-next (finishing true) one closing h =
        let here = (All-middle (λ x. ClosingAt s x.place) before _ after closing).1 in
        ends (finishing true) raising _ one closing refl refl refl (inr (inr (inr refl)))
          (here.0, inr (refl, here.1)) h
    Closing-next (finishing false) one closing h =
        let here = (All-middle (λ x. ClosingAt s x.place) before _ after closing).1 in
        ends (finishing false) raising _ one closing refl refl refl (inr (inr (inl refl)))
          (here.0, inl (refl, here.1)) h
    Closing-next raising one closing h =
        let t : Thread = record { place = raising; runs = runs; leaves = leaves } in
        let here = (All-middle (λ x. ClosingAt s x.place) before t after closing).1 in
        idle_phase here.0 (raised_calm asleep.1 refl here.1) (rw now all_idle)
      where
        at_rest : (b : Bool) → Idle (r + 1) (resting b) runs
        at_rest true = h
        at_rest false = h

        all_idle :
            AllAt Idle
              (r + 1)
              (with (record { place = resting leaves; runs = runs; leaves = leaves }))
        all_idle =
            let t : Thread = record { place = raising; runs = runs; leaves = leaves } in
            fill before after Idle (r + 1) _
              (
                Closing-Idle r before others.0
                    (omega (arith, one, count-with before after closes t)),
                Closing-Idle r after others.1
                    (omega (arith, one, count-with before after closes t)),
              )
              (at_rest leaves)
    Closing-next other one closing h = elim h [ ]

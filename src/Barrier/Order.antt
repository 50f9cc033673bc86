-- ===== src/Barrier/Order.antt =====
-- Each access of a thread keeps the phase of the barrier, or begins the next.
use concurrent_project.Prelude.{
  ℕ, ◌+◌, ◌-◌, ◌%◌, ◌^◌, ◌<◌, ◌≡◌, refl, inl, inr, List, ◌∷◌, ◌++◌, ◌==◌, arith, All-middle,
  All-fill, length, length-append, Bool-cases,
}
use concurrent_project.Barrier.{
  enter, leave, Place, outside, setting_leave, waiting_leave, leaving, setting_enter, waiting_enter,
  Thread, Barrier, next,
}
use concurrent_project.Barrier.Rounds.{
  waits, sets_leave, sets_enter, count, count-append, Arriving, Full, Leaving, Empty, AllAt, Phase,
  arriving_phase, full_phase, leaving_phase, empty_phase, waits-le, Arriving-Full, Full-Leaving,
  Leaving-Empty, Empty-Arriving,
}

module _ (n : ℕ) (before after : List Thread) (b : Barrier) (small : n < 2 ^ 64) (r : ℕ) where
  abbrev with : Thread → List Thread
  with t = before ++ t ∷ after

  count-with :
      (f : Place → ℕ) (t : Thread) → count f (with t) ≡ count f before + count f after + f t.place
  count-with f t = omega (arith, count-append f before (t ∷ after))

  length-with : (t : Thread) → length (with t) ≡ length before + length after + 1
  length-with t = omega (arith, length-append before (t ∷ after))

  -- The phase after the step, `t` having become `t'`.
  abbrev After : Thread → Type 0
  After t = Phase n (next n t b).1 (before ++ (next n t b).0 ∷ after)

  pub Arriving-next :
      (place : Place) (arrivals : ℕ)
      → let t : Thread = record { place = place; arrivals = arrivals } in
        b.mode ≡ enter
        → b.step ≡ count waits (with t)
        → b.step < n
        → AllAt Arriving r (with t)
        → length (with t) ≡ n
        → After t
  unfolding next
  Arriving-next outside arrivals mode counted room h len =
      let t : Thread = record { place = outside; arrivals = arrivals } in
      let (hb, ht, ha) = All-middle (λ x. Arriving r x.place x.arrivals) before t after h in
      elim (Bool-cases ((b.step + 1) % 2 ^ 64 == n)) [
        | inl last ↦
            let filled : (b.step + 1) % 2 ^ 64 ≡ n = ground (arith, last) in
            let full_before = Arriving-Full r before hb (
              omega (
                arith,
                counted,
                filled,
                count-with waits t,
                length-with t,
                len,
                waits-le before,
                waits-le after,
              )) in
            let full_after = Arriving-Full r after ha (
              omega (
                arith,
                counted,
                filled,
                count-with waits t,
                length-with t,
                len,
                waits-le before,
                waits-le after,
              )) in
            let t' : Thread = record { place = setting_leave; arrivals = arrivals + 1 } in
            rw (last, next)
              (full_phase r mode (ground (arith, last))
                (omega (arith, count-with sets_leave t', full_before.1, full_after.1))
                (All-fill (λ x. Full r x.place x.arrivals) before t' after full_before.0
                  (omega (arith, ht)) full_after.0))
        | inr more ↦
            let t' : Thread = record { place = waiting_leave; arrivals = arrivals + 1 } in
            rw (more, next)
              (arriving_phase r mode
                (omega (arith, counted, room, count-with waits t, count-with waits t'))
                (ground (arith, more))
                (All-fill (λ x. Arriving r x.place x.arrivals) before t' after hb
                  (omega (arith, ht)) ha))
      ]
  Arriving-next setting_leave arrivals mode counted room h len =
      elim ((All-middle (λ x. Arriving r x.place x.arrivals) before _ after h).1) [ ]
  Arriving-next waiting_leave arrivals mode counted room h len =
      rw (mode, next) (arriving_phase r mode counted room h)
  Arriving-next leaving arrivals mode counted room h len =
      elim ((All-middle (λ x. Arriving r x.place x.arrivals) before _ after h).1) [ ]
  Arriving-next setting_enter arrivals mode counted room h len =
      elim ((All-middle (λ x. Arriving r x.place x.arrivals) before _ after h).1) [ ]
  Arriving-next waiting_enter arrivals mode counted room h len =
      let t : Thread = record { place = waiting_enter; arrivals = arrivals } in
      let t' : Thread = record { place = outside; arrivals = arrivals } in
      let (hb, ht, ha) = All-middle (λ x. Arriving r x.place x.arrivals) before t after h in
      rw (mode, next)
        (arriving_phase r mode (omega (arith, counted, count-with waits t, count-with waits t'))
          room (All-fill (λ x. Arriving r x.place x.arrivals) before t' after hb ht ha))

  pub Full-next :
      (place : Place) (arrivals : ℕ)
      → let t : Thread = record { place = place; arrivals = arrivals } in
        b.mode ≡ enter
        → b.step ≡ n
        → count sets_leave (with t) ≡ 1
        → AllAt Full r (with t)
        → length (with t) ≡ n
        → After t
  unfolding next
  Full-next setting_leave arrivals mode all one h len =
      let t : Thread = record { place = setting_leave; arrivals = arrivals } in
      let t' : Thread = record { place = leaving; arrivals = arrivals } in
      let (hb, ht, ha) = All-middle (λ x. Full r x.place x.arrivals) before t after h in
      let first = Full-Leaving r before hb (omega (arith, one, count-with sets_leave t)) in
      let last = Full-Leaving r after ha (omega (arith, one, count-with sets_leave t)) in
      leaving_phase r refl
        (omega (arith, all, len, length-with t, count-with waits t', first.1, last.1))
        (omega (arith, all, len, length-with t))
        (All-fill (λ x. Leaving r x.place x.arrivals) before t' after first.0 ht last.0)
  Full-next waiting_leave arrivals mode all one h len =
      rw (mode, next) (full_phase r mode all one h)
  Full-next outside arrivals mode all one h len =
      elim ((All-middle (λ x. Full r x.place x.arrivals) before _ after h).1) [ ]
  Full-next leaving arrivals mode all one h len =
      elim ((All-middle (λ x. Full r x.place x.arrivals) before _ after h).1) [ ]
  Full-next setting_enter arrivals mode all one h len =
      elim ((All-middle (λ x. Full r x.place x.arrivals) before _ after h).1) [ ]
  Full-next waiting_enter arrivals mode all one h len =
      elim ((All-middle (λ x. Full r x.place x.arrivals) before _ after h).1) [ ]

  pub Leaving-next :
      (place : Place) (arrivals : ℕ)
      → let t : Thread = record { place = place; arrivals = arrivals } in
        b.mode ≡ leave
        → b.step ≡ count waits (with t)
        → 0 < b.step
        → AllAt Leaving r (with t)
        → length (with t) ≡ n
        → After t
  unfolding next
  Leaving-next waiting_leave arrivals mode counted some_left h len =
      let t : Thread = record { place = waiting_leave; arrivals = arrivals } in
      let t' : Thread = record { place = leaving; arrivals = arrivals } in
      let (hb, ht, ha) = All-middle (λ x. Leaving r x.place x.arrivals) before t after h in
      rw (mode, next)
        (leaving_phase r mode (omega (arith, counted, count-with waits t, count-with waits t'))
          some_left (All-fill (λ x. Leaving r x.place x.arrivals) before t' after hb ht ha))
  Leaving-next leaving arrivals mode counted some_left h len =
      let t : Thread = record { place = leaving; arrivals = arrivals } in
      let (hb, ht, ha) = All-middle (λ x. Leaving r x.place x.arrivals) before t after h in
      let fits : b.step < 2 ^ 64 = omega (arith, counted, waits-le (with t), len) in
      elim (Bool-cases ((b.step + 2 ^ 64 - 1) % 2 ^ 64 == 0)) [
        | inl last ↦
            let t' : Thread = record { place = setting_enter; arrivals = arrivals } in
            let only : b.step ≡ 1 = ground (arith, last) in
            let first =
              Leaving-Empty r before hb (omega (arith, only, counted, count-with waits t)) in
            let rest =
              Leaving-Empty r after ha (omega (arith, only, counted, count-with waits t)) in
            rw (last, next)
              (empty_phase r mode (ground (arith, last))
                (omega (arith, count-with sets_enter t', first.1, rest.1))
                (All-fill (λ x. Empty r x.place x.arrivals) before t' after first.0 ht rest.0))
        | inr more ↦
            let t' : Thread = record { place = waiting_enter; arrivals = arrivals } in
            rw (more, next)
              (leaving_phase r mode
                (omega (arith, counted, some_left, fits, count-with waits t, count-with waits t'))
                (ground (arith, more))
                (All-fill (λ x. Leaving r x.place x.arrivals) before t' after hb ht ha))
      ]
  Leaving-next waiting_enter arrivals mode counted some_left h len =
      rw (mode, next) (leaving_phase r mode counted some_left h)
  Leaving-next outside arrivals mode counted some_left h len =
      elim ((All-middle (λ x. Leaving r x.place x.arrivals) before _ after h).1) [ ]
  Leaving-next setting_leave arrivals mode counted some_left h len =
      elim ((All-middle (λ x. Leaving r x.place x.arrivals) before _ after h).1) [ ]
  Leaving-next setting_enter arrivals mode counted some_left h len =
      elim ((All-middle (λ x. Leaving r x.place x.arrivals) before _ after h).1) [ ]

  pub Empty-next :
      (place : Place) (arrivals : ℕ)
      → let t : Thread = record { place = place; arrivals = arrivals } in
        b.mode ≡ leave
        → b.step ≡ 0
        → count sets_enter (with t) ≡ 1
        → AllAt Empty r (with t)
        → length (with t) ≡ n
        → After t
  unfolding next
  Empty-next setting_enter arrivals mode none one h len =
      let t : Thread = record { place = setting_enter; arrivals = arrivals } in
      let t' : Thread = record { place = outside; arrivals = arrivals } in
      let (hb, ht, ha) = All-middle (λ x. Empty r x.place x.arrivals) before t after h in
      let first = Empty-Arriving r before hb (omega (arith, one, count-with sets_enter t)) in
      let last = Empty-Arriving r after ha (omega (arith, one, count-with sets_enter t)) in
      arriving_phase (r + 1) refl (omega (arith, none, count-with waits t', first.1, last.1))
        (omega (arith, none, len, length-with t))
        (All-fill (λ x. Arriving (r + 1) x.place x.arrivals) before t' after first.0 ht last.0)
  Empty-next waiting_enter arrivals mode none one h len =
      rw (mode, next) (empty_phase r mode none one h)
  Empty-next outside arrivals mode none one h len =
      elim ((All-middle (λ x. Empty r x.place x.arrivals) before _ after h).1) [ ]
  Empty-next setting_leave arrivals mode none one h len =
      elim ((All-middle (λ x. Empty r x.place x.arrivals) before _ after h).1) [ ]
  Empty-next waiting_leave arrivals mode none one h len =
      elim ((All-middle (λ x. Empty r x.place x.arrivals) before _ after h).1) [ ]
  Empty-next leaving arrivals mode none one h len =
      elim ((All-middle (λ x. Empty r x.place x.arrivals) before _ after h).1) [ ]

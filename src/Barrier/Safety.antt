-- ===== src/Barrier/Safety.antt =====
-- What the barrier promises: all threads arrive at a round before one of them leaves it.
use concurrent_project.Prelude.{
  ℕ, zero, suc, ◌+◌, ◌^◌, ◌≤◌, ◌<◌, ◌≡◌, refl, List, [], ◌∷◌, ◌++◌, replicate, arith, All,
  All-middle, length, length-append, length-replicate,
}
use concurrent_project.Barrier.{
  Place, outside, setting_leave, waiting_leave, leaving, setting_enter, waiting_enter, Thread,
  Barrier, next, System, start, Step, goes, Reach, starts, later,
}
use concurrent_project.Barrier.Rounds.{
  waits, count, Arriving, Full, Leaving, Empty, AllAt, Phase, arriving_phase, full_phase,
  leaving_phase, empty_phase,
}
use concurrent_project.Barrier.Order.{Arriving-next, Full-next, Leaving-next, Empty-next}

next-Phase :
    (n : ℕ) (before after : List Thread) (t : Thread) (b : Barrier)
    → n < 2 ^ 64
    → length (before ++ t ∷ after) ≡ n
    → Phase n b (before ++ t ∷ after)
    → Phase n (next n t b).1 (before ++ (next n t b).0 ∷ after)
next-Phase n before after t b small len (arriving_phase r mode counted room h) =
    Arriving-next n before after b small r t.place t.arrivals mode counted room h len
next-Phase n before after t b small len (full_phase r mode all one h) =
    Full-next n before after b small r t.place t.arrivals mode all one h len
next-Phase n before after t b small len (leaving_phase r mode counted some_left h) =
    Leaving-next n before after b small r t.place t.arrivals mode counted some_left h len
next-Phase n before after t b small len (empty_phase r mode none one h) =
    Empty-next n before after b small r t.place t.arrivals mode none one h len

-- The number of threads stays, and the barrier is in some phase.
record IsPhased (n : ℕ) (sys : System) : Type 0 where
  number : length sys.threads ≡ n
  phase : Phase n sys.barrier sys.threads

Step-IsPhased :
    (n : ℕ) {sys sys' : System} → n < 2 ^ 64 → Step n sys sys' → IsPhased n sys → IsPhased n sys'
Step-IsPhased n small (goes {b} before t after) p = record {
  number = omega (
    arith,
    p.number,
    length-append before (t ∷ after),
    length-append before ((next n t b).0 ∷ after),
  );
  phase = next-Phase n before after t b small p.number p.phase;
}

start-IsPhased : (n : ℕ) → 0 < n → IsPhased n (start n)
start-IsPhased n pos = record {
  number = length-replicate n _;
  phase = arriving_phase 0 refl (none n) pos (fresh n);
}
  where
    none : (k : ℕ) → 0 ≡ count waits (replicate k (record { place = outside; arrivals = 0 }))
    none zero = refl
    none (suc k) = omega (arith, none k)

    fresh : (k : ℕ) → AllAt Arriving 0 (replicate k (record { place = outside; arrivals = 0 }))
    fresh zero = tt
    fresh (suc k) = (refl, fresh k)

Reach-IsPhased : (n : ℕ) {sys : System} → 0 < n → n < 2 ^ 64 → Reach n sys → IsPhased n sys
Reach-IsPhased n pos small starts = start-IsPhased n pos
Reach-IsPhased n pos small (later reach step) =
    Step-IsPhased n small step (Reach-IsPhased n pos small reach)

-- The thread has passed the wait for leave of its last round, or has not begun a round.
abbrev pub HasPassed : Place → Type 0
HasPassed outside = Unit {0}
HasPassed setting_leave = ⊥
HasPassed waiting_leave = ⊥
HasPassed leaving = Unit {0}
HasPassed setting_enter = Unit {0}
HasPassed waiting_enter = Unit {0}

-- From what a place allows, all threads of a list have arrived at least `k` times.
All-arrivals :
    (P : Place → ℕ → Type 0) (k : ℕ) (ts : List Thread)
    → ((p : Place) (arrivals : ℕ) → P p arrivals → k ≤ arrivals)
    → All (λ t. P t.place t.arrivals) ts
    → All (λ t. k ≤ t.arrivals) ts
All-arrivals P k [] low h = tt
All-arrivals P k (t ∷ ts) low h = (low t.place t.arrivals h.0, All-arrivals P k ts low h.1)

Arriving-le : (r : ℕ) (p : Place) (arrivals : ℕ) → Arriving r p arrivals → r ≤ arrivals
Arriving-le r outside arrivals h = omega arith
Arriving-le r setting_leave arrivals h = elim h [ ]
Arriving-le r waiting_leave arrivals h = omega arith
Arriving-le r leaving arrivals h = elim h [ ]
Arriving-le r setting_enter arrivals h = elim h [ ]
Arriving-le r waiting_enter arrivals h = omega arith

Arriving-eq :
    (r : ℕ) (p : Place) (arrivals : ℕ) → Arriving r p arrivals → HasPassed p → arrivals ≡ r
Arriving-eq r outside arrivals h passed = h
Arriving-eq r setting_leave arrivals h passed = elim h [ ]
Arriving-eq r waiting_leave arrivals h passed = elim passed [ ]
Arriving-eq r leaving arrivals h passed = elim h [ ]
Arriving-eq r setting_enter arrivals h passed = elim h [ ]
Arriving-eq r waiting_enter arrivals h passed = h

Full-eq : (r : ℕ) (p : Place) (arrivals : ℕ) → Full r p arrivals → arrivals ≡ r + 1
Full-eq r outside arrivals h = elim h [ ]
Full-eq r setting_leave arrivals h = h
Full-eq r waiting_leave arrivals h = h
Full-eq r leaving arrivals h = elim h [ ]
Full-eq r setting_enter arrivals h = elim h [ ]
Full-eq r waiting_enter arrivals h = elim h [ ]

Leaving-eq : (r : ℕ) (p : Place) (arrivals : ℕ) → Leaving r p arrivals → arrivals ≡ r + 1
Leaving-eq r outside arrivals h = elim h [ ]
Leaving-eq r setting_leave arrivals h = elim h [ ]
Leaving-eq r waiting_leave arrivals h = h
Leaving-eq r leaving arrivals h = h
Leaving-eq r setting_enter arrivals h = elim h [ ]
Leaving-eq r waiting_enter arrivals h = h

Empty-eq : (r : ℕ) (p : Place) (arrivals : ℕ) → Empty r p arrivals → arrivals ≡ r + 1
Empty-eq r outside arrivals h = elim h [ ]
Empty-eq r setting_leave arrivals h = elim h [ ]
Empty-eq r waiting_leave arrivals h = elim h [ ]
Empty-eq r leaving arrivals h = elim h [ ]
Empty-eq r setting_enter arrivals h = h
Empty-eq r waiting_enter arrivals h = h

-- Where all threads have arrived equally often, none has arrived less often than another.
same-arrivals :
    (P : Place → ℕ → Type 0) (k : ℕ) (before : List Thread) (t : Thread) (after : List Thread)
    → ((p : Place) (arrivals : ℕ) → P p arrivals → arrivals ≡ k)
    → All (λ x. P x.place x.arrivals) (before ++ t ∷ after)
    → All (λ u. t.arrivals ≤ u.arrivals) (before ++ t ∷ after)
same-arrivals P k before t after same h =
    let mine =
      same t.place t.arrivals ((All-middle (λ x. P x.place x.arrivals) before t after h).1) in
    All-arrivals P t.arrivals (before ++ t ∷ after)
      (λ p arrivals held. omega (arith, mine, same p arrivals held)) h

Phase-order :
    (n : ℕ) (b : Barrier) (before : List Thread) (t : Thread) (after : List Thread)
    → Phase n b (before ++ t ∷ after)
    → HasPassed t.place
    → All (λ u. t.arrivals ≤ u.arrivals) (before ++ t ∷ after)
Phase-order n b before t after (arriving_phase r mode counted room h) passed =
    let mine =
      Arriving-eq r t.place t.arrivals
        ((All-middle (λ x. Arriving r x.place x.arrivals) before t after h).1) passed in
    All-arrivals (Arriving r) t.arrivals (before ++ t ∷ after)
      (λ p arrivals held. omega (arith, mine, Arriving-le r p arrivals held)) h
Phase-order n b before t after (full_phase r mode all one h) passed =
    same-arrivals (Full r) (r + 1) before t after (Full-eq r) h
Phase-order n b before t after (leaving_phase r mode counted some_left h) passed =
    same-arrivals (Leaving r) (r + 1) before t after (Leaving-eq r) h
Phase-order n b before t after (empty_phase r mode none one h) passed =
    same-arrivals (Empty r) (r + 1) before t after (Empty-eq r) h

-- With at least one thread and fewer than 2 ^ 64, in every state that the threads of a barrier can reach
-- by calling `sync` again and again: when a thread has passed the wait for leave of its k-th call, or
-- has left that call, every thread has begun its k-th call.
pub Reach-order :
    (n : ℕ) (b : Barrier) (before : List Thread) (t : Thread) (after : List Thread)
    → 0 < n
    → n < 2 ^ 64
    → Reach n (record { barrier = b; threads = before ++ t ∷ after })
    → HasPassed t.place
    → All (λ u. t.arrivals ≤ u.arrivals) (before ++ t ∷ after)
Reach-order n b before t after pos small reach passed =
    Phase-order n b before t after (Reach-IsPhased n pos small reach).phase passed

-- ===== src/Election/Leaders.antt =====
-- Each round has exactly one leader.
use concurrent_project.Prelude.{
  not, ℕ, zero, suc, ◌+◌, ◌≤◌, ◌<◌, ◌≡◌, ◌≢◌, refl, Bool, true, List, [], ◌∷◌, ◌++◌, ◌==◌,
  if◌then◌else◌, arith, All, All-middle, All-fill, Bool-cases, inl, inr, length, length-append,
}
use concurrent_project.Heap.{update}
use concurrent_project.Election.{
  Shared, Place, electing, counting, Thread, elect, System, threads_from, start, Reach, starts,
  goes, check,
}

abbrev pub one_if : Bool → ℕ
one_if b = if b then 1 else 0

-- One for a thread that is to count itself as the leader of round `r`.
abbrev pub leads : ℕ → Place → ℕ → ℕ
leads r electing at = 0
leads r counting at = one_if (at == r)

abbrev pub leading : ℕ → List Thread → ℕ
leading r [] = 0
leading r (t ∷ ts) = leads r t.place t.r + leading r ts

leading-append : (r : ℕ) (xs ys : List Thread) → leading r (xs ++ ys) ≡ leading r xs + leading r ys
leading-append r [] ys = omega arith
leading-append r (x ∷ xs) ys = omega (arith, leading-append r xs ys)

-- One for a round that has a leader.
abbrev pub led : ℕ → ℕ
led leader = one_if (not (leader == 0))

-- A thread has a number above 0 and is in a round up to the last; every round before it has a leader,
-- and the one that it counts itself for.
abbrev pub Knows : ℕ → Shared → ℕ → Place → ℕ → Type 0
Knows runs s tid electing at = (0 < tid) × (at ≤ runs) × ((r : ℕ) → r < at → s.leader r ≢ 0)
Knows runs s tid counting at = (0 < tid) × (at < runs) × ((r : ℕ) → r < at + 1 → s.leader r ≢ 0)

pub record IsElected (runs : ℕ) (sys : System) : Type 0 where
  pub counted :
      (r : ℕ) → sys.shared.nb_leaders r + leading r sys.threads ≡ led (sys.shared.leader r)
  pub knows : All (λ t. Knows runs sys.shared t.tid t.place t.r) sys.threads

-- Leaders stay.
Knows-later :
    (runs : ℕ) (s s' : Shared) (ts : List Thread)
    → ((r : ℕ) → s.leader r ≢ 0 → s'.leader r ≢ 0)
    → All (λ t. Knows runs s t.tid t.place t.r) ts
    → All (λ t. Knows runs s' t.tid t.place t.r) ts
Knows-later runs s s' [] stay h = tt
Knows-later runs s s' (t ∷ ts) stay h = (one t.place t.r h.0, Knows-later runs s s' ts stay h.1)
  where
    one : (p : Place) (at : ℕ) → Knows runs s t.tid p at → Knows runs s' t.tid p at
    one electing at k = (k.0, k.1, λ r lt. stay r (k.2 r lt))
    one counting at k = (k.0, k.1, λ r lt. stay r (k.2 r lt))

elect-IsElected :
    (runs : ℕ) (before : List Thread) (tid : ℕ) (place : Place) (at : ℕ) (after : List Thread)
    (s : Shared)
    → let t : Thread = record { tid = tid; place = place; r = at } in
      IsElected runs (record { shared = s; threads = before ++ t ∷ after })
      → IsElected runs
          (record { shared = (elect runs t s).1; threads = before ++ (elect runs t s).0 ∷ after })
unfolding elect
elect-IsElected runs before tid electing at after s e =
    let t : Thread = record { tid = tid; place = electing; r = at } in
    let (hb, ht, ha) = All-middle (λ x. Knows runs s x.tid x.place x.r) before t after e.knows in
    elim (Bool-cases (at == runs)) [
      | inl ended ↦ rw (ended, elect) e
      | inr going ↦ elim (Bool-cases (s.leader at == 0)) [
        | inl free ↦
            let t' : Thread = record { tid = tid; place = counting; r = at } in
            let s' : Shared = record s { leader = update s.leader at tid } in
            let stay : (r : ℕ) → s.leader r ≢ 0 → s'.leader r ≢ 0 =
              λ r h. ground (arith, h, ht.0) in
            rw (going, free, elect)
              (record {
                counted = λ r. ground (
                  arith,
                  free,
                  ht.0,
                  e.counted r,
                  leading-append r before (t ∷ after),
                  leading-append r before (t' ∷ after),
                );
                knows =
                    All-fill (λ x. Knows runs s' x.tid x.place x.r) before t' after
                      (Knows-later runs s s' before stay hb)
                      (ht.0, ground (arith, going, ht.1), λ r lt. ground (arith, ht.0, ht.2 r, lt))
                      (Knows-later runs s s' after stay ha);
              })
        | inr taken ↦
            let t' : Thread = record { tid = tid; place = electing; r = at + 1 } in
            rw (going, taken, elect)
              (record {
                counted = λ r. omega (
                  arith,
                  e.counted r,
                  leading-append r before (t ∷ after),
                  leading-append r before (t' ∷ after),
                );
                knows =
                    All-fill (λ x. Knows runs s x.tid x.place x.r) before t' after hb
                      (ht.0, ground (arith, going, ht.1), λ r lt. ground (arith, taken, ht.2 r, lt))
                      ha;
              })
      ]
    ]
elect-IsElected runs before tid counting at after s e =
    let t : Thread = record { tid = tid; place = counting; r = at } in
    let t' : Thread = record { tid = tid; place = electing; r = at + 1 } in
    let s' : Shared = record s { nb_leaders = update s.nb_leaders at (s.nb_leaders at + 1) } in
    let (hb, ht, ha) = All-middle (λ x. Knows runs s x.tid x.place x.r) before t after e.knows in
    record {
      counted = λ r. ground (
        arith,
        e.counted r,
        leading-append r before (t ∷ after),
        leading-append r before (t' ∷ after),
      );
      knows =
          All-fill (λ x. Knows runs s' x.tid x.place x.r) before t' after
            (Knows-later runs s s' before (λ r h. h) hb) (ht.0, omega (arith, ht.1), ht.2)
            (Knows-later runs s s' after (λ r h. h) ha);
    }

threads_from-Knows :
    (runs nbthreads tid n : ℕ)
    → 0 < tid
    → All (λ t. Knows runs (start nbthreads).shared t.tid t.place t.r) (threads_from tid n)
threads_from-Knows runs nbthreads tid zero positive = tt
threads_from-Knows runs nbthreads tid (suc n) positive = (
  (positive, omega arith, λ r lt. absurd (omega (arith, lt))),
  threads_from-Knows runs nbthreads (tid + 1) n (omega (arith, positive)),
)

threads_from-leading : (r tid n : ℕ) → leading r (threads_from tid n) ≡ 0
threads_from-leading r tid zero = refl
threads_from-leading r tid (suc n) = omega (arith, threads_from-leading r (tid + 1) n)

pub Reach-IsElected :
    (nbthreads runs : ℕ) (sys : System) → Reach nbthreads runs sys → IsElected runs sys
Reach-IsElected nbthreads runs sys starts = record {
  counted = λ r. omega (arith, threads_from-leading r 1 nbthreads);
  knows = threads_from-Knows runs nbthreads 1 nbthreads (omega arith);
}
Reach-IsElected nbthreads runs sys (goes {s} before t after reach) =
    elect-IsElected runs before t.tid t.place t.r after s (Reach-IsElected nbthreads runs _ reach)

threads_from-length : (tid n : ℕ) → length (threads_from tid n) ≡ n
threads_from-length tid zero = refl
threads_from-length tid (suc n) = omega (arith, threads_from-length (tid + 1) n)

Reach-length :
    (nbthreads runs : ℕ) (sys : System) → Reach nbthreads runs sys → length sys.threads ≡ nbthreads
Reach-length nbthreads runs sys starts = threads_from-length 1 nbthreads
Reach-length nbthreads runs sys (goes {s} before t after reach) = omega (
  arith,
  Reach-length nbthreads runs _ reach,
  length-append before (t ∷ after),
  length-append before ((elect runs t s).0 ∷ after),
)

-- A thread that has left the loop.
abbrev pub IsEnded : ℕ → Thread → Type 0
IsEnded runs t = (t.place ≡ electing) × (t.r ≡ runs)

ended-leading :
    (runs r : ℕ) (ts : List Thread) → r < runs → All (IsEnded runs) ts → leading r ts ≡ 0
ended-leading runs r [] lt h = refl
ended-leading runs r (t ∷ ts) lt h =
    omega (arith, one t.place h.0.0, ended-leading runs r ts lt h.1)
  where
    one : (p : Place) → p ≡ electing → leads r p t.r ≡ 0
    one electing e = refl
    one counting e = absurd (cc)

-- A thread that has left the loop knows a leader of each round.
ended-leader :
    (runs : ℕ) (s : Shared) (ts : List Thread)
    → 0 < length ts
    → All (λ t. Knows runs s t.tid t.place t.r) ts
    → All (IsEnded runs) ts
    → (r : ℕ) → r < runs
    → s.leader r ≢ 0
ended-leader runs s [] some_thread knows ended r lt = absurd (omega (arith, some_thread))
ended-leader runs s (t ∷ ts) some_thread knows ended r lt = one t.place knows.0 ended.0.0
  where
    one : (p : Place) → Knows runs s t.tid p t.r → p ≡ electing → s.leader r ≢ 0
    one electing k e = k.2 r (omega (arith, lt, ended.0.1))
    one counting k e = absurd (cc)

check-all :
    (left r : ℕ) (s : Shared)
    → ((i : ℕ) → i < r + left → s.nb_leaders i ≡ 1)
    → check left r s ≡ r + left
unfolding check
check-all zero r s one = omega arith
check-all (suc left) r s one =
    let found : (s.nb_leaders r == 1) ≡ true = ground (arith, one r (omega arith)) in
    rw (found, check) (omega (arith, check-all left (r + 1) s (λ i lt. one i (omega (arith, lt)))))

led_le_one : (leader : ℕ) → led leader ≤ 1
led_le_one leader = ground arith

-- Whatever the order of the accesses, with at least one thread: no round ever has counted more than one
-- leader; and once all threads have left the loop, each round has exactly one, so the loop of `main` gets to
-- its end.
pub Reach-check :
    (nbthreads runs : ℕ)
    → 0 < nbthreads
    → (sys : System) → Reach nbthreads runs sys
    → ((r : ℕ) → sys.shared.nb_leaders r ≤ 1)
      × (All (IsEnded runs) sys.threads → check runs 0 sys.shared ≡ runs)
Reach-check nbthreads runs some_thread sys reach =
    let e = Reach-IsElected nbthreads runs sys reach in
    let filled : 0 < length sys.threads =
      omega (arith, some_thread, Reach-length nbthreads runs sys reach) in
    (
      λ r. omega (arith, e.counted r, led_le_one (sys.shared.leader r)),
      λ ended. omega (
        arith,
        check-all runs 0 sys.shared (λ r below.
            let lt : r < runs = omega (arith, below) in
            ground (
              arith,
              e.counted r,
              ended-leading runs r sys.threads lt ended,
              ended-leader runs sys.shared sys.threads filled e.knows ended r lt,
            )),
      ),
    )

-- ===== src/Election/Ends.antt =====
-- The loops of the threads come to their end.
use concurrent_project.Prelude.{
  ℕ, zero, suc, ◌+◌, ◌-◌, ◌*◌, ◌≤◌, ◌<◌, ◌≡◌, ◌≢◌, false, List, [], ◌∷◌, ◌++◌, ◌==◌, arith,
  All-middle, Bool-cases, ◌⊎◌, inl, inr,
}
use concurrent_project.Election.{
  Shared, Place, electing, counting, Thread, elect, System, threads_from, start, Reach, starts,
  goes,
}
use concurrent_project.Election.Leaders.{Knows, Reach-IsElected}

-- Runs of a number of accesses, each by a thread that has not left the loop.
pub data Takes (nbthreads runs : ℕ) : ℕ → System → Type 0 where
  starting : Takes nbthreads runs 0 (start nbthreads)
  taking :
      {n : ℕ} {s : Shared}
      → (before : List Thread) → (t : Thread) → (after : List Thread)
      → (t.place ≡ counting) ⊎ (t.r ≢ runs)
      → Takes nbthreads runs n (record { shared = s; threads = before ++ t ∷ after })
      → Takes nbthreads runs
          (n + 1)
          (record { shared = (elect runs t s).1; threads = before ++ (elect runs t s).0 ∷ after })

Takes-Reach :
    (nbthreads runs n : ℕ) (sys : System) → Takes nbthreads runs n sys → Reach nbthreads runs sys
Takes-Reach nbthreads runs n sys starting = starts
Takes-Reach nbthreads runs n sys (taking {n = k} before t after inside takes) =
    goes before t after (Takes-Reach nbthreads runs k _ takes)

-- The accesses that a thread may still make.
abbrev pub left : (runs : ℕ) → Place → (r : ℕ) → ℕ
left runs electing r = 2 * (runs - r)
left runs counting r = 2 * (runs - r) - 1

abbrev pub lefts : (runs : ℕ) → List Thread → ℕ
lefts runs [] = 0
lefts runs (t ∷ ts) = left runs t.place t.r + lefts runs ts

lefts-append :
    (runs : ℕ) (xs ys : List Thread) → lefts runs (xs ++ ys) ≡ lefts runs xs + lefts runs ys
lefts-append runs [] ys = omega arith
lefts-append runs (x ∷ xs) ys = omega (arith, lefts-append runs xs ys)

lefts-threads_from : (runs tid n : ℕ) → lefts runs (threads_from tid n) ≡ 2 * runs * n
lefts-threads_from runs tid zero = omega arith
lefts-threads_from runs tid (suc n) = omega (arith, lefts-threads_from runs (tid + 1) n)

-- An access inside the loop uses one up.
elect-left :
    (runs tid : ℕ) (place : Place) (r : ℕ) (s : Shared)
    → let t : Thread = record { tid = tid; place = place; r = r } in
      Knows runs s tid place r
      → (place ≡ counting) ⊎ (r ≢ runs)
      → left runs (elect runs t s).0.place (elect runs t s).0.r < left runs place r
unfolding elect
elect-left runs tid electing r s knows (inl e) = absurd (cc)
elect-left runs tid electing r s knows (inr inside) =
    let going : (r == runs) ≡ false = ground (arith, inside) in
    elim (Bool-cases (s.leader r == 0)) [
      | inl free ↦ rw (going, free, elect) (omega (arith, knows.1, inside))
      | inr taken ↦ rw (going, taken, elect) (omega (arith, knows.1, inside))
    ]
elect-left runs tid counting r s knows inside = omega (arith, knows.1)

-- Whatever the order of the accesses: threads that are still in their loops make at most two accesses for each
-- thread and each round, so that all of them come to the end.
pub Takes-bounded :
    (nbthreads runs n : ℕ) (sys : System)
    → Takes nbthreads runs n sys
    → n + lefts runs sys.threads ≤ 2 * runs * nbthreads
Takes-bounded nbthreads runs n sys starting = omega (arith, lefts-threads_from runs 1 nbthreads)
Takes-bounded nbthreads runs n sys (taking {n = k} {s = s} before t after inside takes) =
    let e = Reach-IsElected nbthreads runs _ (Takes-Reach nbthreads runs k _ takes) in
    let (hb, ht, ha) = All-middle (λ x. Knows runs s x.tid x.place x.r) before t after e.knows in
    omega (
      arith,
      Takes-bounded nbthreads runs k _ takes,
      elect-left runs t.tid t.place t.r s ht inside,
      lefts-append runs before (t ∷ after),
      lefts-append runs before ((elect runs t s).0 ∷ after),
    )

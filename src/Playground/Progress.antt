-- ===== src/Playground/Progress.antt =====
-- The threads never block each other for good.
use mathlib.Core.Path.{subst}
use concurrent_project.Prelude.{
  ℕ, zero, suc, ◌+◌, ◌-◌, ◌*◌, ◌<◌, ◌≡◌, refl, ◌⊎◌, inl, inr, false, List, [], ◌∷◌, ◌++◌, ◌==◌,
  arith, All, Bool-cases, ap, sym,
}
use concurrent_project.Playground.{
  Place, locking, accessing, adding, checking, unlocking, Thread, Shared, next, System, Step, goes,
  Reach, later,
}
use concurrent_project.Playground.Counting.{inside, HasLeft, sum, sum-append, insides, flagged}
use concurrent_project.Playground.Schedule.{Reach-Counts, IsEnded}

-- The number of statements that a thread has before it, when it waits for nobody.
abbrev pub work : Place → (left : ℕ) → ℕ
work locking left = 5 * left
work accessing left = 5 * left - 1
work (adding loaded) left = 5 * left - 2
work checking left = 5 * left - 3
work unlocking left = 5 * left + 1

abbrev pub work_of : Thread → ℕ
work_of t = work t.place t.left

-- A thread that has the lock, or finds it free, has ended or gets on.
next-work :
    (place : Place) (left : ℕ) (s : Shared)
    → HasLeft left place
    → (s.flag ≡ false) ⊎ (0 < inside place)
    → let t : Thread = record { place = place; left = left } in
      IsEnded t ⊎ (work_of (next t s).0 < work_of t)
unfolding next
next-work locking left s h (inl free) = elim (Bool-cases (left == 0)) [
  | inl ended ↦ inl (refl, ground (arith, ended))
  | inr going ↦ inr (rw (going, free, next) (ground (arith, going)))
]
next-work locking left s h (inr here) = absurd (omega arith)
next-work accessing left s h r = inr (omega (arith, h))
next-work (adding loaded) left s h r = inr (omega (arith, h))
next-work checking left s h r = inr (omega (arith, h))
next-work unlocking left s h r = inr (omega arith)

-- One of the threads gets on.
abbrev GetsOn : Shared → List Thread → Type 0
GetsOn s ts =
    (before : List Thread) × (t : Thread) × (after : List Thread) × (ts ≡ before ++ t ∷ after)
    × (work_of (next t s).0 < work_of t)

GetsOn-cons : (s : Shared) (x : Thread) (ts : List Thread) → GetsOn s ts → GetsOn s (x ∷ ts)
GetsOn-cons s x ts (before, t, after, e, less) = (x ∷ before, t, after, ap (λ l. x ∷ l) e, less)

search-free :
    (s : Shared) (ts : List Thread)
    → s.flag ≡ false
    → All (λ t. HasLeft t.left t.place) ts
    → All IsEnded ts ⊎ GetsOn s ts
search-free s [] free h = inl tt
search-free s (t ∷ ts) free h = elim (next-work t.place t.left s h.0 (inl free)) [
  | inr less ↦ inr ([], t, ts, refl, less)
  | inl ended ↦ elim (search-free s ts free h.1) [
    | inl all ↦ inl (ended, all)
    | inr on ↦ inr (GetsOn-cons s t ts on)
  ]
]

search-holder :
    (s : Shared) (ts : List Thread)
    → 0 < insides ts
    → All (λ t. HasLeft t.left t.place) ts
    → GetsOn s ts
search-holder s [] some_in h = absurd (omega arith)
search-holder s (t ∷ ts) some_in h = elim (Bool-cases (inside t.place == 0)) [
  | inl out ↦ GetsOn-cons s t ts (search-holder s ts (ground (arith, out)) h.1)
  | inr here ↦
      let has_lock : 0 < inside t.place = ground (arith, here) in
      elim (next-work t.place t.left s h.0 (inr has_lock)) [
        | inr less ↦ ([], t, ts, refl, less)
        | inl ended ↦ absurd (omega (arith, ap inside ended.0, has_lock))
      ]
]

Reach-GetsOn :
    (nbworkers repeats : ℕ) (sys : System)
    → Reach nbworkers repeats sys
    → All IsEnded sys.threads ⊎ GetsOn sys.shared sys.threads
Reach-GetsOn nbworkers repeats sys reach =
    let c = Reach-Counts nbworkers repeats reach in
    elim (Bool-cases sys.shared.flag) [
      | inl taken ↦ inr (
          search-holder sys.shared sys.threads (omega (arith, c.lock, ap flagged taken)) c.has_left)
      | inr free ↦ search-free sys.shared sys.threads free c.has_left
    ]

-- Any number of steps.
pub data Steps : System → System → Type 0 where
  done : {sys : System} → Steps sys sys
  more : {sys middle sys' : System} → Step sys middle → Steps middle sys' → Steps sys sys'

-- A state from which the threads can all end.
abbrev pub CanEnd : System → Type 0
CanEnd sys = (sys' : System) × Steps sys sys' × All IsEnded sys'.threads

-- The system after a step of `t`.
abbrev after_step : Shared → (before : List Thread) → Thread → (after : List Thread) → System
after_step s before t after = record {
  shared = (next t s).1;
  threads = before ++ (next t s).0 ∷ after;
}

step_of :
    (sys : System) (before : List Thread) (t : Thread) (after : List Thread)
    → sys.threads ≡ before ++ t ∷ after
    → Step sys (after_step sys.shared before t after)
step_of sys before t after e =
    subst
      (λ l.
        Step (record { shared = sys.shared; threads = l }) (after_step sys.shared before t after))
      (sym e) (goes before t after)

less-work :
    (sys : System) (before : List Thread) (t : Thread) (after : List Thread)
    → sys.threads ≡ before ++ t ∷ after
    → work_of (next t sys.shared).0 < work_of t
    → sum work_of (after_step sys.shared before t after).threads < sum work_of sys.threads
less-work sys before t after e less = omega (
  arith,
  less,
  ap (sum work_of) e,
  sum-append work_of before (t ∷ after),
  sum-append work_of before ((next t sys.shared).0 ∷ after),
)

ends-within :
    (nbworkers repeats fuel : ℕ) (sys : System)
    → sum work_of sys.threads < fuel
    → Reach nbworkers repeats sys
    → CanEnd sys
ends-within nbworkers repeats zero sys small reach = absurd (omega arith)
ends-within nbworkers repeats (suc fuel) sys small reach =
    elim (Reach-GetsOn nbworkers repeats sys reach) [
      | inl ended ↦ (sys, done, ended)
      | inr (before, t, after, e, less) ↦
          let step = step_of sys before t after e in
          let (sys', steps, ended) =
            ends-within nbworkers repeats fuel (after_step sys.shared before t after)
              (omega (arith, small, less-work sys before t after e less)) (later reach step) in
          (sys', more step steps, ended)
    ]

-- Whatever the threads have done so far, they can all end: from every state that they can reach there
-- are steps to one in which all of them have ended.
pub Reach-CanEnd : (nbworkers repeats : ℕ) (sys : System) → Reach nbworkers repeats sys → CanEnd sys
Reach-CanEnd nbworkers repeats sys reach =
    ends-within nbworkers repeats (suc (sum work_of sys.threads)) sys (omega arith) reach

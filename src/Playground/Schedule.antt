-- ===== src/Playground/Schedule.antt =====
-- No increment of the counter is lost.
use concurrent_project.Prelude.{
  All-middle, ap, inl, inr, Bool-cases, ℕ, zero, suc, ◌+◌, ◌*◌, ◌%◌, ◌^◌, ◌≤◌, ◌≡◌, refl, true,
  List, [], ◌∷◌, ◌++◌, ◌==◌, replicate, arith, All,
}
use concurrent_project.Playground.Counting.{
  inside, ahead, Agrees, HasLeft, sum-append, insides, aheads, lefts, flagged, Counts, flagged-le,
  moved,
}
use concurrent_project.Playground.{
  compare_exchange, compare_exchange, Place, locking, accessing, adding, checking, unlocking,
  Thread, Shared, next, System, start, Step, goes, Reach, starts, later, shared_check,
}

place-middle :
    (total : ℕ) (before after : List Thread) (t : Thread) (s : Shared)
    → Counts total s (before ++ t ∷ after)
    → Agrees s.counter t.place × HasLeft t.left t.place
place-middle total before after t s c = (
  (All-middle (λ x. Agrees s.counter x.place) before t after c.loaded).1,
  (All-middle (λ x. HasLeft x.left x.place) before t after c.has_left).1,
)

next-Counts :
    (total : ℕ) (before after : List Thread) (place : Place) (left : ℕ) (s : Shared)
    → let t : Thread = record { place = place; left = left } in
      Counts total s (before ++ t ∷ after)
      → Counts total (next t s).1 (before ++ (next t s).0 ∷ after)
unfolding next
next-Counts total before after locking left s c = elim (Bool-cases (left == 0)) [
  | inl ended ↦ rw (ended, next) c
  | inr going ↦ elim (Bool-cases s.flag) [
    | inl taken ↦ rw (going, ap compare_exchange taken, next) c
    | inr free ↦
        rw (going, ap compare_exchange free, next)
          (moved total before after _ (record { place = accessing; left = left }) s
            (record s { flag = true }) c (ap (λ b. 1 + flagged b) free) (λ o h. h) c.small
            (inl refl) tt (ground arith) (λ o h. h))
  ]
]
next-Counts total before after accessing left s c =
    let known = place-middle total before after (record { place = accessing; left = left }) s c in
    moved total before after _ (record { place = adding s.counter; left = left }) s s c refl
      (λ o h. h) c.small (inl refl) refl known.1 (λ o h. h)
next-Counts total before after (adding loaded) left s c =
    let t : Thread = record { place = adding loaded; left = left } in
    let known = place-middle total before after t s c in
    moved total before after t _ s _ c refl (λ o h. omega (arith, h, known.0)) c.small (inr refl) tt
      known.1 (λ o h. h)
next-Counts total before after checking left s c =
    let t : Thread = record { place = checking; left = left } in
    let known = place-middle total before after t s c in
    moved total before after t _ s _ c refl (λ o h. omega (arith, h)) (omega arith) (inl refl) tt tt
      (λ o h. omega (arith, h, known.1))
next-Counts total before after unlocking left s c =
    let t : Thread = record { place = unlocking; left = left } in
    moved total before after t _ s _ c
      (omega
        (arith, c.lock, flagged-le s.flag, sum-append (λ x. inside x.place) before (t ∷ after)))
      (λ o h. h) c.small (inl refl) tt tt (λ o h. h)

Step-Counts :
    (total : ℕ) {sys sys' : System}
    → Step sys sys'
    → Counts total sys.shared sys.threads
    → Counts total sys'.shared sys'.threads
Step-Counts total (goes {s} before t after) c = next-Counts total before after t.place t.left s c

start-Counts :
    (nbworkers repeats : ℕ)
    → Counts
        (nbworkers * repeats)
        (start nbworkers repeats).shared
        (start nbworkers repeats).threads
start-Counts nbworkers repeats = record {
  lock = none nbworkers;
  counter = ground (arith, none_ahead nbworkers);
  small = omega arith;
  loaded = all_agree nbworkers;
  has_left = all_left nbworkers;
  sums = ground (arith, all_rounds nbworkers);
}
  where
    fresh : Thread
    fresh = record { place = locking; left = repeats }

    none : (n : ℕ) → insides (replicate n fresh) ≡ 0
    none zero = refl
    none (suc n) = omega (arith, none n)

    none_ahead : (n : ℕ) → aheads (replicate n fresh) ≡ 0
    none_ahead zero = refl
    none_ahead (suc n) = omega (arith, none_ahead n)

    all_agree : (n : ℕ) → All (λ t. Agrees 0 t.place) (replicate n fresh)
    all_agree zero = tt
    all_agree (suc n) = (tt, all_agree n)

    all_left : (n : ℕ) → All (λ t. HasLeft t.left t.place) (replicate n fresh)
    all_left zero = tt
    all_left (suc n) = (tt, all_left n)

    all_rounds : (n : ℕ) → lefts (replicate n fresh) ≡ n * repeats
    all_rounds zero = omega arith
    all_rounds (suc n) = omega (arith, all_rounds n)

pub Reach-Counts :
    (nbworkers repeats : ℕ) {sys : System}
    → Reach nbworkers repeats sys
    → Counts (nbworkers * repeats) sys.shared sys.threads
Reach-Counts nbworkers repeats starts = start-Counts nbworkers repeats
Reach-Counts nbworkers repeats (later reach step) =
    Step-Counts (nbworkers * repeats) step (Reach-Counts nbworkers repeats reach)

-- In every state that the threads can reach, at most one of them has the lock.
pub Reach-IsExclusive :
    (nbworkers repeats : ℕ) {sys : System} → Reach nbworkers repeats sys → insides sys.threads ≤ 1
Reach-IsExclusive nbworkers repeats {sys = sys} reach =
    omega (arith, (Reach-Counts nbworkers repeats reach).lock, flagged-le sys.shared.flag)

-- A thread that has ended: it waits for nothing and has no round left.
abbrev pub IsEnded : Thread → Type 0
IsEnded t = (t.place ≡ locking) × (t.left ≡ 0)

ended-sums : (ts : List Thread) → All IsEnded ts → (aheads ts ≡ 0) × (lefts ts ≡ 0)
ended-sums [] h = (refl, refl)
ended-sums (t ∷ ts) h =
    let rest = ended-sums ts h.1 in
    (omega (arith, ap ahead (h.0).0, rest.0), omega (arith, (h.0).1, rest.1))

-- However the threads have been scheduled, once all of them have ended the check finds no inconsistency
-- and the counter is the number of all their rounds, in 32 bits.
pub Reach-shared_check :
    (nbworkers repeats : ℕ) {sys : System}
    → Reach nbworkers repeats sys
    → All IsEnded sys.threads
    → (shared_check sys.shared ≡ true) × (sys.shared.counter ≡ nbworkers * repeats % 2 ^ 32)
unfolding shared_check
Reach-shared_check nbworkers repeats {sys = sys} reach ended =
    let c = Reach-Counts nbworkers repeats reach in
    let sums = ended-sums sys.threads ended in
    let same : sys.shared.counter ≡ sys.shared.check_counter =
      omega (arith, c.counter, c.small, sums.0) in
    (ground (arith, same), omega (arith, same, c.sums, c.small, sums.1))

-- ===== src/Bank/Countdown.antt =====
-- grading/workload.hpp: the loop of `check`, in which the threads of all workers count one number down, each
-- transaction in one step, between two barriers; and the checks before and after it.
use concurrent_project.Prelude.{
  ℕ, zero, suc, ◌+◌, ◌-◌, ◌*◌, ◌%◌, ◌^◌, ◌≤◌, ◌<◌, ◌≡◌, ◌≢◌, refl, Bool, true, false, List, [], ◌∷◌,
  ◌++◌, ltb, ◌==◌, if◌then◌else◌, arith, All, All-middle, All-fill, replicate, Bool-cases, inl, inr,
}
use concurrent_project.Bank.{sub64}

-- Before its read-only transaction; before its read-write one, with what it has read; or it has found the
-- number increased.
pub data Place : Type 0 where
  reading : Place
  decreasing : (last : ℕ) → Place
  violated : Place

pub record Thread : Type 0 where
  pub place : Place
  pub left : ℕ

abbrev pub nbtxperwrk : ℕ
nbtxperwrk = 100

-- The next transaction of a thread, on the counter.
unfoldable pub next : Thread → (counter : ℕ) → Thread × ℕ
next t counter = elim t.place [
  | reading ↦ (record t { place = if t.left == 0 then reading else decreasing counter }, counter)
  | decreasing last ↦ (
    record {
      place = if ltb last counter then violated else reading;
      left = if ltb last counter then t.left else t.left - 1;
    },
    if ltb last counter then counter else sub64 counter 1,
  )
  | violated ↦ (t, counter)
]

-- The number that the first thread writes.
unfoldable pub init_counter : (nbworkers : ℕ) → ℕ
init_counter nbworkers = nbtxperwrk * nbworkers % 2 ^ 64

-- The last transaction, of the first thread.
unfoldable pub reached_zero : (counter : ℕ) → Bool
reached_zero counter = counter == 0

pub record System : Type 0 where
  pub counter : ℕ
  pub threads : List Thread

abbrev pub start : (nbworkers : ℕ) → System
unfolding init_counter
start nbworkers = record {
  counter = init_counter nbworkers;
  threads = replicate nbworkers (record { place = reading; left = nbtxperwrk });
}

pub data Reach (nbworkers : ℕ) : System → Type 0 where
  starts : Reach nbworkers (start nbworkers)
  goes :
      {counter : ℕ}
      → (before : List Thread) → (t : Thread) → (after : List Thread)
      → Reach nbworkers (record { counter = counter; threads = before ++ t ∷ after })
      → Reach nbworkers
          (record { counter = (next t counter).1; threads = before ++ (next t counter).0 ∷ after })

abbrev pub lefts : List Thread → ℕ
lefts [] = 0
lefts (t ∷ ts) = t.left + lefts ts

lefts-append : (xs ys : List Thread) → lefts (xs ++ ys) ≡ lefts xs + lefts ys
lefts-append [] ys = omega arith
lefts-append (x ∷ xs) ys = omega (arith, lefts-append xs ys)

-- What a thread has read is not below the counter, and it has a transaction left; none is violated.
abbrev pub Fits : ℕ → Place → ℕ → Type 0
Fits counter reading left = Unit {0}
Fits counter (decreasing last) left = (counter ≤ last) × (0 < left)
Fits counter violated left = ⊥

Fits-lower :
    (counter counter' : ℕ) (ts : List Thread)
    → counter' ≤ counter
    → All (λ t. Fits counter t.place t.left) ts
    → All (λ t. Fits counter' t.place t.left) ts
Fits-lower counter counter' [] h fits = tt
Fits-lower counter counter' (t ∷ ts) h fits =
    (one t.place t.left fits.0, Fits-lower counter counter' ts h fits.1)
  where
    one : (p : Place) (left : ℕ) → Fits counter p left → Fits counter' p left
    one reading left f = tt
    one (decreasing last) left f = (omega (arith, h, f.0), f.1)
    one violated left f = f

-- The counter is what the threads have left.
pub record IsCounted (sys : System) : Type 0 where
  pub counted : sys.counter ≡ lefts sys.threads
  pub small : sys.counter < 2 ^ 64
  pub fits : All (λ t. Fits sys.counter t.place t.left) sys.threads

next-IsCounted :
    (before : List Thread) (place : Place) (left : ℕ) (after : List Thread) (counter : ℕ)
    → let t : Thread = record { place = place; left = left } in
      IsCounted (record { counter = counter; threads = before ++ t ∷ after })
      → IsCounted
          (record { counter = (next t counter).1; threads = before ++ (next t counter).0 ∷ after })
unfolding next
next-IsCounted before reading left after counter c =
    let t : Thread = record { place = reading; left = left } in
    let (hb, ht, ha) = All-middle (λ x. Fits counter x.place x.left) before t after c.fits in
    elim (Bool-cases (left == 0)) [
      | inl ended ↦ rw (ended, next) c
      | inr going ↦
          let t' : Thread = record { place = decreasing counter; left = left } in
          rw (going, next)
            (record {
              counted = omega (
                arith,
                c.counted,
                lefts-append before (t ∷ after),
                lefts-append before (t' ∷ after),
              );
              small = c.small;
              fits =
                  All-fill (λ x. Fits counter x.place x.left) before t' after hb
                    (omega arith, ground (arith, going)) ha;
            })
    ]
next-IsCounted before (decreasing last) left after counter c =
    let t : Thread = record { place = decreasing last; left = left } in
    let t' : Thread = record { place = reading; left = left - 1 } in
    let (hb, ht, ha) = All-middle (λ x. Fits counter x.place x.left) before t after c.fits in
    let fine : ltb last counter ≡ false = ground (arith, ht.0) in
    let down : sub64 counter 1 + 1 ≡ counter =
      omega (arith, c.counted, c.small, ht.1, lefts-append before (t ∷ after)) in
    rw (fine, next)
      (record {
        counted = omega (
          arith,
          c.counted,
          down,
          ht.1,
          lefts-append before (t ∷ after),
          lefts-append before (t' ∷ after),
        );
        small = omega (arith, c.small, down);
        fits =
            let le : sub64 counter 1 ≤ counter = omega (arith, down) in
            All-fill (λ x. Fits (sub64 counter 1) x.place x.left) before t' after
              (Fits-lower counter (sub64 counter 1) before le hb) tt
              (Fits-lower counter (sub64 counter 1) after le ha);
      })
next-IsCounted before violated left after counter c =
    elim ((All-middle (λ t. Fits counter t.place t.left) before _ after c.fits).1) [ ]

start-IsCounted : (nbworkers : ℕ) → nbtxperwrk * nbworkers < 2 ^ 64 → IsCounted (start nbworkers)
unfolding init_counter
start-IsCounted nbworkers small = record {
  counted = omega (arith, small, all nbworkers);
  small = omega arith;
  fits = fresh nbworkers;
}
  where
    all :
        (n : ℕ)
        → lefts (replicate n (record { place = reading; left = nbtxperwrk })) ≡ nbtxperwrk * n
    all zero = refl
    all (suc n) = omega (arith, all n)

    fresh :
        (n : ℕ)
        → All
            (λ (t : Thread). Fits (start nbworkers).counter t.place t.left)
            (replicate n (record { place = reading; left = nbtxperwrk }))
    fresh zero = tt
    fresh (suc n) = (tt, fresh n)

Reach-IsCounted :
    (nbworkers : ℕ)
    → nbtxperwrk * nbworkers < 2 ^ 64
    → (sys : System) → Reach nbworkers sys
    → IsCounted sys
Reach-IsCounted nbworkers small sys starts = start-IsCounted nbworkers small
Reach-IsCounted nbworkers small sys (goes {counter} before t after reach) =
    next-IsCounted before t.place t.left after counter (Reach-IsCounted nbworkers small _ reach)

-- A thread whose loop is over.
abbrev pub IsEnded : Thread → Type 0
IsEnded t = (t.place ≡ reading) × (t.left ≡ 0)

ended-lefts : (ts : List Thread) → All IsEnded ts → lefts ts ≡ 0
ended-lefts [] h = refl
ended-lefts (t ∷ ts) h = omega (arith, h.0.1, ended-lefts ts h.1)

Fits-ne-violated :
    (counter : ℕ) (ts : List Thread)
    → All (λ t. Fits counter t.place t.left) ts
    → All (λ t. t.place ≢ violated) ts
Fits-ne-violated counter [] h = tt
Fits-ne-violated counter (t ∷ ts) h = (one t.place h.0, Fits-ne-violated counter ts h.1)
  where
    one : (p : Place) → Fits counter p t.left → p ≢ violated
    one reading f e = cc
    one (decreasing last) f e = cc
    one violated f e = f

-- Whatever the order of the workers' transactions, when 100 for each worker fit in 64 bits: no worker
-- ever finds the counter increased since it has read it, the counter is always the number of
-- decrements that are left to do, and once all loops are over the last check finds it at 0. So `check`
-- reports no violation of a library whose transactions are atomic.
pub Reach-reached_zero :
    (nbworkers : ℕ)
    → nbtxperwrk * nbworkers < 2 ^ 64
    → (sys : System) → Reach nbworkers sys
    → All (λ t. t.place ≢ violated) sys.threads
      × (sys.counter ≡ lefts sys.threads)
      × (All IsEnded sys.threads → reached_zero sys.counter ≡ true)
unfolding reached_zero
Reach-reached_zero nbworkers small sys reach =
    let c = Reach-IsCounted nbworkers small sys reach in
    (
      Fits-ne-violated sys.counter sys.threads c.fits,
      c.counted,
      λ ended. ground (arith, c.counted, ended-lefts sys.threads ended),
    )

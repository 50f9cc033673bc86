-- ===== src/Grading.antt =====
-- grading/grading.cpp: `measure`, from the master's side, and `main`. What each wait of the master gives is
-- an argument. Floating-point results, which are only printed, are left out.
pub mod Median
pub mod Exit
mod Tests
use concurrent_project.Prelude.{
  ℕ, zero, suc, ◌+◌, ◌*◌, ◌/◌, ◌%◌, ◌^◌, Bool, true, false, Option, none, some, List, [], ◌∷◌, ◌++◌,
  leb, ◌==◌, if◌then◌else◌,
}
use concurrent_project.Chrono.{invalid_tick}

-- What `Sync::master_wait` gives: a time, an error message, or an exception, on a timeout.
pub data Waited : Type 0 where
  took : (tick : ℕ) → Waited
  failed : (message : ℕ) → Waited
  overran : Waited

-- What `measure` returns: an error message, or the three times; or its exception.
pub data Measured : Type 0 where
  error : (message : ℕ) → Measured
  times : (time_init time_perf time_chck : ℕ) → Measured
  throws : Measured

insert : ℕ → List ℕ → List ℕ
insert x [] = x ∷ []
insert x (y ∷ ys) = if leb x y then x ∷ y ∷ ys else y ∷ insert x ys

unfoldable pub sort : List ℕ → List ℕ
unfolding insert
sort [] = []
sort (x ∷ xs) = insert x (sort xs)

-- `times[n]`, 0 behind the end.
unfoldable pub get_or : List ℕ → ℕ → ℕ → ℕ
get_or [] i d = d
get_or (x ∷ xs) zero d = x
get_or (x ∷ xs) (suc i) d = get_or xs i d

-- `times[n]` after `std::nth_element(times, times + n, end)`: the element that a sorted array has there.
unfoldable pub nth_element : List ℕ → ℕ → ℕ
unfolding sort get_or
nth_element ticks n = get_or (sort ticks) n 0

-- A wait of the master, and what follows if it gives a time.
abbrev pub after_wait : Waited → (ℕ → Measured) → Measured
after_wait (took tick) next = next tick
after_wait (failed message) next = error message
after_wait overran next = throws

-- The loop of the performance measurements, with the number of repetitions that are left, the number of
-- waits so far, and the times so far.
unfoldable pub perf_loop :
    (waits : ℕ → Waited) → (left : ℕ) → (i : ℕ) → List ℕ → (List ℕ → ℕ → Measured) → Measured
perf_loop waits zero i ticks next = next ticks i
perf_loop waits (suc left) i ticks next =
    after_wait (waits i) (λ tick. perf_loop waits left (i + 1) (ticks ++ tick ∷ []) next)

-- `waits i` is the result of the master's wait number `i`, from 0.
unfoldable pub measure : (waits : ℕ → Waited) → (nbrepeats : ℕ) → Measured
unfolding perf_loop nth_element
measure waits nbrepeats = after_wait (waits 0) (λ time_init.
    perf_loop waits nbrepeats 1 [] (λ ticks i.
      after_wait (waits i)
        (λ time_chck. times time_init (nth_element ticks (nbrepeats / 2)) time_chck)))

-- The run parameters of `main`.
unfoldable pub nbworkers_of : (hardware_concurrency : ℕ) → ℕ
nbworkers_of res = if res == 0 then 16 else res

unfoldable pub nbtxperwrk : (nbworkers : ℕ) → ℕ
nbtxperwrk nbworkers = 200000 / nbworkers

unfoldable pub nbaccounts : (nbworkers : ℕ) → ℕ
nbaccounts nbworkers = 32 * nbworkers

unfoldable pub expnbaccounts : (nbworkers : ℕ) → ℕ
expnbaccounts nbworkers = 256 * nbworkers

abbrev pub slow_factor : ℕ
slow_factor = 16

abbrev pub nbrepeats : ℕ
nbrepeats = 7

-- The timeouts.
pub record Timeouts : Type 0 where
  pub maxtick_init : ℕ
  pub maxtick_perf : ℕ
  pub maxtick_chck : ℕ

abbrev pub no_timeouts : Timeouts
no_timeouts = record {
  maxtick_init = invalid_tick;
  maxtick_perf = invalid_tick;
  maxtick_chck = invalid_tick;
}

-- `slow_factor * tick`, "bad luck" avoided.
unfoldable pub timeout : (tick : ℕ) → ℕ
timeout tick =
    let maxtick = (slow_factor * tick) % 2 ^ 64 in
    if maxtick == invalid_tick then (maxtick + 1) % 2 ^ 64 else maxtick

-- The reference's times set the timeouts, the others' leave them.
unfoldable pub set_reference : (time_init time_perf time_chck : ℕ) → Timeouts → Timeouts
unfolding timeout
set_reference time_init time_perf time_chck limits =
    if limits.maxtick_init == invalid_tick
    then record {
      maxtick_init = timeout time_init;
      maxtick_perf = timeout time_perf;
      maxtick_chck = timeout time_chck;
    }
    else limits

-- A library is what its measurement gives under the timeouts, or `none` when its constructor or that of
-- the workload on it throws.
abbrev pub Library : Type 0
Library = Option (Timeouts → Measured)

-- The loop of `main` over the libraries, which gives the exit code. An exception of a constructor is caught
-- around the loop, an exception of the measurement ends the process at once.
unfoldable pub evaluate : List Library → Timeouts → ℕ
unfolding set_reference
evaluate [] limits = 0
evaluate (none ∷ libraries) limits = 1
evaluate (some library ∷ libraries) limits = elim (library limits) [
  | error message ↦ 1
  | throws ↦ 2
  | times time_init time_perf time_chck ↦
      evaluate libraries (set_reference time_init time_perf time_chck limits)
]

-- `main` on `argc` arguments, of which all but two are libraries. Its parsing of the seed is left out.
unfoldable pub main : (argc : ℕ) → List Library → ℕ
unfolding evaluate
main argc libraries = if leb 3 argc then evaluate libraries no_timeouts else 1

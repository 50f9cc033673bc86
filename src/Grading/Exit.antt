-- ===== src/Grading/Exit.antt =====
-- What `main` makes of the measurements.
use concurrent_project.Prelude.{ℕ, ◌≢◌, Option, none, some, List, [], ◌∷◌, map, arith}
use mathlib.Core.Option
use concurrent_project.Chrono.{invalid_tick}
use concurrent_project.Grading.{Measured, error, times, throws, Timeouts, timeout, Library}

-- A time of the reference never becomes the timeout that stands for none.
pub timeout-ne-invalid_tick : (tick : ℕ) → timeout tick ≢ invalid_tick
unfolding timeout
timeout-ne-invalid_tick tick h = ground arith

-- The exit code of some results, `none` for a library of which no measurement is made: that of the first
-- that gives no times, or 0.
unfoldable pub exit_code : List (Option Measured) → ℕ
exit_code [] = 0
exit_code (none ∷ results) = 1
exit_code (some (error message) ∷ results) = 1
exit_code (some throws ∷ results) = 2
exit_code (some (times a b c) ∷ results) = exit_code results

-- The results of libraries under the same timeouts.
abbrev pub results_of : List Library → Timeouts → List (Option Measured)
results_of libraries limits = map (Option.map (λ library. library limits)) libraries

-- The timeouts of a reference.
abbrev pub limits_of : (time_init time_perf time_chck : ℕ) → Timeouts
limits_of a b c = record {
  maxtick_init = timeout a;
  maxtick_perf = timeout b;
  maxtick_chck = timeout c;
}

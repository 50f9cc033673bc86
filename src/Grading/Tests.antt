-- ===== src/Grading/Tests.antt =====
-- The grading of three libraries, and the theorems at such measurements.
use concurrent_project.Prelude.{◌-◌, ℕ, ◌≡◌, refl, arith}
use concurrent_project.Grading.{Waited, took, Measured, times, Timeouts, measure}
use concurrent_project.Grading.Median.{IsAt, ticks_from, measure_median}

abbrev ticks : ℕ → ℕ
ticks i = 100 - i

abbrev all_took : ℕ → Waited
all_took i = took (ticks i)

median_runs : measure all_took 3 ≡ times 100 98 96
unfolding measure
median_runs = refl

measure_median_example :
    (median : ℕ) × (measure all_took 7 ≡ times (ticks 0) median (ticks 8))
    × IsAt median 3 (ticks_from ticks 1 7)
measure_median_example = measure_median all_took ticks 7 (omega arith) (λ j h. refl)

-- A library that is fast enough under the timeouts, or not.
abbrev library : (slow : ℕ) → Timeouts → Measured
library slow limits = times slow slow slow

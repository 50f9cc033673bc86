-- ===== src/Chrono/Tests.antt =====
-- A run of the accounting of time, for a second and a half.
use concurrent_project.Prelude.{◌≡◌, refl, some}
use concurrent_project.Chrono.{Chrono, start, stop, get_tick}

abbrev fresh : Chrono
fresh = record { total = 0; local = 0 }

second_and_half :
    get_tick (stop (some (7, 500_000_000)) (start (some (6, 0)) fresh)) ≡ 1_500_000_000
unfolding get_tick stop start
second_and_half = refl

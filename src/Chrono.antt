-- ===== src/Chrono.antt =====
-- grading/common.hpp: the accounting of time, in ticks of a nanosecond.
mod Tests
use concurrent_project.Prelude.{
  ℕ, ◌+◌, ◌-◌, ◌*◌, ◌%◌, ◌^◌, ◌≤◌, ◌<◌, ◌≡◌, ◌≢◌, refl, inl, inr, Bool, true, false, Option, none,
  some, arith, ◌==◌, if◌then◌else◌, Bool-cases,
}

abbrev pub invalid_tick : ℕ
invalid_tick = 0xbad_c0de

-- `Tick` is a 64-bit integer. `local` has no value before the first start.
pub record Chrono : Type 0 where
  pub total : ℕ
  pub local : ℕ

-- What the clock has given: `none` is an error, and else the seconds and the nanoseconds.
abbrev pub Reading : Type 0
Reading = Option (ℕ × ℕ)

unfoldable pub convert : Reading → ℕ
convert none = invalid_tick
convert (some (sec, nsec)) =
    let res = (nsec + sec * 1_000_000_000) % 2 ^ 64 in
    if res == invalid_tick then invalid_tick + 1 else res

unfoldable pub start : Reading → Chrono → Chrono
unfolding convert
start now c = record c { local = convert now }

unfoldable pub delta : Reading → Chrono → ℕ
unfolding convert
delta now c = (convert now + 2 ^ 64 - c.local) % 2 ^ 64

unfoldable pub stop : Reading → Chrono → Chrono
unfolding delta
stop now c = record c { total = (c.total + delta now c) % 2 ^ 64 }

unfoldable pub reset : Chrono → Chrono
reset c = record c { total = 0 }

unfoldable pub get_tick : Chrono → ℕ
get_tick c = c.total

abbrev pub is_none : Reading → Bool
is_none none = true
is_none (some t) = false

-- The conversion gives the invalid tick exactly when the clock has failed.
pub convert_iff : (now : Reading) → (convert now == invalid_tick) ≡ is_none now
unfolding convert
convert_iff none = refl
convert_iff (some (sec, nsec)) = ground arith

-- When the clock goes on from one reading to another, neither of which is mistaken for a failure, a
-- start at the first and a stop at the second add the nanoseconds between them to the total, in 64 bits.
pub stop-start :
    (sec nsec sec' nsec' : ℕ) (c : Chrono)
    → nsec + sec * 1_000_000_000 ≤ nsec' + sec' * 1_000_000_000
    → nsec' + sec' * 1_000_000_000 < 2 ^ 64
    → nsec + sec * 1_000_000_000 ≢ invalid_tick
    → nsec' + sec' * 1_000_000_000 ≢ invalid_tick
    → get_tick (stop (some (sec', nsec')) (start (some (sec, nsec)) c))
      ≡ (c.total + (nsec' + sec' * 1_000_000_000 - (nsec + sec * 1_000_000_000))) % 2 ^ 64
unfolding get_tick stop delta start convert
stop-start sec nsec sec' nsec' c later fits valid valid' =
    ground (arith, later, fits, valid, valid')

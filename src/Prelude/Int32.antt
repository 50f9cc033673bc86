-- ===== src/Prelude/Int32.antt =====
-- The C++ `int` as a 32-bit pattern: a number below 2 ^ 32, read in two's complement. Conversions,
-- shifts and `+` wrap, as C++20 defines for conversions and shifts and as `fetch_add` does for sums.
use Prim.Native.Nat.{ℕ, ◌+◌, ◌-◌, ◌*◌, ◌/◌, ◌%◌, ◌^◌, ◌≤◌, ◌<◌}
use mathlib.Core.Path.{◌≡◌}
use mathlib.Core.Logic.{◌↔◌}
use mathlib.Core.Bool.{Bool, true}
use native.Mathlib.Omega.{arith}
use concurrent_project.Prelude.Tests.{ltb, leb, if◌then◌else◌}

abbrev pub int : ℕ → ℕ
int n = n % 2 ^ 32

-- -1
abbrev pub minus_one : ℕ
minus_one = 2 ^ 32 - 1

-- x << 1
abbrev pub shl_one : ℕ → ℕ
shl_one x = int (x * 2)

-- x >> 1 copies the sign bit.
abbrev pub shr_one : ℕ → ℕ
shr_one x = if ltb x (2 ^ 31) then x / 2 else x / 2 + 2 ^ 31

-- The order of signed integers: adding 2 ^ 31 moves the least to 0.
abbrev pub biased : ℕ → ℕ
biased x = (x + 2 ^ 31) % 2 ^ 32

abbrev pub leb_int : ℕ → ℕ → Bool
leb_int x y = leb (biased x) (biased y)

abbrev pub ltb_int : ℕ → ℕ → Bool
ltb_int x y = ltb (biased x) (biased y)

-- On patterns of numbers from 0 on it is the order of numbers.
pub leb_int_iff : (x y : ℕ) → x < 2 ^ 31 → y < 2 ^ 31 → (leb_int x y ≡ true) ↔ (x ≤ y)
leb_int_iff x y hx hy = ground arith

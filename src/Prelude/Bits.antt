-- ===== src/Prelude/Bits.antt =====
-- Masks and disjoint fields of machine words, as arithmetic: `&` with a mask of low ones, `>>` after
-- `&`, and `|` of fields that do not overlap.
use Prim.Native.Nat.{
  ℕ, zero, suc, ◌+◌, ◌-◌, ◌*◌, ◌/◌, ◌%◌, ◌^◌, ◌≤◌, ◌<◌, min, max, bit_and, bit_or, digits, bitwise,
  bit_and-bitwise, bit_or-bitwise,
}
use mathlib.Core.Path.{◌≡◌, refl, ap}
use mathlib.Core.WellFounded
use native.Mathlib.Nat.{pow-suc, one-le-pow, le_refl, div-div-eq-div-mul}
use native.Mathlib.Omega.{arith}
use concurrent_project.Prelude.Order.{lt_wf}

-- The native operations stand for `bitwise`, a recursion on binary digits with fuel; any two
-- sufficient amounts of fuel agree, so the lowest digit splits off.
module _ (z : ℕ → ℕ) (f : ℕ → ℕ → ℕ) where
  digits-fuel : (n m a b : ℕ) → a ≤ n → a ≤ m → digits z f n a b ≡ digits z f m a b
  digits-fuel zero zero a b p q = refl
  digits-fuel (suc n) (suc m) zero b p q = refl
  digits-fuel (suc n) (suc m) (suc a) b p q =
      rw (digits-fuel n m (suc a / 2) (b / 2) (omega arith) (omega arith))
  digits-fuel zero (suc m) zero b p q = refl
  digits-fuel zero (suc m) (suc a) b p q = absurd (omega arith)
  digits-fuel (suc n) zero zero b p q = refl
  digits-fuel (suc n) zero (suc a) b p q = absurd (omega arith)

  bitwise-lowest :
      (a b : ℕ)
      → bitwise z f (suc a) b ≡ bitwise z f (suc a / 2) (b / 2) * 2 + f (suc a % 2) (b % 2)
  bitwise-lowest a b =
      omega (arith, digits-fuel a (suc a / 2) (suc a / 2) (b / 2) (omega arith) (le_refl _))

or-lowest : (a b : ℕ) → bit_or a b ≡ bit_or (a / 2) (b / 2) * 2 + max (a % 2) (b % 2)
or-lowest zero b = simp bit_or-bitwise (omega arith)
or-lowest (suc a) b = simp bit_or-bitwise (bitwise-lowest (λ y. y) max a b)

and-lowest : (a b : ℕ) → bit_and a b ≡ bit_and (a / 2) (b / 2) * 2 + min (a % 2) (b % 2)
and-lowest zero b = simp bit_and-bitwise (omega arith)
and-lowest (suc a) b = simp bit_and-bitwise (bitwise-lowest (λ y. 0) min a b)

-- Strong induction from `n / 2` to `n`.
halving {ℓ} : (P : ℕ → Type ℓ) → P 0 → ((n : ℕ) → P (suc n / 2) → P (suc n)) → (n : ℕ) → P n
halving P base up n = WellFounded.induction lt_wf {C = P} n step
  where
    step : (k : ℕ) → ((m : ℕ) → m < k → P m) → P k
    step zero ih = base
    step (suc k) ih = up k (ih (suc k / 2) (omega arith))

or-zero : (a : ℕ) → bit_or a 0 ≡ a
or-zero = halving (λ a. bit_or a 0 ≡ a) refl (λ n ih. omega (arith, or-lowest (suc n) 0))

zero-or : (a : ℕ) → bit_or 0 a ≡ a
zero-or a = simp bit_or-bitwise

and-zero : (a : ℕ) → bit_and a 0 ≡ 0
and-zero = halving (λ a. bit_and a 0 ≡ 0) refl (λ n ih. omega (arith, and-lowest (suc n) 0))

scale-suc : (q k : ℕ) → q * 2 ^ suc k ≡ 2 * (q * 2 ^ k)
scale-suc q k = omega (arith, ap (λ (t : ℕ). q * t) (pow-suc 2 k))

-- `(q << 1) | r` for a single bit `r`.
pub or-bit : (q r : ℕ) → r < 2 → bit_or (q * 2) r ≡ q * 2 + r
or-bit q r h = rw (or-lowest (q * 2) r) (ground (arith, or-zero q))

-- `r | (q << k)` where `r` fits below bit `k`.
pub or-fields : (k q r : ℕ) → r < 2 ^ k → bit_or r (q * 2 ^ k) ≡ q * 2 ^ k + r
or-fields zero q r h = ground (arith, zero-or q)
or-fields (suc k) q r h = ground (
  arith,
  or-lowest r (q * 2 ^ suc k),
  scale-suc q k,
  or-fields k q (r / 2) (omega (arith, pow-suc 2 k)),
)

-- `a & 1`.
pub and-one : (a : ℕ) → bit_and a 1 ≡ a % 2
and-one a = omega (arith, and-lowest a 1, and-zero (a / 2))

-- `a & (2 ^ k - 1)`.
pub and-mask : (k a : ℕ) → bit_and a (2 ^ k - 1) ≡ a % 2 ^ k
and-mask zero a = rw and-zero (omega arith)
and-mask (suc k) a = ground (
  arith,
  and-lowest a (2 ^ suc k - 1),
  one-le-pow k 2,
  pow-suc 2 k,
  and-mask k (a / 2),
  div-div-eq-div-mul a 2 (2 ^ k),
)

-- `(a & b) >> k`.
pub and-shift : (k a b : ℕ) → bit_and a b / 2 ^ k ≡ bit_and (a / 2 ^ k) (b / 2 ^ k)
and-shift zero a b = ground arith
and-shift (suc k) a b =
    rw
      (
        pow-suc 2 k,
        ← div-div-eq-div-mul (bit_and a b) (2 ^ k) 2,
        ← div-div-eq-div-mul a (2 ^ k) 2,
        ← div-div-eq-div-mul b (2 ^ k) 2,
        and-shift k a b,
      )
      (omega (arith, and-lowest (a / 2 ^ k) (b / 2 ^ k)))

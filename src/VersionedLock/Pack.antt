-- ===== src/VersionedLock/Pack.antt =====
-- The packing of version and lock bit: when it can be undone, and what an overflow does.
use concurrent_project.Prelude.{ℕ, ◌+◌, ◌*◌, ◌%◌, ◌^◌, ◌≤◌, ◌<◌, ◌≡◌, ◌⊎◌, Bool, true, false, arith}
use concurrent_project.Prelude.Bits.{or-bit, and-one}
use concurrent_project.VersionedLock.{
  bit_of, form_version_locked, get_version_locked, unlocked_and_old,
}

-- The versions, as patterns, whose double still fits an `int`: from -2 ^ 30 up to 2 ^ 30 - 1.
abbrev pub FitsVersion : ℕ → Type 0
FitsVersion version = (version < 2 ^ 30) ⊎ ((2 ^ 32 ≤ version + 2 ^ 30) × (version < 2 ^ 32))

-- Packed, the version is the upper bits and the lock the lowest.
pub form-eq-sum :
    (version : ℕ) (lock : Bool)
    → form_version_locked version lock ≡ version % 2 ^ 31 * 2 + bit_of lock
unfolding form_version_locked
form-eq-sum version true = ground (arith, or-bit (version % 2 ^ 31) 1)
form-eq-sum version false = ground (arith, or-bit (version % 2 ^ 31) 0)

pub form-lt : (version : ℕ) (lock : Bool) → form_version_locked version lock < 2 ^ 32
form-lt version lock = ground (arith, form-eq-sum version lock)

-- For a version from -2 ^ 30 up to 2 ^ 30 - 1, unpacking gives back what was packed, the version and the
-- lock bit.
pub get-form :
    (version : ℕ) (lock : Bool)
    → FitsVersion version
    → get_version_locked (form_version_locked version lock) ≡ (version, lock)
unfolding get_version_locked
get-form version lock fits =
    ground (arith, form-eq-sum version lock, and-one (form_version_locked version lock))

-- Packing gives back every 32-bit pattern of the atomic.
pub form-get :
    (v : ℕ) → v < 2 ^ 32 → form_version_locked (get_version_locked v).0 (get_version_locked v).1 ≡ v
unfolding get_version_locked
form-get v fits =
    ground (arith, and-one v, form-eq-sum (get_version_locked v).0 (get_version_locked v).1)

-- A version from 2 ^ 30 up to 2 ^ 31 - 1, packed with the lock free, passes for old at every clock value
-- that is not negative.
pub unlocked_and_old-overflow :
    (version clock : ℕ)
    → 2 ^ 30 ≤ version
    → version < 2 ^ 31
    → clock < 2 ^ 31
    → unlocked_and_old (form_version_locked version false) clock ≡ true
unfolding unlocked_and_old
unlocked_and_old-overflow version clock low high positive =
    ground (arith, form-eq-sum version false, and-one (form_version_locked version false))

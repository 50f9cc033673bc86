-- ===== src/VersionedLock/Cycle.antt =====
-- What each operation of a lock does to its version and its lock bit.
use concurrent_project.Prelude.{◌⊎◌, ℕ, ◌^◌, ◌<◌, ◌≡◌, ◌↔◌, true, false, arith}
use concurrent_project.Prelude.Int32.{leb_int}
use concurrent_project.VersionedLock.{
  get_version_locked, try_lock, unlock, set_version, init, unlocked_and_old,
}
use concurrent_project.VersionedLock.Pack.{form-lt, FitsVersion, get-form, form-get}

-- A version that was read out of a pattern always fits.
pub get-FitsVersion : (v : ℕ) → v < 2 ^ 32 → FitsVersion (get_version_locked v).0
unfolding get_version_locked
get-FitsVersion v h = ground arith

-- Two patterns with the same version and the same bit are the same.
pub get-injective :
    (v w : ℕ) → v < 2 ^ 32 → w < 2 ^ 32 → get_version_locked v ≡ get_version_locked w → v ≡ w
get-injective v w hv hw e = ground (arith, form-get v hv, form-get w hw)

-- On 32-bit words, `try_lock` succeeds exactly when, at the exchange, the lock is free at the version
-- that was loaded; then only the bit is set, and otherwise nothing changes.
pub try_lock_lem :
    (loaded current : ℕ)
    → loaded < 2 ^ 32
    → current < 2 ^ 32
    → let version = (get_version_locked loaded).0 in
      (((try_lock loaded current).1 ≡ true) ↔ (get_version_locked current ≡ (version, false)))
      × ((try_lock loaded current).1 ≡ true
          → get_version_locked (try_lock loaded current).0 ≡ (version, true))
      × ((try_lock loaded current).1 ≡ false → (try_lock loaded current).0 ≡ current)
unfolding try_lock
try_lock_lem loaded current hl hc =
    let version = (get_version_locked loaded).0 in
    let fits = get-FitsVersion loaded hl in
    ground (arith, get-form version false fits, get-form version true fits, form-get current hc)

-- `unlock` clears the bit and keeps the version that it loaded.
pub unlock_lem :
    (v : ℕ) → v < 2 ^ 32 → get_version_locked (unlock v) ≡ ((get_version_locked v).0, false)
unfolding unlock
unlock_lem v h = get-form (get_version_locked v).0 false (get-FitsVersion v h)

-- `set_version` puts in a version that fits and keeps the bit that it loaded.
pub set_version_lem :
    (v version : ℕ)
    → FitsVersion version
    → get_version_locked (set_version v version) ≡ (version, (get_version_locked v).1)
unfolding set_version
set_version_lem v version fits = get-form version (get_version_locked v).1 fits

-- A lock that `init` has set up is free, at version 0.
pub init_lem : get_version_locked init ≡ (0, false)
unfolding init
init_lem = get-form 0 false (omega arith)

-- The test holds exactly when the lock is free and its version is at most the clock value, both read
-- as signed numbers.
pub unlocked_and_old_iff :
    (v clock : ℕ)
    → (unlocked_and_old v clock ≡ true)
      ↔ (((get_version_locked v).1 ≡ false) × (leb_int (get_version_locked v).0 clock ≡ true))
unfolding unlocked_and_old get_version_locked
unlocked_and_old_iff v clock = ground arith

pub try_lock-lt : (loaded current : ℕ) → current < 2 ^ 32 → (try_lock loaded current).0 < 2 ^ 32
unfolding try_lock
try_lock-lt loaded current h = ground (arith, form-lt (get_version_locked loaded).0 true)

pub unlock-lt : (v : ℕ) → unlock v < 2 ^ 32
unfolding unlock
unlock-lt v = form-lt (get_version_locked v).0 false

pub set_version-lt : (v version : ℕ) → set_version v version < 2 ^ 32
unfolding set_version
set_version-lt v version = form-lt version (get_version_locked v).1

-- With no other writer between its load and its exchange, `try_lock` succeeds on a free lock, keeps
-- its version and sets its bit, and fails on a taken one.
pub try_lock_alone :
    (v : ℕ)
    → v < 2 ^ 32
    → ((try_lock v v).1 ≡ true)
        × ((get_version_locked v).1 ≡ false)
        × (get_version_locked (try_lock v v).0 ≡ ((get_version_locked v).0, true))
      ⊎ ((try_lock v v).1 ≡ false) × ((get_version_locked v).1 ≡ true) × ((try_lock v v).0 ≡ v)
try_lock_alone v h = ground (arith, try_lock_lem v v h h)

-- Unlocking what `try_lock` has locked gives back the 32-bit word.
pub unlock-try_lock : (v : ℕ) → v < 2 ^ 32 → (try_lock v v).1 ≡ true → unlock (try_lock v v).0 ≡ v
unlock-try_lock v h e = ground (
  arith,
  try_lock_lem v v h h,
  try_lock-lt v v h,
  unlock_lem (try_lock v v).0,
  unlock-lt (try_lock v v).0,
  get-injective (unlock (try_lock v v).0) v,
)

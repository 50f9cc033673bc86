-- ===== src/VersionedLock.antt =====
-- 358982/versioned_lock.cpp: a version and a lock bit in one atomic `int`.
-- The atomic is a 32-bit pattern. A method that loads the atomic and later writes it takes both
-- values, the one that it loaded and the one that it finds when it writes, since other threads may
-- write in between; with no other writer the two are the same.
pub mod Pack
pub mod Cycle
mod Tests
use concurrent_project.Prelude.{
  ℕ, ◌≡◌, Bool, true, false, not, ◌&&◌, ◌==◌, if◌then◌else◌, bit_and, bit_or,
}
use concurrent_project.Prelude.Int32.{shl_one, shr_one, leb_int}

-- (int) lock
abbrev pub bit_of : Bool → ℕ
bit_of lock = if lock then 1 else 0

unfoldable pub form_version_locked : ℕ → Bool → ℕ
form_version_locked version lock = bit_or (shl_one version) (bit_of lock)

-- (bool) (v & 1)
abbrev pub lock_bit : ℕ → Bool
lock_bit v = not (bit_and v 1 == 0)

unfoldable pub get_version_locked : ℕ → ℕ × Bool
get_version_locked v = (shr_one v, lock_bit v)

-- `std::atomic_int::compare_exchange_strong`: the value left behind, and whether it was exchanged.
abbrev pub compare_exchange_strong : ℕ → ℕ → ℕ → ℕ × Bool
compare_exchange_strong v expected desired = if v == expected then (desired, true) else (v, false)

unfoldable pub try_lock : (loaded current : ℕ) → ℕ × Bool
unfolding form_version_locked get_version_locked
try_lock loaded current =
    let cur_version = (get_version_locked loaded).0 in
    let expected = form_version_locked cur_version false in
    let desired = form_version_locked cur_version true in
    compare_exchange_strong current expected desired

-- The store of `unlock` and that of `set_version` overwrite whatever they find.
unfoldable pub unlock : (loaded : ℕ) → ℕ
unfolding form_version_locked get_version_locked
unlock loaded =
    let version_locked = get_version_locked loaded in form_version_locked version_locked.0 false

unfoldable pub set_version : (loaded version : ℕ) → ℕ
unfolding form_version_locked get_version_locked
set_version loaded version =
    let version_locked = get_version_locked loaded in form_version_locked version version_locked.1

unfoldable pub init : ℕ
unfolding form_version_locked
init = form_version_locked 0 false

unfoldable pub is_locked : ℕ → Bool
unfolding get_version_locked
is_locked v = (get_version_locked v).1

unfoldable pub unlocked_and_old : (v version_to_compare : ℕ) → Bool
unlocked_and_old v version_to_compare = not (lock_bit v) && leb_int (shr_one v) version_to_compare

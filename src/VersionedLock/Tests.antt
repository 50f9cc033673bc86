-- ===== src/VersionedLock/Tests.antt =====
-- The theorems on locks at concrete words.
use concurrent_project.Prelude.{◌≡◌, true, false, arith}
use concurrent_project.VersionedLock.{form_version_locked, unlocked_and_old}
use concurrent_project.VersionedLock.Pack.{unlocked_and_old-overflow}

unlocked_and_old-overflow_example :
    unlocked_and_old (form_version_locked 1_073_741_824 false) 5 ≡ true
unlocked_and_old-overflow_example =
    unlocked_and_old-overflow 1_073_741_824 5 (omega arith) (omega arith) (omega arith)

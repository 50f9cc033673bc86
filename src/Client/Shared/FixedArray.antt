-- ===== src/Client/Shared/FixedArray.antt =====
-- grading/transactional.hpp: Shared<Type[n]>, an array with its length in shared memory. Its `write` cannot be
-- instantiated.
use concurrent_project.Prelude.{ℕ, ◌+◌, ◌*◌, Bool, ◌&&◌, leb, if◌then◌else◌}
use concurrent_project.Client.{Closure, returns, raises, reads, shared_overflow}
use concurrent_project.Client.Shared.{Layout, Shared, bind}

module _ {A : Type 0} (type : Layout A) (n : ℕ) where
  unfoldable pub read : (assert_mode : Bool) (i : ℕ) → Shared → Closure A
  read assert_mode i shared =
      if assert_mode && leb n i
      then raises shared_overflow
      else reads (shared.address + i * type.sizeof) type.sizeof (λ res. returns (type.of_bytes res))

  -- `operator[]`
  unfoldable pub at : (assert_mode : Bool) (align i : ℕ) → Shared → Closure Shared
  unfolding bind
  at assert_mode align i shared =
      if assert_mode && leb n i
      then raises shared_overflow
      else bind assert_mode align type.alignof (shared.address + i * type.sizeof)

  unfoldable pub after : Shared → ℕ
  after shared = shared.address + n * type.sizeof

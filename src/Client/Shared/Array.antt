-- ===== src/Client/Shared/Array.antt =====
-- grading/transactional.hpp: Shared<Type[]>, an array in shared memory. Its `write` cannot be instantiated.
use concurrent_project.Prelude.{ℕ, ◌+◌, ◌*◌, Bool}
use concurrent_project.Client.{Closure, returns, reads}
use concurrent_project.Client.Shared.{Layout, Shared, bind}

module _ {A : Type 0} (type : Layout A) where
  unfoldable pub read : (i : ℕ) → Shared → Closure A
  read i shared =
      reads (shared.address + i * type.sizeof) type.sizeof (λ res. returns (type.of_bytes res))

  -- `operator[]`
  unfoldable pub at : (assert_mode : Bool) (align i : ℕ) → Shared → Closure Shared
  unfolding bind
  at assert_mode align i shared =
      bind assert_mode align type.alignof (shared.address + i * type.sizeof)

  unfoldable pub after : (n : ℕ) → Shared → ℕ
  after n shared = shared.address + n * type.sizeof

-- ===== src/Client/Shared/Pointer.antt =====
-- grading/transactional.hpp: Shared<Type*>, a pointer in shared memory.
pub mod Ownership
use concurrent_project.Prelude.{
  ℕ, zero, suc, ◌+◌, ◌-◌, ◌*◌, ◌/◌, ◌%◌, ◌^◌, ◌≤◌, ◌<◌, ◌≡◌, ◌≢◌, refl, sym, ap, ◌∙◌, ◌⊎◌, inl, inr,
  Bool, true, false, not, ◌&&◌, ◌||◌, Option, none, some, List, [], ◌∷◌, ◌++◌, length, ltb, leb,
  ◌==◌, if◌then◌else◌, arith, Bool-cases,
}
use concurrent_project.Prelude
use concurrent_project.Client.{
  Closure, returns, raises, allocs, frees, shared_double_alloc, shared_double_free,
}
use concurrent_project.Client.Closures.{◌>>=◌}
use concurrent_project.Client.Shared.{Shared, read, write}
use concurrent_project.Client.Shared.Words.{word}

-- `sizeof` is that of the type that the pointer points to.
unfoldable pub alloc : (assert_mode : Bool) (sizeof size : ℕ) → Shared → Closure ℕ
unfolding read write
alloc assert_mode sizeof size shared =
    let go : Closure ℕ =
      allocs (if ltb 0 size then size else sizeof)
        (λ addr. write word addr shared >>= λ u. returns addr) in
    if assert_mode
    then (read word shared >>= λ old. if not (old == 0) then raises shared_double_alloc else go)
    else go

unfoldable pub free : (assert_mode : Bool) → Shared → Closure (Unit {0})
unfolding read write
free assert_mode shared =
    let go : Closure (Unit {0}) =
      read word shared >>= λ target. frees target (write word 0 shared) in
    if assert_mode
    then (read word shared >>= λ old. if old == 0 then raises shared_double_free else go)
    else go

-- ===== src/Client/Shared.antt =====
-- grading/transactional.hpp: Shared<Type>, a value in shared memory that a transaction reads and writes. Its operations
-- are parts of a transaction's closure.
pub mod Pointer
pub mod Array
pub mod FixedArray
pub mod Words
use concurrent_project.Prelude.{
  ℕ, zero, suc, ◌+◌, ◌-◌, ◌*◌, ◌/◌, ◌%◌, ◌^◌, ◌≤◌, ◌<◌, ◌≡◌, ◌≢◌, refl, sym, ap, ◌∙◌, ◌⊎◌, inl, inr,
  Bool, true, false, not, ◌&&◌, ◌||◌, Option, none, some, List, [], ◌∷◌, ◌++◌, length, ltb, leb,
  ◌==◌, if◌then◌else◌, arith, Bool-cases,
}
use concurrent_project.Prelude
use concurrent_project.Client.{Closure, returns, raises, reads, writes, shared_align}

-- `Type`: its size and alignment, and its values as bytes in memory.
pub record Layout (A : Type 0) : Type 0 where
  pub sizeof : ℕ
  pub alignof : ℕ
  pub to_bytes : A → List ℕ
  pub of_bytes : List ℕ → A

pub record Shared : Type 0 where
  pub address : ℕ

-- The checks of the constructors, for a region with alignment `align`.
unfoldable pub bind : (assert_mode : Bool) (align alignof address : ℕ) → Closure Shared
bind assert_mode align alignof address =
    if assert_mode && not (address % align == 0)
    then raises shared_align
    else if assert_mode && not (address % alignof == 0)
    then raises shared_align
    else returns (record { address = address })

module _ {A : Type 0} (type : Layout A) where
  unfoldable pub read : Shared → Closure A
  read shared = reads shared.address type.sizeof (λ res. returns (type.of_bytes res))

  unfoldable pub write : A → Shared → Closure (Unit {0})
  write source shared = writes (type.to_bytes source) type.sizeof shared.address (returns tt)

  unfoldable pub after : Shared → ℕ
  after shared = shared.address + type.sizeof

-- The constructors' checks pass at an aligned address.
pub bind-aligned :
    (assert_mode : Bool) (align alignof address : ℕ)
    → address % align ≡ 0
    → address % alignof ≡ 0
    → bind assert_mode align alignof address ≡ returns (record { address = address })
unfolding bind
bind-aligned true align alignof address h h' = rw (h, h', bind) refl
bind-aligned false align alignof address h h' = refl

-- ===== src/Client/Regions.antt =====
-- grading/transactional.hpp: the binding of a client to a region of a library.
use concurrent_project.Prelude.{
  ℕ, ◌-◌, ◌*◌, ◌%◌, ◌^◌, ◌≡◌, refl, Bool, true, false, not, ◌&&◌, ◌||◌, Option, none, some, bit_and,
  ◌==◌, if◌then◌else◌, arith,
}
use native.Mathlib.Nat.{one-le-pow, mod_self, add-mul-mod_self_right, zero-mod}
use concurrent_project.Prelude.Bits.{and-mask}

-- The handle is the library's state of the region.
pub record TransactionalMemory (S : Type 0) : Type 0 where
  pub shared : S
  pub start_addr : ℕ
  pub start_size : ℕ
  pub alignment : ℕ

-- The exceptions of the constructor.
pub data Binding (S : Type 0) : Type 0 where
  bound : TransactionalMemory S → Binding S
  transaction_align transaction_create : Binding S

unfoldable pub is_power_of_two : ℕ → Bool
is_power_of_two align = not (align == 0) && (bit_and align (align - 1) == 0)

-- The constructor, when the library does not take longer than it may. `none` is `invalid_shared`.
unfoldable pub bind :
    {S : Type 0} (tm_create : (size align : ℕ) → Option S) (tm_start : S → ℕ) (assert_mode : Bool)
    (align size : ℕ)
    → Binding S
unfolding is_power_of_two
bind tm_create tm_start assert_mode align size =
    if assert_mode && (not (is_power_of_two align) || not (size % align == 0))
    then transaction_align
    else elim (tm_create size align) [
      | none ↦ transaction_create
      | some shared ↦ bound (record {
        shared = shared;
        start_addr = tm_start shared;
        start_size = size;
        alignment = align;
      })
    ]

-- Every power of two passes.
is_power_of_two-pow : (k : ℕ) → is_power_of_two (2 ^ k) ≡ true
unfolding is_power_of_two
is_power_of_two-pow k =
    ground (arith, and-mask k (2 ^ k), mod_self (2 ^ k), one-le-pow k 2 (omega arith))

multiple-mod : (m d : ℕ) → (m * d % d == 0) ≡ true
multiple-mod m d = ground (arith, add-mul-mod_self_right 0 m d, zero-mod d)

-- With an alignment that is a power of two, a size that is a multiple of it, and a library that makes
-- the region, the client is bound to it, at its start address, in either assertion mode.
pub bind-bound :
    {S : Type 0} (tm_create : (size align : ℕ) → Option S) (tm_start : S → ℕ) (assert_mode : Bool)
    (k m : ℕ) (shared : S)
    → tm_create (m * 2 ^ k) (2 ^ k) ≡ some shared
    → bind tm_create tm_start assert_mode (2 ^ k) (m * 2 ^ k)
      ≡ bound (record {
        shared = shared;
        start_addr = tm_start shared;
        start_size = m * 2 ^ k;
        alignment = 2 ^ k;
      })
unfolding bind
bind-bound tm_create tm_start assert_mode k m shared made =
    rw (is_power_of_two-pow k, multiple-mod m (2 ^ k), and-false assert_mode, made, bind) refl
  where
    and-false : (b : Bool) → (b && false) ≡ false
    and-false true = refl
    and-false false = refl

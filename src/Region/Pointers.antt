-- ===== src/Region/Pointers.antt =====
-- Opaque pointers carry a segment's index in their 16 high bits; a word has one lock.
use concurrent_project.Prelude.{◌-◌, ℕ, ◌+◌, ◌*◌, ◌/◌, ◌%◌, ◌^◌, ◌<◌, ◌≡◌, arith}
use native.Mathlib.Nat.{mul-add-div_right, div-eq_of_lt}
use concurrent_project.Prelude.Bits.{and-mask, and-shift, or-fields}
use concurrent_project.Region.{
  TransactionalMemory, mask, get_pointer_top_digits, change_pointer_top_digits_to,
  create_opaque_data_pointer, create_transparent_data_pointer, get_versioned_lock,
}

top-eq-div : (p : ℕ) → p < 2 ^ 64 → get_pointer_top_digits p ≡ p / 2 ^ 48
unfolding get_pointer_top_digits
top-eq-div p h = omega (arith, and-shift 48 p mask, and-mask 16 (p / 2 ^ 48))

change-eq-sum : (p n : ℕ) → n < 2 ^ 16 → change_pointer_top_digits_to p n ≡ n * 2 ^ 48 + p % 2 ^ 48
unfolding change_pointer_top_digits_to
change-eq-sum p n h = ground (arith, and-mask 48 p, or-fields 48 n (p % 2 ^ 48))

-- A segment's index of 16 bits is read back from an opaque pointer.
pub top-create_opaque :
    (p segment_index : ℕ)
    → segment_index < 2 ^ 16
    → get_pointer_top_digits (create_opaque_data_pointer p segment_index) ≡ segment_index
unfolding create_opaque_data_pointer
top-create_opaque p i h =
    ground (arith, change-eq-sum p i, top-eq-div (change_pointer_top_digits_to p i))

-- A 64-bit address is read back from an opaque pointer with a 16-bit index, if the address's high
-- digits are the region's prefix.
pub create_transparent-create_opaque :
    (tm : TransactionalMemory) (p segment_index : ℕ)
    → segment_index < 2 ^ 16
    → p < 2 ^ 64
    → get_pointer_top_digits p ≡ tm.real_segment_address_prefix
    → create_transparent_data_pointer tm (create_opaque_data_pointer p segment_index) ≡ p
unfolding create_opaque_data_pointer create_transparent_data_pointer
create_transparent-create_opaque tm p i hi hp e = ground (
  arith,
  top-eq-div p hp,
  change-eq-sum p i,
  change-eq-sum (change_pointer_top_digits_to p i) tm.real_segment_address_prefix,
)

-- Adding to an address adds to its opaque pointer, as long as the 48 low bits do not overflow and the
-- index has 16 bits.
pub create_opaque-add :
    (p d segment_index : ℕ)
    → segment_index < 2 ^ 16
    → p % 2 ^ 48 + d < 2 ^ 48
    → create_opaque_data_pointer (p + d) segment_index
      ≡ create_opaque_data_pointer p segment_index + d
unfolding create_opaque_data_pointer
create_opaque-add p d i hi h = ground (arith, change-eq-sum p i, change-eq-sum (p + d) i)

-- The lock of the word number `k` of a segment is the segment's lock number `k`, at any byte of
-- the word, if the byte's address is a 64-bit one.
pub get_versioned_lock-word :
    (tm : TransactionalMemory) (segment_index k byte : ℕ)
    → byte < tm.align
    → (tm.segments segment_index).data_address + (k * tm.align + byte) < 2 ^ 64
    → get_versioned_lock tm
        ((tm.segments segment_index).data_address + (k * tm.align + byte))
        segment_index
      ≡ (tm.segments segment_index).versioned_locks + k
unfolding get_versioned_lock
get_versioned_lock-word tm i k byte hb h =
    let d = (tm.segments i).data_address in
    let x = k * tm.align + byte in
    let offset : (d + x + 2 ^ 64 - d) % 2 ^ 64 ≡ x = omega arith in
    let positive : 0 < tm.align = omega arith in
    rw (offset, mul-add-div_right positive k byte, div-eq_of_lt hb) (omega arith)

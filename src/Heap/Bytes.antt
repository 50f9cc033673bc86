-- ===== src/Heap/Bytes.antt =====
-- Loads after stores.
use concurrent_project.Prelude.{
  length-replicate, replicate, ℕ, zero, suc, ◌+◌, ◌≤◌, ◌<◌, ◌≡◌, refl, ◌⊎◌, List, [], ◌∷◌, length,
  arith,
}
use concurrent_project.Heap.{Memory, update, load, store, memcpy, memset}

-- A store changes no byte below its range and none above.
pub store-outside :
    (m : Memory) (a q : ℕ) (bytes : List ℕ)
    → (q < a) ⊎ (a + length bytes ≤ q)
    → store m a bytes q ≡ m q
unfolding store
store-outside m a q [] h = refl
store-outside m a q (b ∷ bytes) h = ground (arith, store-outside (update m a b) (a + 1) q bytes)

-- What was stored is loaded.
pub load-store_self :
    (m : Memory) (a : ℕ) (bytes : List ℕ) → load (store m a bytes) a (length bytes) ≡ bytes
unfolding load store
load-store_self m a [] = refl
load-store_self m a (b ∷ bytes) = ground (
  arith,
  load-store_self (update m a b) (a + 1) bytes,
  store-outside (update m a b) (a + 1) a bytes,
)

-- A load from a range that a store does not touch.
pub load-store_disjoint :
    (m : Memory) (a n b : ℕ) (bytes : List ℕ)
    → (a + n ≤ b) ⊎ (b + length bytes ≤ a)
    → load (store m b bytes) a n ≡ load m a n
unfolding load
load-store_disjoint m a zero b bytes h = refl
load-store_disjoint m a (suc n) b bytes h =
    ground (arith, store-outside m b a bytes, load-store_disjoint m (a + 1) n b bytes)

pub length-load : (m : Memory) (a n : ℕ) → length (load m a n) ≡ n
unfolding load
length-load m a zero = refl
length-load m a (suc n) = omega (arith, length-load m (a + 1) n)

pub load-memset : (m : Memory) (a byte n : ℕ) → load (memset m a byte n) a n ≡ replicate n byte
unfolding memset
load-memset m a byte n =
    ground (arith, length-replicate n byte, load-store_self m a (replicate n byte))

-- A copy of `n` bytes arrives.
pub load-memcpy :
    (m : Memory) (target source n : ℕ) → load (memcpy m target source n) target n ≡ load m source n
unfolding memcpy
load-memcpy m target source n =
    ground (arith, length-load m source n, load-store_self m target (load m source n))

pub load-memcpy_disjoint :
    (m : Memory) (target source n a k : ℕ)
    → (a + k ≤ target) ⊎ (target + n ≤ a)
    → load (memcpy m target source n) a k ≡ load m a k
unfolding memcpy
load-memcpy_disjoint m target source n a k h =
    ground (arith, length-load m source n, load-store_disjoint m a k target (load m source n))

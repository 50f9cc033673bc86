-- ===== src/Heap.antt =====
-- The process's memory, byte by byte, and the calls of <cstring> that the program makes on it.
pub mod Bytes
use concurrent_project.Prelude.{ℕ, zero, suc, ◌+◌, List, [], ◌∷◌, ◌==◌, if◌then◌else◌, replicate}

-- The byte at each address.
abbrev pub Memory : Type 0
Memory = ℕ → ℕ

-- One cell of a memory, or of any other family over addresses, is given a new value.
abbrev pub update {ℓ} : {A : Type ℓ} → (ℕ → A) → ℕ → A → ℕ → A
update f a v b = if a == b then v else f b

-- The `n` bytes from address `a` on.
unfoldable pub load : Memory → ℕ → ℕ → List ℕ
load m a zero = []
load m a (suc n) = m a ∷ load m (a + 1) n

-- The bytes are written from address `a` on.
unfoldable pub store : Memory → ℕ → List ℕ → Memory
store m a [] = m
store m a (b ∷ bytes) = store (update m a b) (a + 1) bytes

-- memcpy(target, source, n)
unfoldable pub memcpy : Memory → (target source n : ℕ) → Memory
memcpy m target source n = store m target (load m source n)

-- memset(a, byte, n)
unfoldable pub memset : Memory → (a byte n : ℕ) → Memory
memset m a byte n = store m a (replicate n byte)

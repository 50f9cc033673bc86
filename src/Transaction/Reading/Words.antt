-- ===== src/Transaction/Reading/Words.antt =====
-- Copying one word to a private buffer, as a read-write transaction does.
use concurrent_project.Prelude.{
  Option-cases, ℕ, ◌+◌, ◌*◌, ◌≤◌, ◌<◌, ◌≡◌, ◌≢◌, ◌⊎◌, inl, inr, none, some, List, [], ◌∷◌, arith,
  length, All, All-append, reverse,
}
use mathlib.Core.List.{reverse-cons}
use native.Mathlib.Decide.{dec_lt}
use native.Mathlib.Nat.{mul-le-mul_right}
use concurrent_project.Heap.{load}
use concurrent_project.Heap.Bytes.{
  load-store_self, load-store_disjoint, load-memcpy, load-memcpy_disjoint,
}
use concurrent_project.Region.{Store}
use concurrent_project.Transaction.Types.{Write, Transaction}
use concurrent_project.Transaction.Reading.{find_write, copied_word}

-- What a transaction sees at an address where shared memory holds `word`, `ws` being its write set
-- from the last write to the first: the last write to the address, or else `word`.
abbrev pub seen : (address : ℕ) → (ws : List Write) → (word : List ℕ) → List ℕ
seen address ws word = elim (find_write address ws) [ none ↦ word | some w ↦ w.bytes ]

-- Words of `align` bytes at the two addresses do not overlap.
abbrev pub Apart : (align a b : ℕ) → Type 0
Apart align a b = (a + align ≤ b) ⊎ (b + align ≤ a)

-- Every write is of one word.
abbrev pub AreWrites : (align : ℕ) → List Write → Type 0
AreWrites align = All (λ w. length w.bytes ≡ align)

-- Two different words of one buffer.
pub Apart-index : (align a i j : ℕ) → i ≢ j → Apart align (a + i * align) (a + j * align)
Apart-index align a i j h = elim (dec_lt i j) [
  | yes lt ↦ omega (arith, mul-le-mul_right align lt)
  | no ge ↦ let lt : j < i = omega arith in omega (arith, mul-le-mul_right align lt)
]

AreWrites-reverse :
    (align : ℕ) (ws : List Write) → AreWrites align ws → AreWrites align (reverse ws)
AreWrites-reverse align [] h = tt
AreWrites-reverse align (w ∷ ws) h =
    rw (reverse-cons w ws)
      (All-append _ (reverse ws) (w ∷ []) (AreWrites-reverse align ws h.1) (h.0, tt))

find_write-length :
    (align a : ℕ) (ws : List Write) (w : Write)
    → AreWrites align ws
    → find_write a ws ≡ some w
    → length w.bytes ≡ align
unfolding find_write
find_write-length align a [] w h e = cc
find_write-length align a (v ∷ ws) w h e = ground (arith, find_write-length align a ws w h.1)

module _ (tx : Transaction) (s : Store) (a b : ℕ) (writes : AreWrites s.align tx.write_set) where
  -- The word that the transaction sees arrives at the target.
  pub load-copied_word :
      load (copied_word tx a b s) b s.align
      ≡ seen a (reverse tx.write_set) (load s.memory a s.align)
  unfolding copied_word
  load-copied_word = elim (Option-cases (find_write a (reverse tx.write_set))) [
    | inl e ↦ ground (arith, load-memcpy s.memory b a s.align)
    | inr (w, e) ↦ ground (
      arith,
      find_write-length s.align a (reverse tx.write_set) w
          (AreWrites-reverse s.align tx.write_set writes) e,
      load-store_self s.memory b w.bytes,
    )
  ]

  -- A word apart from the target stays.
  pub load-copied_word_elsewhere :
      (c : ℕ) → Apart s.align c b → load (copied_word tx a b s) c s.align ≡ load s.memory c s.align
  unfolding copied_word
  load-copied_word_elsewhere c h = elim (Option-cases (find_write a (reverse tx.write_set))) [
    | inl e ↦ ground (arith, load-memcpy_disjoint s.memory b a s.align c s.align)
    | inr (w, e) ↦ ground (
      arith,
      find_write-length s.align a (reverse tx.write_set) w
          (AreWrites-reverse s.align tx.write_set writes) e,
      load-store_disjoint s.memory c s.align b w.bytes,
    )
  ]

-- ===== src/Transaction/Writing.antt =====
-- What `write` adds to the write set, as the transaction's reads and its commit will see it.
use concurrent_project.Prelude.{
  ℕ, zero, suc, ◌+◌, ◌*◌, ◌/◌, ◌≤◌, ◌<◌, ◌≡◌, ◌≢◌, refl, List, [], ◌∷◌, ◌++◌, arith, ◌==◌,
  if◌then◌else◌, reverse, ◌∙◌, All-append,
}
use mathlib.Core.Path.{subst}
use mathlib.Core.List.{reverse-append}
use native.Mathlib.Decide.{ℕ_discrete}
use native.Mathlib.Nat.{mul-le-mul_right}
use concurrent_project.Heap.{Memory, load}
use concurrent_project.Heap.Bytes.{length-load}
use concurrent_project.Region.{Store}
use concurrent_project.Transaction.Types.{Write, Transaction, write_words, write}
use concurrent_project.Transaction.Reading.{find_write}
use concurrent_project.Transaction.Reading.Words.{seen, AreWrites}

seen-last :
    (a : ℕ) (ws : List Write) (w : Write) (word : List ℕ)
    → seen a (reverse (ws ++ w ∷ [])) word
      ≡ (if w.destination == a then w.bytes else seen a (reverse ws) word)
unfolding find_write
seen-last a ws w word = rw (reverse-append ws (w ∷ [])) (ground arith)

module _ (align : ℕ) (m : Memory) (source target segment_index : ℕ) where
  abbrev word_write : ℕ → Write
  word_write i = record {
    destination = target + i * align;
    bytes = load m (source + i * align) align;
    segment_index = segment_index;
  }

  write_words-AreWrites :
      (n i : ℕ) (ws : List Write)
      → AreWrites align ws
      → AreWrites align (write_words n i align m source target segment_index ws)
  unfolding write_words
  write_words-AreWrites zero i ws h = h
  write_words-AreWrites (suc n) i ws h =
      write_words-AreWrites n (i + 1) (ws ++ word_write i ∷ [])
        (All-append _ ws (word_write i ∷ []) h (length-load m (source + i * align) align, tt))

  write_words-elsewhere :
      (n i : ℕ) (ws : List Write) (a : ℕ) (word : List ℕ)
      → ((k : ℕ) → i ≤ k → k < i + n → target + k * align ≢ a)
      → seen a (reverse (write_words n i align m source target segment_index ws)) word
        ≡ seen a (reverse ws) word
  unfolding write_words
  write_words-elsewhere zero i ws a word h = refl
  write_words-elsewhere (suc n) i ws a word h =
      write_words-elsewhere n (i + 1) (ws ++ word_write i ∷ []) a word
        (λ k lo hi. h k (omega arith) (omega arith))
      ∙ seen-last a ws (word_write i) word
      ∙ ground (arith, h i (omega arith) (omega arith))

  later : (i k : ℕ) → i + 1 ≤ k → 0 < align → target + k * align ≢ target + i * align
  later i k low pos same =
      let le : suc i ≤ k = omega arith in omega (arith, mul-le-mul_right align le)

  write_words-here :
      (n i : ℕ) (ws : List Write) (j : ℕ) (word : List ℕ)
      → 0 < align
      → i ≤ j
      → j < i + n
      → seen
          (target + j * align)
          (reverse (write_words n i align m source target segment_index ws))
          word
        ≡ load m (source + j * align) align
  unfolding write_words
  write_words-here zero i ws j word pos lo hi = absurd (omega arith)
  write_words-here (suc n) i ws j word pos lo hi = elim (ℕ_discrete i j) [
    | yes e ↦
        subst
          (λ k.
            seen (target + k * align)
              (reverse (
                write_words n (i + 1) align m source target segment_index
                  (ws ++ word_write i ∷ [])))
              word
            ≡ load m (source + k * align) align)
          e
          (write_words-elsewhere n (i + 1) (ws ++ word_write i ∷ []) (target + i * align) word
              (λ k low high same. later i k low pos same)
            ∙ seen-last (target + i * align) ws (word_write i) word
            ∙ ground arith)
    | no ne ↦
        write_words-here n (i + 1) (ws ++ word_write i ∷ []) j word pos (omega arith) (omega arith)
  ]

-- After a write of `size` bytes the transaction sees, at each word of the target, the word of the
-- source; what it sees at any other address is as before, and its write set is still of whole words.
pub record Writes (source size target : ℕ) (s : Store) (tx tx' : Transaction) : Type 0 where
  pub here :
      (j : ℕ) (word : List ℕ)
      → j < size / s.align
      → seen (target + j * s.align) (reverse tx'.write_set) word
        ≡ load s.memory (source + j * s.align) s.align
  pub elsewhere :
      (a : ℕ) (word : List ℕ)
      → ((k : ℕ) → k < size / s.align → target + k * s.align ≢ a)
      → seen a (reverse tx'.write_set) word ≡ seen a (reverse tx.write_set) word
  pub words : AreWrites s.align tx'.write_set
  pub rest : tx' ≡ record tx { write_set = tx'.write_set }

-- With an alignment above 0 and a write set of whole words: after a write the transaction sees, at each
-- word of the target, the word of the source; what it sees at any other address is as before, its write
-- set is still of whole words, and nothing else of it has changed.
pub write-Writes :
    (source size target segment_index : ℕ) (s : Store) (tx : Transaction)
    → 0 < s.align
    → AreWrites s.align tx.write_set
    → Writes source size target s tx (write tx s source size target segment_index)
unfolding write
write-Writes source size target segment_index s tx pos writes = record {
  here = λ j word h.
      write_words-here s.align s.memory source target segment_index (size / s.align) 0 tx.write_set
        j word pos (omega arith) (omega arith);
  elsewhere = λ a word h.
      write_words-elsewhere s.align s.memory source target segment_index (size / s.align) 0
        tx.write_set a word (λ k lo hi. h k (omega arith));
  words =
      write_words-AreWrites s.align s.memory source target segment_index (size / s.align) 0
        tx.write_set writes;
  rest = refl;
}

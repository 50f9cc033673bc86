-- ===== src/Transaction/Reading/ReadWrite.antt =====
-- A read of a read-write transaction gives its own last writes, and else what is in shared memory.
use concurrent_project.Prelude.{
  sym, ℕ, zero, suc, ◌+◌, ◌*◌, ◌/◌, ◌≤◌, ◌<◌, ◌≡◌, refl, ◌⊎◌, inl, inr, Bool, true, ◌&&◌, List, [],
  ◌∷◌, ◌++◌, arith, reverse, Bool-cases, ◌∙◌, ap,
}
use mathlib.Core.Path.{subst}
use mathlib.Core.List.{append-nil, append_assoc}
use native.Mathlib.Decide.{ℕ_discrete}
use native.Mathlib.Nat.{mul-le-mul_right}
use concurrent_project.Heap.{load}
use concurrent_project.Region.{TransactionalMemory, Store, get_versioned_lock}
use concurrent_project.Transaction.Types.{Read, Transaction}
use concurrent_project.Transaction.Locking.{unlocked_and_old}
use concurrent_project.Transaction.Reading.{
  Outcome, note_read, copied_word, read_write_words, read_write_read,
}
use concurrent_project.Transaction.Reading.Words.{
  seen, Apart, AreWrites, Apart-index, load-copied_word, load-copied_word_elsewhere,
}

-- Two buffers of `n` words do not overlap.
abbrev pub Disjoint : (align n a b : ℕ) → Type 0
Disjoint align n a b = (a + n * align ≤ b) ⊎ (b + n * align ≤ a)

Apart-Disjoint :
    (align n a b j k : ℕ)
    → Disjoint align n a b
    → j < n
    → k < n
    → Apart align (a + j * align) (b + k * align)
Apart-Disjoint align n a b j k h hj hk =
    omega (arith, mul-le-mul_right align hj, mul-le-mul_right align hk)

module _ (source target segment_index : ℕ) where
  abbrev pub word_lock : TransactionalMemory → ℕ → ℕ
  word_lock tm i = get_versioned_lock tm (source + i * tm.align) segment_index

  -- The `n` words from the word `i` on are unlocked and no newer than the read version.
  abbrev pub words_old : (n i read_version : ℕ) → TransactionalMemory → (locks : ℕ → ℕ) → Bool
  words_old zero i read_version tm locks = true
  words_old (suc n) i read_version tm locks =
      unlocked_and_old read_version (locks (word_lock tm i))
      && words_old n (i + 1) read_version tm locks

  -- The entries for the `n` words from the word `i` on.
  abbrev pub reads : (n i align : ℕ) → List Read
  reads zero i align = []
  reads (suc n) i align =
      record { source = source + i * align; segment_index = segment_index } ∷ reads n (i + 1) align

  -- What a read of the words from `i` to `i + n` comes to.
  pub record ReadsWords (n i : ℕ) (tx : Transaction) (s : Store) (r : Outcome) : Type 0 where
    pub succeeds : r.0 ≡ words_old n i tx.read_version s.tm s.locks
    pub copied :
        r.0 ≡ true
        → (j : ℕ) → i ≤ j
        → j < i + n
        → load (r.2.memory) (target + j * s.align) s.align
          ≡ seen
              (source + j * s.align)
              (reverse tx.write_set)
              (load s.memory (source + j * s.align) s.align)
    pub noted : r.0 ≡ true → r.1 ≡ record tx { read_set = tx.read_set ++ reads n i s.align }
    pub apart :
        (c : ℕ)
        → ((k : ℕ) → i ≤ k → k < i + n → Apart s.align c (target + k * s.align))
        → load (r.2.memory) c s.align ≡ load s.memory c s.align
    pub rest : (r.2.tm ≡ s.tm) × (r.2.locks ≡ s.locks)

  module _ (total : ℕ) where
    -- The transaction and the store after the word `i`.
    abbrev after_one : ℕ → Transaction → Store → Transaction × Store
    after_one i tx s =
        let tx' : Transaction =
          note_read tx (record { source = source + i * s.align; segment_index = segment_index }) in
        (tx', record s { memory = copied_word tx' (source + i * s.align) (target + i * s.align) s })

    ReadsWords-suc :
        (n i : ℕ) (tx : Transaction) (s : Store) (r : Outcome)
        → i + suc n ≤ total
        → Disjoint s.align total source target
        → AreWrites s.align tx.write_set
        → unlocked_and_old tx.read_version (s.locks (word_lock s.tm i)) ≡ true
        → ReadsWords n (i + 1) (after_one i tx s).0 (after_one i tx s).1 r
        → ReadsWords (suc n) i tx s r
    ReadsWords-suc n i tx s r le disjoint writes old ih = record {
      succeeds = rw old ih.succeeds;
      copied = λ ok j lo hi. elim (ℕ_discrete i j) [
        | yes e ↦
            subst
              (λ k.
                load (r.2.memory) (target + k * s.align) s.align
                ≡ seen (source + k * s.align) (reverse tx.write_set)
                    (load s.memory (source + k * s.align) s.align))
              e
              (ih.apart (target + i * s.align)
                  (λ k low high. Apart-index s.align target i k (omega arith))
                ∙ load-copied_word (after_one i tx s).0 s (source + i * s.align)
                    (target + i * s.align) writes)
        | no ne ↦
            ih.copied ok j (omega arith) (omega arith)
            ∙ ap (seen (source + j * s.align) (reverse tx.write_set)) (
                load-copied_word_elsewhere (after_one i tx s).0 s (source + i * s.align)
                  (target + i * s.align) writes (source + j * s.align)
                  (Apart-Disjoint s.align total source target j i disjoint (omega arith)
                    (omega arith)))
      ];
      noted = λ ok.
          ih.noted ok ∙ ap (λ set. record tx { read_set = set }) (append_assoc tx.read_set _ _);
      apart = λ c h.
          ih.apart c (λ k low high. h k (omega arith) (omega arith))
          ∙ load-copied_word_elsewhere (after_one i tx s).0 s (source + i * s.align)
              (target + i * s.align) writes c (h i (omega arith) (omega arith));
      rest = ih.rest;
    }

    read_write_words-lem :
        (n i : ℕ) (tx : Transaction) (s : Store)
        → i + n ≤ total
        → Disjoint s.align total source target
        → AreWrites s.align tx.write_set
        → ReadsWords n i tx s (read_write_words n i source target segment_index tx s)
    unfolding read_write_words
    read_write_words-lem zero i tx s le disjoint writes = record {
      succeeds = refl;
      copied = λ ok j lo hi. absurd (omega arith);
      noted = λ ok. ap (λ set. record tx { read_set = set }) (sym (append-nil tx.read_set));
      apart = λ c h. refl;
      rest = (refl, refl);
    }
    read_write_words-lem (suc n) i tx s le disjoint writes =
        elim (Bool-cases (unlocked_and_old tx.read_version (s.locks (word_lock s.tm i)))) [
          | inl old ↦
              rw (old, read_write_words)
                (ReadsWords-suc n i tx s _ le disjoint writes old (
                  read_write_words-lem n (i + 1) (after_one i tx s).0 (after_one i tx s).1
                    (omega arith) disjoint writes))
          | inr newer ↦
              rw (newer, read_write_words)
                (record {
                  succeeds = rw newer;
                  copied = λ ok. cc;
                  noted = λ ok. cc;
                  apart = λ c h. refl;
                  rest = (refl, refl);
                })
        ]

-- With a write set of whole words, a read into a buffer that does not overlap what it reads succeeds exactly when every word is
-- unlocked and no newer than the read version. Then each word of the buffer is the transaction's last
-- write to the word that was read, or else the word in shared memory, and every word is entered in
-- the read set. In any case nothing but the buffer changes in memory, and no lock changes.
pub read_write_read-ReadsWords :
    (source size target segment_index : ℕ) (tx : Transaction) (s : Store)
    → Disjoint s.align (size / s.align) source target
    → AreWrites s.align tx.write_set
    → ReadsWords source target segment_index
        (size / s.align)
        0
        tx
        s
        (read_write_read source size target segment_index tx s)
unfolding read_write_read
read_write_read-ReadsWords source size target segment_index tx s disjoint writes =
    read_write_words-lem source target segment_index (size / s.align) (size / s.align) 0 tx s
      (omega arith) disjoint writes

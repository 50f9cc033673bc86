-- ===== src/Transaction/Commit/WriteBack.antt =====
-- What the write-back of a commit does to the locks and to the memory.
use concurrent_project.Prelude.{
  sym, ap, ◌∙◌, ℕ, ◌+◌, ◌^◌, ◌≤◌, ◌<◌, ◌≡◌, refl, ◌⊎◌, true, false, List, [], ◌∷◌, ◌++◌, arith,
  ◌==◌, if◌then◌else◌, All, length, reverse,
}
use mathlib.Core.List.{reverse-cons}
use concurrent_project.Heap.{update, Memory, load, store}
use concurrent_project.Heap.Bytes.{load-store_self, load-store_disjoint}
use concurrent_project.VersionedLock.{get_version_locked}
use concurrent_project.VersionedLock
use concurrent_project.VersionedLock.Pack.{FitsVersion}
use concurrent_project.VersionedLock.Cycle.{set_version_lem, set_version-lt}
use concurrent_project.Region.{TransactionalMemory}
use concurrent_project.Transaction.Types.{Write}
use concurrent_project.Transaction.Locking.{write_lock}
use concurrent_project.Transaction.Locking.Acquire.{guards}
use concurrent_project.Transaction.Reading.{find_write}
use concurrent_project.Transaction.Reading.Words.{seen}
use concurrent_project.Transaction.Commit.{Written, write_back}

module _ (tm : TransactionalMemory) (version : ℕ) where
  abbrev step : Write → Written → Written
  step w t = record {
    memory = store t.memory w.destination w.bytes;
    locks =
        update t.locks (write_lock tm w)
          (VersionedLock.set_version (t.locks (write_lock tm w)) version);
  }

  -- A lock that guards a write gets the version and keeps its bit; any other stays as it was.
  pub write_back-locks :
      (ws : List Write) (t : Written) (l : ℕ)
      → FitsVersion version
      → (guards tm l ws ≡ true
          → get_version_locked ((write_back tm version ws t).locks l)
            ≡ (version, (get_version_locked (t.locks l)).1))
        × (guards tm l ws ≡ false → (write_back tm version ws t).locks l ≡ t.locks l)
  unfolding write_back
  write_back-locks [] t l fits = ground arith
  write_back-locks (w ∷ ws) t l fits =
      ground
        (arith, write_back-locks ws (step w t) l fits, set_version_lem (t.locks l) version fits)

  pub write_back-lt :
      (ws : List Write) (t : Written) (l : ℕ)
      → t.locks l < 2 ^ 32
      → (write_back tm version ws t).locks l < 2 ^ 32
  unfolding write_back
  write_back-lt [] t l h = h
  write_back-lt (w ∷ ws) t l h =
      ground (arith, write_back-lt ws (step w t) l, set_version-lt (t.locks l) version)

seen-snoc :
    (a : ℕ) (ws : List Write) (w : Write) (word : List ℕ)
    → seen a (ws ++ w ∷ []) word ≡ seen a ws (if w.destination == a then w.bytes else word)
unfolding find_write
seen-snoc a [] w word = ground arith
seen-snoc a (v ∷ ws) w word = ground (arith, seen-snoc a ws w word)

pub seen-reverse-cons :
    (a : ℕ) (ws : List Write) (w : Write) (word : List ℕ)
    → seen a (reverse (w ∷ ws)) word
      ≡ seen a (reverse ws) (if w.destination == a then w.bytes else word)
seen-reverse-cons a ws w word = rw (reverse-cons w ws) (seen-snoc a (reverse ws) w word)

-- Words of `align` bytes at the two addresses are the same word or do not overlap.
abbrev pub SameOrApart : (align a b : ℕ) → Type 0
SameOrApart align a b = (a ≡ b) ⊎ ((a + align ≤ b) ⊎ (b + align ≤ a))

-- Every write is of one word, which is the word at `a` or does not overlap it.
abbrev pub AreWordsAt : (align a : ℕ) → List Write → Type 0
AreWordsAt align a = All (λ w. (length w.bytes ≡ align) × SameOrApart align a w.destination)

pub seen-nil : (a : ℕ) (word : List ℕ) → word ≡ seen a [] word
unfolding find_write
seen-nil a word = refl

load-store_word :
    (m : Memory) (align a : ℕ) (w : Write)
    → (length w.bytes ≡ align) × SameOrApart align a w.destination
    → load (store m w.destination w.bytes) a align
      ≡ (if w.destination == a then w.bytes else load m a align)
load-store_word m align a w (size, place) = ground (
  arith,
  load-store_self m w.destination w.bytes,
  load-store_disjoint m a align w.destination w.bytes,
)

-- When each write is of one word, which is the word at `a` or does not overlap it: after the write-back
-- the word at `a` is what the transaction saw, its last write there or else the word that was there.
pub write_back-memory :
    (tm : TransactionalMemory) (version align a : ℕ) (ws : List Write) (t : Written)
    → AreWordsAt align a ws
    → load (write_back tm version ws t).memory a align ≡ seen a (reverse ws) (load t.memory a align)
unfolding write_back
write_back-memory tm version align a [] t h = seen-nil a (load t.memory a align)
write_back-memory tm version align a (w ∷ ws) t h =
    write_back-memory tm version align a ws (step tm version w t) h.1
    ∙ ap (seen a (reverse ws)) (load-store_word t.memory align a w h.0)
    ∙ sym (seen-reverse-cons a ws w (load t.memory a align))

-- ===== src/Transaction/Opacity/Waits.antt =====
-- What the loop of a read-only transaction over one word does.
use concurrent_project.Prelude.{
  ℕ, zero, suc, ◌^◌, ◌≤◌, ◌<◌, ◌≡◌, refl, sym, ◌∙◌, ◌⊎◌, inl, inr, true, List, [], ◌∷◌, arith, All,
  Bool-cases,
}
use concurrent_project.Heap.{load, memcpy}
use concurrent_project.Heap.Bytes.{load-memcpy, load-memcpy_disjoint}
use concurrent_project.VersionedLock.{get_version_locked}
use concurrent_project.VersionedLock
use concurrent_project.Region.{Store}
use concurrent_project.Transaction.Types.{Read, Transaction}
use concurrent_project.Transaction.Locking.{is_valid_read, validate_read_set, all_of}
use concurrent_project.Transaction.Reading.{Outcome, read_only_wait}
use concurrent_project.Transaction.Reading.Words.{Apart}
use concurrent_project.Transaction.Opacity.Moves.{version, lock_of, IsTimed}

module _ (IsWord : (a segment_index : ℕ) → Type 0) where
  -- The reads that are valid are of words no newer than the read version.
  pub all_of-old :
      (tx : Transaction) (s : Store) (rs : List Read)
      → tx.read_version < 2 ^ 30
      → IsTimed IsWord s
      → s.global_clock < 2 ^ 30
      → all_of (is_valid_read tx s) rs ≡ true
      → All (λ r. version s (lock_of s r.source r.segment_index) ≤ tx.read_version) rs
  unfolding is_valid_read
  all_of-old tx s [] small timed clock valid = tt
  all_of-old tx s (r ∷ rs) small timed clock valid = (
    ground (arith, valid, timed.timed (lock_of s r.source r.segment_index)),
    all_of-old tx s rs small timed clock (ground (arith, valid)),
  )

  -- The read version is kept, or it is moved to the clock when all that was read before is valid.
  abbrev pub Later : (tx : Transaction) (s : Store) (read_version : ℕ) → Type 0
  Later tx s read_version =
      (read_version ≡ tx.read_version)
      ⊎ ((read_version ≡ s.global_clock) × (validate_read_set tx s ≡ true))

  -- What the loop over one word comes to.
  pub record Waits (versioned_lock source target : ℕ) (tx : Transaction) (s : Store) (r : Outcome)
      : Type 0 where
    pub rest : r.2 ≡ record s { memory = r.2.memory }
    pub moved : r.1 ≡ record tx { read_version = r.1.read_version }
    pub later : Later tx s r.1.read_version
    pub apart :
        (a : ℕ) → Apart s.align a target → load (r.2.memory) a s.align ≡ load s.memory a s.align
    pub copied : load (r.2.memory) target s.align ≡ load s.memory source s.align
    pub accepts :
        r.0 ≡ true → VersionedLock.unlocked_and_old (s.locks versioned_lock) r.1.read_version ≡ true

  pub read_only_wait-Waits :
      (left versioned_lock source target : ℕ) (tx : Transaction) (s : Store)
      → Apart s.align source target
      → load s.memory target s.align ≡ load s.memory source s.align
      → Waits versioned_lock source target tx s
          (read_only_wait left versioned_lock source target tx s)
  unfolding read_only_wait
  read_only_wait-Waits zero versioned_lock source target tx s apart copy = record {
    rest = refl;
    moved = refl;
    later = inl refl;
    apart = λ a h. refl;
    copied = copy;
    accepts = λ ok. absurd (cc);
  }
  read_only_wait-Waits (suc left) versioned_lock source target tx s apart copy =
      let s1 : Store = record s { memory = memcpy s.memory target source s.align } in
      let tx1 : Transaction = record tx { read_version = s.global_clock } in
      let still = load-memcpy_disjoint s.memory target source s.align source s.align apart in
      let ih =
        read_only_wait-Waits left versioned_lock source target tx1 s1 apart
          (load-memcpy s.memory target source s.align ∙ sym still) in
      elim (Bool-cases (VersionedLock.unlocked_and_old (s.locks versioned_lock) tx.read_version)) [
        | inl old ↦
            rw (old, read_only_wait)
              (record {
                rest = refl;
                moved = refl;
                later = inl refl;
                apart = λ a h. refl;
                copied = copy;
                accepts = λ ok. old;
              })
        | inr newer ↦ elim (Bool-cases (validate_read_set tx s)) [
          | inl valid ↦
              rw (newer, valid, read_only_wait)
                (record {
                  rest = ih.rest;
                  moved = ih.moved;
                  later = inr (at_clock ih.later, valid);
                  apart = λ a h.
                      ih.apart a h
                      ∙ load-memcpy_disjoint s.memory target source s.align a s.align h;
                  copied = ih.copied ∙ still;
                  accepts = ih.accepts;
                })
          | inr invalid ↦
              rw (newer, invalid, read_only_wait)
                (record {
                  rest = refl;
                  moved = refl;
                  later = inl refl;
                  apart = λ a h. refl;
                  copied = copy;
                  accepts = λ ok. absurd (cc);
                })
        ]
      ]
    where
      at_clock : {v c : ℕ} {P : Type 0} → (v ≡ c) ⊎ ((v ≡ c) × P) → v ≡ c
      at_clock (inl e) = e
      at_clock (inr (e, p)) = e

-- ===== src/Api/Kept.antt =====
-- What the calls of a transaction leave alone: the freeing lock, and the blocks given back.
use concurrent_project.Heap.{memcpy}
use concurrent_project.Prelude.{
  ℕ, zero, suc, ◌+◌, ◌*◌, ◌/◌, ◌≡◌, refl, inl, inr, Bool, true, false, not, if◌then◌else◌,
  Bool-cases, ◌∙◌,
}
use concurrent_project.VersionedLock
use concurrent_project.Region.{Store, get_versioned_lock}
use concurrent_project.Transaction.Types.{Transaction, ro_retries}
use concurrent_project.Transaction.Locking.{Held, lock_write_set, validate_read_set}
use concurrent_project.Transaction.Reading.{
  Outcome, read_write_words, read_write_read, read_only_wait, read_only_words, read_only_read, read,
}
use concurrent_project.Transaction.Commit.{
  end, end_wr, commit_locked, held_of, increment_and_fetch_global_clock,
}
use concurrent_project.Transaction.Commit.Atomic.{finish}

-- From `s` to `t` the freeing lock has not changed, and no block has been given back.
pub record Kept (s t : Store) : Type 0 where
  pub freeing : t.freeing_lock ≡ s.freeing_lock
  pub blocks : t.freed_segments ≡ s.freed_segments

pub kept : {s : Store} → Kept s s
kept = record { freeing = refl; blocks = refl }

Kept-trans : (s t u : Store) → Kept s t → Kept t u → Kept s u
Kept-trans s t u a b = record { freeing = b.freeing ∙ a.freeing; blocks = b.blocks ∙ a.blocks }

-- Each branch of a test keeps them.
if-Kept :
    (c : Bool) (s : Store) (x y : Outcome) → Kept s x.2 → Kept s y.2 → Kept s (if c then x else y).2
if-Kept true s x y kx ky = kx
if-Kept false s x y kx ky = ky

read_write_words-Kept :
    (n i source target segment_index : ℕ) (tx : Transaction) (s : Store)
    → Kept s (read_write_words n i source target segment_index tx s).2
unfolding read_write_words
read_write_words-Kept zero i source target segment_index tx s = kept
read_write_words-Kept (suc n) i source target segment_index tx s = if-Kept _ s _ _ kept (
    Kept-trans s _ _ (record { freeing = refl; blocks = refl })
      (read_write_words-Kept n (i + 1) source target segment_index _ _))

read_only_wait-Kept :
    (left versioned_lock source target : ℕ) (tx : Transaction) (s : Store)
    → Kept s (read_only_wait left versioned_lock source target tx s).2
unfolding read_only_wait
read_only_wait-Kept zero versioned_lock source target tx s = kept
read_only_wait-Kept (suc left) versioned_lock source target tx s =
    if-Kept (VersionedLock.unlocked_and_old (s.locks versioned_lock) tx.read_version) s
      (true, tx, s) (if not (validate_read_set tx s) then (false, tx, s) else again) kept
      (if-Kept (not (validate_read_set tx s)) s (false, tx, s) again kept
        (Kept-trans s copied again.2 (record { freeing = refl; blocks = refl })
          (read_only_wait-Kept left versioned_lock source target noted copied)))
  where
    noted : Transaction
    noted = record tx { read_version = s.global_clock }

    copied : Store
    copied = record s { memory = memcpy s.memory target source s.align }

    again : Outcome
    again = read_only_wait left versioned_lock source target noted copied

read_only_words-Kept :
    (n i source target segment_index : ℕ) (tx : Transaction) (s : Store)
    → Kept s (read_only_words n i source target segment_index tx s).2
unfolding read_only_words
read_only_words-Kept zero i source target segment_index tx s = kept
read_only_words-Kept (suc n) i source target segment_index tx s =
    if-Kept _ s _ _
      (Kept-trans s _ _ waited (read_only_words-Kept n (i + 1) source target segment_index _ _))
      waited
  where
    cur_source : ℕ
    cur_source = source + i * s.align

    cur_target : ℕ
    cur_target = target + i * s.align

    copied : Store
    copied = record s { memory = memcpy s.memory cur_target cur_source s.align }

    waited :
        Kept s
          (read_only_wait ro_retries
            (get_versioned_lock s.tm cur_source segment_index)
            cur_source
            cur_target
            tx
            copied).2
    waited =
        Kept-trans s copied _ (record { freeing = refl; blocks = refl })
          (read_only_wait-Kept ro_retries (get_versioned_lock s.tm cur_source segment_index)
            cur_source cur_target tx copied)

pub read-Kept :
    (source size target segment_index : ℕ) (tx : Transaction) (s : Store)
    → Kept s (read source size target segment_index tx s).2
unfolding read read_write_read read_only_read
read-Kept source size target segment_index tx s =
    if-Kept tx.is_ro s _ _
      (read_only_words-Kept (size / s.align) 0 source target segment_index tx s)
      (read_write_words-Kept (size / s.align) 0 source target segment_index tx s)

commit_locked-Kept : (tx : Transaction) (s : Store) → Kept s (commit_locked tx s).2
unfolding commit_locked
commit_locked-Kept tx s =
    let (tx1, s1) = increment_and_fetch_global_clock tx s in
    elim (Bool-cases (validate_read_set tx1 s1)) [
      | inl e ↦ rw (e, commit_locked) (record { freeing = refl; blocks = refl })
      | inr e ↦ rw (e, commit_locked) (record { freeing = refl; blocks = refl })
    ]

finish-Kept : (tx : Transaction) (s : Store) (r : Bool × Held) → Kept s (finish tx s r).2
finish-Kept tx s (ok, h) =
    if-Kept (not ok) s _ _ (record { freeing = refl; blocks = refl })
      (Kept-trans s (record s { locks = h.locks }) _ (record { freeing = refl; blocks = refl })
        (commit_locked-Kept (record tx { locked_set = h.locked_set })
          (record s { locks = h.locks })))

end_wr-Kept : (tx : Transaction) (s : Store) → Kept s (end_wr tx s).2
unfolding end_wr
end_wr-Kept tx s = finish-Kept tx s (lock_write_set s.tm tx.write_set (held_of tx s))

pub end-Kept : (tx : Transaction) (s : Store) → Kept s (end tx s).2
unfolding end
end-Kept tx s = if-Kept tx.is_ro s _ _ kept (end_wr-Kept tx s)

-- ===== src/Transaction/Reading.antt =====
-- 358982/Transaction.cpp: the two kinds of read, word by word.
pub mod Words
pub mod ReadWrite
use concurrent_project.Prelude.{
  ℕ, zero, suc, ◌+◌, ◌*◌, ◌/◌, Bool, true, false, not, Option, none, some, List, [], ◌∷◌, ◌++◌,
  reverse, ◌==◌, if◌then◌else◌,
}
use concurrent_project.Heap.{Memory, store, memcpy}
use concurrent_project.VersionedLock
use concurrent_project.Region.{Store, get_versioned_lock}
use concurrent_project.Transaction.Types.{Write, Read, Transaction, ro_retries}
use concurrent_project.Transaction.Locking.{unlocked_and_old, validate_read_set}

-- What a read leaves: whether the transaction can go on, the transaction, and the memory in which the
-- words were copied to the target.
abbrev pub Outcome : Type 0
Outcome = Bool × Transaction × Store

-- `write_set` searched from its end.
unfoldable pub find_write : (address : ℕ) → List Write → Option Write
find_write address [] = none
find_write address (w ∷ ws) = if w.destination == address then some w else find_write address ws

-- The memory after the memcpy of a word, from the last write to its address or else from shared
-- memory.
unfoldable pub copied_word : Transaction → (source target : ℕ) → Store → Memory
unfolding find_write
copied_word tx source target s = elim (find_write source (reverse tx.write_set)) [
  | none ↦ memcpy s.memory target source s.align
  | some w ↦ store s.memory target w.bytes
]

-- `read_set.emplace_back`
abbrev pub note_read : Transaction → Read → Transaction
note_read tx r = record tx { read_set = tx.read_set ++ r ∷ [] }

-- The loop of `read_write_read` over `n` words from the word `i` on.
unfoldable pub read_write_words :
    (n i source target segment_index : ℕ) → Transaction → Store → Outcome
unfolding copied_word
read_write_words zero i source target segment_index tx s = (true, tx, s)
read_write_words (suc n) i source target segment_index tx s =
    let cur_source = source + i * s.align in
    let cur_target = target + i * s.align in
    let versioned_lock = get_versioned_lock s.tm cur_source segment_index in
    let tx' : Transaction =
      note_read tx (record { source = cur_source; segment_index = segment_index }) in
    let rest =
      read_write_words n (i + 1) source target segment_index tx'
        (record s { memory = copied_word tx' cur_source cur_target s }) in
    if not (unlocked_and_old tx.read_version (s.locks versioned_lock)) then (false, tx, s) else rest

unfoldable pub read_write_read :
    (source size target segment_index : ℕ) → Transaction → Store → Outcome
unfolding read_write_words
read_write_read source size target segment_index tx s =
    read_write_words (size / s.align) 0 source target segment_index tx s

-- The `while` loop of `read_only_read`; `left` is `RO_RETRIES - retries`.
unfoldable pub read_only_wait :
    (left versioned_lock source target : ℕ) → Transaction → Store → Outcome
read_only_wait zero versioned_lock source target tx s = (false, tx, s)
read_only_wait (suc left) versioned_lock source target tx s =
    let current_time = s.global_clock in
    let again =
      read_only_wait left versioned_lock source target (record tx { read_version = current_time })
        (record s { memory = memcpy s.memory target source s.align }) in
    if VersionedLock.unlocked_and_old (s.locks versioned_lock) tx.read_version
    then (true, tx, s)
    else if not (validate_read_set tx s)
    then (false, tx, s)
    else again

-- The loop of `read_only_read` over `n` words from the word `i` on.
unfoldable pub read_only_words :
    (n i source target segment_index : ℕ) → Transaction → Store → Outcome
read_only_words zero i source target segment_index tx s = (true, tx, s)
read_only_words (suc n) i source target segment_index tx s =
    let cur_source = source + i * s.align in
    let cur_target = target + i * s.align in
    let s1 : Store = record s { memory = memcpy s.memory cur_target cur_source s.align } in
    let versioned_lock = get_versioned_lock s.tm cur_source segment_index in
    let (ok, tx', s') = read_only_wait ro_retries versioned_lock cur_source cur_target tx s1 in
    let rest =
      read_only_words n (i + 1) source target segment_index
        (note_read tx' (record { source = cur_source; segment_index = segment_index })) s' in
    if ok then rest else (false, tx', s')

unfoldable pub read_only_read :
    (source size target segment_index : ℕ) → Transaction → Store → Outcome
unfolding read_only_words
read_only_read source size target segment_index tx s =
    read_only_words (size / s.align) 0 source target segment_index tx s

unfoldable pub read : (source size target segment_index : ℕ) → Transaction → Store → Outcome
read source size target segment_index tx s =
    if tx.is_ro
    then read_only_read source size target segment_index tx s
    else read_write_read source size target segment_index tx s

-- ===== src/Transaction/Opacity/Tests.antt =====
-- A transaction beside another, in the sample region.
use concurrent_project.Prelude.{
  ℕ, ◌%◌, ◌≤◌, ◌<◌, ◌≡◌, refl, inl, inr, true, false, [], ◌∷◌, arith, All, reverse,
}
use native.Mathlib.Decide.{ℕ_discrete}
use concurrent_project.Heap.Bytes.{length-load}
use concurrent_project.Heap.{load, memcpy}
use concurrent_project.Region.{Store, get_versioned_lock}
use concurrent_project.Region.Samples.{region, world}
use concurrent_project.VersionedLock
use concurrent_project.VersionedLock.{
  get_version_locked, try_lock, unlock, set_version, form_version_locked,
}
use concurrent_project.Transaction.Types.{Transaction, create, write}
use concurrent_project.Transaction.Locking.{unlocked_and_old}
use concurrent_project.Transaction.Reading.{read_only_read, read_write_read, read_only_wait}
use concurrent_project.Transaction.Reading.Words.{seen}
use concurrent_project.Transaction.Commit.{end_wr}
use concurrent_project.Transaction.Opacity
use concurrent_project.Transaction.Opacity.{
  after_read, scans, after_scan, Live, IsLayout, Reach, starts, goes, begins, writes, ends,
}
use concurrent_project.Transaction.Opacity.Moves.{IsTimed}
use concurrent_project.Transaction.Opacity.Stale.{reader_during, copied_before, stale_read}
use concurrent_project.Transaction.Opacity.Serial.{Reach-view, Reach-serial, Reach-shown}

-- The four words of the segment.
abbrev IsWord : (a segment_index : ℕ) → Type 0
IsWord a i = (a % 4 ≡ 0) × (4096 ≤ a) × (a < 4112) × (i ≡ 0)

IsWord-IsLayout : IsLayout 4 IsWord
IsWord-IsLayout = record {
  positive = omega arith;
  separate = λ a i b j ha hb. elim (ℕ_discrete a b) [
    | yes e ↦ inl (e, omega (arith, ha, hb))
    | no ne ↦ inr (omega (arith, ha, hb, ne))
  ];
}

world-IsTimed : IsTimed IsWord world
unfolding get_version_locked
world-IsTimed = record { words = λ l. ground arith; timed = λ l. ground arith }

-- It has begun and written the second word.
abbrev started : Live
started = record { tx = create region false; view = world.memory; shown = []; given = [] }

abbrev writer : Live
unfolding create write
writer = record {
  tx = write started.tx world 300 4 4100 0;
  view = world.memory;
  shown = [];
  given = [];
}

-- Two have begun, and the later one has written.
writer-Reach : Reach IsWord world 3 (record { store = world; running = writer ∷ started ∷ [] })
unfolding create write
writer-Reach = goes (goes (goes starts (begins false)) (begins false)) (
    writes [] started (started ∷ []) 300 4 4100 0
      (λ k lt. (omega (arith, lt), omega arith, omega (arith, lt), refl)))

-- It has committed, and the other one reads the first word into a buffer at 200.
abbrev later : Store
later = (end_wr writer.tx world).2

later-Reach : Reach IsWord world 4 (record { store = later; running = started ∷ [] })
unfolding create write writer
later-Reach = goes writer-Reach (ends [] writer (started ∷ []) refl)

first_read : (read_write_read 4096 4 200 0 started.tx later).0 ≡ true
unfolding create write read_write_read end_wr unlocked_and_old get_version_locked get_versioned_lock
    try_lock unlock set_version form_version_locked
first_read = refl

Reach-view_example :
    load (read_write_read 4096 4 200 0 started.tx later).2.memory 200 4
    ≡ seen 4096 [] (load world.memory 4096 4)
unfolding create end_wr writer try_lock get_versioned_lock
Reach-view_example =
    Reach-view IsWord world later 4 [] started [] IsWord-IsLayout world-IsTimed (omega arith)
      later-Reach 4096 4 200 0 (λ k lt. (omega (arith, lt), omega arith, omega (arith, lt), refl))
      (inr (omega arith)) first_read 0 (omega arith)

-- It reads the first word and the second, which it has written, into a buffer at 200, and commits.
abbrev mixed : Live
mixed = after_read 4096 8 200 0 writer world

abbrev mixed_store : Store
mixed_store = (read_write_read 4096 8 200 0 writer.tx world).2

own_read : (read_write_read 4096 8 200 0 writer.tx world).0 ≡ true
unfolding writer create write read_write_read unlocked_and_old get_version_locked get_versioned_lock
own_read = refl

mixed-Reach : Reach IsWord world 4 (record { store = mixed_store; running = mixed ∷ started ∷ [] })
unfolding create write writer
mixed-Reach = goes writer-Reach (
    Opacity.reads [] writer (started ∷ []) refl 4096 8 200 0
      (λ k lt. (omega (arith, lt), omega arith, omega (arith, lt), refl))
      (λ a i k place lt. inr (omega (arith, place, lt))) (inr (omega arith)) own_read)

mixed_commits : (end_wr mixed.tx mixed_store).0 ≡ true
unfolding writer create write read_write_read unlocked_and_old end_wr get_version_locked
    get_versioned_lock try_lock unlock set_version form_version_locked
mixed_commits = refl

Reach-serial_example :
    All
      (λ r.
        load mixed_store.memory r.source mixed_store.align
        ≡ load mixed.view r.source mixed_store.align)
      mixed.tx.read_set
    × All
        (λ g.
          g.bytes
          ≡ seen g.entry.source
              (reverse g.writes)
              (load mixed_store.memory g.entry.source mixed_store.align))
        mixed.given
    × ((a i : ℕ)
        → IsWord a i
        → load (end_wr mixed.tx mixed_store).2.memory a mixed_store.align
          ≡ seen a (reverse mixed.tx.write_set) (load mixed_store.memory a mixed_store.align))
Reach-serial_example =
    Reach-serial IsWord world mixed_store 4 [] mixed (started ∷ []) IsWord-IsLayout world-IsTimed
      (omega arith) mixed-Reach mixed_commits

-- A read-only transaction has begun before the writer and reads the first word before the commit and the
-- second after it, into a buffer at 200: its read version moves.
abbrev reader : Live
reader = record { tx = create region true; view = world.memory; shown = []; given = [] }

abbrev once : Live
once = after_scan 4096 4 200 0 reader world

abbrev after_once : Store
after_once = (read_only_read 4096 4 200 0 reader.tx world).2

abbrev after_commit : Store
after_commit = (end_wr writer.tx after_once).2

abbrev twice : Live
twice = after_scan 4100 4 204 0 once after_commit

abbrev after_twice : Store
after_twice = (read_only_read 4100 4 204 0 once.tx after_commit).2

once_read : (read_only_read 4096 4 200 0 reader.tx world).0 ≡ true
unfolding create read_only_read get_versioned_lock read_only_wait VersionedLock.unlocked_and_old
once_read = refl

twice_read : (read_only_read 4100 4 204 0 once.tx after_commit).0 ≡ true
unfolding create write writer read_only_read end_wr get_version_locked get_versioned_lock try_lock
    read_only_wait VersionedLock.unlocked_and_old unlock set_version
twice_read = refl

moved_on : twice.tx.read_version ≡ 3
unfolding create write writer read_only_read end_wr get_version_locked get_versioned_lock try_lock
    read_only_wait VersionedLock.unlocked_and_old unlock set_version
moved_on = refl

twice-Reach : Reach IsWord world 6 (record { store = after_twice; running = twice ∷ [] })
unfolding create write writer read_only_read read_only_wait VersionedLock.unlocked_and_old
    get_versioned_lock end_wr try_lock
twice-Reach =
    goes
      (goes
        (goes
          (goes (goes (goes starts (begins true)) (begins false)) (
            writes [] started (reader ∷ []) 300 4 4100 0
              (λ k lt. (omega (arith, lt), omega arith, omega (arith, lt), refl))))
          (scans (writer ∷ []) reader [] refl 4096 4 200 0
            (λ k lt. (omega (arith, lt), omega arith, omega (arith, lt), refl))
            (λ a i k place lt. inr (omega (arith, place, lt))) once_read))
        (ends [] writer (once ∷ []) refl))
      (scans [] once [] refl 4100 4 204 0
        (λ k lt. (omega (arith, lt), omega arith, omega (arith, lt), refl))
        (λ a i k place lt. inr (omega (arith, place, lt))) twice_read)

Reach-shown_example : All (λ p. load twice.view p.0.source 4 ≡ p.1) twice.shown
unfolding read_only_read load end_wr writer try_lock read_only_wait VersionedLock.unlocked_and_old
    get_versioned_lock unlock set_version
Reach-shown_example =
    Reach-shown IsWord world after_twice 6 [] twice [] IsWord-IsLayout world-IsTimed (omega arith)
      twice-Reach

-- It has written the second word and the third; a reader has a buffer at 200.
abbrev both : Transaction
unfolding create write
both = write started.tx world 300 8 4100 0

both_commit : (end_wr both world).0 ≡ true
unfolding create write end_wr get_version_locked get_versioned_lock try_lock unlock set_version
    form_version_locked
both_commit = refl

stale_read_example :
    let reader = reader_during both world in
    let s1 = copied_before 4100 200 both world in
    let r = read_only_wait 10 101 4100 200 reader s1 in
    let r' =
      read_only_wait 10 102 4104 204 reader (record s1 { memory = memcpy s1.memory 204 4104 4 }) in
    (r ≡ (true, reader, s1))
    × (load s1.memory 200 4 ≡ load world.memory 4100 4)
    × (r'.0 ≡ true)
    × (load r'.2.memory 204 4 ≡ seen 4104 (reverse both.write_set) (load world.memory 4104 4))
unfolding create write get_versioned_lock
stale_read_example =
    stale_read both world 4100 4104 200 204 0 refl world-IsTimed.words (omega arith) both_commit
      refl refl
      (
        (length-load world.memory 300 4, inr (inr (omega arith))),
        ((length-load world.memory 304 4, inl refl), tt),
      )
      (inr (omega arith))

-- ===== src/Transaction/Tests.antt =====
-- The theorems on transactions, for one that has read and written.
use concurrent_project.Prelude.{◌/◌, refl, inr, false, [], ◌∷◌, arith, ◌==◌, if◌then◌else◌}
use concurrent_project.Region.Samples.{region, world}
use concurrent_project.Transaction.Types.{Transaction, write}
use concurrent_project.Transaction.Locking.{Held, lock_write_set}
use concurrent_project.Transaction.Locking.Acquire.{AreWords}
use concurrent_project.Transaction.Locking.Rollback.{none_held, AllOrNone, lock_write_set-AllOrNone}
use concurrent_project.Transaction.Reading.{read_write_read}
use concurrent_project.Transaction.Reading.ReadWrite.{ReadsWords, read_write_read-ReadsWords}
use concurrent_project.Transaction.Writing.{Writes, write-Writes}
use concurrent_project.Transaction.Commit.{end_wr}
use concurrent_project.Transaction.Commit.Outcome.{IsAtomic}
use concurrent_project.Transaction.Commit.Atomic.{end_wr-IsAtomic}

-- It began at clock 2, read the first word and wrote the second.
abbrev pub sample : Transaction
sample = record {
  is_ro = false;
  read_version = 2;
  write_version = 4_294_967_295;
  read_set = record { source = 4096; segment_index = 0 } ∷ [];
  write_set = record { destination = 4100; bytes = 1 ∷ 2 ∷ 3 ∷ 4 ∷ []; segment_index = 0 } ∷ [];
  locked_set = [];
}

world-AreWords : AreWords world.locks
world-AreWords l = ground arith

end_wr-IsAtomic_example : IsAtomic sample world (end_wr sample world)
end_wr-IsAtomic_example = end_wr-IsAtomic sample world refl world-AreWords (omega arith)

lock_write_set-AllOrNone_example :
    AllOrNone region sample.write_set world.locks
      (lock_write_set region sample.write_set (none_held world.locks))
lock_write_set-AllOrNone_example =
    lock_write_set-AllOrNone region sample.write_set world.locks world-AreWords

-- It reads both words into a buffer at 200.
read_write_read-ReadsWords_example :
    ReadsWords 4096 200 0 (8 / 4) 0 sample world (read_write_read 4096 8 200 0 sample world)
read_write_read-ReadsWords_example =
    read_write_read-ReadsWords 4096 8 200 0 sample world (inr (omega arith)) (refl, tt)

-- It writes 8 bytes from 300 on to the second word and the third.
write-Writes_example : Writes 300 8 4100 world sample (write sample world 300 8 4100 0)
write-Writes_example = write-Writes 300 8 4100 0 world sample (omega arith) (refl, tt)

-- The second word's lock is held.
abbrev held : Held
held = record { locked_set = 101 ∷ []; locks = λ l. if l == 101 then 1 else 0 }

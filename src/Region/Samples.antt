-- ===== src/Region/Samples.antt =====
-- A small region that the tests share: one segment of four words of four bytes.
use concurrent_project.Prelude.{◌%◌, [], ◌==◌, if◌then◌else◌}
use concurrent_project.SharedMutex.{unheld}
use concurrent_project.MemorySegment.{MemorySegment, null_segment}
use concurrent_project.Region.{TransactionalMemory, Store, in_use, absent}

abbrev pub segment : MemorySegment
segment = record { size = 16; data_address = 4096; versioned_locks = 100 }

-- Two commits have gone by.
abbrev pub region : TransactionalMemory
region = record {
  start_segment = segment;
  size = 16;
  align = 4;
  global_clock = 2;
  freeing_lock = unheld;
  allocating_lock = unheld;
  transactions_committed_since_last_free = 2;
  segment_status = λ i. if i == 0 then in_use else absent;
  max_segments = 4;
  n_segments = 1;
  segments = λ i. if i == 0 then segment else null_segment;
  real_segment_address_prefix = 0;
}

-- The first word is at version 1, the others are at version 0; byte `a` holds `a` modulo 256.
abbrev pub world : Store
world = record {
  tm = region;
  memory = λ a. a % 256;
  locks = λ l. if l == 100 then 2 else 0;
  freed_segments = [];
}

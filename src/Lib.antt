-- ===== src/Lib.antt =====
-- A software transactional memory (358982/) with its grading harness (grading/) and a playground.
--
-- The library in 358982/ gives its client a region of shared memory and transactions on it. A region
-- (TransactionalMemory) has a global clock and a table of segments; a segment has one versioned lock
-- for each aligned word. A transaction reads words whose lock is free and no newer than the clock value
-- at which it began, keeps its writes to itself, and at its end locks what it wrote, moves the clock,
-- checks what it read, and publishes its writes under the new clock value.
--
-- Files and what they model:
--   VersionedLock   358982/versioned_lock.cpp; Pack: the packing of version and bit; Cycle: the effect
--                   of each operation on version and bit.
--   Heap            the process's memory, byte by byte, with memcpy and memset.
--   SharedMutex     std::shared_mutex as the region uses it.
--   MemorySegment   358982/MemorySegment.cpp.
--   Region          358982/TransactionalMemory.cpp; Pointers: the opaque pointers and the locks of
--                   words; Segments: cleaning and growing the table.
--   Transaction     358982/Transaction.cpp; Types: its data, constructor, write and clean_up; Locking,
--                   Reading and Commit: the other methods, each with its theorems in child modules;
--                   Opacity: transactions that run together, as a step relation; Moves, Still and Ends: what
--                   a step leaves alone; Waits, Ready, Scans and Views: the reads of a read-only
--                   transaction; Reads: those of a read-write one; Snapshot: the invariant; Serial: what is read and published; Stale: a
--                   read access by access.
--   Api             358982/tm.cpp, the exported functions; Segments: allocation; Kept: what the calls
--                   of a transaction leave alone; Runs: any sequence of calls.
--   Bank            the transactions of grading/workload.hpp; Totals: the money of a bank and what the
--                   long transaction finds; Allocation and Transfer: the other two; Runs: any sequence;
--                   Countdown: the threads' loop of `check`; Linked: `init` and `long_tx` on the
--                   segments as they are linked in memory.
--   Client          the transaction and the retry loop of grading/transactional.hpp, over any library;
--                   Protocol: what they leave live; Regions: the wrapper of a region;
--                   Closures: what a closure does on a memory, and in a try; Shared: the values in
--                   shared memory, as parts of a closure.
--   Barrier         Barrier of grading/common.hpp; Rounds: the phases of a round; Order: a step in each;
--                   Safety: what the barrier promises.
--   Chrono          Chrono of grading/common.hpp.
--   Spinlock        358982/spinlock.cpp; Exclusion: who holds the lock.
--   Playground      playground/entrypoint.cpp and runner.cpp; Counting and Schedule: what the threads and
--                   the counters come to; Progress: that the threads can end.
--   Reference       reference/tm.c; Lock: shared-lock.c; Chain, Segments and Unlink: the doubly linked list of
--                   segments; Runs: the calls of any transactions, and their abstract view; Refine and
--                   Refinement: that the view is right; Destroy and Lifecycle: from tm_create to
--                   tm_destroy; Snapshot: what a reader sees.
--   Sync            the class Sync of grading/grading.cpp and the latch of grading/common.hpp; Phases and
--                   Turns: the phases of a round; Workers, Ends, Closing and Answers: each access in
--                   each phase; Safety: what the master may rely on.
--   Grading         measure and main of grading/grading.cpp; Median: what measure returns; Exit: what main
--                   makes of it.
--   ProducerConsumer  sync-examples/procon3.c; Order: what the consumer gets; Locked: procon2.c, procon4.c and
--                   lock.c; Simulation and Refinement: that they refine procon3.c; Wakeups: that no wake-up
--                   of procon4.c is lost.
--   Election        sync-examples/election4.c; Leaders: that each round has one leader; Ends: that the
--                   loops end.
--   Prelude         shared notation, lists, order, bits and 32-bit integers.
--
-- How the model stands to the code. A method is a function of the values of the fields it uses, with
-- the names of the source, and gives the new values. `Store` is a region with the memory, the words
-- of all locks and the log of the words and lock arrays of segments that were given back to the
-- allocator; other blocks (segment objects, the tables that realloc moves, what a transaction owns)
-- are not in the log. Addresses and 64-bit integers are natural numbers, and conversions and shifts
-- keep the bits of their type. An `int` is its 32-bit pattern, and signed comparisons and shifts are
-- written out on it; where its overflow is undefined the model wraps around, as the compiled code
-- does.
--
-- Concurrency. A method of a versioned lock takes the word that it loads and the word that it finds
-- when it writes; the spin lock, the barrier, Sync, the playground, the election and the producer and
-- consumer run access by access, in any order of the threads (of the spin lock, by threads that give
-- back only what they have), the countdown of `check` transaction by transaction, and the
-- transactions of one region method by method, where a read, a write and an end are each one step.
-- All else runs call by call: a method's theorem is about the state that the method finds, and other
-- threads may have brought about any state that its hypotheses allow. The waits are results: a call
-- that spins on a lock that nobody gives back in its own time gives `none` or `spins`. In Opacity the
-- segments stay as they are: allocation and freeing are no steps there. Weak memory is not modelled.
--
-- Loops are recursion on the number of rounds that the code computes before the loop or on the list
-- that it goes through, so that nothing can run out. The one loop that waits with a limit, in
-- read_only_read, recurses on the retries that are left of RO_RETRIES. The loop of Linked.long_tx over
-- the segments in memory has fuel, of which one round more than there are segments is enough.
--
-- The grading code runs on any library, which it loads: Client takes the library's functions as a record
-- and what they do with live transactions as named laws, and Bank takes a transaction as what its
-- closure does in the try that commits. A balance is a 64-bit pattern; the loops over segments are
-- recursion on the list of segments that is linked in memory, and the loop of `transactional`, which may
-- go on for ever, is a relation. Client.Closures has what a closure does on a memory, and the laws of
-- a library that gives a transaction such a memory; Bank.Linked has `init` and `long_tx` as closures.
--
-- Parameters: the clock's readings, the results of aligned_alloc and of new, and the entries that
-- realloc leaves uninitialised. malloc of a word is taken to succeed. A null segment is read as an
-- empty segment at address 0, where the code's behaviour is undefined. The set of locks of a
-- transaction is a list of which only membership is used.
--
-- The reference memory's list of segments is followed through its pointers: a node is a block on the
-- heap at its address, an access through a pointer to no node is a fault, and the bytes of the
-- segments are kept apart from the nodes, since the interface lets a client write into its segments
-- only. Its loop in tm_destroy has fuel, one round for each node and one more. A begin that has to
-- wait may be called again.
--
-- Not modelled: log and macros (output and attributes), test.cpp (commented out), template/ (stubs), the
-- counters, procon1.c and election1.c to election3.c of sync-examples/, submit.py, bounded_run of
-- grading/common.hpp, the clock of Sync, the start of threads and output, and shared_lock_cleanup of
-- reference/shared-lock.c, which gives back what the system keeps for a lock.
pub mod Prelude
pub mod VersionedLock
pub mod Heap
pub mod SharedMutex
pub mod MemorySegment
pub mod Region
pub mod Transaction
pub mod Api
pub mod Bank
pub mod Client
pub mod Playground
pub mod Spinlock
pub mod Barrier
pub mod Chrono
pub mod Reference
pub mod Sync
pub mod Grading
pub mod ProducerConsumer
pub mod Election

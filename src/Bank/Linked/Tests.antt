-- ===== src/Bank/Linked/Tests.antt =====
-- A run of `long_tx` on a segment in memory.
use concurrent_project.Prelude.{
  some, ℕ, zero, suc, ◌+◌, ◌*◌, ◌<◌, ◌≡◌, refl, ◌⊎◌, true, false, some, [], ◌∷◌, leb, arith,
}
use concurrent_project.Heap.{Memory, load, update}
use concurrent_project.Api.{nomem}
use concurrent_project.Client.{Library, Transaction, run, throws, value, transaction_retry}
use concurrent_project.Client.Closures.{Holds}
use concurrent_project.Client.Shared.Words.{word_of}
use concurrent_project.Bank
use concurrent_project.Bank.{AccountSegment, Workload}
use concurrent_project.Client.Closures.{eval}
use concurrent_project.Bank.Linked.Start.{segment_in, eval-init}
use concurrent_project.Bank.Linked.{make_accounts, check_first, long_tx}
use concurrent_project.Bank.Linked.Sums.{IsLinked, word_at}
use concurrent_project.Bank.Linked.Control.{run-long_tx}

-- A library that only reads one memory; a read below address 8 fails.
abbrev reader : Library Memory
reader = record {
  begin = λ ro m. (7, m);
  end = λ tx m. (true, m);
  read = λ tx source size m. (leb 8 source, load m source size, m);
  write = λ tx source size target m. (false, m);
  alloc = λ tx size m. (nomem, 0, m);
  free = λ tx target m. (false, m);
}

reader-Holds : Holds reader (λ m. m)
reader-Holds = record {
  reading = λ tx source size m ok. (refl, refl);
  writing = λ tx source size target m ok. absurd (cc);
  allocating = λ tx size m ok. absurd (cc);
  freeing = λ tx target m ok. absurd (cc);
}

-- At address 8, a segment with one account of 5.
abbrev memory : Memory
memory = update (update (λ a. 0) 8 1) 32 5

abbrev segment : AccountSegment
segment = record { count = 1; parity = 0; accounts = λ i. 5 }

memory-IsLinked : IsLinked memory 8 (segment ∷ [])
unfolding load word_of
memory-IsLinked = (λ e. cc, refl, refl, refl, account, refl)
  where
    account : (i : ℕ) → i < 1 → word_at memory (8 + 24 + i * 8) ≡ 5
    account zero lt = refl
    account (suc i) lt = absurd (omega (arith, lt))

run-long_tx_example :
    let w : Workload = record { nbaccounts = 1; init_balance = 5 } in
    let t : Transaction = record { tx = 7; aborted = false; is_ro = true } in
    let r = run reader true (long_tx true w 2 8 0) t memory in
    (r.0 ≡ throws transaction_retry)
    ⊎ (r.0 ≡ value (some (Bank.long_tx w (segment ∷ []) 0))) × (r.2 ≡ memory)
run-long_tx_example =
    run-long_tx reader true (λ m. m) reader-Holds (record { nbaccounts = 1; init_balance = 5 })
      (segment ∷ []) 2 8 0 (record { tx = 7; aborted = false; is_ro = true }) memory (omega arith)
      memory-IsLinked

-- The same segment before `init`, in a memory of zeros.
blank_last : word_at (λ a. 0) (8 + 8) ≡ 0
unfolding load word_of
blank_last = refl

eval-init_example :
    let w : Workload = record { nbaccounts = 2; init_balance = 5 } in
    let made = Bank.init w (segment_in (λ a. 0) 8) in
    (m' : Memory) × (eval (make_accounts true w 8) [] (λ a. 0) ≡ some (tt, m'))
    × IsLinked m' 8 (made.1 ∷ [])
    × (eval (check_first true w 8) [] m' ≡ some (made.0, m'))
eval-init_example =
    eval-init true (record { nbaccounts = 2; init_balance = 5 }) 8 (λ a. 0) (λ e. cc) refl
      (omega arith) (omega arith) blank_last

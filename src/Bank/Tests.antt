-- ===== src/Bank/Tests.antt =====
-- Tests of the bank, and its theorems at a small bank.
use concurrent_project.Bank.Countdown
use concurrent_project.Bank.Countdown.{
  reading, decreasing, violated, lefts, IsEnded, init_counter, reached_zero, Reach-reached_zero,
}
use concurrent_project.Prelude.{
  ◌≢◌, All, ◌^◌, ◌<◌, ◌≡◌, refl, true, some, List, [], ◌∷◌, arith, ◌==◌, if◌then◌else◌,
}
use concurrent_project.Bank.{
  passing, AccountSegment, Workload, long_tx, remove_account, alloc_from, alloc_tx, find_accounts,
  read_balance, write_balance, transfer, short_tx, fill_accounts, init,
}
use concurrent_project.Bank.Totals.{population, all_solvent}
use concurrent_project.Bank.Allocation.{Allocates, alloc_tx-Allocates}
use concurrent_project.Bank.Transfer.{Transfers, short_tx-Transfers}
use concurrent_project.Bank.Runs.{transfers, done, more, long_tx-Steps}

abbrev workload : Workload
workload = record { nbaccounts = 2; init_balance = 5 }

-- A full segment and one of one account; a transfer has moved one unit.
abbrev first : AccountSegment
first = record { count = 2; parity = 0; accounts = λ i. if i == 0 then 4 else 6 }

abbrev second : AccountSegment
second = record { count = 1; parity = 0; accounts = λ i. 5 }

abbrev bank : List AccountSegment
bank = first ∷ second ∷ []

-- The last account is removed with its segment, and a fourth one finds room.
remove_last : alloc_tx workload 2 first (second ∷ []) ≡ some (first ∷ [])
unfolding alloc_tx alloc_from remove_account
remove_last = refl

find_third : find_accounts bank 0 (passing 2) (passing 0) ≡ some ((1, 0), (0, 0))
unfolding find_accounts
find_third = refl

alloc_tx-Allocates_example : Allocates workload (alloc_tx workload 2 first (second ∷ []))
alloc_tx-Allocates_example =
    alloc_tx-Allocates workload 2 first (second ∷ [])
      ((omega arith, omega arith), ((omega arith, omega arith), tt)) refl (omega arith)
      (omega arith)

short_tx-Transfers_example : Transfers bank 2 0 (short_tx bank 2 0)
short_tx-Transfers_example = short_tx-Transfers bank 2 0

abbrev fresh : AccountSegment
fresh = record { count = 0; parity = 0; accounts = λ i. 0 }

-- A transfer from the second account to the first.
abbrev moved : List AccountSegment
moved = (short_tx ((init workload fresh).1 ∷ []) 1 0).1

moved-few : population moved < 2 ^ 64
unfolding init fill_accounts short_tx find_accounts transfer write_balance read_balance
moved-few = omega arith

long_tx-Steps_example : (long_tx workload moved 9).0 ≡ all_solvent moved
long_tx-Steps_example =
    long_tx-Steps workload fresh moved 9 refl (omega arith) (omega arith) (omega arith)
      (more done (transfers 1 0)) moved-few

-- One worker has read the counter, and decreases it.
abbrev counting_down : Countdown.System
counting_down = record { counter = 99; threads = record { place = reading; left = 99 } ∷ [] }

counting_down-Reach : Countdown.Reach 1 counting_down
unfolding Countdown.next init_counter
counting_down-Reach =
    Countdown.goes [] (record { place = decreasing 100; left = 100 }) []
      (Countdown.goes [] (record { place = reading; left = 100 }) [] Countdown.starts)

Reach-reached_zero_example :
    All (λ t. t.place ≢ violated) counting_down.threads
    × (99 ≡ lefts counting_down.threads)
    × (All IsEnded counting_down.threads → reached_zero 99 ≡ true)
Reach-reached_zero_example = Reach-reached_zero 1 (omega arith) counting_down counting_down-Reach

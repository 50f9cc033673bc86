-- ===== src/Bank.antt =====
-- grading/workload.hpp: the transactions of the bank, which grade a library.
-- The list of segments that is linked in shared memory is a list here, the start segment first. A
-- transaction is what its closure does in the try that commits, reads and writes taking effect at once.
-- A balance is the 64-bit pattern of an `intptr_t`.
pub mod Totals
pub mod Allocation
pub mod Transfer
pub mod Runs
pub mod Countdown
pub mod Linked
mod Tests
use concurrent_project.Prelude.{
  ℕ, zero, suc, ◌+◌, ◌-◌, ◌*◌, ◌%◌, ◌^◌, Bool, true, false, not, ◌&&◌, ◌||◌, Option, none, some,
  List, [], ◌∷◌, ltb, ◌==◌, if◌then◌else◌,
}
use concurrent_project.Heap.{update}

-- A segment's cells from index `count` on are not allocated.
pub record AccountSegment : Type 0 where
  pub count : ℕ
  pub parity : ℕ
  pub accounts : ℕ → ℕ

pub record Workload : Type 0 where
  pub nbaccounts : ℕ
  pub init_balance : ℕ

abbrev pub add64 : ℕ → ℕ → ℕ
add64 a b = (a + b) % 2 ^ 64

abbrev pub sub64 : ℕ → ℕ → ℕ
sub64 a b = (a + 2 ^ 64 - b) % 2 ^ 64

-- The sign of a balance.
abbrev pub is_negative : ℕ → Bool
is_negative b = not (ltb b (2 ^ 63))

-- The inner loop of `long_tx` over `n` accounts from index `i` on; `none` is the early return.
unfoldable pub sum_accounts : (n i : ℕ) → (ℕ → ℕ) → (sum : ℕ) → Option ℕ
sum_accounts zero i accounts sum = some sum
sum_accounts (suc n) i accounts sum =
    let rest = sum_accounts n (i + 1) accounts (add64 sum (accounts i)) in
    if is_negative (accounts i) then none else rest

-- The loop of `long_tx` over the segments: the count and the sum.
unfoldable pub sum_segments : List AccountSegment → (count sum : ℕ) → Option (ℕ × ℕ)
unfolding sum_accounts
sum_segments [] count sum = some (count, sum)
sum_segments (segment ∷ rest) count sum =
    elim (sum_accounts segment.count 0 segment.accounts (add64 sum segment.parity)) [
      | none ↦ none
      | some sum' ↦ sum_segments rest (add64 count segment.count) sum'
    ]

-- The result, and the caller's `nbaccounts` afterwards.
unfoldable pub long_tx : Workload → List AccountSegment → (nbaccounts : ℕ) → Bool × ℕ
unfolding sum_segments
long_tx w segments nbaccounts = elim (sum_segments segments 0 0) [
  | none ↦ (false, nbaccounts)
  | some (count, sum) ↦ (sum == w.init_balance * count % 2 ^ 64, count)
]

-- The segments from the start on, `before` being those that the loop has passed, the last one first.
abbrev pub rebuild : (before tail : List AccountSegment) → List AccountSegment
rebuild [] tail = tail
rebuild (segment ∷ before) tail = rebuild before (segment ∷ tail)

-- A new segment is all zeros before its first account is made.
abbrev pub next_segment : Workload → AccountSegment
next_segment w = record { count = 1; parity = 0; accounts = update (λ i. 0) 0 w.init_balance }

-- `none`: there is no segment before, which is the exception TransactionNotLastSegment in assertion mode
-- and else a write through a null pointer.
unfoldable pub remove_account :
    Workload → (before : List AccountSegment) → AccountSegment → Option (List AccountSegment)
remove_account w before segment =
    let segment_count = sub64 segment.count 1 in
    let new_parity = sub64 (add64 segment.parity (segment.accounts segment_count)) w.init_balance in
    if ltb 0 segment_count
    then some (rebuild before (record segment { count = segment_count; parity = new_parity } ∷ []))
    else elim before [
      | [] ↦ none
      | prev ∷ earlier ↦
          some (rebuild earlier (record prev { parity = add64 prev.parity new_parity } ∷ []))
    ]

unfoldable pub add_account :
    Workload → (before : List AccountSegment) → AccountSegment → List AccountSegment
add_account w before segment =
    if ltb segment.count w.nbaccounts
    then rebuild before (
        record segment {
          accounts = update segment.accounts segment.count w.init_balance;
          count = add64 segment.count 1;
        }
        ∷ [])
    else rebuild before (segment ∷ next_segment w ∷ [])

-- The loop of `alloc_tx`, at a segment with the segments after it.
unfoldable pub alloc_from :
    Workload
    → (trigger : ℕ) → (before : List AccountSegment) → AccountSegment
    → (rest : List AccountSegment) → (count : ℕ) → Option (List AccountSegment)
unfolding remove_account add_account
alloc_from w trigger before segment [] count =
    let count' = add64 count segment.count in
    if ltb trigger count' && ltb 2 count'
    then remove_account w before segment
    else some (add_account w before segment)
alloc_from w trigger before segment (next ∷ rest) count =
    alloc_from w trigger (segment ∷ before) next rest (add64 count segment.count)

-- On the start segment and those after it.
unfoldable pub alloc_tx :
    Workload → (trigger : ℕ) → AccountSegment → List AccountSegment → Option (List AccountSegment)
unfolding alloc_from
alloc_tx w trigger start rest = alloc_from w trigger [] start rest 0

-- Where `short_tx` stands in its search for an account: it has a pointer to it, the index of the
-- segment and that of the account, or the number of accounts still to pass.
pub data Cursor : Type 0 where
  at : (segment account : ℕ) → Cursor
  passing : ℕ → Cursor

-- `if (!ptr) { if (id < segment_count) ... else id -= segment_count; }`
abbrev pub advance : (index count : ℕ) → Cursor → Cursor
advance index count (at segment account) = at segment account
advance index count (passing id) = if ltb id count then at index id else passing (id - count)

-- The search of `short_tx`: it breaks once it has both pointers, and `none` is the return of false.
unfoldable pub find_accounts :
    List AccountSegment → (index : ℕ) → (send recv : Cursor) → Option ((ℕ × ℕ) × (ℕ × ℕ))
find_accounts [] index send recv = none
find_accounts (segment ∷ rest) index send recv =
    let send' = advance index segment.count send in
    let recv' = advance index segment.count recv in
    let further = find_accounts rest (index + 1) send' recv' in
    elim send' [
      | passing id ↦ further
      | at i a ↦ elim recv' [ passing id ↦ further | at j b ↦ some ((i, a), (j, b)) ]
    ]

-- `Shared<Balance>` at a pointer.
unfoldable pub read_balance : List AccountSegment → (index account : ℕ) → ℕ
read_balance [] index account = 0
read_balance (segment ∷ rest) zero account = segment.accounts account
read_balance (segment ∷ rest) (suc index) account = read_balance rest index account

unfoldable pub write_balance :
    List AccountSegment → (index account balance : ℕ) → List AccountSegment
write_balance [] index account balance = []
write_balance (segment ∷ rest) zero account balance =
    record segment { accounts = update segment.accounts account balance } ∷ rest
write_balance (segment ∷ rest) (suc index) account balance =
    segment ∷ write_balance rest index account balance

-- The transfer, if the sender has funds.
unfoldable pub transfer : List AccountSegment → (ℕ × ℕ) × (ℕ × ℕ) → List AccountSegment
unfolding read_balance write_balance
transfer segments ((i, a), (j, b)) =
    let send_val = read_balance segments i a in
    let sent = write_balance segments i a (sub64 send_val 1) in
    if ltb 0 send_val && not (is_negative send_val)
    then write_balance sent j b (add64 (read_balance sent j b) 1)
    else segments

unfoldable pub short_tx : List AccountSegment → (send_id recv_id : ℕ) → Bool × List AccountSegment
unfolding find_accounts transfer
short_tx segments send_id recv_id =
    elim (find_accounts segments 0 (passing send_id) (passing recv_id)) [
      | none ↦ (false, segments)
      | some places ↦ (true, transfer segments places)
    ]

-- The loop of `init` over `n` accounts from index `i` on.
unfoldable pub fill_accounts : (n i init_balance : ℕ) → (ℕ → ℕ) → ℕ → ℕ
fill_accounts zero i init_balance accounts = accounts
fill_accounts (suc n) i init_balance accounts =
    fill_accounts n (i + 1) init_balance (update accounts i init_balance)

-- The two transactions of `init` on the start segment: whether the check succeeds, and the segment.
unfoldable pub init : Workload → AccountSegment → Bool × AccountSegment
unfolding fill_accounts
init w segment =
    let segment' : AccountSegment = record segment {
      count = w.nbaccounts;
      accounts = fill_accounts w.nbaccounts 0 w.init_balance segment.accounts;
    } in
    (segment'.accounts 0 == w.init_balance, segment')

-- ===== src/Bank/Allocation.antt =====
-- `alloc_tx` neither makes nor destroys money.
use concurrent_project.Prelude.{
  ap, ℕ, zero, suc, ◌+◌, ◌-◌, ◌*◌, ◌%◌, ◌^◌, ◌≤◌, ◌<◌, ◌≡◌, inl, inr, true, ◌&&◌, Option, none,
  some, List, [], ◌∷◌, arith, ltb, Bool-cases, All,
}
use concurrent_project.Heap.{update}
use concurrent_project.Bank.{
  AccountSegment, Workload, add64, sub64, rebuild, next_segment, remove_account, add_account,
  alloc_from, alloc_tx,
}
use concurrent_project.Bank.Totals.{
  money, population, IsBalanced, total-rebuild, population-rebuild, owed-rebuild,
  money-update_outside, money-last,
}

-- A segment has an account, and no more than fit.
abbrev pub IsFilled : Workload → AccountSegment → Type 0
IsFilled w segment = (0 < segment.count) × (segment.count ≤ w.nbaccounts)

-- What `alloc_tx` keeps; it never misses a segment: the balance, and that every segment is filled.
abbrev pub Allocates : Workload → Option (List AccountSegment) → Type 0
Allocates w none = ⊥
Allocates w (some segments) = IsBalanced w segments × All (IsFilled w) segments

All-rebuild :
    (w : Workload) (before tail : List AccountSegment)
    → All (IsFilled w) before
    → All (IsFilled w) tail
    → All (IsFilled w) (rebuild before tail)
All-rebuild w [] tail hb ht = ht
All-rebuild w (segment ∷ before) tail hb ht = All-rebuild w before (segment ∷ tail) hb.1 (hb.0, ht)

-- One account more in a segment that has room.
append_account-total :
    (w : Workload) (segment : AccountSegment)
    → money (suc segment.count) 0 (update segment.accounts segment.count w.init_balance)
      ≡ money segment.count 0 segment.accounts + w.init_balance
append_account-total w segment = ground (
  arith,
  money-last segment.count (update segment.accounts segment.count w.init_balance),
  money-update_outside segment.count 0 segment.accounts segment.count w.init_balance,
)

add_account-Allocates :
    (w : Workload) (before : List AccountSegment) (segment : AccountSegment)
    → All (IsFilled w) before
    → IsFilled w segment
    → IsBalanced w (rebuild before (segment ∷ []))
    → 0 < w.nbaccounts
    → w.nbaccounts < 2 ^ 64
    → Allocates w (some (add_account w before segment))
unfolding add_account
add_account-Allocates w before segment hb hs balanced pos small =
    elim (Bool-cases (ltb segment.count w.nbaccounts)) [
      | inl room ↦
          rw (room, next (ground arith), add_account)
            (
              omega (
                arith,
                balanced,
                total-rebuild before (grown ∷ []),
                owed-rebuild w before (grown ∷ []),
                total-rebuild before (segment ∷ []),
                owed-rebuild w before (segment ∷ []),
                append_account-total w segment,
              ),
              All-rebuild w before _ hb ((omega arith, ground arith), tt),
            )
      | inr full ↦
          rw (full, add_account)
            (
              omega (
                arith,
                balanced,
                total-rebuild before (segment ∷ next_segment w ∷ []),
                owed-rebuild w before (segment ∷ next_segment w ∷ []),
                total-rebuild before (segment ∷ []),
                owed-rebuild w before (segment ∷ []),
              ),
              All-rebuild w before _ hb (hs, ((omega arith, omega arith), tt)),
            )
    ]
  where
    next : segment.count < w.nbaccounts → add64 segment.count 1 ≡ suc segment.count
    next h = omega arith

    grown : AccountSegment
    grown = record segment {
      accounts = update segment.accounts segment.count w.init_balance;
      count = suc segment.count;
    }

-- The last segment without its last account.
abbrev shrunk : Workload → AccountSegment → (segment_count : ℕ) → AccountSegment
shrunk w segment segment_count = record segment {
  count = segment_count;
  parity =
      ((segment.parity + segment.accounts segment_count) % 2 ^ 64 + 2 ^ 64 - w.init_balance)
      % 2 ^ 64;
}

-- The segment before it, once the last segment has lost its only account.
abbrev merged : Workload → (prev segment : AccountSegment) → AccountSegment
merged w prev segment = record prev {
  parity =
      (prev.parity
        + ((segment.parity + segment.accounts 0) % 2 ^ 64 + 2 ^ 64 - w.init_balance) % 2 ^ 64)
      % 2 ^ 64;
}

remove_account-shrinks :
    (w : Workload) (before : List AccountSegment) (segment : AccountSegment) (segment_count : ℕ)
    → segment.count ≡ suc segment_count
    → IsBalanced w (rebuild before (segment ∷ []))
    → w.init_balance < 2 ^ 64
    → IsBalanced w (rebuild before (shrunk w segment segment_count ∷ []))
remove_account-shrinks w before segment segment_count e balanced init = omega (
  arith,
  balanced,
  total-rebuild before (shrunk w segment segment_count ∷ []),
  owed-rebuild w before (shrunk w segment segment_count ∷ []),
  total-rebuild before (segment ∷ []),
  owed-rebuild w before (segment ∷ []),
  ap (λ n. money n 0 segment.accounts) e,
  ap (λ n. w.init_balance * n) e,
  money-last segment_count segment.accounts,
)

remove_account-merges :
    (w : Workload) (earlier : List AccountSegment) (prev segment : AccountSegment)
    → segment.count ≡ 1
    → IsBalanced w (rebuild (prev ∷ earlier) (segment ∷ []))
    → w.init_balance < 2 ^ 64
    → IsBalanced w (rebuild earlier (merged w prev segment ∷ []))
remove_account-merges w earlier prev segment e balanced init = omega (
  arith,
  balanced,
  total-rebuild earlier (merged w prev segment ∷ []),
  owed-rebuild w earlier (merged w prev segment ∷ []),
  total-rebuild (prev ∷ earlier) (segment ∷ []),
  owed-rebuild w (prev ∷ earlier) (segment ∷ []),
  ap (λ n. money n 0 segment.accounts) e,
  ap (λ n. w.init_balance * n) e,
)

remove_account-Allocates :
    (w : Workload) (before : List AccountSegment) (segment : AccountSegment) (segment_count : ℕ)
    → segment.count ≡ suc segment_count
    → All (IsFilled w) before
    → segment.count ≤ w.nbaccounts
    → IsBalanced w (rebuild before (segment ∷ []))
    → w.nbaccounts < 2 ^ 64
    → w.init_balance < 2 ^ 64
    → 1 < population (rebuild before (segment ∷ []))
    → Allocates w (remove_account w before segment)
unfolding remove_account
remove_account-Allocates w before segment (suc n) e hb hs balanced small init two =
    rw (less, more, remove_account)
      (
        remove_account-shrinks w before segment (suc n) e balanced init,
        All-rebuild w before _ hb ((omega arith, omega arith), tt),
      )
  where
    less : sub64 segment.count 1 ≡ suc n
    less = omega arith

    more : ltb 0 (suc n) ≡ true
    more = ground arith
remove_account-Allocates w [] segment zero e hb hs balanced small init two = absurd (omega arith)
remove_account-Allocates w (prev ∷ earlier) segment zero e hb hs balanced small init two =
    rw (less, remove_account)
      (
        remove_account-merges w earlier prev segment e balanced init,
        All-rebuild w earlier _ hb.1 (hb.0, tt),
      )
  where
    less : sub64 segment.count 1 ≡ 0
    less = omega arith

-- The loop, on a bank that is balanced and filled.
alloc_from-Allocates :
    (w : Workload) (trigger : ℕ) (before : List AccountSegment) (segment : AccountSegment)
    (rest : List AccountSegment) (count : ℕ)
    → All (IsFilled w) before
    → All (IsFilled w) (segment ∷ rest)
    → IsBalanced w (rebuild before (segment ∷ rest))
    → w.nbaccounts < 2 ^ 64
    → w.init_balance < 2 ^ 64
    → count ≡ population before % 2 ^ 64
    → Allocates w (alloc_from w trigger before segment rest count)
unfolding alloc_from
alloc_from-Allocates w trigger before segment [] count hb hs balanced small init e =
    let people = population-rebuild before (segment ∷ []) in
    elim (Bool-cases
      (ltb trigger (add64 count segment.count) && ltb 2 (add64 count segment.count))) [
        | inl enough ↦
            rw (enough, alloc_from)
              (remove_account-Allocates w before segment (segment.count - 1) (omega (arith, hs.0))
                hb (hs.0).1 balanced small init (ground (arith, people)))
        | inr few ↦
            rw (few, alloc_from)
              (add_account-Allocates w before segment hb (hs.0) balanced (omega (arith, hs.0))
                small)
      ]
alloc_from-Allocates w trigger before segment (next ∷ rest) count hb hs balanced small init e =
    alloc_from-Allocates w trigger (segment ∷ before) next rest (add64 count segment.count)
      (hs.0, hb) hs.1 balanced small init
      (omega (arith, population-rebuild before (segment ∷ next ∷ rest)))

-- On a bank whose total is what its accounts had at first, in 64 bits, and whose segments all have an
-- account and no more than fit, with 64-bit parameters: an allocation transaction never misses a
-- segment before the last one and leaves such a bank.
pub alloc_tx-Allocates :
    (w : Workload) (trigger : ℕ) (start : AccountSegment) (rest : List AccountSegment)
    → All (IsFilled w) (start ∷ rest)
    → IsBalanced w (start ∷ rest)
    → w.nbaccounts < 2 ^ 64
    → w.init_balance < 2 ^ 64
    → Allocates w (alloc_tx w trigger start rest)
unfolding alloc_tx
alloc_tx-Allocates w trigger start rest filled balanced small init =
    alloc_from-Allocates w trigger [] start rest 0 tt filled balanced small init (omega arith)

-- ===== src/Bank/Totals.antt =====
-- The money and the accounts of a bank, and what `long_tx` finds.
use concurrent_project.Heap.{update}
use concurrent_project.Prelude.{
  ◌⊎◌, ap, ℕ, zero, suc, ◌+◌, ◌*◌, ◌%◌, ◌^◌, ◌≤◌, ◌<◌, ◌≡◌, refl, inl, inr, Bool, true, not, ◌&&◌,
  none, some, List, [], ◌∷◌, arith, ◌==◌, if◌then◌else◌, Bool-cases,
}
use concurrent_project.Bank.{
  AccountSegment, Workload, add64, is_negative, sum_accounts, sum_segments, long_tx, rebuild,
}

-- The money on `n` accounts from index `i` on.
abbrev pub money : (n i : ℕ) → (ℕ → ℕ) → ℕ
money zero i accounts = 0
money (suc n) i accounts = accounts i + money n (i + 1) accounts

-- The number of the accounts of all segments, and their money with the corrections, neither wrapped
-- around.
abbrev pub population : List AccountSegment → ℕ
population [] = 0
population (segment ∷ rest) = segment.count + population rest

abbrev pub total : List AccountSegment → ℕ
total [] = 0
total (segment ∷ rest) = segment.parity + money segment.count 0 segment.accounts + total rest

-- None of `n` accounts from index `i` on is negative.
abbrev pub none_negative : (n i : ℕ) → (ℕ → ℕ) → Bool
none_negative zero i accounts = true
none_negative (suc n) i accounts =
    not (is_negative (accounts i)) && none_negative n (i + 1) accounts

abbrev pub all_solvent : List AccountSegment → Bool
all_solvent [] = true
all_solvent (segment ∷ rest) = none_negative segment.count 0 segment.accounts && all_solvent rest

-- No money has been made or destroyed: the total is what the accounts had at first, in 64 bits.
abbrev pub IsBalanced : Workload → List AccountSegment → Type 0
IsBalanced w segments = total segments % 2 ^ 64 ≡ w.init_balance * population segments % 2 ^ 64

sum_accounts_lem :
    (n i : ℕ) (accounts : ℕ → ℕ) (sum : ℕ)
    → sum < 2 ^ 64
    → sum_accounts n i accounts sum
      ≡ (if none_negative n i accounts then some ((sum + money n i accounts) % 2 ^ 64) else none)
unfolding sum_accounts
sum_accounts_lem zero i accounts sum h = ground arith
sum_accounts_lem (suc n) i accounts sum h =
    ground (arith, sum_accounts_lem n (i + 1) accounts (add64 sum (accounts i)))

sum_segments_lem :
    (segments : List AccountSegment) (count sum : ℕ)
    → sum < 2 ^ 64
    → count < 2 ^ 64
    → sum_segments segments count sum ≡ (
        if all_solvent segments
        then some ((count + population segments) % 2 ^ 64, (sum + total segments) % 2 ^ 64)
        else none)
unfolding sum_segments
sum_segments_lem [] count sum h k = ground arith
sum_segments_lem (segment ∷ rest) count sum h k =
    let sum' = add64 sum segment.parity in
    ground (
      arith,
      sum_accounts_lem segment.count 0 segment.accounts sum',
      sum_segments_lem rest (add64 count segment.count)
          ((sum' + money segment.count 0 segment.accounts) % 2 ^ 64),
    )

-- In a bank of fewer than 2 ^ 64 accounts the long transaction accepts exactly when no account is
-- negative and the total is what the accounts had at first, in 64 bits; its caller then has the number
-- of accounts, and what it had before if an account is negative.
pub long_tx_lem :
    (w : Workload) (segments : List AccountSegment) (nbaccounts : ℕ)
    → population segments < 2 ^ 64
    → long_tx w segments nbaccounts ≡ (
      all_solvent segments
          && total segments % 2 ^ 64 == w.init_balance * population segments % 2 ^ 64,
      if all_solvent segments then population segments else nbaccounts,
    )
unfolding long_tx
long_tx_lem w segments nbaccounts h =
    let small : (0 + population segments) % 2 ^ 64 ≡ population segments = omega arith in
    let plain : (0 + total segments) % 2 ^ 64 ≡ total segments % 2 ^ 64 = omega arith in
    let seen = sum_segments_lem segments 0 0 (omega arith) (omega arith) in
    elim (Bool-cases (all_solvent segments)) [
      | inl e ↦ rw (seen, e, small, plain, long_tx) refl
      | inr e ↦ rw (seen, e, long_tx) refl
    ]

pub total-rebuild :
    (before tail : List AccountSegment) → total (rebuild before tail) ≡ total before + total tail
total-rebuild [] tail = omega arith
total-rebuild (segment ∷ before) tail = omega (arith, total-rebuild before (segment ∷ tail))

pub population-rebuild :
    (before tail : List AccountSegment)
    → population (rebuild before tail) ≡ population before + population tail
population-rebuild [] tail = omega arith
population-rebuild (segment ∷ before) tail =
    omega (arith, population-rebuild before (segment ∷ tail))

-- What the accounts had at first.
pub owed-rebuild :
    (w : Workload) (before tail : List AccountSegment)
    → w.init_balance * population (rebuild before tail)
      ≡ w.init_balance * (population before + population tail)
owed-rebuild w before tail = ap (λ n. w.init_balance * n) (population-rebuild before tail)

-- What happens to one cell outside the range leaves its money alone.
pub money-update_outside :
    (n i : ℕ) (accounts : ℕ → ℕ) (j v : ℕ)
    → (j < i) ⊎ (i + n ≤ j)
    → money n i (update accounts j v) ≡ money n i accounts
money-update_outside zero i accounts j v h = refl
money-update_outside (suc n) i accounts j v h =
    ground (arith, money-update_outside n (i + 1) accounts j v)

money-snoc :
    (n i : ℕ) (accounts : ℕ → ℕ) → money (suc n) i accounts ≡ money n i accounts + accounts (i + n)
money-snoc zero i accounts = ground arith
money-snoc (suc n) i accounts = ground (arith, money-snoc n (i + 1) accounts)

pub money-last :
    (n : ℕ) (accounts : ℕ → ℕ) → money (suc n) 0 accounts ≡ money n 0 accounts + accounts n
money-last n accounts = ground (arith, money-snoc n 0 accounts)

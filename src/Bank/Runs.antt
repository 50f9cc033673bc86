-- ===== src/Bank/Runs.antt =====
-- What any sequence of the bank's transactions leaves behind.
use concurrent_project.Prelude.{
  ap, ℕ, zero, suc, ◌+◌, ◌*◌, ◌%◌, ◌^◌, ◌≤◌, ◌<◌, ◌≡◌, refl, inl, inr, Bool, true, ◌&&◌, ◌⊎◌, some,
  List, [], ◌∷◌, arith, ltb, ◌==◌, Bool-cases, Option-cases, ◌∙◌, sym, All, not,
}
use mathlib.Core.Path.{subst}
use concurrent_project.Heap.{update}
use concurrent_project.Bank.{
  AccountSegment, Workload, fill_accounts, init, long_tx, alloc_tx, short_tx, transfer,
  find_accounts, passing, write_balance, read_balance, is_negative,
}
use concurrent_project.Bank.Totals.{money, population, IsBalanced, all_solvent, long_tx_lem}
use concurrent_project.Bank.Allocation.{IsFilled, Allocates, alloc_tx-Allocates}
use concurrent_project.Bank.Transfer.{Transfers, short_tx-Transfers}

fill_accounts-outside :
    (n i b : ℕ) (accounts : ℕ → ℕ) (j : ℕ)
    → (j < i) ⊎ (i + n ≤ j)
    → fill_accounts n i b accounts j ≡ accounts j
unfolding fill_accounts
fill_accounts-outside zero i b accounts j h = refl
fill_accounts-outside (suc n) i b accounts j h =
    ground (arith, fill_accounts-outside n (i + 1) b (update accounts i b) j)

money-fill_accounts :
    (n i b : ℕ) (accounts : ℕ → ℕ) → money n i (fill_accounts n i b accounts) ≡ b * n
unfolding fill_accounts
money-fill_accounts zero i b accounts = omega arith
money-fill_accounts (suc n) i b accounts = omega (
  arith,
  money-fill_accounts n (i + 1) b (update accounts i b),
  fill_accounts-outside n (i + 1) b (update accounts i b) i (inl (omega arith)),
  update_self accounts i b,
)
  where
    update_self : (f : ℕ → ℕ) (a v : ℕ) → update f a v a ≡ v
    update_self f a v = ground arith

fill_accounts-first : (n b : ℕ) (accounts : ℕ → ℕ) → 0 < n → fill_accounts n 0 b accounts 0 ≡ b
unfolding fill_accounts
fill_accounts-first zero b accounts h = absurd (omega arith)
fill_accounts-first (suc n) b accounts h =
    ground (arith, fill_accounts-outside n 1 b (update accounts 0 b) 0 (inl (omega arith)))

-- What the bank keeps.
pub record IsSound (w : Workload) (segments : List AccountSegment) : Type 0 where
  pub balanced : IsBalanced w segments
  pub filled : All (IsFilled w) segments

-- On a fresh start segment and with at least one account, `init` reports no violation and makes a bank
-- in which the total is what the accounts had at first and the segment is filled.
pub init-IsSound :
    (w : Workload) (segment : AccountSegment)
    → segment.parity ≡ 0
    → 0 < w.nbaccounts
    → ((init w segment).0 ≡ true) × IsSound w ((init w segment).1 ∷ [])
unfolding init
init-IsSound w segment fresh pos = (
  ground (arith, fill_accounts-first w.nbaccounts w.init_balance segment.accounts pos),
  record {
    balanced =
        omega (arith, fresh, money-fill_accounts w.nbaccounts 0 w.init_balance segment.accounts);
    filled = ((pos, omega arith), tt);
  },
)

-- The transactions of the workers, one after the other.
pub data Step (w : Workload) : List AccountSegment → List AccountSegment → Type 0 where
  allocates :
      {segments : List AccountSegment}
      → (trigger : ℕ) → (start : AccountSegment) → (rest : List AccountSegment)
      → alloc_tx w trigger start rest ≡ some segments
      → Step w (start ∷ rest) segments
  transfers :
      {segments : List AccountSegment}
      → (send_id recv_id : ℕ) → Step w segments (short_tx segments send_id recv_id).1

pub data Steps (w : Workload) : List AccountSegment → List AccountSegment → Type 0 where
  done : {segments : List AccountSegment} → Steps w segments segments
  more :
      {start middle segments : List AccountSegment}
      → Steps w start middle
      → Step w middle segments
      → Steps w start segments

write_balance-IsFilled :
    (w : Workload) (segments : List AccountSegment) (i a v : ℕ)
    → All (IsFilled w) segments
    → All (IsFilled w) (write_balance segments i a v)
unfolding write_balance
write_balance-IsFilled w [] i a v h = tt
write_balance-IsFilled w (segment ∷ rest) zero a v h = h
write_balance-IsFilled w (segment ∷ rest) (suc i) a v h =
    (h.0, write_balance-IsFilled w rest i a v h.1)

transfer-IsFilled :
    (w : Workload) (segments : List AccountSegment) (i a j b : ℕ)
    → All (IsFilled w) segments
    → All (IsFilled w) (transfer segments ((i, a), (j, b)))
unfolding transfer
transfer-IsFilled w segments i a j b h =
    elim (Bool-cases
      (ltb 0 (read_balance segments i a) && not (is_negative (read_balance segments i a)))) [
        | inl funds ↦
            rw (funds, transfer)
              (write_balance-IsFilled w _ j b _ (write_balance-IsFilled w segments i a _ h))
        | inr none_left ↦ rw (none_left, transfer) h
      ]

short_tx-IsFilled :
    (w : Workload) (segments : List AccountSegment) (send_id recv_id : ℕ)
    → All (IsFilled w) segments
    → All (IsFilled w) (short_tx segments send_id recv_id).1
unfolding short_tx
short_tx-IsFilled w segments send_id recv_id h =
    elim (Option-cases (find_accounts segments 0 (passing send_id) (passing recv_id))) [
      | inl e ↦ rw (e, short_tx) h
      | inr (((i, a), (j, b)), e) ↦ rw (e, short_tx) (transfer-IsFilled w segments i a j b h)
    ]

short-IsSound :
    (w : Workload) (segments : List AccountSegment) (send_id recv_id : ℕ)
    → (r : Bool × List AccountSegment) → Transfers segments send_id recv_id r
    → All (IsFilled w) r.1
    → IsSound w segments
    → IsSound w r.1
short-IsSound w segments send_id recv_id (ok, segments') (inl (refused, missing, same)) filled
      sound =
    rw same sound
short-IsSound w segments send_id recv_id (ok, segments')
      (inr (accepted, (i, a, j, b, ha, na, hb, nb, moved), kept, number_kept)) filled sound =
    record {
      balanced = kept ∙ sound.balanced ∙ ap (λ n. w.init_balance * n % 2 ^ 64) (sym number_kept);
      filled = filled;
    }

Step-IsSound :
    (w : Workload) {segments segments' : List AccountSegment}
    → w.nbaccounts < 2 ^ 64
    → w.init_balance < 2 ^ 64
    → Step w segments segments'
    → IsSound w segments
    → IsSound w segments'
Step-IsSound w small fits (allocates trigger start rest e) sound =
    let kept =
      subst (Allocates w) e
        (alloc_tx-Allocates w trigger start rest sound.filled sound.balanced small fits) in
    record { balanced = kept.0; filled = kept.1 }
Step-IsSound w {segments = segments} small init (transfers send_id recv_id) sound =
    short-IsSound w segments send_id recv_id (short_tx segments send_id recv_id)
      (short_tx-Transfers segments send_id recv_id)
      (short_tx-IsFilled w segments send_id recv_id sound.filled) sound

Steps-IsSound :
    (w : Workload) {start segments : List AccountSegment}
    → w.nbaccounts < 2 ^ 64
    → w.init_balance < 2 ^ 64
    → Steps w start segments
    → IsSound w start
    → IsSound w segments
Steps-IsSound w small fits done sound = sound
Steps-IsSound w small fits (more steps step) sound =
    Step-IsSound w small fits step (Steps-IsSound w small fits steps sound)

-- From a fresh start segment, with 64-bit parameters of which the number of accounts is not 0, and after
-- `init` and any transfers and allocations: a long transaction on a bank of fewer than 2 ^ 64 accounts
-- accepts it exactly when no account is negative.
pub long_tx-Steps :
    (w : Workload) (segment : AccountSegment) (segments : List AccountSegment) (nbaccounts : ℕ)
    → segment.parity ≡ 0
    → 0 < w.nbaccounts
    → w.nbaccounts < 2 ^ 64
    → w.init_balance < 2 ^ 64
    → Steps w ((init w segment).1 ∷ []) segments
    → population segments < 2 ^ 64
    → (long_tx w segments nbaccounts).0 ≡ all_solvent segments
long_tx-Steps w segment segments nbaccounts fresh pos small small' steps few =
    let sound = Steps-IsSound w small small' steps (init-IsSound w segment fresh pos).1 in
    rw (long_tx_lem w segments nbaccounts few, sound.balanced)
      (and-self (all_solvent segments) (w.init_balance * population segments % 2 ^ 64))
  where
    and-self : (b : Bool) (n : ℕ) → (b && n == n) ≡ b
    and-self b n = ground arith

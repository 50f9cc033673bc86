-- ===== src/Bank/Linked.antt =====
-- grading/workload.hpp: the segments of accounts as they are linked in shared memory, and the loops of `long_tx` over
-- them as parts of a transaction's closure.
pub mod Sums
pub mod Control
pub mod Start
mod Tests
use concurrent_project.Prelude.{
  ℕ, zero, suc, ◌+◌, ◌-◌, ◌*◌, ◌/◌, ◌%◌, ◌^◌, ◌≤◌, ◌<◌, ◌≡◌, ◌≢◌, refl, sym, ap, ◌∙◌, ◌⊎◌, inl, inr,
  Bool, true, false, not, ◌&&◌, ◌||◌, Option, none, some, List, [], ◌∷◌, ◌++◌, length, ltb, leb,
  ◌==◌, if◌then◌else◌, arith, Bool-cases,
}
use concurrent_project.Client.{Closure, returns}
use concurrent_project.Client.Closures.{◌>>=◌}
use concurrent_project.Client.Shared.{Shared, bind, read, write, after}
use concurrent_project.Client.Shared.Array
use concurrent_project.Client.Shared.Words.{word}
use concurrent_project.Bank.{Workload, add64, is_negative}

-- The four shared values of `AccountSegment`.
pub record Segment : Type 0 where
  pub count : Shared
  pub next : Shared
  pub parity : Shared
  pub accounts : Shared

-- `AccountSegment::size` and `AccountSegment::align`
unfoldable pub size : (nbaccounts : ℕ) → ℕ
size nbaccounts = 24 + nbaccounts * 8

abbrev pub align : ℕ
align = 8

module _ (assert_mode : Bool) where
  -- The binding constructor, in a region whose alignment is `align`.
  unfoldable pub segment_at : (address : ℕ) → Closure Segment
  unfolding after
  segment_at address = bind assert_mode align 8 address >>= λ count.
      bind assert_mode align 8 (after word count) >>= λ next.
      bind assert_mode align 8 (after word next) >>= λ parity.
      bind assert_mode align 8 (after word parity) >>= λ accounts.
      returns (record { count = count; next = next; parity = parity; accounts = accounts })

  -- The inner loop of `long_tx`; `none` is its early return.
  unfoldable pub sum_accounts : (n i : ℕ) → Shared → (sum : ℕ) → Closure (Option ℕ)
  unfolding read Array.at
  sum_accounts zero i accounts sum = returns (some sum)
  sum_accounts (suc n) i accounts sum = Array.at word assert_mode align i accounts >>= λ cell.
      read word cell >>= λ local.
      (let rest = sum_accounts n (i + 1) accounts (add64 sum local) in
        if is_negative local then returns none else rest)

  -- The rest of a round of the loop of `long_tx` over the segments, after the loop over the accounts and from
  -- its beginning, with the rounds that follow.
  unfoldable pub next_round :
      (rounds : (start count sum : ℕ) → Closure (Option (Option (ℕ × ℕ))))
      → Segment
      → (count : ℕ) → Option ℕ
      → Closure (Option (Option (ℕ × ℕ)))
  unfolding read
  next_round rounds segment count none = returns (some none)
  next_round rounds segment count (some sum) =
      read word segment.next >>= λ start. rounds start count sum

  unfoldable pub visit :
      (rounds : (start count sum : ℕ) → Closure (Option (Option (ℕ × ℕ))))
      → (count sum : ℕ) → Segment
      → Closure (Option (Option (ℕ × ℕ)))
  unfolding read sum_accounts next_round
  visit rounds count sum segment = read word segment.count >>= λ segment_count.
      read word segment.parity >>= λ parity.
      sum_accounts segment_count 0 segment.accounts (add64 sum parity)
      >>= next_round rounds segment (add64 count segment_count)

  -- The loop, for at most `fuel` rounds; the outer `none` is no more fuel.
  unfoldable pub sum_segments : (fuel start count sum : ℕ) → Closure (Option (Option (ℕ × ℕ)))
  unfolding segment_at visit
  sum_segments zero start count sum = returns none
  sum_segments (suc fuel) start count sum =
      if start == 0
      then returns (some (some (count, sum)))
      else (segment_at start >>= visit (sum_segments fuel) count sum)

  -- `long_tx`: its result, and the caller's `nbaccounts` afterwards.
  unfoldable pub long_tx : Workload → (fuel start nbaccounts : ℕ) → Closure (Option (Bool × ℕ))
  unfolding sum_segments
  long_tx w fuel start nbaccounts = sum_segments fuel start 0 0 >>= λ sums. returns (elim sums [
    | none ↦ none
    | some found ↦ some (elim found [
      | none ↦ (false, nbaccounts)
      | some (count, sum) ↦ (sum == w.init_balance * count % 2 ^ 64, count)
    ])
  ])

  -- The loop of `init` over `n` accounts from index `i` on.
  unfoldable pub fill_accounts : (n i init_balance : ℕ) → Shared → Closure (Unit {0})
  unfolding write Array.at
  fill_accounts zero i init_balance accounts = returns tt
  fill_accounts (suc n) i init_balance accounts =
      Array.at word assert_mode align i accounts >>= λ cell.
      write word init_balance cell >>= λ u. fill_accounts n (i + 1) init_balance accounts

  -- The two transactions of `init`.
  unfoldable pub make_accounts : Workload → (start : ℕ) → Closure (Unit {0})
  unfolding write segment_at fill_accounts
  make_accounts w start = segment_at start >>= λ segment.
      write word w.nbaccounts segment.count >>= λ u.
      fill_accounts w.nbaccounts 0 w.init_balance segment.accounts

  unfoldable pub check_first : Workload → (start : ℕ) → Closure Bool
  unfolding read segment_at Array.at
  check_first w start = segment_at start >>= λ segment.
      Array.at word assert_mode align 0 segment.accounts >>= λ cell.
      read word cell >>= λ balance. returns (balance == w.init_balance)

-- ===== src/Bank/Linked/Control.antt =====
-- The whole of `long_tx` on linked segments, in a try of any library.
use concurrent_project.Prelude.{
  ℕ, zero, suc, ◌+◌, ◌*◌, ◌%◌, ◌<◌, ◌≡◌, ◌⊎◌, inl, inr, Bool, true, false, Option, none, some, List,
  [], length, ◌==◌, Bool-cases,
}
use concurrent_project.Heap.{Memory}
use concurrent_project.Client.{Library, Transaction, Closure, run, throws, value, transaction_retry}
use concurrent_project.Client.Closures.{◌>>=◌, eval, eval-bind, Holds}
use concurrent_project.Client.Closures.ReadOnly.{ReadsOnly, ReadsOnly-bind, run-reads}
use concurrent_project.Client.Shared.{Shared, bind, read}
use concurrent_project.Client.Shared.Array
use concurrent_project.Client.Shared.Words.{word_of}
use concurrent_project.Bank
use concurrent_project.Bank.{AccountSegment, Workload, add64, is_negative}
use concurrent_project.Bank.Linked.{
  Segment, segment_at, sum_accounts, sum_segments, next_round, visit, long_tx, align,
}
use concurrent_project.Bank.Linked.Sums.{IsLinked, eval-sum_segments}

bind-ReadsOnly :
    (assert_mode : Bool) (align alignof address : ℕ)
    → ReadsOnly (bind assert_mode align alignof address)
unfolding bind
bind-ReadsOnly false align alignof address = tt
bind-ReadsOnly true align alignof address = elim (Bool-cases (address % align == 0)) [
  | inl good ↦ elim (Bool-cases (address % alignof == 0)) [
    | inl fine ↦ rw (good, fine, bind) tt
    | inr bad ↦ rw (good, bad, bind) tt
  ]
  | inr bad ↦ rw (bad, bind) tt
]

-- What follows the binding of a shared value, or the reading of one.
bound-ReadsOnly :
    {B : Type 0} (assert_mode : Bool) (align alignof address : ℕ) (k : Shared → Closure B)
    → ((shared : Shared) → ReadsOnly (k shared))
    → ReadsOnly (bind assert_mode align alignof address >>= k)
bound-ReadsOnly assert_mode align alignof address k =
    ReadsOnly-bind (bind assert_mode align alignof address) k
      (bind-ReadsOnly assert_mode align alignof address)

module _ (assert_mode : Bool) where
  sum_accounts-ReadsOnly :
      (n i : ℕ) (accounts : Shared) (sum : ℕ)
      → ReadsOnly (sum_accounts assert_mode n i accounts sum)
  unfolding sum_accounts read Array.at
  sum_accounts-ReadsOnly zero i accounts sum = tt
  sum_accounts-ReadsOnly (suc n) i accounts sum =
      bound-ReadsOnly assert_mode align 8 (accounts.address + i * 8) _ (λ cell bytes.
        elim (Bool-cases (is_negative (word_of bytes))) [
          | inl negative ↦ rw negative tt
          | inr fine ↦
              rw fine (sum_accounts-ReadsOnly n (i + 1) accounts (add64 sum (word_of bytes)))
        ])

  next_round-ReadsOnly :
      (rounds : (start count sum : ℕ) → Closure (Option (Option (ℕ × ℕ)))) (segment : Segment)
      (count : ℕ) (result : Option ℕ)
      → ((start count sum : ℕ) → ReadsOnly (rounds start count sum))
      → ReadsOnly (next_round assert_mode rounds segment count result)
  unfolding next_round read
  next_round-ReadsOnly rounds segment count none only = tt
  next_round-ReadsOnly rounds segment count (some sum) only = λ bytes. only _ count sum

  segment_at-ReadsOnly : (a : ℕ) → ReadsOnly (segment_at assert_mode a)
  unfolding segment_at
  segment_at-ReadsOnly a = bound-ReadsOnly assert_mode align 8 a _ (λ count.
      bound-ReadsOnly assert_mode align 8 _ _ (λ next.
        bound-ReadsOnly assert_mode align 8 _ _
          (λ parity. bound-ReadsOnly assert_mode align 8 _ _ (λ accounts. tt))))

  sum_segments-ReadsOnly :
      (fuel start count sum : ℕ) → ReadsOnly (sum_segments assert_mode fuel start count sum)
  unfolding sum_segments visit read
  sum_segments-ReadsOnly zero start count sum = tt
  sum_segments-ReadsOnly (suc fuel) start count sum = elim (Bool-cases (start == 0)) [
    | inl ended ↦ rw (ended, sum_segments) tt
    | inr going ↦
        rw (going, sum_segments)
          (ReadsOnly-bind (segment_at assert_mode start)
            (visit assert_mode (sum_segments assert_mode fuel) count sum)
            (segment_at-ReadsOnly start)
            (λ segment count_bytes parity_bytes.
              ReadsOnly-bind _ _ (sum_accounts-ReadsOnly _ 0 segment.accounts _)
                (λ result. next_round-ReadsOnly _ segment _ result (sum_segments-ReadsOnly fuel))))
  ]

-- In a try of a library that holds the memory of the live transaction, with the segments linked in it and
-- fuel for one round more than there are segments: `long_tx` gives what it gives on the list of segments, and
-- leaves the memory as it is, unless a read fails, which is a retry.
pub run-long_tx :
    {S : Type 0} (lib : Library S) (assert_mode : Bool) (view : S → Memory)
    → Holds lib view
    → (w : Workload) (segments : List AccountSegment) (fuel start nbaccounts : ℕ) (t : Transaction)
      (s : S)
    → length segments < fuel
    → IsLinked (view s) start segments
    → let r = run lib assert_mode (long_tx assert_mode w fuel start nbaccounts) t s in
      (r.0 ≡ throws transaction_retry)
      ⊎ (r.0 ≡ value (some (Bank.long_tx w segments nbaccounts))) × (view r.2 ≡ view s)
unfolding long_tx eval Bank.long_tx
run-long_tx lib assert_mode view holds w segments fuel start nbaccounts t s enough linked =
    run-reads lib assert_mode view holds (long_tx assert_mode w fuel start nbaccounts) t s
      (some (Bank.long_tx w segments nbaccounts)) {m' = view s}
      (ReadsOnly-bind (sum_segments assert_mode fuel start 0 0) _
        (sum_segments-ReadsOnly assert_mode fuel start 0 0) (λ sums. tt))
      (eval-bind (sum_segments assert_mode fuel start 0 0) _ [] (view s)
        (eval-sum_segments assert_mode fuel segments start 0 0 (view s) enough linked))

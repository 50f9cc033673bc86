-- ===== src/Bank/Linked/Sums.antt =====
-- The loops of `long_tx` on linked segments give what Bank says of the list of segments.
use concurrent_project.Prelude.{
  ℕ, zero, suc, ◌+◌, ◌*◌, ◌%◌, ◌≤◌, ◌<◌, ◌≡◌, ◌≢◌, refl, ap, ◌∙◌, inl, inr, Bool, false, Option,
  none, some, List, [], ◌∷◌, length, ◌==◌, if◌then◌else◌, arith, Bool-cases,
}
use concurrent_project.Heap.{Memory, load}
use concurrent_project.Client.{Closure, returns}
use concurrent_project.Client.Closures.{◌>>=◌, eval, eval-bind}
use concurrent_project.Client.Shared.{Shared, bind-aligned, read, after}
use concurrent_project.Client.Shared.Array
use concurrent_project.Client.Shared.Words.{word, word_of}
use concurrent_project.Bank
use concurrent_project.Bank.{AccountSegment, add64, is_negative}
use concurrent_project.Bank.Linked.{
  next_round, visit, Segment, segment_at, sum_accounts, sum_segments,
}

-- The word that is in memory at an address.
abbrev pub word_at : Memory → ℕ → ℕ
word_at m a = word_of (load m a 8)

-- The segments are in memory, each at an aligned address that is not null, and linked in their order.
abbrev pub IsLinked : Memory → (start : ℕ) → List AccountSegment → Type 0
IsLinked m start [] = start ≡ 0
IsLinked m start (segment ∷ rest) =
    (start ≢ 0)
    × (start % 8 ≡ 0)
    × (word_at m start ≡ segment.count)
    × (word_at m (start + 16) ≡ segment.parity)
    × ((i : ℕ) → i < segment.count → word_at m (start + 24 + i * 8) ≡ segment.accounts i)
    × IsLinked m (word_at m (start + 8)) rest

pub segment_at-aligned :
    (assert_mode : Bool) (a : ℕ)
    → a % 8 ≡ 0
    → segment_at assert_mode a
      ≡ returns (record {
        count = record { address = a };
        next = record { address = a + 8 };
        parity = record { address = a + 8 + 8 };
        accounts = record { address = a + 8 + 8 + 8 };
      })
unfolding segment_at after
segment_at-aligned assert_mode a h =
    rw
      (
        bind-aligned assert_mode 8 8 a h h,
        bind-aligned assert_mode 8 8 (a + 8) (omega (arith, h)) (omega (arith, h)),
        bind-aligned assert_mode 8 8 (a + 8 + 8) (omega (arith, h)) (omega (arith, h)),
        bind-aligned assert_mode 8 8 (a + 8 + 8 + 8) (omega (arith, h)) (omega (arith, h)),
      )
      refl

-- The next steps of a closure: a shared value that has been bound, and a word that is read.
pub eval-returns :
    {A B : Type 0} {c : Closure A} {a : A} (k : A → Closure B) (news : List ℕ) (m : Memory)
    → c ≡ returns a
    → eval (c >>= k) news m ≡ eval (k a) news m
eval-returns k news m e = ap (λ c. eval (c >>= k) news m) e

pub eval-read :
    {B : Type 0} (shared : Shared) {v : ℕ} (k : ℕ → Closure B) (news : List ℕ) (m : Memory)
    → word_at m shared.address ≡ v
    → eval (read word shared >>= k) news m ≡ eval (k v) news m
unfolding eval read
eval-read shared k news m e = ap (λ v. eval (k v) news m) e

eval-sum_accounts :
    (assert_mode : Bool) (n i : ℕ) (accounts : Shared) (sum : ℕ) (m : Memory) (f : ℕ → ℕ)
    → accounts.address % 8 ≡ 0
    → ((j : ℕ) → i ≤ j → j < i + n → word_at m (accounts.address + j * 8) ≡ f j)
    → eval (sum_accounts assert_mode n i accounts sum) [] m ≡ some (Bank.sum_accounts n i f sum, m)
unfolding sum_accounts eval Bank.sum_accounts read Array.at
eval-sum_accounts assert_mode zero i accounts sum m f h same = refl
eval-sum_accounts assert_mode (suc n) i accounts sum m f h same =
    let first = same i (omega arith) (omega arith) in
    let rest =
      eval-sum_accounts assert_mode n (i + 1) accounts (add64 sum (f i)) m f h
        (λ j le lt. same j (omega (arith, le)) (omega (arith, lt))) in
    let cell =
      bind-aligned assert_mode 8 8 (accounts.address + i * 8) (omega (arith, h))
        (omega (arith, h)) in
    let at : Shared = record { address = accounts.address + i * 8 } in
    let next : ℕ → Closure (Option ℕ) = λ local.
      (let rest = sum_accounts assert_mode n (i + 1) accounts (add64 sum local) in
        if is_negative local then returns none else rest) in
    eval-returns (λ c. read word c >>= next) [] m cell
    ∙ eval-read at next [] m first
    ∙ elim (Bool-cases (is_negative (f i))) [
      | inl negative ↦ rw negative refl
      | inr fine ↦ rw fine rest
    ]

-- A round of the loop, up to what follows the loop over the accounts.
eval-visit :
    (assert_mode : Bool) (rounds : (start count sum : ℕ) → Closure (Option (Option (ℕ × ℕ))))
    (cells : Segment) (segment : AccountSegment) (count sum : ℕ) (m : Memory)
    → cells.accounts.address % 8 ≡ 0
    → word_at m cells.count.address ≡ segment.count
    → word_at m cells.parity.address ≡ segment.parity
    → ((i : ℕ)
        → i < segment.count
        → word_at m (cells.accounts.address + i * 8) ≡ segment.accounts i)
    → eval (visit assert_mode rounds count sum cells) [] m
      ≡ eval
          (next_round assert_mode rounds cells
            (add64 count segment.count)
            (Bank.sum_accounts segment.count 0 segment.accounts (add64 sum segment.parity)))
          []
          m
unfolding visit
eval-visit assert_mode rounds cells segment count sum m aligned counted par same =
    let sums : (segment_count parity : ℕ) → Closure (Option (Option (ℕ × ℕ))) =
      λ segment_count parity.
        sum_accounts assert_mode segment_count 0 cells.accounts (add64 sum parity)
        >>= next_round assert_mode rounds cells (add64 count segment_count) in
    let summed =
      eval-sum_accounts assert_mode segment.count 0 cells.accounts (add64 sum segment.parity) m
        segment.accounts aligned (λ j le lt. same j (omega (arith, lt))) in
    eval-read cells.count (λ n. read word cells.parity >>= sums n) [] m counted
    ∙ eval-read cells.parity (sums segment.count) [] m par
    ∙ eval-bind _ (next_round assert_mode rounds cells (add64 count segment.count)) [] m summed

-- The end of a round, and the rounds that follow.
eval-next_round :
    (assert_mode : Bool) (rounds : (start count sum : ℕ) → Closure (Option (Option (ℕ × ℕ))))
    (cells : Segment) (count : ℕ) (m : Memory) (rest : List AccountSegment)
    → ((sum : ℕ)
        → eval (rounds (word_at m cells.next.address) count sum) [] m
          ≡ some (some (Bank.sum_segments rest count sum), m))
    → (result : Option ℕ)
    → let sums : Option (ℕ × ℕ) = elim result [
      | none ↦ none
      | some sum ↦ Bank.sum_segments rest count sum
    ] in
      eval (next_round assert_mode rounds cells count result) [] m ≡ some (some sums, m)
unfolding next_round eval
eval-next_round assert_mode rounds cells count m rest later none = refl
eval-next_round assert_mode rounds cells count m rest later (some sum) =
    eval-read cells.next (λ start. rounds start count sum) [] m refl ∙ later sum

-- In shared memory whose segments are linked, and with a round for each segment and one more, the loop of
-- `long_tx` comes to its end, changes nothing, and gives the count and the sum of the list of segments.
pub eval-sum_segments :
    (assert_mode : Bool) (fuel : ℕ) (segments : List AccountSegment) (start count sum : ℕ)
    (m : Memory)
    → length segments < fuel
    → IsLinked m start segments
    → eval (sum_segments assert_mode fuel start count sum) [] m
      ≡ some (some (Bank.sum_segments segments count sum), m)
unfolding sum_segments eval Bank.sum_segments read
eval-sum_segments assert_mode zero segments start count sum m enough linked =
    absurd (omega (arith, enough))
eval-sum_segments assert_mode (suc fuel) [] start count sum m enough linked = rw (linked) refl
eval-sum_segments assert_mode (suc fuel) (segment ∷ rest) start count sum m enough linked =
    let (present, aligned, counted, par, same, next) = linked in
    let going : (start == 0) ≡ false = ground (arith, present) in
    let rounds = sum_segments assert_mode fuel in
    let cells : Segment = record {
      count = record { address = start };
      next = record { address = start + 8 };
      parity = record { address = start + 8 + 8 };
      accounts = record { address = start + 8 + 8 + 8 };
    } in
    let behind : (n : ℕ) → start + 8 + 8 + 8 + n ≡ start + 24 + n = λ n. omega arith in
    let to_parity : start + 8 + 8 ≡ start + 16 = omega arith in
    let visited =
      eval-visit assert_mode rounds cells segment count sum m (omega (arith, aligned)) counted
        (ap (word_at m) to_parity ∙ par) (λ i lt. ap (word_at m) (behind (i * 8)) ∙ same i lt) in
    rw going (
      eval-returns (visit assert_mode rounds count sum) [] m
        (segment_at-aligned assert_mode start aligned)
      ∙ visited
      ∙ eval-next_round assert_mode rounds cells (add64 count segment.count) m rest
          (λ sum'.
            eval-sum_segments assert_mode fuel rest (word_at m (start + 8))
              (add64 count segment.count) sum' m (omega (arith, enough)) next)
          (Bank.sum_accounts segment.count 0 segment.accounts (add64 sum segment.parity)))

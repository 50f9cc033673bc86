-- ===== src/Bank/Linked/Start.antt =====
-- `init` on memory makes what Bank says.
use concurrent_project.Prelude.{
  ℕ, zero, suc, ◌+◌, ◌*◌, ◌%◌, ◌^◌, ◌≤◌, ◌<◌, ◌≡◌, ◌≢◌, refl, sym, ap, ◌∙◌, ◌⊎◌, inl, inr, Bool,
  some, [], ◌∷◌, ◌==◌, arith, Bool-cases,
}
use concurrent_project.Heap.{Memory, store, update}
use concurrent_project.Heap.Bytes.{load-store_disjoint}
use concurrent_project.Client.{Closure, returns}
use concurrent_project.Client.Closures.{◌>>=◌, eval}
use concurrent_project.Client.Shared.{Shared, bind-aligned, read, write}
use concurrent_project.Client.Shared.Array
use concurrent_project.Client.Shared.Words.{word, word_of, bytes_of, length-bytes_of}
use concurrent_project.Client.Shared.Pointer.Ownership.{held-store}
use concurrent_project.Bank
use concurrent_project.Bank.{AccountSegment, Workload}
use concurrent_project.Bank.Linked.{fill_accounts, make_accounts, check_first}
use concurrent_project.Bank.Linked.Sums.{
  word_at, IsLinked, segment_at-aligned, eval-returns, eval-read,
}

-- A word after the write of another, or of its own.
word_at-store :
    (m : Memory) (a v b : ℕ)
    → (a + 8 ≤ b) ⊎ (b + 8 ≤ a)
    → word_at (store m a (bytes_of 8 v)) b ≡ word_at m b
word_at-store m a v b apart =
    ap word_of
      (load-store_disjoint m b 8 a (bytes_of 8 v) (ground (arith, apart, length-bytes_of 8 v)))

word_at-store_self : (m : Memory) (a v : ℕ) → v < 2 ^ 64 → word_at (store m a (bytes_of 8 v)) a ≡ v
word_at-store_self m a v small = held-store m (record { address = a }) v small

-- The words of an array after the write of one.
array-store :
    (m : Memory) (a i v j : ℕ) (f : ℕ → ℕ)
    → v < 2 ^ 64
    → word_at m (a + j * 8) ≡ f j
    → word_at (store m (a + i * 8) (bytes_of 8 v)) (a + j * 8) ≡ update f i v j
array-store m a i v j f small same = elim (Bool-cases (i == j)) [
  | inl here ↦
      let e : a + i * 8 ≡ a + j * 8 = ground (arith, here) in
      rw here (
        ap (word_at (store m (a + i * 8) (bytes_of 8 v))) (sym e)
        ∙ word_at-store_self m (a + i * 8) v small)
  | inr there ↦ rw there (word_at-store m (a + i * 8) v (a + j * 8) (ground (arith, there)) ∙ same)
]

eval-fill_accounts :
    (assert_mode : Bool) (n i b : ℕ) (accounts : Shared) (m : Memory) (f : ℕ → ℕ)
    → accounts.address % 8 ≡ 0
    → b < 2 ^ 64
    → ((j : ℕ) → word_at m (accounts.address + j * 8) ≡ f j)
    → (m' : Memory) × (eval (fill_accounts assert_mode n i b accounts) [] m ≡ some (tt, m'))
      × ((j : ℕ) → word_at m' (accounts.address + j * 8) ≡ Bank.fill_accounts n i b f j)
      × ((q : ℕ) → q + 8 ≤ accounts.address → word_at m' q ≡ word_at m q)
unfolding fill_accounts eval Bank.fill_accounts write Array.at
eval-fill_accounts assert_mode zero i b accounts m f aligned small same =
    (m, refl, same, λ q lt. refl)
eval-fill_accounts assert_mode (suc n) i b accounts m f aligned small same =
    let a = accounts.address + i * 8 in
    let m1 = store m a (bytes_of 8 b) in
    let (m', run, words, kept) =
      eval-fill_accounts assert_mode n (i + 1) b accounts m1 (update f i b) aligned small
        (λ j. array-store m accounts.address i b j f small (same j)) in
    (
      m',
      eval-returns
            (λ cell. write word b cell >>= λ u. fill_accounts assert_mode n (i + 1) b accounts) [] m
            (bind-aligned assert_mode 8 8 a (omega (arith, aligned)) (omega (arith, aligned)))
          ∙ run,
      words,
      λ q lt. kept q lt ∙ word_at-store m a b q (inr (omega (arith, lt))),
    )

-- The segment that is in memory at an address.
abbrev pub segment_in : Memory → (start : ℕ) → AccountSegment
segment_in m start = record {
  count = word_at m start;
  parity = word_at m (start + 16);
  accounts = λ i. word_at m (start + 24 + i * 8);
}

-- At an aligned start address that is not null, with 64-bit parameters and no next segment: the first transaction
-- of `init` comes to its end and leaves in memory, linked, the one segment that `init` makes of what was there; and
-- the second one then comes to its end with the verdict of `init`.
pub eval-init :
    (assert_mode : Bool) (w : Workload) (start : ℕ) (m : Memory)
    → start ≢ 0
    → start % 8 ≡ 0
    → w.nbaccounts < 2 ^ 64
    → w.init_balance < 2 ^ 64
    → word_at m (start + 8) ≡ 0
    → (m' : Memory) × (eval (make_accounts assert_mode w start) [] m ≡ some (tt, m'))
      × IsLinked m' start ((Bank.init w (segment_in m start)).1 ∷ [])
      × (eval (check_first assert_mode w start) [] m'
          ≡ some ((Bank.init w (segment_in m start)).0, m'))
unfolding make_accounts check_first eval Bank.init write Array.at
eval-init assert_mode w start m present aligned few small last =
    let m1 = store m start (bytes_of 8 w.nbaccounts) in
    let accounts : Shared = record { address = start + 8 + 8 + 8 } in
    let bound = segment_at-aligned assert_mode start aligned in
    let behind : (n : ℕ) → start + 8 + 8 + 8 + n ≡ start + 24 + n = λ n. omega arith in
    let (m', filled, words, kept) =
      eval-fill_accounts assert_mode w.nbaccounts 0 w.init_balance accounts m1
        (λ i. word_at m (start + 24 + i * 8)) (omega (arith, aligned)) small
        (λ j.
          word_at-store m start w.nbaccounts (start + 8 + 8 + 8 + j * 8) (inl (omega arith))
          ∙ ap (word_at m) (behind (j * 8))) in
    let untouched : (q : ℕ)
        → start + 8 ≤ q
        → q + 8 ≤ start + 8 + 8 + 8
        → word_at m' q ≡ word_at m q =
      λ q le lt. kept q lt ∙ word_at-store m start w.nbaccounts q (inl le) in
    let verdict : ℕ → Closure Bool = λ balance. returns (balance == w.init_balance) in
    let linked : IsLinked m' start ((Bank.init w (segment_in m start)).1 ∷ []) = (
      present,
      aligned,
      kept start (omega arith) ∙ word_at-store_self m start w.nbaccounts few,
      untouched (start + 16) (omega arith) (omega arith),
      λ i lt. ap (word_at m') (sym (behind (i * 8))) ∙ words i,
      untouched (start + 8) (omega arith) (omega arith) ∙ last,
    ) in
    (
      m',
      eval-returns
            (λ segment. write word w.nbaccounts segment.count >>= λ u.
              fill_accounts assert_mode w.nbaccounts 0 w.init_balance segment.accounts)
            [] m bound
          ∙ filled,
      linked,
      eval-returns
            (λ segment.
              Array.at word assert_mode 8 0 segment.accounts >>= λ cell. read word cell >>= verdict)
            [] m' bound
          ∙ eval-returns (λ cell. read word cell >>= verdict) [] m'
              (bind-aligned assert_mode 8 8 (accounts.address + 0 * 8) (omega (arith, aligned))
                (omega (arith, aligned)))
          ∙ eval-read (record { address = accounts.address + 0 * 8 }) verdict [] m' (words 0),
    )

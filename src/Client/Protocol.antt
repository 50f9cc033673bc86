-- ===== src/Client/Protocol.antt =====
-- A client's transaction is over when its round is over.
use concurrent_project.Prelude.{
  sym, ap, ℕ, ◌≡◌, refl, inl, inr, Bool, true, false, ◌&&◌, List, ◌∷◌, arith, ◌==◌, if◌then◌else◌,
  Bool-cases, ◌∙◌,
}
use concurrent_project.Api.{Alloc, success, abort, nomem}
use concurrent_project.Client.{
  transaction_begin, transaction_alloc, Library, Outcome, value, throws, terminates, invalid_tx,
  Transaction, Closure, returns, raises, reads, writes, allocs, frees, create, read, write, alloc,
  free, run, destroy, attempt, with_transaction, Transactional, ends, continues, transaction_retry,
}

abbrev pub is_abort : Alloc → Bool
is_abort success = false
is_abort nomem = false
is_abort abort = true

-- What a library does with the transactions that are live in a state: begin makes one live, end and a
-- failing call end it, and a call that succeeds leaves it live.
pub record Tracks {S : Type 0} (lib : Library S) (live : S → List ℕ) : Type 0 where
  pub begins :
      (ro : Bool) (s : S)
      → live (lib.begin ro s).1
        ≡ (if (lib.begin ro s).0 == invalid_tx then live s else (lib.begin ro s).0 ∷ live s)
  pub ending : (tx : ℕ) (s : S) (rest : List ℕ) → live s ≡ tx ∷ rest → live (lib.end tx s).1 ≡ rest
  pub reading :
      (tx source size : ℕ) (s : S) (rest : List ℕ)
      → live s ≡ tx ∷ rest
      → live (lib.read tx source size s).2
        ≡ (if (lib.read tx source size s).0 then tx ∷ rest else rest)
  pub writing :
      (tx : ℕ) (source : List ℕ) (size target : ℕ) (s : S) (rest : List ℕ)
      → live s ≡ tx ∷ rest
      → live (lib.write tx source size target s).1
        ≡ (if (lib.write tx source size target s).0 then tx ∷ rest else rest)
  pub allocating :
      (tx size : ℕ) (s : S) (rest : List ℕ)
      → live s ≡ tx ∷ rest
      → live (lib.alloc tx size s).2
        ≡ (if is_abort (lib.alloc tx size s).0 then rest else tx ∷ rest)
  pub freeing :
      (tx target : ℕ) (s : S) (rest : List ℕ)
      → live s ≡ tx ∷ rest
      → live (lib.free tx target s).1 ≡ (if (lib.free tx target s).0 then tx ∷ rest else rest)

module _ {S : Type 0} (lib : Library S) (assert_mode : Bool) (live : S → List ℕ)
    (tracks : Tracks lib live) (rest : List ℕ) where
  -- The transaction is live unless it has been aborted.
  abbrev IsLive : Transaction → S → Type 0
  IsLive t s = live s ≡ (if t.aborted then rest else t.tx ∷ rest)

  abbrev gives : {B : Type 0} → Outcome B → Bool
  gives (value b) = true
  gives (throws e) = false
  gives terminates = false

  -- What a call leaves.
  abbrev Called : {B : Type 0} → Outcome B × Transaction × S → Type 0
  Called (r, t, s) = IsLive t s × (gives r ≡ true → t.aborted ≡ false)

  read-Called :
      (source size : ℕ) (t : Transaction) (s : S)
      → t.aborted ≡ false
      → IsLive t s
      → Called (read lib assert_mode source size t s)
  unfolding read
  read-Called source size t s going h = elim (Bool-cases (lib.read t.tx source size s).0) [
    | inl ok ↦
        rw (ok, read)
          (ground (arith, tracks.reading t.tx source size s rest (ground arith)), λ g. going)
    | inr fail ↦
        rw (fail, read)
          (ground (arith, tracks.reading t.tx source size s rest (ground arith)), λ g. cc)
  ]

  write-Called :
      (source : List ℕ) (size target : ℕ) (t : Transaction) (s : S)
      → t.aborted ≡ false
      → IsLive t s
      → Called (write lib assert_mode source size target t s)
  unfolding write
  write-Called source size target t s going h = elim (Bool-cases (assert_mode && t.is_ro)) [
    | inl refused ↦ rw (refused, write) (h, λ g. cc)
    | inr allowed ↦ elim (Bool-cases (lib.write t.tx source size target s).0) [
      | inl ok ↦
          rw (allowed, ok, write)
            (
              ground (arith, tracks.writing t.tx source size target s rest (ground arith)),
              λ g. going,
            )
      | inr fail ↦
          rw (allowed, fail, write)
            (ground (arith, tracks.writing t.tx source size target s rest (ground arith)), λ g. cc)
    ]
  ]

  free-Called :
      (target : ℕ) (t : Transaction) (s : S)
      → t.aborted ≡ false
      → IsLive t s
      → Called (free lib assert_mode target t s)
  unfolding free
  free-Called target t s going h = elim (Bool-cases (assert_mode && t.is_ro)) [
    | inl refused ↦ rw (refused, free) (h, λ g. cc)
    | inr allowed ↦ elim (Bool-cases (lib.free t.tx target s).0) [
      | inl ok ↦
          rw (allowed, ok, free)
            (ground (arith, tracks.freeing t.tx target s rest (ground arith)), λ g. going)
      | inr fail ↦
          rw (allowed, fail, free)
            (ground (arith, tracks.freeing t.tx target s rest (ground arith)), λ g. cc)
    ]
  ]

  allocated-Called :
      (result : Alloc) (target : ℕ) (t : Transaction) (s : S)
      → t.aborted ≡ false
      → live s ≡ (if is_abort result then rest else t.tx ∷ rest)
      → Called {B = ℕ} (elim result [
        | success ↦ (value target, t, s)
        | nomem ↦ (throws transaction_alloc, t, s)
        | abort ↦ (throws transaction_retry, record t { aborted = true }, s)
      ])
  allocated-Called success target t s going h = (ground arith, λ g. going)
  allocated-Called nomem target t s going h = (ground arith, λ g. cc)
  allocated-Called abort target t s going h = (h, λ g. cc)

  alloc-Called :
      (size : ℕ) (t : Transaction) (s : S)
      → t.aborted ≡ false
      → IsLive t s
      → Called (alloc lib assert_mode size t s)
  unfolding alloc
  alloc-Called size t s going h = elim (Bool-cases (assert_mode && t.is_ro)) [
    | inl refused ↦ rw (refused, alloc) (h, λ g. cc)
    | inr allowed ↦
        rw (allowed, alloc)
          (allocated-Called (lib.alloc t.tx size s).0 _ t _ going
            (tracks.allocating t.tx size s rest (ground arith)))
  ]

  -- The closure goes on after a call that has given a value, and else is left.
  run-next :
      {A B : Type 0} (r : Outcome B × Transaction × S) (next : B → Closure A)
      → Called r
      → ((b : B) (t : Transaction) (s : S)
          → t.aborted ≡ false
          → IsLive t s
          → IsLive (run lib assert_mode (next b) t s).1 (run lib assert_mode (next b) t s).2)
      → let after : Outcome A × Transaction × S = elim r.0 [
        | value b ↦ run lib assert_mode (next b) r.1 r.2
        | throws e ↦ (throws e, r.1, r.2)
        | terminates ↦ (terminates, r.1, r.2)
      ] in
        IsLive after.1 after.2
  run-next (value b, t, s) next (h, going) ih = ih b t s (going refl) h
  run-next (throws e, t, s) next (h, going) ih = h
  run-next (terminates, t, s) next (h, going) ih = h

  run-IsLive :
      {A : Type 0} (func : Closure A) (t : Transaction) (s : S)
      → t.aborted ≡ false
      → IsLive t s
      → IsLive (run lib assert_mode func t s).1 (run lib assert_mode func t s).2
  unfolding run
  run-IsLive (returns a) t s going h = h
  run-IsLive (raises e) t s going h = h
  run-IsLive (reads source size next) t s going h =
      run-next (read lib assert_mode source size t s) next (read-Called source size t s going h)
        (λ b. run-IsLive (next b))
  run-IsLive (writes source size target next) t s going h =
      run-next (write lib assert_mode source size target t s) (λ u. next)
        (write-Called source size target t s going h) (λ b. run-IsLive next)
  run-IsLive (allocs size next) t s going h =
      run-next (alloc lib assert_mode size t s) next (alloc-Called size t s going h)
        (λ b. run-IsLive (next b))
  run-IsLive (frees target next) t s going h =
      run-next (free lib assert_mode target t s) (λ u. next) (free-Called target t s going h)
        (λ b. run-IsLive next)

  destroy-closes :
      {A : Type 0} (r : Outcome A) (t : Transaction) (s : S)
      → IsLive t s
      → live (destroy lib assert_mode r t s).1 ≡ rest
  unfolding destroy
  destroy-closes (value a) t s h = ground (arith, tracks.ending t.tx s rest)
  destroy-closes (throws e) t s h = ground (arith, tracks.ending t.tx s rest)
  destroy-closes terminates t s h = ground (arith, tracks.ending t.tx s rest)

create-valid :
    {S : Type 0} (lib : Library S) (assert_mode mode : Bool) (s : S)
    → ((lib.begin mode s).0 == invalid_tx) ≡ false
    → create lib assert_mode mode s ≡ (
      value (record { tx = (lib.begin mode s).0; aborted = false; is_ro = mode }),
      (lib.begin mode s).1,
    )
unfolding create
create-valid lib assert_mode mode s valid = rw (valid, create) refl

create-invalid :
    {S : Type 0} (lib : Library S) (assert_mode mode : Bool) (s : S)
    → ((lib.begin mode s).0 == invalid_tx) ≡ true
    → create lib assert_mode mode s ≡ (throws transaction_begin, (lib.begin mode s).1)
unfolding create
create-invalid lib assert_mode mode s invalid = rw (invalid, create) refl

-- With a library that keeps track of its live transactions, a round of a client's loop leaves those live
-- that were live before it: whatever the closure does, its transaction has been ended, or a failed call
-- has ended it.
pub attempt-closes :
    {S : Type 0} (lib : Library S) (assert_mode : Bool) (live : S → List ℕ)
    → Tracks lib live
    → {A : Type 0} → (mode : Bool) → (func : Closure A) → (s : S)
    → live (attempt lib assert_mode mode func s).1 ≡ live s
unfolding attempt with_transaction
attempt-closes lib assert_mode live tracks mode func s =
    elim (Bool-cases ((lib.begin mode s).0 == invalid_tx)) [
      | inl invalid ↦
          rw (create-invalid lib assert_mode mode s invalid, with_transaction)
            (ground (arith, tracks.begins mode s))
      | inr valid ↦
          let t : Transaction = record {
            tx = (lib.begin mode s).0;
            aborted = false;
            is_ro = mode;
          } in
          let (r, t', s') = run lib assert_mode func t (lib.begin mode s).1 in
          rw (create-valid lib assert_mode mode s valid, with_transaction)
            (destroy-closes lib assert_mode live tracks (live s) r t' s' (
              run-IsLive lib assert_mode live tracks (live s) func t (lib.begin mode s).1 refl
                (ground (arith, tracks.begins mode s))))
    ]

-- With a library that keeps track of its live transactions, the loop of `transactional`, whenever it ends,
-- leaves those live that were live before it: every transaction that it has begun is over.
pub Transactional-closes :
    {S : Type 0} (lib : Library S) (assert_mode : Bool) (live : S → List ℕ)
    → Tracks lib live
    → {A : Type 0} → (mode : Bool) → (func : Closure A) → (r : Outcome A) → (s' s : S)
    → Transactional lib assert_mode mode func r s' s
    → live s' ≡ live s
Transactional-closes lib assert_mode live tracks mode func r s' s (ends e final) =
    ap (λ x. live (x.1)) (sym e) ∙ attempt-closes lib assert_mode live tracks mode func s
Transactional-closes lib assert_mode live tracks mode func r s' s
      (continues {middle = middle} e more) =
    Transactional-closes lib assert_mode live tracks mode func r s' middle more
    ∙ ap (λ x. live (x.1)) (sym e)
    ∙ attempt-closes lib assert_mode live tracks mode func s

-- ===== src/Client.antt =====
-- grading/transactional.hpp: a client's transactions on any library, and their retrying.
pub mod Protocol
pub mod Regions
pub mod Closures
pub mod Shared
mod Tests
use concurrent_project.Prelude.{
  ◌≢◌, ◌≡◌, ℕ, ◌-◌, ◌^◌, Bool, true, false, not, ◌&&◌, List, ◌==◌, if◌then◌else◌,
}
use concurrent_project.Api.{Alloc, success, abort, nomem}

-- The functions of a loaded library on one region, over a state `S` of the library and the memory. A
-- read gives the bytes that it has put in the private buffer, as far as it got; a write takes the bytes
-- of its private source.
pub record Library (S : Type 0) : Type 0 where
  pub begin : (ro : Bool) → S → ℕ × S
  pub end : (tx : ℕ) → S → Bool × S
  pub read : (tx source size : ℕ) → S → Bool × List ℕ × S
  pub write : (tx : ℕ) → (source : List ℕ) → (size target : ℕ) → S → Bool × S
  pub alloc : (tx size : ℕ) → S → Alloc × ℕ × S
  pub free : (tx target : ℕ) → S → Bool × S

-- The exceptions of a transaction and of the shared values, and any other that a closure may throw.
pub data Exception : Type 0 where
  transaction_begin transaction_retry transaction_read_only transaction_alloc : Exception
  shared_align shared_overflow shared_double_alloc shared_double_free other : Exception

pub data Outcome (A : Type 0) : Type 0 where
  value : A → Outcome A
  throws : Exception → Outcome A
  terminates : Outcome A

abbrev pub invalid_tx : ℕ
invalid_tx = 2 ^ 64 - 1

pub record Transaction : Type 0 where
  pub tx : ℕ
  pub aborted : Bool
  pub is_ro : Bool

-- A closure: what it does next, given the results of its calls so far.
pub data Closure (A : Type 0) : Type 0 where
  returns : A → Closure A
  raises : Exception → Closure A
  reads : (source size : ℕ) → (List ℕ → Closure A) → Closure A
  writes : (source : List ℕ) → (size target : ℕ) → Closure A → Closure A
  allocs : (size : ℕ) → (ℕ → Closure A) → Closure A
  frees : (target : ℕ) → Closure A → Closure A

module _ {S : Type 0} (lib : Library S) (assert_mode : Bool) where
  unfoldable pub create : (ro : Bool) → S → Outcome Transaction × S
  create ro s =
      let (tx, s') = lib.begin ro s in
      if tx == invalid_tx
      then (throws transaction_begin, s')
      else (value (record { tx = tx; aborted = false; is_ro = ro }), s')

  unfoldable pub read : (source size : ℕ) → Transaction → S → Outcome (List ℕ) × Transaction × S
  read source size t s =
      let (ok, bytes, s') = lib.read t.tx source size s in
      if not ok
      then (throws transaction_retry, record t { aborted = true }, s')
      else (value bytes, t, s')

  unfoldable pub write :
      (source : List ℕ) → (size target : ℕ) → Transaction → S → Outcome (Unit {0}) × Transaction × S
  write source size target t s =
      let (ok, s') = lib.write t.tx source size target s in
      if assert_mode && t.is_ro
      then (throws transaction_read_only, t, s)
      else if not ok
      then (throws transaction_retry, record t { aborted = true }, s')
      else (value tt, t, s')

  unfoldable pub alloc : (size : ℕ) → Transaction → S → Outcome ℕ × Transaction × S
  alloc size t s =
      let (result, target, s') = lib.alloc t.tx size s in
      if assert_mode && t.is_ro then (throws transaction_read_only, t, s) else elim result [
        | success ↦ (value target, t, s')
        | nomem ↦ (throws transaction_alloc, t, s')
        | abort ↦ (throws transaction_retry, record t { aborted = true }, s')
      ]

  unfoldable pub free : (target : ℕ) → Transaction → S → Outcome (Unit {0}) × Transaction × S
  free target t s =
      let (ok, s') = lib.free t.tx target s in
      if assert_mode && t.is_ro
      then (throws transaction_read_only, t, s)
      else if not ok
      then (throws transaction_retry, record t { aborted = true }, s')
      else (value tt, t, s')

  -- The closure up to its return or to an exception.
  unfoldable pub run : {A : Type 0} → Closure A → Transaction → S → Outcome A × Transaction × S
  unfolding read write alloc free
  run (returns a) t s = (value a, t, s)
  run (raises e) t s = (throws e, t, s)
  run (reads source size next) t s =
      let (r, t', s') = read source size t s in
      elim r [
        | value bytes ↦ run (next bytes) t' s'
        | throws e ↦ (throws e, t', s')
        | terminates ↦ (terminates, t', s')
      ]
  run (writes source size target next) t s =
      let (r, t', s') = write source size target t s in
      elim r [
        | value u ↦ run next t' s'
        | throws e ↦ (throws e, t', s')
        | terminates ↦ (terminates, t', s')
      ]
  run (allocs size next) t s =
      let (r, t', s') = alloc size t s in
      elim r [
        | value target ↦ run (next target) t' s'
        | throws e ↦ (throws e, t', s')
        | terminates ↦ (terminates, t', s')
      ]
  run (frees target next) t s =
      let (r, t', s') = free target t s in
      elim r [
        | value u ↦ run next t' s'
        | throws e ↦ (throws e, t', s')
        | terminates ↦ (terminates, t', s')
      ]

  -- The destructor, with the outcome so far: a second exception while one is on its way ends the
  -- process.
  unfoldable pub destroy : {A : Type 0} → Outcome A → Transaction → S → Outcome A × S
  destroy r t s =
      let (ok, s') = lib.end t.tx s in
      if t.aborted then (r, s) else if ok then (r, s') else elim r [
        | value a ↦ (throws transaction_retry, s')
        | throws e ↦ (terminates, s')
        | terminates ↦ (terminates, s')
      ]

  -- The closure with a transaction, up to the end of the transaction's scope.
  unfoldable pub with_transaction :
      {A : Type 0} → Closure A → Outcome Transaction × S → Outcome A × S
  unfolding run destroy
  with_transaction func (value t, s) = let (r, t', s') = run func t s in destroy r t' s'
  with_transaction func (throws e, s) = (throws e, s)
  with_transaction func (terminates, s) = (terminates, s)

  -- One round of the loop of `transactional`.
  unfoldable pub attempt : {A : Type 0} → (mode : Bool) → Closure A → S → Outcome A × S
  unfolding create with_transaction
  attempt mode func s = with_transaction func (create mode s)

  -- `transactional`: rounds that end in a retry, and a last one that does not.
  pub data Transactional {A : Type 0} (mode : Bool) (func : Closure A) (r : Outcome A) (s' : S)
      : S → Type 0 where
    ends :
        {s : S}
        → attempt mode func s ≡ (r, s')
        → r ≢ throws transaction_retry
        → Transactional mode func r s' s
    continues :
        {s middle : S}
        → attempt mode func s ≡ (throws transaction_retry, middle)
        → Transactional mode func r s' middle
        → Transactional mode func r s' s

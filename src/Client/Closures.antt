-- ===== src/Client/Closures.antt =====
-- grading/transactional.hpp: closures in sequence, and what a closure does on a memory of its own.
pub mod Runs
pub mod ReadOnly
use concurrent_project.Prelude.{
  ℕ, zero, suc, ◌+◌, ◌-◌, ◌*◌, ◌/◌, ◌%◌, ◌^◌, ◌≤◌, ◌<◌, ◌≡◌, ◌≢◌, refl, sym, ap, ◌∙◌, ◌⊎◌, inl, inr,
  Bool, true, false, not, ◌&&◌, ◌||◌, Option, none, some, List, [], ◌∷◌, ◌++◌, length, ltb, leb,
  ◌==◌, if◌then◌else◌, arith, Bool-cases,
}
use concurrent_project.Prelude
use concurrent_project.Heap.{Memory, load, store, memset}
use concurrent_project.Api.{Alloc, success, abort, nomem}
use concurrent_project.Client.{
  Exception, transaction_retry, transaction_alloc, Library, Outcome, value, throws, terminates,
  Transaction, Closure, returns, raises, reads, writes, allocs, frees, read, write, alloc, free,
  run,
}

-- One closure after another. `abbrev`, so that it computes wherever it stands.
infixl 5 ◌>>=◌
abbrev pub ◌>>=◌ : {A B : Type 0} → Closure A → (A → Closure B) → Closure B
returns a >>= f = f a
raises e >>= f = raises e
reads source size next >>= f = reads source size (λ bytes. next bytes >>= f)
writes source size target next >>= f = writes source size target (next >>= f)
allocs size next >>= f = allocs size (λ target. next target >>= f)
frees target next >>= f = frees target (next >>= f)

-- A closure on a memory, with the addresses that it is given when it allocates. `none` is an exception. What is
-- freed stays as it is until the transaction ends.
unfoldable pub eval : {A : Type 0} → Closure A → (news : List ℕ) → Memory → Option (A × Memory)
eval (returns a) news m = some (a, m)
eval (raises e) news m = none
eval (reads source size next) news m = eval (next (load m source size)) news m
eval (writes source size target next) news m = eval next news (store m target source)
eval (allocs size next) [] m = none
eval (allocs size next) (target ∷ news) m = eval (next target) news (memset m target 0 size)
eval (frees target next) news m = eval next news m

-- One closure after another, when the first allocates nothing.
pub eval-bind :
    {A B : Type 0} (c : Closure A) (k : A → Closure B) (news : List ℕ) (m : Memory) {a : A}
    {m' : Memory}
    → eval c [] m ≡ some (a, m')
    → eval (c >>= k) news m ≡ eval (k a) news m'
unfolding eval
eval-bind (returns b) k news m e = cc
eval-bind (raises x) k news m e = absurd (cc)
eval-bind (reads source size next) k news m e = eval-bind (next (load m source size)) k news m e
eval-bind (writes source size target next) k news m e =
    eval-bind next k news (store m target source) e
eval-bind (allocs size next) k news m e = absurd (cc)
eval-bind (frees target next) k news m e = eval-bind next k news m e

-- A library that shows a transaction its own writes, and zeros in what it allocates: the memory as the one live
-- transaction sees it, in a state of the library.
pub record Holds {S : Type 0} (lib : Library S) (view : S → Memory) : Type 0 where
  pub reading :
      (tx source size : ℕ) (s : S)
      → (lib.read tx source size s).0 ≡ true
      → ((lib.read tx source size s).1 ≡ load (view s) source size)
        × (view (lib.read tx source size s).2 ≡ view s)
  pub writing :
      (tx : ℕ) (source : List ℕ) (size target : ℕ) (s : S)
      → (lib.write tx source size target s).0 ≡ true
      → view (lib.write tx source size target s).1 ≡ store (view s) target source
  pub allocating :
      (tx size : ℕ) (s : S)
      → (lib.alloc tx size s).0 ≡ success
      → view (lib.alloc tx size s).2 ≡ memset (view s) (lib.alloc tx size s).1 0 size
  pub freeing :
      (tx target : ℕ) (s : S)
      → (lib.free tx target s).0 ≡ true
      → view (lib.free tx target s).1 ≡ view s

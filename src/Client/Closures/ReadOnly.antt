-- ===== src/Client/Closures/ReadOnly.antt =====
-- A closure that only reads, in a try.
use concurrent_project.Prelude.{
  ℕ, ◌≡◌, refl, ap, ◌∙◌, ◌⊎◌, inl, inr, Bool, true, false, some, List, [], Bool-cases,
}
use concurrent_project.Heap.{Memory}
use concurrent_project.Client.{
  Exception, transaction_retry, Library, Outcome, value, throws, terminates, Transaction, Closure,
  returns, raises, reads, writes, allocs, frees, read, run,
}
use concurrent_project.Client.Closures.{◌>>=◌, eval, Holds}

-- A closure that reads and does nothing else.
abbrev pub ReadsOnly : {A : Type 0} → Closure A → Type 0
ReadsOnly (returns a) = Unit {0}
ReadsOnly (raises e) = Unit {0}
ReadsOnly (reads source size next) = (bytes : List ℕ) → ReadsOnly (next bytes)
ReadsOnly (writes source size target next) = ⊥
ReadsOnly (allocs size next) = ⊥
ReadsOnly (frees target next) = ⊥

pub ReadsOnly-bind :
    {A B : Type 0} (c : Closure A) (k : A → Closure B)
    → ReadsOnly c
    → ((a : A) → ReadsOnly (k a))
    → ReadsOnly (c >>= k)
ReadsOnly-bind (returns a) k h h' = h' a
ReadsOnly-bind (raises e) k h h' = tt
ReadsOnly-bind (reads source size next) k h h' = λ bytes. ReadsOnly-bind (next bytes) k (h bytes) h'
ReadsOnly-bind (writes source size target next) k h h' = elim h [ ]
ReadsOnly-bind (allocs size next) k h h' = elim h [ ]
ReadsOnly-bind (frees target next) k h h' = elim h [ ]

read-done :
    {S : Type 0} (lib : Library S) (assert_mode : Bool) (source size : ℕ) (t : Transaction) (s : S)
    → (lib.read t.tx source size s).0 ≡ true
    → read lib assert_mode source size t s
      ≡ (value (lib.read t.tx source size s).1, t, (lib.read t.tx source size s).2)
unfolding read
read-done lib assert_mode source size t s done = rw (done, read) refl

read-failed :
    {S : Type 0} (lib : Library S) (assert_mode : Bool) (source size : ℕ) (t : Transaction) (s : S)
    → (lib.read t.tx source size s).0 ≡ false
    → (read lib assert_mode source size t s).0 ≡ throws transaction_retry
unfolding read
read-failed lib assert_mode source size t s failed = rw (failed, read) refl

-- The rest of a closure after a call.
abbrev goes_on :
    {S A B : Type 0}
    → Library S
    → Bool
    → (B → Closure A)
    → Outcome B × Transaction × S
    → Outcome A × Transaction × S
goes_on lib assert_mode next (value b, t, s) = run lib assert_mode (next b) t s
goes_on lib assert_mode next (throws e, t, s) = (throws e, t, s)
goes_on lib assert_mode next (terminates, t, s) = (terminates, t, s)

goes_on-throws :
    {S A B : Type 0} (lib : Library S) (assert_mode : Bool) (next : B → Closure A)
    (r : Outcome B × Transaction × S) {e : Exception}
    → r.0 ≡ throws e
    → (goes_on lib assert_mode next r).0 ≡ throws e
goes_on-throws lib assert_mode next (value b, t, s) h = absurd (cc)
goes_on-throws lib assert_mode next (throws x, t, s) h = cc
goes_on-throws lib assert_mode next (terminates, t, s) h = absurd (cc)

run-goes_on :
    {S A : Type 0} (lib : Library S) (assert_mode : Bool) (source size : ℕ)
    (next : List ℕ → Closure A) (t : Transaction) (s : S)
    → run lib assert_mode (reads source size next) t s
      ≡ goes_on lib assert_mode next (read lib assert_mode source size t s)
unfolding run
run-goes_on {S = S} {A = A} lib assert_mode source size next t s =
    shape (read lib assert_mode source size t s)
  where
    shape :
        (r : Outcome (List ℕ) × Transaction × S)
        → let after : Outcome A × Transaction × S = elim r.0 [
          | value b ↦ run lib assert_mode (next b) r.1 r.2
          | throws e ↦ (throws e, r.1, r.2)
          | terminates ↦ (terminates, r.1, r.2)
        ] in
          after ≡ goes_on lib assert_mode next r
    shape (value b, t, s) = refl
    shape (throws e, t, s) = refl
    shape (terminates, t, s) = refl

-- With a library that holds the memory of the live transaction, a closure that only reads, and comes to its end
-- on a memory of its own, gives the same result in a try and leaves the memory as it is, unless a read fails, which
-- is a retry.
pub run-reads :
    {S : Type 0} (lib : Library S) (assert_mode : Bool) (view : S → Memory)
    → Holds lib view
    → {A : Type 0} → (func : Closure A) → (t : Transaction) → (s : S) → (a : A) → {m' : Memory}
    → ReadsOnly func
    → eval func [] (view s) ≡ some (a, m')
    → ((run lib assert_mode func t s).0 ≡ throws transaction_retry)
      ⊎ ((run lib assert_mode func t s).0 ≡ value a)
        × (view (run lib assert_mode func t s).2 ≡ view s)
unfolding eval run
run-reads lib assert_mode view holds (returns b) t s a only e = inr (cc, refl)
run-reads lib assert_mode view holds (raises x) t s a only e = absurd (cc)
run-reads lib assert_mode view holds (reads source size next) t s a only e =
    let (ok, bytes, s1) = lib.read t.tx source size s in
    let start = run-goes_on lib assert_mode source size next t s in
    elim (Bool-cases ok) [
      | inl done ↦
          let (loaded, kept) = holds.reading t.tx source size s done in
          let e' : eval (next bytes) [] (view s1) ≡ _ =
            ap (eval (next bytes) []) kept ∙ ap (λ x. eval (next x) [] (view s)) loaded ∙ e in
          let same : run lib assert_mode (reads source size next) t s
              ≡ run lib assert_mode (next bytes) t s1 =
            start
            ∙ ap (goes_on lib assert_mode next) (read-done lib assert_mode source size t s done) in
          elim (run-reads lib assert_mode view holds (next bytes) t s1 a (only bytes) e') [
            | inl retry ↦ inl (ap (λ r. r.0) same ∙ retry)
            | inr (gives, unchanged) ↦
                inr (ap (λ r. r.0) same ∙ gives, ap (λ r. view (r.2)) same ∙ unchanged ∙ kept)
          ]
      | inr failed ↦ inl (
          ap (λ r. r.0) start
          ∙ goes_on-throws lib assert_mode next (read lib assert_mode source size t s)
              (read-failed lib assert_mode source size t s failed))
    ]
run-reads lib assert_mode view holds (writes source size target next) t s a only e = elim only [ ]
run-reads lib assert_mode view holds (allocs size next) t s a only e = elim only [ ]
run-reads lib assert_mode view holds (frees target next) t s a only e = elim only [ ]

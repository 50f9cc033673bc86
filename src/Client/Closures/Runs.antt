-- ===== src/Client/Closures/Runs.antt =====
-- A try of a library that holds the memory of the live transaction does what its closure does on a memory.
use concurrent_project.Prelude.{
  ℕ, ◌≡◌, refl, sym, ap, ◌∙◌, inl, inr, Bool, true, ◌&&◌, some, List, [], ◌∷◌, Bool-cases,
}
use concurrent_project.Heap.{Memory, load, store, memset}
use concurrent_project.Api.{Alloc, success, abort, nomem}
use concurrent_project.Client.{
  transaction_retry, transaction_alloc, Library, Outcome, value, throws, terminates, Transaction,
  Closure, returns, raises, reads, writes, allocs, frees, read, write, alloc, free, run,
}
use concurrent_project.Client.Closures.{eval, Holds}

-- What a closure does in a try that does not throw.
module _ {S : Type 0} (lib : Library S) (assert_mode : Bool) (view : S → Memory)
    (holds : Holds lib view) where
  abbrev Evaluates : {A : Type 0} → Closure A → A → Memory → Memory → Type 0
  Evaluates func a m m' = (news : List ℕ) × (eval func news m ≡ some (a, m'))

  -- A closure that does not throw has got a value from its first call.
  run-next :
      {A B : Type 0} (r : Outcome B × Transaction × S) (next : B → Closure A) (a : A)
      (t' : Transaction) (s' : S)
      → let after : Outcome A × Transaction × S = elim r.0 [
        | value b ↦ run lib assert_mode (next b) r.1 r.2
        | throws e ↦ (throws e, r.1, r.2)
        | terminates ↦ (terminates, r.1, r.2)
      ] in
        after ≡ (value a, t', s')
        → (b : B) × (r.0 ≡ value b) × (run lib assert_mode (next b) r.1 r.2 ≡ (value a, t', s'))
  run-next (value b, t, s) next a t' s' e = (b, refl, e)
  run-next (throws x, t, s) next a t' s' e = absurd (cc)
  run-next (terminates, t, s) next a t' s' e = absurd (cc)

  read-value :
      (source size : ℕ) (t : Transaction) (s : S) (b : List ℕ)
      → (read lib assert_mode source size t s).0 ≡ value b
      → (b ≡ load (view s) source size) × (view (read lib assert_mode source size t s).2 ≡ view s)
  unfolding read
  read-value source size t s b = elim (Bool-cases (lib.read t.tx source size s).0) [
    | inl ok ↦
        let (loaded, kept) = holds.reading t.tx source size s ok in rw (ok, read) (λ e. (cc, kept))
    | inr failed ↦ rw (failed, read) (λ e. absurd (cc))
  ]

  write-value :
      (source : List ℕ) (size target : ℕ) (t : Transaction) (s : S) (b : Unit {0})
      → (write lib assert_mode source size target t s).0 ≡ value b
      → view (write lib assert_mode source size target t s).2 ≡ store (view s) target source
  unfolding write
  write-value source size target t s b = elim (Bool-cases (assert_mode && t.is_ro)) [
    | inl refused ↦ rw (refused, write) (λ e. absurd (cc))
    | inr allowed ↦ elim (Bool-cases (lib.write t.tx source size target s).0) [
      | inl ok ↦ rw (allowed, ok, write) (λ e. holds.writing t.tx source size target s ok)
      | inr failed ↦ rw (allowed, failed, write) (λ e. absurd (cc))
    ]
  ]

  free-value :
      (target : ℕ) (t : Transaction) (s : S) (b : Unit {0})
      → (free lib assert_mode target t s).0 ≡ value b
      → view (free lib assert_mode target t s).2 ≡ view s
  unfolding free
  free-value target t s b = elim (Bool-cases (assert_mode && t.is_ro)) [
    | inl refused ↦ rw (refused, free) (λ e. absurd (cc))
    | inr allowed ↦ elim (Bool-cases (lib.free t.tx target s).0) [
      | inl ok ↦ rw (allowed, ok, free) (λ e. holds.freeing t.tx target s ok)
      | inr failed ↦ rw (allowed, failed, free) (λ e. absurd (cc))
    ]
  ]

  allocated-value :
      (result : Alloc) (target : ℕ) (t : Transaction) (s : S) (m : Memory) (b : ℕ)
      → (result ≡ success → view s ≡ m)
      → let r : Outcome ℕ × Transaction × S = elim result [
        | success ↦ (value target, t, s)
        | nomem ↦ (throws transaction_alloc, t, s)
        | abort ↦ (throws transaction_retry, record t { aborted = true }, s)
      ] in
        r.0 ≡ value b → (b ≡ target) × (view r.2 ≡ m)
  allocated-value success target t s m b zeroed e = (cc, zeroed refl)
  allocated-value nomem target t s m b zeroed e = absurd (cc)
  allocated-value abort target t s m b zeroed e = absurd (cc)

  alloc-value :
      (size : ℕ) (t : Transaction) (s : S) (b : ℕ)
      → (alloc lib assert_mode size t s).0 ≡ value b
      → view (alloc lib assert_mode size t s).2 ≡ memset (view s) b 0 size
  unfolding alloc
  alloc-value size t s b = elim (Bool-cases (assert_mode && t.is_ro)) [
    | inl refused ↦ rw (refused, alloc) (λ e. absurd (cc))
    | inr allowed ↦
        let (result, target, s1) = lib.alloc t.tx size s in
        rw (allowed, alloc)
          (λ e.
            let (same, zeroed) =
              allocated-value result target t s1 (memset (view s) target 0 size) b
                (holds.allocating t.tx size s) e in
            zeroed ∙ ap (λ x. memset (view s) x 0 size) (sym same))
  ]

  -- With a library that holds the memory of the live transaction, a closure that comes to its end in a
  -- try has the result and leaves the memory that it has on a memory of its own, with some addresses for
  -- what it allocates.
  pub run-eval :
      {A : Type 0} (func : Closure A) (t : Transaction) (s : S) (a : A) (t' : Transaction) (s' : S)
      → run lib assert_mode func t s ≡ (value a, t', s')
      → Evaluates func a (view s) (view s')
  unfolding eval run
  run-eval (returns b) t s a t' s' e = ([], cc)
  run-eval (raises x) t s a t' s' e = absurd (cc)
  run-eval (reads source size next) t s a t' s' e =
      let r = read lib assert_mode source size t s in
      let (b, given, after) = run-next r next a t' s' e in
      let (loaded, kept) = read-value source size t s b given in
      let (news, h) = run-eval (next b) r.1 r.2 a t' s' after in
      (
        news,
        ap (λ x. eval (next x) news (view s)) (sym loaded) ∙ ap (eval (next b) news) (sym kept) ∙ h,
      )
  run-eval (writes source size target next) t s a t' s' e =
      let r = write lib assert_mode source size target t s in
      let (b, given, after) = run-next r (λ u. next) a t' s' e in
      let (news, h) = run-eval next r.1 r.2 a t' s' after in
      (news, ap (eval next news) (sym (write-value source size target t s b given)) ∙ h)
  run-eval (allocs size next) t s a t' s' e =
      let r = alloc lib assert_mode size t s in
      let (b, given, after) = run-next r next a t' s' e in
      let (news, h) = run-eval (next b) r.1 r.2 a t' s' after in
      (b ∷ news, ap (eval (next b) news) (sym (alloc-value size t s b given)) ∙ h)
  run-eval (frees target next) t s a t' s' e =
      let r = free lib assert_mode target t s in
      let (b, given, after) = run-next r (λ u. next) a t' s' e in
      let (news, h) = run-eval next r.1 r.2 a t' s' after in
      (news, ap (eval next news) (sym (free-value target t s b given)) ∙ h)

-- ===== src/Reference/Tests.antt =====
-- The reference memory at two segments, and the theorems at such runs.
use mathlib.Core.Path.{subst}
use concurrent_project.Prelude.{
  ℕ, suc, ◌<◌, ◌≡◌, refl, true, false, Option, none, some, List, [], ◌∷◌, arith, inl, inr, length,
}
use concurrent_project.Heap.{load}
use concurrent_project.SharedMutex.{try_lock, try_lock_shared, unlock, unlock_shared}
use concurrent_project.Reference.{
  Store, read_only_tx, read_write_tx, tm_destroy, tm_begin, tm_alloc, tm_free, tm_end, tm_read,
}
use concurrent_project.Reference.Runs.{
  State, Call, begins, ends, reads, allocs, frees, perform, run, replay, Allowed, AllAllowed,
  abstract_call,
}
use concurrent_project.Reference.Refine.{Holds}
use concurrent_project.Reference.Refinement.{run_refines}
use concurrent_project.Reference.Lifecycle.{created, lifecycle, created-Holds}
use concurrent_project.Reference.Snapshot.{Spares, WhileReading, run-snapshot}

abbrev empty : Store
empty = record { blocks = λ a. none; memory = λ a. 7 }

-- A call with the state that it leads to.
AllAllowed-cons :
    (c : Call) (calls : List Call) (st st1 : State) (xs : List ℕ)
    → Allowed c st xs
    → perform c st ≡ some st1
    → AllAllowed calls st1 (abstract_call st.region.align c xs)
    → AllAllowed (c ∷ calls) st xs
AllAllowed-cons c calls st st1 xs allowed e rest = (
  allowed,
  λ st' e'. subst (λ s. AllAllowed calls s (abstract_call st.region.align c xs)) (same st' e') rest,
)
  where
    same : (st' : State) → perform c st ≡ some st' → st1 ≡ st'
    same st' e' = cc

abbrev start_state : State
start_state = created 100 200 64 8 empty

-- Two segments are allocated, and the first is freed.
abbrev calls : List Call
calls =
    begins false 0
    ∷ allocs (λ align size. some 300) 4
    ∷ allocs (λ align size. some 400) 2
    ∷ frees 316
    ∷ ends read_write_tx
    ∷ []

calls_leave : replay 8 calls [] ≡ 400 ∷ []
unfolding replay
calls_leave = refl

fresh-at : (sn sn' : ℕ) → ◌≡◌ {A = Option ℕ} (some sn) (some sn') → sn ≡ sn'
fresh-at sn sn' e = cc

-- The states after one, two, three and four calls.
abbrev after : Call → State → State
unfolding perform tm_begin tm_alloc tm_free tm_end tm_read try_lock try_lock_shared unlock
    unlock_shared
after c st = elim (perform c st) [ none ↦ st | some st' ↦ st' ]

abbrev first_call : Call
first_call = begins false 0

abbrev second_call : Call
second_call = allocs (λ align size. some 300) 4

abbrev third_call : Call
third_call = allocs (λ align size. some 400) 2

abbrev state1 : State
unfolding after
state1 = after first_call start_state

abbrev state2 : State
unfolding state1
state2 = after second_call state1

abbrev state3 : State
unfolding state2
state3 = after third_call state2

abbrev state4 : State
unfolding state3
state4 = after (frees 316) state3

calls-AllAllowed : AllAllowed calls start_state []
unfolding state4 abstract_call
calls-AllAllowed =
    AllAllowed-cons first_call (second_call ∷ third_call ∷ frees 316 ∷ ends read_write_tx ∷ [])
      start_state state1 [] tt refl
      (AllAllowed-cons second_call (third_call ∷ frees 316 ∷ ends read_write_tx ∷ []) state1 state2
        []
        (omega arith, λ sn e. rw (← fresh-at 300 sn e) ((λ z. omega (arith, z)), refl, omega arith))
        refl
        (AllAllowed-cons third_call (frees 316 ∷ ends read_write_tx ∷ []) state2 state3 (300 ∷ [])
          (
            omega arith,
            λ sn e. rw (← fresh-at 400 sn e) ((λ z. omega (arith, z)), refl, omega arith),
          )
          refl
          (AllAllowed-cons (frees 316) (ends read_write_tx ∷ []) state3 state4 (400 ∷ 300 ∷ [])
            (omega arith, (300, refl, refl)) refl
            (AllAllowed-cons (ends read_write_tx) [] state4 (after (ends read_write_tx) state4)
              (400 ∷ []) (inr (refl, omega arith)) refl tt))))

run_refines_example :
    (st' : State) × (run calls start_state ≡ some st')
    × Holds start_state.store.blocks st' (replay 8 calls [])
    × (st'.region.start ≡ 200)
run_refines_example =
    run_refines start_state.store.blocks calls start_state [] (created-Holds 100 200 64 8 empty)
      calls-AllAllowed

lifecycle_example :
    (st' : State) × (s' : Store) × (run calls start_state ≡ some st')
    × (tm_destroy (suc (length (replay 8 calls []))) 100 st'.region st'.store ≡ some s')
    × ((a : ℕ) → s'.blocks a ≡ none)
lifecycle_example = lifecycle 100 200 64 8 empty calls refl refl calls-AllAllowed

-- One transaction reads, and another begins and ends beside it.
abbrev read_state : State
read_state = record start_state {
  region = record (start_state.region) { lock = record { exclusive = false; readers = 1 } };
  readers = 1;
}

abbrev beside : List Call
beside = begins true 0 ∷ reads 200 8 1000 ∷ ends read_only_tx ∷ []

read_state-Holds : Holds read_state.store.blocks read_state []
read_state-Holds = record {
  list = record { head = refl; chain = tt; distinct = tt; small = tt };
  isolated = record { writing = refl; reading = refl; apart = inl refl };
  outside = λ a out. refl;
  unused = tt;
}

WhileReading-cons :
    (a n : ℕ) (c : Call) (calls : List Call) (st st1 : State)
    → 0 < st.readers
    → Spares a n c
    → perform c st ≡ some st1
    → WhileReading a n calls st1
    → WhileReading a n (c ∷ calls) st
WhileReading-cons a n c calls st st1 reader spares e rest =
    (reader, spares, λ st' e'. subst (λ s. WhileReading a n calls s) (same st' e') rest)
  where
    same : (st' : State) → perform c st ≡ some st' → st1 ≡ st'
    same st' e' = cc

abbrev beside1 : State
unfolding after
beside1 = after (begins true 0) read_state

abbrev beside2 : State
unfolding beside1
beside2 = after (reads 200 8 1000) beside1

abbrev beside3 : State
unfolding beside2
beside3 = after (ends read_only_tx) beside2

beside-AllAllowed : AllAllowed beside read_state []
unfolding beside3 abstract_call
beside-AllAllowed =
    AllAllowed-cons (begins true 0) (reads 200 8 1000 ∷ ends read_only_tx ∷ []) read_state beside1
      [] tt refl
      (AllAllowed-cons (reads 200 8 1000) (ends read_only_tx ∷ []) beside1 beside2 [] tt refl (
        AllAllowed-cons (ends read_only_tx) [] beside2 beside3 [] (inl (refl, omega arith)) refl
          tt))

beside-WhileReading : WhileReading 200 64 beside read_state
unfolding beside3
beside-WhileReading =
    WhileReading-cons 200 64 (begins true 0) (reads 200 8 1000 ∷ ends read_only_tx ∷ []) read_state
      beside1 (omega arith) tt refl
      (WhileReading-cons 200 64 (reads 200 8 1000) (ends read_only_tx ∷ []) beside1 beside2
        (omega arith) (inl (omega arith)) refl
        (WhileReading-cons 200 64 (ends read_only_tx) [] beside2 beside3 (omega arith) tt refl tt))

beside-run : run beside read_state ≡ some beside3
unfolding run beside3
beside-run = refl

run-snapshot_example :
    (load beside3.store.memory 200 64 ≡ load read_state.store.memory 200 64)
    × (beside3.store.blocks ≡ read_state.store.blocks)
unfolding beside3
run-snapshot_example =
    run-snapshot 200 64 read_state.store.blocks beside read_state [] read_state-Holds
      beside-AllAllowed beside-WhileReading beside3 beside-run

-- ===== src/Spinlock/Exclusion.antt =====
-- The lock is held by one thread at most.
use concurrent_project.Prelude.{
  ℕ, ◌+◌, ◌≡◌, ◌≤◌, ◌≢◌, ap, refl, Bool, List, [], ◌∷◌, ◌++◌, arith, if◌then◌else◌,
}
use concurrent_project.Spinlock.{
  Place, outside, exchanging, waiting, trying, holding, Move, lock, try_lock, unlock, go_on, go,
  perform, MayMake, System, Step, moves, Steps, done, more,
}

abbrev pub held : Place → ℕ
held outside = 0
held exchanging = 0
held (waiting attempts) = 0
held trying = 0
held holding = 1

-- The number of threads that have the lock.
abbrev pub holders : List Place → ℕ
holders [] = 0
holders (place ∷ places) = held place + holders places

holders-append : (xs ys : List Place) → holders (xs ++ ys) ≡ holders xs + holders ys
holders-append [] ys = omega arith
holders-append (x ∷ xs) ys = omega (arith, holders-append xs ys)

abbrev pub flagged : Bool → ℕ
flagged flag = if flag then 1 else 0

-- A move takes or gives back the lock with the flag, or another thread has the lock.
go-held :
    (place : Place) (flag : Bool)
    → held place ≤ flagged flag
    → held (go place flag).0 + flagged flag ≡ held place + flagged (go place flag).1
unfolding go
go-held outside flag h = refl
go-held exchanging flag h = ground arith
go-held (waiting attempts) flag h = ground arith
go-held trying flag h = ground arith
go-held holding flag h = refl

outside-ne-holding : outside ≢ holding
outside-ne-holding e = omega (arith, ap held e)

perform-held :
    (move : Move) (place : Place) (flag : Bool)
    → MayMake move place
    → held place ≤ flagged flag
    → held (perform move place flag).0 + flagged flag
      ≡ held place + flagged (perform move place flag).1
unfolding perform
perform-held lock outside flag may h = refl
perform-held lock exchanging flag may h = refl
perform-held lock (waiting attempts) flag may h = refl
perform-held lock trying flag may h = refl
perform-held lock holding flag may h = refl
perform-held try_lock outside flag may h = ground arith
perform-held try_lock exchanging flag may h = refl
perform-held try_lock (waiting attempts) flag may h = refl
perform-held try_lock trying flag may h = refl
perform-held try_lock holding flag may h = refl
perform-held unlock outside flag may h = absurd (outside-ne-holding may)
perform-held unlock exchanging flag may h = refl
perform-held unlock (waiting attempts) flag may h = refl
perform-held unlock trying flag may h = refl
perform-held unlock holding flag may h = ground arith
perform-held go_on outside flag may h = go-held outside flag h
perform-held go_on exchanging flag may h = go-held exchanging flag h
perform-held go_on (waiting attempts) flag may h = go-held (waiting attempts) flag h
perform-held go_on trying flag may h = go-held trying flag h
perform-held go_on holding flag may h = go-held holding flag h

-- The lock is held exactly when the flag is up, and by one thread.
abbrev pub IsExclusive : System → Type 0
IsExclusive sys = holders sys.places ≡ flagged sys.flag

Step-IsExclusive : {sys sys' : System} → Step sys sys' → IsExclusive sys → IsExclusive sys'
Step-IsExclusive (moves {flag} before place after move may) h = omega (
  arith,
  h,
  holders-append before (place ∷ after),
  holders-append before ((perform move place flag).0 ∷ after),
  perform-held move place flag may (omega (arith, h, holders-append before (place ∷ after))),
)

-- From a state in which the lock is held exactly when the flag is up, and by one thread, any calls of
-- any threads lead to such a state, access by access in any order, if only the thread that has the lock calls
-- `unlock`.
pub Steps-IsExclusive : {start sys : System} → Steps start sys → IsExclusive start → IsExclusive sys
Steps-IsExclusive done h = h
Steps-IsExclusive (more steps step) h = Step-IsExclusive step (Steps-IsExclusive steps h)

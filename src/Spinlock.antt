-- ===== src/Spinlock.antt =====
-- 358982/spinlock.cpp: a lock on one atomic flag, which any number of threads call.
pub mod Exclusion
mod Tests
use concurrent_project.Prelude.{
  ℕ, ◌+◌, ◌≡◌, Bool, true, false, not, ◌&&◌, List, ◌∷◌, ◌++◌, ltb, if◌then◌else◌,
}

abbrev pub n_attempts : ℕ
n_attempts = 100000

-- Where a thread stands: outside; in `lock`, before the exchange or in the wait for the flag; in
-- `try_lock`, after the load has found the flag down; or it has the lock.
pub data Place : Type 0 where
  outside : Place
  exchanging : Place
  waiting : (attempts : ℕ) → Place
  trying : Place
  holding : Place

-- `lock_.exchange(true)`: what was there, and what is there now.
abbrev pub exchange : Bool → Bool × Bool
exchange flag = (flag, true)

-- A thread calls a method, or goes on in the one that it is in.
pub data Move : Type 0 where
  lock try_lock unlock go_on : Move

-- The next access to the flag of a thread that goes on.
unfoldable pub go : Place → (flag : Bool) → Place × Bool
go outside flag = (outside, flag)
go exchanging flag =
    let (old, new) = exchange flag in if not old then (holding, new) else (waiting 0, new)
go (waiting attempts) flag =
    if flag && ltb attempts n_attempts then (waiting (attempts + 1), flag) else (exchanging, flag)
go trying flag =
    let (old, new) = exchange flag in if not old then (holding, new) else (outside, new)
go holding flag = (holding, flag)

-- A thread in a call cannot make another: such a move changes nothing. `unlock` stores `false` whoever calls
-- it.
unfoldable pub perform : Move → Place → (flag : Bool) → Place × Bool
unfolding go
perform lock outside flag = (exchanging, flag)
perform try_lock outside flag = if not flag then (trying, flag) else (outside, flag)
perform unlock holding flag = (outside, false)
perform unlock outside flag = (outside, false)
perform go_on place flag = go place flag
perform lock place flag = (place, flag)
perform try_lock place flag = (place, flag)
perform unlock exchanging flag = (exchanging, flag)
perform unlock (waiting attempts) flag = (waiting attempts, flag)
perform unlock trying flag = (trying, flag)

pub record System : Type 0 where
  pub flag : Bool
  pub places : List Place

-- The discipline of a lock's clients: only the thread that has it gives it back.
abbrev pub MayMake : Move → Place → Type 0
MayMake unlock place = place ≡ holding
MayMake lock place = Unit
MayMake try_lock place = Unit
MayMake go_on place = Unit

-- Any thread moves, by the discipline.
pub data Step : System → System → Type 0 where
  moves :
      {flag : Bool}
      → (before : List Place) → (place : Place) → (after : List Place) → (move : Move)
      → MayMake move place
      → Step
          (record { flag = flag; places = before ++ place ∷ after })
          (record {
            flag = (perform move place flag).1;
            places = before ++ (perform move place flag).0 ∷ after;
          })

pub data Steps : System → System → Type 0 where
  done : {sys : System} → Steps sys sys
  more : {start sys sys' : System} → Steps start sys → Step sys sys' → Steps start sys'

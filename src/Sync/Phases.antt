-- ===== src/Sync/Phases.antt =====
-- The phases of a round, and where the workers may stand in each.
use concurrent_project.Prelude.{
  ℕ, ◌+◌, ◌≤◌, ◌<◌, ◌≡◌, List, [], ◌∷◌, ◌++◌, arith, All, length, ◌⊎◌, true, false, none, some,
}
use concurrent_project.Sync.{
  Status, wait, run, abort, done, fail, quit, Shared, Place, polling, arriving, resetting, starting,
  waiting_run, working, reporting, aborting, counting, clearing, deciding, finishing, raising,
  ended, Thread, Master, returned, waiting, woken, overrun, joined,
}

-- A worker that is at rest may have run `r` times. `r` counts the rounds that are over.
abbrev pub Idle : (r : ℕ) → Place → ℕ → Type 0
Idle r polling runs = runs ≡ r
Idle r ended runs = runs ≡ r
Idle r arriving runs = ⊥
Idle r resetting runs = ⊥
Idle r starting runs = ⊥
Idle r waiting_run runs = ⊥
Idle r working runs = ⊥
Idle r (reporting e) runs = ⊥
Idle r aborting runs = ⊥
Idle r counting runs = ⊥
Idle r clearing runs = ⊥
Idle r deciding runs = ⊥
Idle r (finishing aborted) runs = ⊥
Idle r raising runs = ⊥

abbrev pub Gathering : (r : ℕ) → Place → ℕ → Type 0
Gathering r polling runs = runs ≡ r
Gathering r ended runs = runs ≡ r
Gathering r arriving runs = runs ≡ r
Gathering r waiting_run runs = runs ≡ r
Gathering r resetting runs = ⊥
Gathering r starting runs = ⊥
Gathering r working runs = ⊥
Gathering r (reporting e) runs = ⊥
Gathering r aborting runs = ⊥
Gathering r counting runs = ⊥
Gathering r clearing runs = ⊥
Gathering r deciding runs = ⊥
Gathering r (finishing aborted) runs = ⊥
Gathering r raising runs = ⊥

abbrev pub Gathered : (r : ℕ) → Place → ℕ → Type 0
Gathered r resetting runs = runs ≡ r
Gathered r starting runs = runs ≡ r
Gathered r waiting_run runs = runs ≡ r
Gathered r polling runs = ⊥
Gathered r ended runs = ⊥
Gathered r arriving runs = ⊥
Gathered r working runs = ⊥
Gathered r (reporting e) runs = ⊥
Gathered r aborting runs = ⊥
Gathered r counting runs = ⊥
Gathered r clearing runs = ⊥
Gathered r deciding runs = ⊥
Gathered r (finishing aborted) runs = ⊥
Gathered r raising runs = ⊥

abbrev pub Running : (r : ℕ) → Place → ℕ → Type 0
Running r polling runs = runs ≡ r + 1
Running r ended runs = runs ≡ r + 1
Running r waiting_run runs = runs ≡ r
Running r working runs = runs ≡ r
Running r (reporting e) runs = runs ≡ r
Running r aborting runs = runs ≡ r
Running r counting runs = runs ≡ r
Running r arriving runs = ⊥
Running r resetting runs = ⊥
Running r starting runs = ⊥
Running r clearing runs = ⊥
Running r deciding runs = ⊥
Running r (finishing aborted) runs = ⊥
Running r raising runs = ⊥

abbrev pub Closing : (r : ℕ) → Place → ℕ → Type 0
Closing r polling runs = runs ≡ r + 1
Closing r ended runs = runs ≡ r + 1
Closing r clearing runs = runs ≡ r + 1
Closing r deciding runs = runs ≡ r + 1
Closing r (finishing aborted) runs = runs ≡ r + 1
Closing r raising runs = runs ≡ r + 1
Closing r arriving runs = ⊥
Closing r resetting runs = ⊥
Closing r starting runs = ⊥
Closing r waiting_run runs = ⊥
Closing r working runs = ⊥
Closing r (reporting e) runs = ⊥
Closing r aborting runs = ⊥
Closing r counting runs = ⊥

-- One for a worker that has counted itself as ready to run; that is about to set the status to run; that
-- is about to set it to abort; that has counted itself as done; and that ends the round.
abbrev pub awaits : Place → ℕ
awaits waiting_run = 1
awaits other = 0

abbrev pub sets_run : Place → ℕ
sets_run resetting = 1
sets_run starting = 1
sets_run other = 0

abbrev pub aborts : Place → ℕ
aborts aborting = 1
aborts other = 0

abbrev pub rests : Place → ℕ
rests polling = 1
rests ended = 1
rests other = 0

abbrev pub closes : Place → ℕ
closes clearing = 1
closes deciding = 1
closes (finishing aborted) = 1
closes raising = 1
closes other = 0

abbrev pub count : (Place → ℕ) → List Thread → ℕ
count f [] = 0
count f (t ∷ ts) = f t.place + count f ts

pub count-append :
    (f : Place → ℕ) (xs ys : List Thread) → count f (xs ++ ys) ≡ count f xs + count f ys
count-append f [] ys = omega arith
count-append f (x ∷ xs) ys = omega (arith, count-append f xs ys)

abbrev pub AllAt : ((r : ℕ) → Place → ℕ → Type 0) → (r : ℕ) → List Thread → Type 0
AllAt P r = All (λ t. P r t.place t.runs)

-- The latest error is the message to return.
abbrev pub Failed : Shared → Type 0
Failed s = (e : ℕ) × (es : List ℕ) × (s.errors ≡ e ∷ es) × (s.errmsg ≡ some e)

-- What the status says at the end of a round: whether an error has been reported.
abbrev pub Settled : Shared → Type 0
Settled s = ((s.status ≡ done) × (s.errors ≡ [])) ⊎ ((s.status ≡ fail) × Failed s)

-- The same, while a run is on or being closed.
abbrev pub Signals : Shared → Type 0
Signals s = ((s.status ≡ run) × (s.errors ≡ [])) ⊎ ((s.status ≡ abort) × Failed s)

-- What the master knows while no round is on.
pub data Calm (s : Shared) : Master → Type 0 where
  raised_calm :
      {m : Master} → (m ≡ waiting) ⊎ (m ≡ overrun) → s.raised ≡ true → Settled s → Calm s m
  woken_calm : {m : Master} → m ≡ woken → s.raised ≡ false → Settled s → Calm s m
  success_calm :
      {m : Master}
      → m ≡ returned none
      → s.raised ≡ false
      → s.status ≡ done
      → s.errors ≡ []
      → Calm s m
  failure_calm :
      {m : Master}
      → (e : ℕ) → m ≡ returned (some e)
      → s.raised ≡ false
      → s.status ≡ fail
      → (es : List ℕ) → s.errors ≡ e ∷ es
      → Calm s m
  joined_calm : {m : Master} → m ≡ joined → s.raised ≡ false → s.status ≡ quit → Calm s m

abbrev pub Asleep : Shared → Master → Type 0
Asleep s m = (s.raised ≡ false) × ((m ≡ waiting) ⊎ (m ≡ overrun))

-- What a worker that ends the round has still to do, and has done.
abbrev pub ClosingAt : Shared → Place → Type 0
ClosingAt s (finishing true) = (s.nbready ≡ 0) × Failed s
ClosingAt s (finishing false) = (s.nbready ≡ 0) × (s.errors ≡ [])
ClosingAt s raising = (s.nbready ≡ 0) × Settled s
ClosingAt s clearing = Signals s
ClosingAt s deciding = (s.nbready ≡ 0) × Signals s
ClosingAt s other = Unit {0}

-- The status in the end of the round, which sends no worker on.
abbrev pub Ending : Status → Type 0
Ending s = (s ≡ run) ⊎ (s ≡ abort) ⊎ (s ≡ done) ⊎ (s ≡ fail)

abbrev pub StartingAt : Shared → Place → Type 0
StartingAt s starting = s.nbready ≡ 0
StartingAt s other = Unit {0}

-- The phase of a system of `n` workers in round `r`.
pub data Phase (n : ℕ) (s : Shared) (ts : List Thread) (m : Master) (rounds : ℕ) : Type 0 where
  idle_phase : s.nbready ≡ 0 → Calm s m → AllAt Idle rounds ts → Phase n s ts m rounds
  gathering_phase :
      (r : ℕ)
      → rounds ≡ r + 1
      → Asleep s m
      → s.status ≡ wait
      → s.errors ≡ []
      → s.nbready ≡ count awaits ts
      → s.nbready < n
      → AllAt Gathering r ts
      → Phase n s ts m rounds
  gathered_phase :
      (r : ℕ)
      → rounds ≡ r + 1
      → Asleep s m
      → s.status ≡ wait
      → s.errors ≡ []
      → count sets_run ts ≡ 1
      → All (λ t. StartingAt s t.place) ts
      → AllAt Gathered r ts
      → Phase n s ts m rounds
  running_phase :
      (r : ℕ)
      → rounds ≡ r + 1
      → Asleep s m
      → (s.status ≡ run) ⊎ (s.status ≡ abort)
      → (s.status ≡ run → length s.errors ≡ count aborts ts)
      → (s.errors ≡ []) ⊎ Failed s
      → (s.status ≡ abort → 0 < length s.errors)
      → s.nbready ≡ count rests ts
      → s.nbready < n
      → AllAt Running r ts
      → Phase n s ts m rounds
  closing_phase :
      (r : ℕ)
      → rounds ≡ r + 1
      → Asleep s m
      → Ending s.status
      → count closes ts ≡ 1
      → All (λ t. ClosingAt s t.place) ts
      → AllAt Closing r ts
      → Phase n s ts m rounds

-- A weight of at most one for each worker sums up to at most their number.
pub count-le-length :
    (f : Place → ℕ) (ts : List Thread) → ((p : Place) → f p ≤ 1) → count f ts ≤ length ts
count-le-length f [] h = omega arith
count-le-length f (t ∷ ts) h = omega (arith, count-le-length f ts h, h t.place)

pub awaits-le : (p : Place) → awaits p ≤ 1
awaits-le waiting_run = omega arith
awaits-le other = omega arith

pub rests-le : (p : Place) → rests p ≤ 1
rests-le polling = omega arith
rests-le ended = omega arith
rests-le other = omega arith

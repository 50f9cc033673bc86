-- ===== src/Barrier/Rounds.antt =====
-- No thread leaves the barrier before all have arrived.
use concurrent_project.Prelude.{
  ℕ, ◌+◌, ◌≤◌, ◌<◌, ◌≡◌, refl, List, [], ◌∷◌, ◌++◌, arith, All, length,
}
use concurrent_project.Barrier.{
  enter, leave, Place, outside, setting_leave, waiting_leave, leaving, setting_enter, waiting_enter,
  Thread, Barrier,
}

-- One for a thread that counts in `step` while it waits to leave or leaves.
abbrev pub waits : Place → ℕ
waits outside = 0
waits setting_leave = 0
waits waiting_leave = 1
waits leaving = 1
waits setting_enter = 0
waits waiting_enter = 0

abbrev pub sets_leave : Place → ℕ
sets_leave outside = 0
sets_leave setting_leave = 1
sets_leave waiting_leave = 0
sets_leave leaving = 0
sets_leave setting_enter = 0
sets_leave waiting_enter = 0

abbrev pub sets_enter : Place → ℕ
sets_enter outside = 0
sets_enter setting_leave = 0
sets_enter waiting_leave = 0
sets_enter leaving = 0
sets_enter setting_enter = 1
sets_enter waiting_enter = 0

abbrev pub count : (Place → ℕ) → List Thread → ℕ
count f [] = 0
count f (t ∷ ts) = f t.place + count f ts

pub count-append :
    (f : Place → ℕ) (xs ys : List Thread) → count f (xs ++ ys) ≡ count f xs + count f ys
count-append f [] ys = omega arith
count-append f (x ∷ xs) ys = omega (arith, count-append f xs ys)

-- Where a thread may stand, and how often it has arrived, in each phase of the round `r`: while the
-- threads arrive; when the last has arrived; while they leave; and when the last has left.
abbrev pub Arriving : (r : ℕ) → Place → ℕ → Type 0
Arriving r outside arrivals = arrivals ≡ r
Arriving r setting_leave arrivals = ⊥
Arriving r waiting_leave arrivals = arrivals ≡ r + 1
Arriving r leaving arrivals = ⊥
Arriving r setting_enter arrivals = ⊥
Arriving r waiting_enter arrivals = arrivals ≡ r

abbrev pub Full : (r : ℕ) → Place → ℕ → Type 0
Full r outside arrivals = ⊥
Full r setting_leave arrivals = arrivals ≡ r + 1
Full r waiting_leave arrivals = arrivals ≡ r + 1
Full r leaving arrivals = ⊥
Full r setting_enter arrivals = ⊥
Full r waiting_enter arrivals = ⊥

abbrev pub Leaving : (r : ℕ) → Place → ℕ → Type 0
Leaving r outside arrivals = ⊥
Leaving r setting_leave arrivals = ⊥
Leaving r waiting_leave arrivals = arrivals ≡ r + 1
Leaving r leaving arrivals = arrivals ≡ r + 1
Leaving r setting_enter arrivals = ⊥
Leaving r waiting_enter arrivals = arrivals ≡ r + 1

abbrev pub Empty : (r : ℕ) → Place → ℕ → Type 0
Empty r outside arrivals = ⊥
Empty r setting_leave arrivals = ⊥
Empty r waiting_leave arrivals = ⊥
Empty r leaving arrivals = ⊥
Empty r setting_enter arrivals = arrivals ≡ r + 1
Empty r waiting_enter arrivals = arrivals ≡ r + 1

abbrev pub AllAt : ((r : ℕ) → Place → ℕ → Type 0) → (r : ℕ) → List Thread → Type 0
AllAt P r = All (λ t. P r t.place t.arrivals)

-- The phase that the barrier is in.
pub data Phase (n : ℕ) (b : Barrier) (ts : List Thread) : Type 0 where
  arriving_phase :
      (r : ℕ)
      → b.mode ≡ enter
      → b.step ≡ count waits ts
      → b.step < n
      → AllAt Arriving r ts
      → Phase n b ts
  full_phase :
      (r : ℕ)
      → b.mode ≡ enter
      → b.step ≡ n
      → count sets_leave ts ≡ 1
      → AllAt Full r ts
      → Phase n b ts
  leaving_phase :
      (r : ℕ)
      → b.mode ≡ leave
      → b.step ≡ count waits ts
      → 0 < b.step
      → AllAt Leaving r ts
      → Phase n b ts
  empty_phase :
      (r : ℕ)
      → b.mode ≡ leave
      → b.step ≡ 0
      → count sets_enter ts ≡ 1
      → AllAt Empty r ts
      → Phase n b ts

pub waits-le : (ts : List Thread) → count waits ts ≤ length ts
waits-le [] = omega arith
waits-le (t ∷ ts) = omega (arith, waits-le ts, one t.place)
  where
    one : (p : Place) → waits p ≤ 1
    one outside = omega arith
    one setting_leave = omega arith
    one waiting_leave = omega arith
    one leaving = omega arith
    one setting_enter = omega arith
    one waiting_enter = omega arith

-- All have arrived when all wait.
pub Arriving-Full :
    (r : ℕ) (ts : List Thread)
    → AllAt Arriving r ts
    → count waits ts ≡ length ts
    → AllAt Full r ts × (count sets_leave ts ≡ 0)
Arriving-Full r [] h e = (tt, refl)
Arriving-Full r (t ∷ ts) h e =
    let (here, none, le) = one t.place t.arrivals (h.0) (omega (arith, e, waits-le ts)) in
    let rest = Arriving-Full r ts h.1 (omega (arith, e, le, waits-le ts)) in
    ((here, rest.0), omega (arith, none, rest.1))
  where
    one :
        (p : Place) (arrivals : ℕ)
        → Arriving r p arrivals
        → 0 < waits p
        → Full r p arrivals × (sets_leave p ≡ 0) × (waits p ≡ 1)
    one outside arrivals h w = absurd (omega arith)
    one setting_leave arrivals h w = elim h [ ]
    one waiting_leave arrivals h w = (h, refl, refl)
    one leaving arrivals h w = elim h [ ]
    one setting_enter arrivals h w = elim h [ ]
    one waiting_enter arrivals h w = absurd (omega arith)

pub Full-Leaving :
    (r : ℕ) (ts : List Thread)
    → AllAt Full r ts
    → count sets_leave ts ≡ 0
    → AllAt Leaving r ts × (count waits ts ≡ length ts)
Full-Leaving r [] h e = (tt, refl)
Full-Leaving r (t ∷ ts) h e =
    let (here, w) = one t.place t.arrivals (h.0) (omega arith) in
    let rest = Full-Leaving r ts h.1 (omega arith) in ((here, rest.0), omega (arith, w, rest.1))
  where
    one :
        (p : Place) (arrivals : ℕ)
        → Full r p arrivals
        → sets_leave p ≡ 0
        → Leaving r p arrivals × (waits p ≡ 1)
    one outside arrivals h w = elim h [ ]
    one setting_leave arrivals h w = absurd (omega arith)
    one waiting_leave arrivals h w = (h, refl)
    one leaving arrivals h w = elim h [ ]
    one setting_enter arrivals h w = elim h [ ]
    one waiting_enter arrivals h w = elim h [ ]

pub Leaving-Empty :
    (r : ℕ) (ts : List Thread)
    → AllAt Leaving r ts
    → count waits ts ≡ 0
    → AllAt Empty r ts × (count sets_enter ts ≡ 0)
Leaving-Empty r [] h e = (tt, refl)
Leaving-Empty r (t ∷ ts) h e =
    let (here, none) = one t.place t.arrivals (h.0) (omega arith) in
    let rest = Leaving-Empty r ts h.1 (omega arith) in ((here, rest.0), omega (arith, none, rest.1))
  where
    one :
        (p : Place) (arrivals : ℕ)
        → Leaving r p arrivals
        → waits p ≡ 0
        → Empty r p arrivals × (sets_enter p ≡ 0)
    one outside arrivals h w = elim h [ ]
    one setting_leave arrivals h w = elim h [ ]
    one waiting_leave arrivals h w = absurd (omega arith)
    one leaving arrivals h w = absurd (omega arith)
    one setting_enter arrivals h w = elim h [ ]
    one waiting_enter arrivals h w = (h, refl)

pub Empty-Arriving :
    (r : ℕ) (ts : List Thread)
    → AllAt Empty r ts
    → count sets_enter ts ≡ 0
    → AllAt Arriving (r + 1) ts × (count waits ts ≡ 0)
Empty-Arriving r [] h e = (tt, refl)
Empty-Arriving r (t ∷ ts) h e =
    let (here, none) = one t.place t.arrivals (h.0) (omega arith) in
    let rest = Empty-Arriving r ts h.1 (omega arith) in
    ((here, rest.0), omega (arith, none, rest.1))
  where
    one :
        (p : Place) (arrivals : ℕ)
        → Empty r p arrivals
        → sets_enter p ≡ 0
        → Arriving (r + 1) p arrivals × (waits p ≡ 0)
    one outside arrivals h w = elim h [ ]
    one setting_leave arrivals h w = elim h [ ]
    one waiting_leave arrivals h w = elim h [ ]
    one leaving arrivals h w = elim h [ ]
    one setting_enter arrivals h w = absurd (omega arith)
    one waiting_enter arrivals h w = (h, refl)

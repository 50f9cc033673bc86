-- ===== src/Sync/Turns.antt =====
-- What all workers are at when a phase ends.
use concurrent_project.Prelude.{
  All-fill, length-append, ◌++◌, ℕ, ◌+◌, ◌<◌, ◌≡◌, refl, List, [], ◌∷◌, arith, All, length,
}
use concurrent_project.Sync.{
  Shared, Place, polling, resetting, starting, waiting_run, clearing, deciding, finishing, raising,
  ended, Thread,
}
use concurrent_project.Sync.Phases.{
  count-append, Idle, Gathering, Gathered, Running, Closing, awaits, sets_run, aborts, rests,
  closes, count, AllAt, StartingAt, ClosingAt, count-le-length, awaits-le, rests-le,
}

-- All wait for the run when as many do.
pub Gathering-Gathered :
    (s : Shared) (r : ℕ) (ts : List Thread)
    → AllAt Gathering r ts
    → count awaits ts ≡ length ts
    → AllAt Gathered r ts × (count sets_run ts ≡ 0) × All (λ t. StartingAt s t.place) ts
Gathering-Gathered s r [] h e = (tt, refl, tt)
Gathering-Gathered s r (t ∷ ts) h e =
    let le = count-le-length awaits ts awaits-le in
    let (here, none, free, one) = only t.place t.runs h.0 (omega (arith, e, le)) in
    let rest = Gathering-Gathered s r ts h.1 (omega (arith, e, le, one)) in
    ((here, rest.0), omega (arith, none, rest.1), (free, rest.2))
  where
    only :
        (p : Place) (runs : ℕ)
        → Gathering r p runs
        → 0 < awaits p
        → Gathered r p runs × (sets_run p ≡ 0) × StartingAt s p × (awaits p ≡ 1)
    only waiting_run runs h w = (h, refl, tt, refl)
    only other runs h w = absurd (omega arith)

-- When the one that sets the status has done so, the others wait for it.
pub Gathered-Running :
    (r : ℕ) (ts : List Thread)
    → AllAt Gathered r ts
    → count sets_run ts ≡ 0
    → AllAt Running r ts × (count rests ts ≡ 0) × (count aborts ts ≡ 0)
Gathered-Running r [] h e = (tt, refl, refl)
Gathered-Running r (t ∷ ts) h e =
    let (here, a, b) = only t.place t.runs h.0 (omega arith) in
    let rest = Gathered-Running r ts h.1 (omega arith) in
    ((here, rest.0), omega (arith, a, rest.1), omega (arith, b, rest.2))
  where
    only :
        (p : Place) (runs : ℕ)
        → Gathered r p runs
        → sets_run p ≡ 0
        → Running r p runs × (rests p ≡ 0) × (aborts p ≡ 0)
    only waiting_run runs h w = (h, refl, refl)
    only resetting runs h w = absurd (omega arith)
    only starting runs h w = absurd (omega arith)
    only other runs h w = elim h [ ]

-- All rest when as many do.
pub Running-Closing :
    (s : Shared) (r : ℕ) (ts : List Thread)
    → AllAt Running r ts
    → count rests ts ≡ length ts
    → AllAt Closing r ts
      × (count closes ts ≡ 0)
      × (count aborts ts ≡ 0)
      × All (λ t. ClosingAt s t.place) ts
Running-Closing s r [] h e = (tt, refl, refl, tt)
Running-Closing s r (t ∷ ts) h e =
    let le = count-le-length rests ts rests-le in
    let (here, a, b, free, one) = only t.place t.runs h.0 (omega (arith, e, le)) in
    let rest = Running-Closing s r ts h.1 (omega (arith, e, le, one)) in
    ((here, rest.0), omega (arith, a, rest.1), omega (arith, b, rest.2), (free, rest.3))
  where
    only :
        (p : Place) (runs : ℕ)
        → Running r p runs
        → 0 < rests p
        → Closing r p runs × (closes p ≡ 0) × (aborts p ≡ 0) × ClosingAt s p × (rests p ≡ 1)
    only polling runs h w = (h, refl, refl, tt, refl)
    only ended runs h w = (h, refl, refl, tt, refl)
    only other runs h w = absurd (omega arith)

-- When the one that ends the round is at rest, all are.
pub Closing-Idle :
    (r : ℕ) (ts : List Thread) → AllAt Closing r ts → count closes ts ≡ 0 → AllAt Idle (r + 1) ts
Closing-Idle r [] h e = tt
Closing-Idle r (t ∷ ts) h e =
    (only t.place t.runs h.0 (omega arith), Closing-Idle r ts h.1 (omega arith))
  where
    only : (p : Place) (runs : ℕ) → Closing r p runs → closes p ≡ 0 → Idle (r + 1) p runs
    only polling runs h w = h
    only ended runs h w = h
    only clearing runs h w = absurd (omega arith)
    only deciding runs h w = absurd (omega arith)
    only (finishing aborted) runs h w = absurd (omega arith)
    only raising runs h w = absurd (omega arith)
    only other runs h w = elim h [ ]

-- A start sends all workers, which are at rest, into the gathering.
pub Idle-Gathering :
    (r : ℕ) (ts : List Thread) → AllAt Idle r ts → AllAt Gathering r ts × (count awaits ts ≡ 0)
Idle-Gathering r [] h = (tt, refl)
Idle-Gathering r (t ∷ ts) h =
    let (here, a) = only t.place t.runs h.0 in
    let rest = Idle-Gathering r ts h.1 in ((here, rest.0), omega (arith, a, rest.1))
  where
    only : (p : Place) (runs : ℕ) → Idle r p runs → Gathering r p runs × (awaits p ≡ 0)
    only polling runs h = (h, refl)
    only ended runs h = (h, refl)
    only other runs h = elim h [ ]

-- Only the worker that ends the round has something to do, and the others may wait for any change.
pub ClosingAt-others :
    (s s' : Shared) (ts : List Thread)
    → count closes ts ≡ 0
    → All (λ t. ClosingAt s t.place) ts
    → All (λ t. ClosingAt s' t.place) ts
ClosingAt-others s s' [] e h = tt
ClosingAt-others s s' (t ∷ ts) e h =
    (only t.place (omega arith), ClosingAt-others s s' ts (omega arith) h.1)
  where
    only : (p : Place) → closes p ≡ 0 → ClosingAt s' p
    only clearing w = absurd (omega arith)
    only deciding w = absurd (omega arith)
    only (finishing aborted) w = absurd (omega arith)
    only raising w = absurd (omega arith)
    only other w = tt

pub StartingAt-others :
    (s : Shared) (ts : List Thread) → count sets_run ts ≡ 0 → All (λ t. StartingAt s t.place) ts
StartingAt-others s [] e = tt
StartingAt-others s (t ∷ ts) e = (only t.place (omega arith), StartingAt-others s ts (omega arith))
  where
    only : (p : Place) → sets_run p ≡ 0 → StartingAt s p
    only starting w = absurd (omega arith)
    only other w = tt

module _ (before after : List Thread) where
  pub count-with :
      (f : Place → ℕ) (t : Thread)
      → count f (before ++ t ∷ after) ≡ count f before + count f after + f t.place
  count-with f t = omega (arith, count-append f before (t ∷ after))

  pub length-with : (t : Thread) → length (before ++ t ∷ after) ≡ length before + length after + 1
  length-with t = omega (arith, length-append before (t ∷ after))

  -- All threads may stand where they do, when the others and this one do.
  abbrev pub Others : (ℕ → Place → ℕ → Type 0) → ℕ → Type 0
  Others P r = AllAt P r before × AllAt P r after

  pub fill :
      (P : ℕ → Place → ℕ → Type 0) (r : ℕ) (t : Thread)
      → Others P r
      → P r t.place t.runs
      → AllAt P r (before ++ t ∷ after)
  fill P r t others h = All-fill (λ x. P r x.place x.runs) before t after others.0 h others.1

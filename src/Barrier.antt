-- ===== src/Barrier.antt =====
-- grading/common.hpp: the spin barrier, access by access.
pub mod Rounds
pub mod Order
pub mod Safety
mod Tests
use concurrent_project.Prelude.{
  ℕ, ◌+◌, ◌-◌, ◌%◌, ◌^◌, Bool, List, [], ◌∷◌, ◌++◌, ◌==◌, if◌then◌else◌, replicate,
}

-- `enum class Mode`
pub data Mode : Type 0 where
  enter leave : Mode

-- Where a thread stands in `sync`: outside of it; before its store of a mode; in its wait for a mode; or
-- past the wait for leave.
pub data Place : Type 0 where
  outside : Place
  setting_leave : Place
  waiting_leave : Place
  leaving : Place
  setting_enter : Place
  waiting_enter : Place

-- `arrivals` counts the calls of `sync` that the thread has begun.
pub record Thread : Type 0 where
  pub place : Place
  pub arrivals : ℕ

-- The two atomics. `Counter` is a 64-bit integer.
pub record Barrier : Type 0 where
  pub step : ℕ
  pub mode : Mode

-- The next access of a thread, outside of `sync` the first one of its next call. A thread that waits
-- for a mode stays.
unfoldable pub next : (cardinal : ℕ) → Thread → Barrier → Thread × Barrier
next cardinal t b = elim t.place [
  | outside ↦
      let entered = (b.step + 1) % 2 ^ 64 in
      (
        record {
          place = if entered == cardinal then setting_leave else waiting_leave;
          arrivals = t.arrivals + 1;
        },
        record b { step = entered },
      )
  | setting_leave ↦ (record t { place = leaving }, record b { mode = leave })
  | waiting_leave ↦ elim b.mode [ enter ↦ (t, b) | leave ↦ (record t { place = leaving }, b) ]
  | leaving ↦
      let left = (b.step + 2 ^ 64 - 1) % 2 ^ 64 in
      (
        record t { place = if left == 0 then setting_enter else waiting_enter },
        record b { step = left },
      )
  | setting_enter ↦ (record t { place = outside }, record b { mode = enter })
  | waiting_enter ↦ elim b.mode [ enter ↦ (record t { place = outside }, b) | leave ↦ (t, b) ]
]

pub record System : Type 0 where
  pub barrier : Barrier
  pub threads : List Thread

-- The constructor, and `cardinal` threads that have not called `sync` yet.
abbrev pub start : (cardinal : ℕ) → System
start cardinal = record {
  barrier = record { step = 0; mode = enter };
  threads = replicate cardinal (record { place = outside; arrivals = 0 });
}

-- Any thread goes on.
pub data Step (cardinal : ℕ) : System → System → Type 0 where
  goes :
      {b : Barrier}
      → (before : List Thread) → (t : Thread) → (after : List Thread)
      → Step cardinal
          (record { barrier = b; threads = before ++ t ∷ after })
          (record {
            barrier = (next cardinal t b).1;
            threads = before ++ (next cardinal t b).0 ∷ after;
          })

pub data Reach (cardinal : ℕ) : System → Type 0 where
  starts : Reach cardinal (start cardinal)
  later : {sys sys' : System} → Reach cardinal sys → Step cardinal sys sys' → Reach cardinal sys'

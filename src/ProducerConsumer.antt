-- ===== src/ProducerConsumer.antt =====
-- sync-examples/procon3.c: a producer and a consumer that share a circular buffer and two atomic counters,
-- access by access; and the check of the result, which the four programs procon1.c to procon4.c share. A
-- text is a list of characters, and `text r` is what the producer's random numbers fill in at round `r`.
pub mod Order
pub mod Locked
pub mod Simulation
pub mod Refinement
pub mod Wakeups
mod Tests
use concurrent_project.Prelude.{
  ℕ, zero, suc, ◌+◌, ◌%◌, Bool, true, false, List, [], ◌∷◌, ltb, ◌==◌, if◌then◌else◌,
}
use concurrent_project.Heap.{update}

-- `struct data`
abbrev pub Text : Type 0
Text = List ℕ

-- The loop of `are_same`, over as many characters as there are.
unfoldable pub are_same : Text → Text → Bool
are_same [] [] = true
are_same [] (y ∷ ys) = false
are_same (x ∷ xs) [] = false
are_same (x ∷ xs) (y ∷ ys) = if x == y then are_same xs ys else false

-- The arrays, by index, and the counters.
pub record Shared : Type 0 where
  pub buffer : ℕ → Text
  pub produced_until : ℕ
  pub consumed_until : ℕ
  pub produced : ℕ → Text
  pub consumed : ℕ → Text

-- In its round a thread checks, in a loop, whether it may go on; moves the data; and counts.
pub data Place : Type 0 where
  checking moving counting : Place

pub record Thread : Type 0 where
  pub place : Place
  pub r : ℕ

abbrev pub runs_of_code : ℕ
runs_of_code = 4096

module _ (size runs : ℕ) (text : ℕ → Text) where
  -- `produce`
  unfoldable pub produce : Thread → Shared → Thread × Shared
  produce t s = elim t.place [
    | checking ↦ (
      record t {
        place =
            if t.r == runs
            then checking
            else if ltb t.r (s.consumed_until + size)
            then moving
            else checking;
      },
      s,
    )
    | moving ↦ (
      record t { place = counting },
      record s {
        produced = update s.produced t.r (text t.r);
        buffer = update s.buffer (t.r % size) (text t.r);
      },
    )
    | counting ↦ (
      record { place = checking; r = t.r + 1 },
      record s { produced_until = s.produced_until + 1 },
    )
  ]

  -- `consume`
  unfoldable pub consume : Thread → Shared → Thread × Shared
  consume t s = elim t.place [
    | checking ↦ (
      record t {
        place =
            if t.r == runs then checking else if ltb t.r s.produced_until then moving else checking;
      },
      s,
    )
    | moving ↦ (
      record t { place = counting },
      record s { consumed = update s.consumed t.r (s.buffer (t.r % size)) },
    )
    | counting ↦ (
      record { place = checking; r = t.r + 1 },
      record s { consumed_until = s.consumed_until + 1 },
    )
  ]

pub record System : Type 0 where
  pub shared : Shared
  pub producer : Thread
  pub consumer : Thread

-- `zero` is a text of 0 characters only.
abbrev pub start : (zero_text : Text) → System
start zero_text = record {
  shared = record {
    buffer = λ i. zero_text;
    produced_until = 0;
    consumed_until = 0;
    produced = λ i. zero_text;
    consumed = λ i. zero_text;
  };
  producer = record { place = checking; r = 0 };
  consumer = record { place = checking; r = 0 };
}

module _ (size runs : ℕ) (text : ℕ → Text) where
  pub data Step (sys : System) : System → Type 0 where
    produces : Step sys (record sys {
      shared = (produce size runs text sys.producer sys.shared).1;
      producer = (produce size runs text sys.producer sys.shared).0;
    })
    consumes : Step sys (record sys {
      shared = (consume size runs text sys.consumer sys.shared).1;
      consumer = (consume size runs text sys.consumer sys.shared).0;
    })

  pub data Reach (zero_text : Text) : System → Type 0 where
    starts : Reach zero_text (start zero_text)
    later : {sys sys' : System} → Reach zero_text sys → Step sys sys' → Reach zero_text sys'

-- The loop of `main` that looks for a wrong text, with the rounds left: the round at which it stops.
unfoldable pub check : (left r : ℕ) → Shared → ℕ
unfolding are_same
check zero r s = r
check (suc left) r s = elim (are_same (s.produced r) (s.consumed r)) [
  | true ↦ check left (r + 1) s
  | false ↦ r
]

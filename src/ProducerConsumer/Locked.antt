-- ===== src/ProducerConsumer/Locked.antt =====
-- sync-examples/procon2.c and procon4.c: the same with a lock, and without atomics. In procon2.c a thread
-- that may not go on gives the lock back and tries again; in procon4.c it sleeps on the condition
-- variable of lock.c until the other thread's `lock_wake_up`. POSIX also allows a sleep to end for no
-- reason, which does no more than a second test and is left out.
use concurrent_project.Prelude.{ℕ, ◌+◌, ◌%◌, Bool, true, false, ltb, ◌==◌, if◌then◌else◌}
use concurrent_project.Heap.{update}
use concurrent_project.ProducerConsumer.{Text, Shared}

pub data Program : Type 0 where
  procon2 procon4 : Program

-- Before `lock_acquire`; before the test; before the `lock_release` of a failed test; asleep; before the
-- move of the data and before the count; before `lock_release`, and before `lock_wake_up`.
pub data Place : Type 0 where
  acquiring testing retrying sleeping moving counting releasing waking : Place

pub record Thread : Type 0 where
  pub place : Place
  pub r : ℕ

pub data Role : Type 0 where
  producer consumer : Role

module _ (size : ℕ) (text : ℕ → Text) where
  -- Whether a thread may go on in round `r`; what it moves; and what it counts.
  abbrev pub ready : Role → ℕ → Shared → Bool
  ready producer r s = ltb r (s.consumed_until + size)
  ready consumer r s = ltb r s.produced_until

  abbrev pub move : Role → ℕ → Shared → Shared
  move producer r s = record s {
    produced = update s.produced r (text r);
    buffer = update s.buffer (r % size) (text r);
  }
  move consumer r s = record s { consumed = update s.consumed r (s.buffer (r % size)) }

  abbrev pub count : Role → Shared → Shared
  count producer s = record s { produced_until = s.produced_until + 1 }
  count consumer s = record s { consumed_until = s.consumed_until + 1 }

-- The lock, whose condition variable a thread may have signalled in its step.
pub record Lock : Type 0 where
  pub held : Bool
  pub signalled : Bool

abbrev pub fails : Program → Place
fails procon2 = retrying
fails procon4 = sleeping

-- `pthread_cond_wait` gives the lock back.
abbrev pub held_after : Program → Bool
held_after procon2 = true
held_after procon4 = false

abbrev pub released : Program → Thread → Thread
released procon2 t = record { place = acquiring; r = t.r + 1 }
released procon4 t = record t { place = waking }

module _ (program : Program) (size runs : ℕ) (text : ℕ → Text) (role : Role) where
  -- The next statement of `produce` or `consume`.
  unfoldable pub next : Thread → Bool → Shared → Thread × Lock × Shared
  next t held s = elim t.place [
    | acquiring ↦ (
      record t { place = if t.r == runs then acquiring else if held then acquiring else testing },
      record { held = if t.r == runs then held else true; signalled = false },
      s,
    )
    | testing ↦ (
      record t { place = if ready size text role t.r s then moving else fails program },
      record {
        held = if ready size text role t.r s then held else held_after program;
        signalled = false;
      },
      s,
    )
    | retrying ↦ (record t { place = acquiring }, record { held = false; signalled = false }, s)
    | sleeping ↦ (t, record { held = held; signalled = false }, s)
    | moving ↦ (
      record t { place = counting },
      record { held = held; signalled = false },
      move size text role t.r s,
    )
    | counting ↦ (
      record t { place = releasing },
      record { held = held; signalled = false },
      count size text role s,
    )
    | releasing ↦ (released program t, record { held = false; signalled = false }, s)
    | waking ↦
        (record { place = acquiring; r = t.r + 1 }, record { held = held; signalled = true }, s)
  ]

-- The end of a sleep.
abbrev pub woken : Place → Place
woken sleeping = acquiring
woken other = other

abbrev pub signal : Bool → Thread → Thread
signal signalled t = record t { place = if signalled then woken t.place else t.place }

pub record System : Type 0 where
  pub shared : Shared
  pub held : Bool
  pub producing : Thread
  pub consuming : Thread

abbrev pub start : (zero_text : Text) → System
start zero_text = record {
  shared = record {
    buffer = λ i. zero_text;
    produced_until = 0;
    consumed_until = 0;
    produced = λ i. zero_text;
    consumed = λ i. zero_text;
  };
  held = false;
  producing = record { place = acquiring; r = 0 };
  consuming = record { place = acquiring; r = 0 };
}

module _ (program : Program) (size runs : ℕ) (text : ℕ → Text) where
  abbrev pub after_produce : System → System
  unfolding next
  after_produce sys =
      let (t, lock, s) = next program size runs text producer sys.producing sys.held sys.shared in
      record {
        shared = s;
        held = lock.held;
        producing = t;
        consuming = signal lock.signalled sys.consuming;
      }

  abbrev pub after_consume : System → System
  unfolding next
  after_consume sys =
      let (t, lock, s) = next program size runs text consumer sys.consuming sys.held sys.shared in
      record {
        shared = s;
        held = lock.held;
        producing = signal lock.signalled sys.producing;
        consuming = t;
      }

  pub data Reach (zero_text : Text) : System → Type 0 where
    starts : Reach zero_text (start zero_text)
    produces : {sys : System} → Reach zero_text sys → Reach zero_text (after_produce sys)
    consumes : {sys : System} → Reach zero_text sys → Reach zero_text (after_consume sys)

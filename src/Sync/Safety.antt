-- ===== src/Sync/Safety.antt =====
-- What the master may rely on when it has an answer.
use concurrent_project.Prelude.{
  ℕ, zero, suc, ◌^◌, ◌<◌, ◌≡◌, ◌≢◌, refl, inl, inr, ◌⊎◌, List, [], ◌∷◌, ◌++◌, arith, All-middle,
  length, length-append, length-replicate, replicate, false, Option, none, some,
}
use concurrent_project.Sync.{
  Shared, polling, Thread, Master, returned, unreachable, next, Outcome, System, start, Step, goes,
  notifies, wakes, times_out, looks, joins, Reach, starts, later,
}
use concurrent_project.Sync.Phases.{
  Idle, Gathering, Gathered, Running, Closing, AllAt, Calm, raised_calm, woken_calm, success_calm,
  failure_calm, joined_calm, Phase, idle_phase, gathering_phase, gathered_phase, running_phase,
  closing_phase,
}
use concurrent_project.Sync.Workers.{Idle-next, Gathering-next, Gathered-next}
use concurrent_project.Sync.Ends.{Running-next}
use concurrent_project.Sync.Closing.{Closing-next}
use concurrent_project.Sync.Answers.{
  awake-Idle, notified, woken-Phase, overrun-Phase, answer-Phase, joined-Phase,
}

module _ (n : ℕ) (small : n < 2 ^ 32) where
  next-Phase :
      (before after : List Thread) (t : Thread) (s : Shared) (m : Master) (rounds : ℕ) (o : Outcome)
      → length (before ++ t ∷ after) ≡ n
      → Phase n s (before ++ t ∷ after) m rounds
      → Phase n (next n o t s).1 (before ++ (next n o t s).0 ∷ after) m rounds
  next-Phase before after t s m rounds o len (idle_phase ready calm h) =
      let (hb, ht, ha) = All-middle (λ x. Idle rounds x.place x.runs) before t after h in
      Idle-next n before after s m rounds small o t.place t.runs t.leaves ready calm (hb, ha) ht
  next-Phase before after t s m rounds o len
        (gathering_phase r now asleep status errors ready room h) =
      let (hb, ht, ha) = All-middle (λ x. Gathering r x.place x.runs) before t after h in
      Gathering-next n before after s m rounds small o r t.place t.runs t.leaves now asleep status
        errors ready room len (hb, ha) ht
  next-Phase before after t s m rounds o len
        (gathered_phase r now asleep status errors one begin h) =
      let (hb, ht, ha) = All-middle (λ x. Gathered r x.place x.runs) before t after h in
      Gathered-next n before after s m rounds small o r t.place t.runs t.leaves now asleep status
        errors one begin len (hb, ha) ht
  next-Phase before after t s m rounds o len
        (running_phase r now asleep status reported errors aborted ready room h) =
      let (hb, ht, ha) = All-middle (λ x. Running r x.place x.runs) before t after h in
      Running-next n before after s m rounds small o r t.runs now asleep status errors aborted room
        (hb, ha) t.place t.leaves reported ready len ht
  next-Phase before after t s m rounds o len (closing_phase r now asleep ending one closing h) =
      let (hb, ht, ha) = All-middle (λ x. Closing r x.place x.runs) before t after h in
      Closing-next n before after s m rounds o r t.runs t.leaves now asleep ending (hb, ha) t.place
        one closing ht

record IsPhased (n : ℕ) (sys : System) : Type 0 where
  number : length sys.threads ≡ n
  phase : Phase n sys.shared sys.threads sys.master sys.rounds

Step-IsPhased :
    (n : ℕ) {sys sys' : System}
    → 0 < n
    → n < 2 ^ 32
    → Step n sys sys'
    → IsPhased n sys
    → IsPhased n sys'
Step-IsPhased n pos small (goes {s} {m} {r} before t after o) p = record {
  number = omega (
    arith,
    p.number,
    length-append before (t ∷ after),
    length-append before ((next n o t s).0 ∷ after),
  );
  phase = next-Phase n small before after t s m r o p.number p.phase;
}
Step-IsPhased n pos small (notifies {s} {ts} {r}) p = record {
  number = p.number;
  phase = notified n s ts r pos p.phase;
}
Step-IsPhased n pos small (wakes {s} {s'} {ts} {r} e) p = record {
  number = p.number;
  phase = woken-Phase n s s' ts r e p.phase;
}
Step-IsPhased n pos small (times_out {s} {ts} {r}) p = record {
  number = p.number;
  phase = overrun-Phase n s ts r p.phase;
}
Step-IsPhased n pos small (looks {s} {ts} {r}) p = record {
  number = p.number;
  phase = answer-Phase n s ts r p.phase;
}
Step-IsPhased n pos small (joins {s} {ts} {error} {r}) p = record {
  number = p.number;
  phase = joined-Phase n s ts error r p.phase;
}

start-IsPhased : (n : ℕ) → IsPhased n (start n)
start-IsPhased n = record {
  number = length-replicate n _;
  phase = idle_phase refl (success_calm refl refl refl refl) (fresh n);
}
  where
    fresh :
        (k : ℕ) → AllAt Idle 0 (replicate k (record { place = polling; runs = 0; leaves = false }))
    fresh zero = tt
    fresh (suc k) = (refl, fresh k)

Reach-IsPhased : (n : ℕ) {sys : System} → 0 < n → n < 2 ^ 32 → Reach n sys → IsPhased n sys
Reach-IsPhased n pos small starts = start-IsPhased n
Reach-IsPhased n pos small (later reach step) =
    Step-IsPhased n pos small step (Reach-IsPhased n pos small reach)

-- Whenever the master has an answer, whatever the interleaving of its accesses with those of the
-- workers: every worker is at rest and has notified of exactly as many runs as the master has started;
-- and the answer is empty exactly if no worker has reported an error in the last of them, and else is
-- the message that has been reported last.
pub Reach-returned :
    (n : ℕ) (error : Option ℕ) {sys : System}
    → 0 < n
    → n < 2 ^ 32
    → Reach n sys
    → sys.master ≡ returned error
    → AllAt Idle sys.rounds sys.threads
      × (((error ≡ none) × (sys.shared.errors ≡ []))
          ⊎ ((e : ℕ) × (es : List ℕ) × (error ≡ some e) × (sys.shared.errors ≡ e ∷ es)))
Reach-returned n error {sys} pos small reach is =
    let p = Reach-IsPhased n pos small reach in
    let (ready, calm, h) =
      awake-Idle n sys.shared sys.threads sys.master sys.rounds (λ e. cc) (λ e. cc) p.phase in
    (h, told calm)
  where
    told :
        Calm sys.shared sys.master
        → ((error ≡ none) × (sys.shared.errors ≡ []))
          ⊎ ((e : ℕ) × (es : List ℕ) × (error ≡ some e) × (sys.shared.errors ≡ e ∷ es))
    told (raised_calm (inl e) a b) = cc
    told (raised_calm (inr e) a b) = cc
    told (woken_calm e a b) = cc
    told (success_calm e a b c) = inl (cc, c)
    told (failure_calm x e a b xs d) = inr (x, xs, cc, d)
    told (joined_calm e a b) = cc

-- The exception for an unexpected status is never thrown: the master never wakes up to another status
-- than that of a success or of a failure.
pub Reach-ne-unreachable :
    (n : ℕ) {sys : System} → 0 < n → n < 2 ^ 32 → Reach n sys → sys.master ≢ unreachable
Reach-ne-unreachable n {sys} pos small reach is =
    let p = Reach-IsPhased n pos small reach in
    let (ready, calm, h) =
      awake-Idle n sys.shared sys.threads sys.master sys.rounds (λ e. cc) (λ e. cc) p.phase in
    none_is calm
  where
    none_is : Calm sys.shared sys.master → ⊥
    none_is (raised_calm (inl e) a b) = cc
    none_is (raised_calm (inr e) a b) = cc
    none_is (woken_calm e a b) = cc
    none_is (success_calm e a b c) = cc
    none_is (failure_calm x e a b c d) = cc
    none_is (joined_calm e a b) = cc

-- ===== src/ProducerConsumer/Order.antt =====
-- The consumer gets what the producer has made.
use mathlib.Core.Path.{subst}
use concurrent_project.Prelude.{
  ℕ, zero, suc, ◌+◌, ◌%◌, ◌≤◌, ◌<◌, ◌≡◌, ◌≢◌, refl, sym, ◌∙◌, Bool, true, false, [], ◌∷◌, ◌==◌,
  arith, Bool-cases, inl, inr,
}
use concurrent_project.ProducerConsumer.{
  Text, are_same, Shared, Place, checking, moving, counting, Thread, produce, consume, System,
  produces, consumes, Reach, starts, later, check,
}

-- Indices less than a whole turn apart have different places in the buffer.
mod-ne : (size i p : ℕ) → i < p → p < i + size → i % size ≢ p % size
mod-ne size i p before near e = grind arith

-- What holds at `n` and holds at `i` if that is less, holds up to `n`.
one_more {ℓ} : (P : ℕ → Type ℓ) (n i : ℕ) → P n → (i < n → P i) → i < n + 1 → P i
one_more P n i last before h = elim (Bool-cases (i == n)) [
  | inl here ↦ subst P (ground (arith, here)) last
  | inr other ↦ before (ground (arith, other, h))
]

abbrev pub busy : Place → Bool
busy checking = false
busy moving = true
busy counting = true

abbrev pub moved : Place → Bool
moved checking = false
moved moving = false
moved counting = true

module _ (size runs : ℕ) where
  -- Where the threads and the counters may stand: no more is consumed than produced, and no more is
  -- produced and not consumed than the buffer holds.
  pub record InBounds (s : Shared) (p c : Thread) : Type 0 where
    pub producer_at : p.r ≡ s.produced_until
    pub consumer_at : c.r ≡ s.consumed_until
    pub behind : s.consumed_until ≤ s.produced_until
    pub bounded : s.produced_until ≤ s.consumed_until + size
    pub within : s.produced_until ≤ runs
    pub producer_busy :
        busy p.place ≡ true
        → (s.produced_until < s.consumed_until + size) × (s.produced_until < runs)
    pub consumer_busy : busy c.place ≡ true → s.consumed_until < s.produced_until

  module _ (text : ℕ → Text) where
    -- What the arrays hold.
    pub record Holds (s : Shared) (p c : Thread) : Type 0 where
      pub in_buffer :
          (i : ℕ) → s.consumed_until ≤ i → i < s.produced_until → s.buffer (i % size) ≡ text i
      pub filled :
          moved p.place ≡ true
          → (s.buffer (s.produced_until % size) ≡ text s.produced_until)
            × (s.produced s.produced_until ≡ text s.produced_until)
      pub made : (i : ℕ) → i < s.produced_until → s.produced i ≡ text i
      pub taken : (i : ℕ) → i < s.consumed_until → s.consumed i ≡ text i
      pub taking : moved c.place ≡ true → s.consumed s.consumed_until ≡ text s.consumed_until

    produce-InBounds :
        (s : Shared) (place : Place) (r : ℕ) (c : Thread)
        → let p : Thread = record { place = place; r = r } in
          InBounds s p c → InBounds (produce size runs text p s).1 (produce size runs text p s).0 c
    unfolding produce
    produce-InBounds s checking r c b = ground arith
    produce-InBounds s moving r c b = ground (arith, b.producer_busy refl)
    produce-InBounds s counting r c b = ground (arith, b.producer_busy refl)

    consume-InBounds :
        (s : Shared) (place : Place) (r : ℕ) (p : Thread)
        → let c : Thread = record { place = place; r = r } in
          InBounds s p c → InBounds (consume size runs text c s).1 p (consume size runs text c s).0
    unfolding consume
    consume-InBounds s checking r p b = ground arith
    consume-InBounds s moving r p b = ground (arith, b.consumer_busy refl)
    consume-InBounds s counting r p b = ground (arith, b.consumer_busy refl)

    produce-Holds :
        (s : Shared) (place : Place) (r : ℕ) (c : Thread)
        → let p : Thread = record { place = place; r = r } in
          InBounds s p c
          → Holds s p c
          → Holds (produce size runs text p s).1 (produce size runs text p s).0 c
    unfolding produce
    produce-Holds s checking r c b h = record {
      in_buffer = h.in_buffer;
      filled = λ e. absurd (ground arith);
      made = h.made;
      taken = h.taken;
      taking = h.taking;
    }
    produce-Holds s moving r c b h = record {
      in_buffer = λ i lo hi.
          ground (arith, b.producer_busy refl, mod-ne size i s.produced_until, h.in_buffer i lo hi);
      filled = λ e. ground arith;
      made = λ i hi. ground (arith, h.made i hi);
      taken = h.taken;
      taking = h.taking;
    }
    produce-Holds s counting r c b h = record {
      in_buffer = λ i lo hi.
          one_more (λ k. s.buffer (k % size) ≡ text k) s.produced_until i (h.filled refl).0
            (h.in_buffer i lo) hi;
      filled = λ e. cc;
      made = λ i hi.
          one_more (λ k. s.produced k ≡ text k) s.produced_until i (h.filled refl).1 (h.made i) hi;
      taken = h.taken;
      taking = h.taking;
    }

    consume-Holds :
        (s : Shared) (place : Place) (r : ℕ) (p : Thread)
        → let c : Thread = record { place = place; r = r } in
          InBounds s p c
          → Holds s p c
          → Holds (consume size runs text c s).1 p (consume size runs text c s).0
    unfolding consume
    consume-Holds s checking r p b h = record {
      in_buffer = h.in_buffer;
      filled = h.filled;
      made = h.made;
      taken = h.taken;
      taking = λ e. absurd (ground arith);
    }
    consume-Holds s moving r p b h = record {
      in_buffer = h.in_buffer;
      filled = h.filled;
      made = h.made;
      taken = λ i hi. ground (arith, h.taken i hi);
      taking = λ e. ground (arith, b.consumer_busy refl, h.in_buffer s.consumed_until);
    }
    consume-Holds s counting r p b h = record {
      in_buffer = λ i lo hi. h.in_buffer i (omega (arith, lo)) hi;
      filled = h.filled;
      made = h.made;
      taken = λ i hi.
          one_more (λ k. s.consumed k ≡ text k) s.consumed_until i (h.taking refl) (h.taken i) hi;
      taking = λ e. cc;
    }

    pub Reach-invariant :
        {zero_text : Text} {sys : System}
        → Reach size runs text zero_text sys
        → InBounds sys.shared sys.producer sys.consumer × Holds sys.shared sys.producer sys.consumer
    Reach-invariant starts = (
      record {
        producer_at = refl;
        consumer_at = refl;
        behind = omega arith;
        bounded = omega arith;
        within = omega arith;
        producer_busy = λ e. cc;
        consumer_busy = λ e. cc;
      },
      record {
        in_buffer = λ i lo hi. absurd (omega (arith, hi));
        filled = λ e. cc;
        made = λ i hi. absurd (omega (arith, hi));
        taken = λ i hi. absurd (omega (arith, hi));
        taking = λ e. cc;
      },
    )
    Reach-invariant (later {sys} reach produces) =
        let (b, h) = Reach-invariant reach in
        (
          produce-InBounds sys.shared sys.producer.place sys.producer.r sys.consumer b,
          produce-Holds sys.shared sys.producer.place sys.producer.r sys.consumer b h,
        )
    Reach-invariant (later {sys} reach consumes) =
        let (b, h) = Reach-invariant reach in
        (
          consume-InBounds sys.shared sys.consumer.place sys.consumer.r sys.producer b,
          consume-Holds sys.shared sys.consumer.place sys.consumer.r sys.producer b h,
        )

are_same_refl : (x : Text) → are_same x x ≡ true
unfolding are_same
are_same_refl [] = refl
are_same_refl (x ∷ xs) = ground (arith, are_same_refl xs)

check-all :
    (s : Shared) (left r n : ℕ)
    → r + left ≡ n
    → ((i : ℕ) → i < n → s.produced i ≡ s.consumed i)
    → check left r s ≡ n
unfolding check
check-all s zero r n e same = omega (arith, e)
check-all s (suc left) r n e same =
    rw (same r (omega (arith, e)), are_same_refl (s.consumed r), check)
      (check-all s left (r + 1) n (omega (arith, e)) same)

-- At any time, whatever the interleaving, no more is consumed than produced, and no more is produced and
-- not consumed than the buffer holds; all that is consumed is what the producer has made in that round.
-- When the consumer has made all its rounds, the check of `main` finds no wrong text.
pub Reach-consumed :
    (size runs : ℕ) (text : ℕ → Text) (zero_text : Text) (sys : System)
    → Reach size runs text zero_text sys
    → (sys.shared.consumed_until ≤ sys.shared.produced_until)
      × (sys.shared.produced_until ≤ sys.shared.consumed_until + size)
      × ((i : ℕ)
          → i < sys.shared.consumed_until
          → (sys.shared.consumed i ≡ text i) × (sys.shared.produced i ≡ text i))
      × (sys.consumer.r ≡ runs → check runs 0 sys.shared ≡ runs)
Reach-consumed size runs text zero_text sys reach =
    let (b, h) = Reach-invariant size runs text reach in
    let both : (i : ℕ)
        → i < sys.shared.consumed_until
        → (sys.shared.consumed i ≡ text i) × (sys.shared.produced i ≡ text i) =
      λ i hi. (h.taken i hi, h.made i (omega (arith, hi, b.behind))) in
    (
      b.behind,
      b.bounded,
      both,
      λ all.
          check-all sys.shared runs 0 runs (omega arith)
            (λ i hi. let (x, y) = both i (omega (arith, hi, all, b.consumer_at)) in y ∙ sym x),
    )

-- ===== src/Playground/Counting.antt =====
-- What the threads and the counters come to, and when a step keeps it.
use concurrent_project.Prelude.{
  All-middle, All-fill, inl, inr, ◌⊎◌, ◌⊎◌, ℕ, ◌+◌, ◌%◌, ◌^◌, ◌≤◌, ◌<◌, ◌≡◌, Bool, true, false,
  List, [], ◌∷◌, ◌++◌, if◌then◌else◌, arith, All,
}
use concurrent_project.Playground.{
  Place, locking, accessing, adding, checking, unlocking, Thread, Shared,
}

-- One for a thread that has the lock.
abbrev pub inside : Place → ℕ
inside locking = 0
inside accessing = 1
inside (adding loaded) = 1
inside checking = 1
inside unlocking = 1

-- One for a thread whose increment `check_counter` does not know yet.
abbrev pub ahead : Place → ℕ
ahead locking = 0
ahead accessing = 0
ahead (adding loaded) = 0
ahead checking = 1
ahead unlocking = 0

-- What a thread has loaded is still the counter's value, and a thread in its round has a round left.
abbrev pub Agrees : ℕ → Place → Type 0
Agrees counter (adding loaded) = loaded ≡ counter
Agrees counter locking = Unit {0}
Agrees counter accessing = Unit {0}
Agrees counter checking = Unit {0}
Agrees counter unlocking = Unit {0}

abbrev pub HasLeft : ℕ → Place → Type 0
HasLeft left (adding loaded) = 0 < left
HasLeft left accessing = 0 < left
HasLeft left checking = 0 < left
HasLeft left locking = Unit {0}
HasLeft left unlocking = Unit {0}

abbrev pub sum : (Thread → ℕ) → List Thread → ℕ
sum f [] = 0
sum f (t ∷ ts) = f t + sum f ts

pub sum-append : (f : Thread → ℕ) (xs ys : List Thread) → sum f (xs ++ ys) ≡ sum f xs + sum f ys
sum-append f [] ys = omega arith
sum-append f (x ∷ xs) ys = omega (arith, sum-append f xs ys)

abbrev pub insides : List Thread → ℕ
insides = sum (λ t. inside t.place)

abbrev pub aheads : List Thread → ℕ
aheads = sum (λ t. ahead t.place)

abbrev pub lefts : List Thread → ℕ
lefts = sum (λ t. t.left)

abbrev pub flagged : Bool → ℕ
flagged flag = if flag then 1 else 0

-- The threads that do not have the lock agree with any counter.
Agrees-outside :
    (counter : ℕ) (ts : List Thread) → insides ts ≡ 0 → All (λ t. Agrees counter t.place) ts
Agrees-outside counter [] h = tt
Agrees-outside counter (t ∷ ts) h =
    (agrees t.place (omega arith), Agrees-outside counter ts (omega arith))
  where
    agrees : (p : Place) → inside p ≡ 0 → Agrees counter p
    agrees locking h = tt
    agrees accessing h = absurd (omega arith)
    agrees (adding loaded) h = absurd (omega arith)
    agrees checking h = absurd (omega arith)
    agrees unlocking h = absurd (omega arith)

module _ (total : ℕ) where
  -- One thread at most has the lock, exactly when the flag is set; the counter is ahead of
  -- `check_counter` by the increment that is being made; and what has been counted and what is left
  -- come to the total.
  pub record Counts (s : Shared) (ts : List Thread) : Type 0 where
    pub lock : insides ts ≡ flagged s.flag
    pub counter : s.counter ≡ (s.check_counter + aheads ts) % 2 ^ 32
    pub small : s.check_counter < 2 ^ 32
    pub loaded : All (λ t. Agrees s.counter t.place) ts
    pub has_left : All (λ t. HasLeft t.left t.place) ts
    pub sums : (s.check_counter + lefts ts) % 2 ^ 32 ≡ total % 2 ^ 32

pub flagged-le : (flag : Bool) → flagged flag ≤ 1
flagged-le true = omega arith
flagged-le false = omega arith

-- What a step has to do to keep the counts, whatever the other threads are at.
module _ (total : ℕ) (before after : List Thread) (t t' : Thread) (s s' : Shared)
    (c : Counts total s (before ++ t ∷ after))
    (lock' : inside t'.place + flagged s.flag ≡ inside t.place + flagged s'.flag)
    (counter' : (others : ℕ)
      → s.counter ≡ (s.check_counter + (others + ahead t.place)) % 2 ^ 32
      → s'.counter ≡ (s'.check_counter + (others + ahead t'.place)) % 2 ^ 32)
    (small' : s'.check_counter < 2 ^ 32) (writes : (s'.counter ≡ s.counter) ⊎ (inside t.place ≡ 1))
    (agrees' : Agrees s'.counter t'.place) (has_left' : HasLeft t'.left t'.place)
    (sums' : (others : ℕ)
      → (s.check_counter + (others + t.left)) % 2 ^ 32 ≡ total % 2 ^ 32
      → (s'.check_counter + (others + t'.left)) % 2 ^ 32 ≡ total % 2 ^ 32) where
  around :
      (f : Thread → ℕ) (x : Thread) → sum f (before ++ x ∷ after) ≡ sum f before + sum f after + f x
  around f x = omega (arith, sum-append f before (x ∷ after))

  others-loaded :
      All (λ x. Agrees s'.counter x.place) before × All (λ x. Agrees s'.counter x.place) after
  others-loaded = elim writes [
    | inl same ↦
        let old = All-middle (λ x. Agrees s.counter x.place) before t after c.loaded in
        rw same (old.0, old.2)
    | inr only ↦
        let first : insides before ≡ 0 =
          omega (arith, c.lock, around (λ x. inside x.place) t, flagged-le s.flag) in
        let last : insides after ≡ 0 =
          omega (arith, c.lock, around (λ x. inside x.place) t, flagged-le s.flag) in
        (Agrees-outside s'.counter before first, Agrees-outside s'.counter after last)
  ]

  pub moved : Counts total s' (before ++ t' ∷ after)
  moved = record {
    lock =
        omega
          (arith, c.lock, lock', around (λ x. inside x.place) t, around (λ x. inside x.place) t');
    counter =
        rw (around (λ x. ahead x.place) t')
          (counter' _ (rw (← around (λ x. ahead x.place) t) c.counter));
    small = small';
    loaded =
        All-fill (λ x. Agrees s'.counter x.place) before t' after others-loaded.0 agrees'
          others-loaded.1;
    has_left =
        let old = All-middle (λ x. HasLeft x.left x.place) before t after c.has_left in
        All-fill (λ x. HasLeft x.left x.place) before t' after old.0 has_left' old.2;
    sums = rw (around (λ x. x.left) t') (sums' _ (rw (← around (λ x. x.left) t) c.sums));
  }

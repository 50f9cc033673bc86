-- ===== src/Grading/Median.antt =====
-- What `measure` returns.
use mathlib.Core.List.{append-nil, append_assoc}
use concurrent_project.Prelude.{
  ℕ, zero, suc, ◌+◌, ◌/◌, ◌≤◌, ◌<◌, ◌≡◌, refl, ap, ◌∙◌, Bool, List, [], ◌∷◌, ◌++◌, ltb, leb, arith,
  All, length, if◌then◌else◌, Bool-cases, inl, inr,
}
use concurrent_project.Grading.{
  Waited, took, failed, overran, Measured, error, times, throws, insert, sort, get_or, nth_element,
  after_wait, perf_loop, measure,
}

-- The number of elements that pass a test.
abbrev pub count : (ℕ → Bool) → List ℕ → ℕ
count p [] = 0
count p (x ∷ xs) = (if p x then 1 else 0) + count p xs

abbrev pub IsSorted : List ℕ → Type 0
IsSorted [] = Unit {0}
IsSorted (x ∷ xs) = All (λ y. x ≤ y) xs × IsSorted xs

All-insert : (k x : ℕ) (ys : List ℕ) → k ≤ x → All (λ y. k ≤ y) ys → All (λ y. k ≤ y) (insert x ys)
unfolding insert
All-insert k x [] h hs = (h, tt)
All-insert k x (y ∷ ys) h hs = elim (Bool-cases (leb x y)) [
  | inl le ↦ rw (le, insert) (h, hs)
  | inr gt ↦ rw (gt, insert) (hs.0, All-insert k x ys h hs.1)
]

All-le : (k x : ℕ) (ys : List ℕ) → k ≤ x → All (λ y. x ≤ y) ys → All (λ y. k ≤ y) ys
All-le k x [] h hs = tt
All-le k x (y ∷ ys) h hs = (omega (arith, h, hs.0), All-le k x ys h hs.1)

insert-IsSorted : (x : ℕ) (ys : List ℕ) → IsSorted ys → IsSorted (insert x ys)
unfolding insert
insert-IsSorted x [] h = (tt, tt)
insert-IsSorted x (y ∷ ys) h = elim (Bool-cases (leb x y)) [
  | inl le ↦
      let x-le-y : x ≤ y = ground (arith, le) in
      rw (le, insert) ((x-le-y, All-le x y ys x-le-y h.0), h)
  | inr gt ↦ rw (gt, insert) (All-insert y x ys (ground (arith, gt)) h.0, insert-IsSorted x ys h.1)
]

sort-IsSorted : (xs : List ℕ) → IsSorted (sort xs)
unfolding sort
sort-IsSorted [] = tt
sort-IsSorted (x ∷ xs) = insert-IsSorted x (sort xs) (sort-IsSorted xs)

count-insert :
    (p : ℕ → Bool) (x : ℕ) (ys : List ℕ)
    → count p (insert x ys) ≡ (if p x then 1 else 0) + count p ys
unfolding insert
count-insert p x [] = refl
count-insert p x (y ∷ ys) = elim (Bool-cases (leb x y)) [
  | inl le ↦ rw (le, insert) refl
  | inr gt ↦ rw (gt, insert) (omega (arith, count-insert p x ys))
]

count-sort : (p : ℕ → Bool) (xs : List ℕ) → count p (sort xs) ≡ count p xs
unfolding sort
count-sort p [] = refl
count-sort p (x ∷ xs) = omega (arith, count-insert p x (sort xs), count-sort p xs)

length-insert : (x : ℕ) (ys : List ℕ) → length (insert x ys) ≡ suc (length ys)
unfolding insert
length-insert x [] = refl
length-insert x (y ∷ ys) = elim (Bool-cases (leb x y)) [
  | inl le ↦ rw (le, insert) refl
  | inr gt ↦ rw (gt, insert) (omega (arith, length-insert x ys))
]

length-sort : (xs : List ℕ) → length (sort xs) ≡ length xs
unfolding sort
length-sort [] = refl
length-sort (x ∷ xs) = omega (arith, length-insert x (sort xs), length-sort xs)

All-get_or : (k : ℕ) (xs : List ℕ) (i : ℕ) → All (λ y. k ≤ y) xs → i < length xs → k ≤ get_or xs i 0
unfolding get_or
All-get_or k [] i h lt = absurd (omega (arith, lt))
All-get_or k (x ∷ xs) zero h lt = h.0
All-get_or k (x ∷ xs) (suc i) h lt = All-get_or k xs i h.1 (omega (arith, lt))

count-none : (m : ℕ) (xs : List ℕ) → All (λ y. m ≤ y) xs → count (λ t. ltb t m) xs ≡ 0
count-none m [] h = refl
count-none m (x ∷ xs) h = ground (arith, h.0, count-none m xs h.1)

-- The element at `i` of a sorted list has at most `i` below it, and more than `i` not above it.
abbrev pub IsAt : ℕ → ℕ → List ℕ → Type 0
IsAt m i xs = (count (λ t. ltb t m) xs ≤ i) × (i < count (λ t. leb t m) xs)

sorted-IsAt : (xs : List ℕ) (i : ℕ) → IsSorted xs → i < length xs → IsAt (get_or xs i 0) i xs
unfolding get_or
sorted-IsAt [] i h lt = absurd (omega (arith, lt))
sorted-IsAt (x ∷ xs) zero h lt = ground (arith, count-none x xs h.0)
sorted-IsAt (x ∷ xs) (suc i) h lt =
    let rest = sorted-IsAt xs i h.1 (omega (arith, lt)) in
    ground (arith, rest.0, rest.1, All-get_or x xs i h.0 (omega (arith, lt)))

pub nth_element-IsAt : (xs : List ℕ) (i : ℕ) → i < length xs → IsAt (nth_element xs i) i xs
unfolding nth_element
nth_element-IsAt xs i lt =
    let at = sorted-IsAt (sort xs) i (sort-IsSorted xs) (omega (arith, lt, length-sort xs)) in
    (
      omega (arith, at.0, count-sort (λ t. ltb t (get_or (sort xs) i 0)) xs),
      omega (arith, at.1, count-sort (λ t. leb t (get_or (sort xs) i 0)) xs),
    )

-- The times number `i`, and the `n - 1` after it.
abbrev pub ticks_from : (ℕ → ℕ) → (i n : ℕ) → List ℕ
ticks_from ticks i zero = []
ticks_from ticks i (suc n) = ticks i ∷ ticks_from ticks (i + 1) n

length-ticks_from : (ticks : ℕ → ℕ) (i n : ℕ) → length (ticks_from ticks i n) ≡ n
length-ticks_from ticks i zero = refl
length-ticks_from ticks i (suc n) = omega (arith, length-ticks_from ticks (i + 1) n)

module _ (waits : ℕ → Waited) (ticks : ℕ → ℕ) where
  perf_loop-took :
      (left i : ℕ) (ts : List ℕ) (next : List ℕ → ℕ → Measured)
      → ((j : ℕ) → i ≤ j → j < i + left → waits j ≡ took (ticks j))
      → perf_loop waits left i ts next ≡ next (ts ++ ticks_from ticks i left) (i + left)
  unfolding perf_loop
  perf_loop-took zero i ts next h = rw (append-nil ts) (ap (λ j. next ts j) (omega arith))
  perf_loop-took (suc left) i ts next h =
      rw (h i (omega arith) (omega arith), perf_loop)
        (perf_loop-took left (i + 1) (ts ++ ticks i ∷ []) next
            (λ j lo hi. h j (omega (arith, lo)) (omega (arith, hi)))
          ∙ rw (append_assoc ts (ticks i ∷ []) (ticks_from ticks (i + 1) left))
              (ap (λ j. next (ts ++ ticks i ∷ ticks_from ticks (i + 1) left) j) (omega arith)))

  -- When each wait of the master gives a time, `measure` returns the first as that of the
  -- initialization, the last as that of the check, and between them a median of the others: at most
  -- half of them, rounded down, are below it, and more than that are not above it.
  pub measure_median :
      (nbrepeats : ℕ)
      → 0 < nbrepeats
      → ((j : ℕ) → j < nbrepeats + 2 → waits j ≡ took (ticks j))
      → (median : ℕ) × (measure waits nbrepeats ≡ times (ticks 0) median (ticks (nbrepeats + 1)))
        × IsAt median (nbrepeats / 2) (ticks_from ticks 1 nbrepeats)
  unfolding measure
  measure_median nbrepeats pos h = (
    nth_element (ticks_from ticks 1 nbrepeats) (nbrepeats / 2),
    rw (h 0 (omega arith), measure)
        (perf_loop-took nbrepeats 1 [] _ (λ j lo hi. h j (omega (arith, hi)))
          ∙ rw (h (1 + nbrepeats) (omega arith)) (
              ap
                (λ j.
                  times (ticks 0) (nth_element (ticks_from ticks 1 nbrepeats) (nbrepeats / 2))
                    (ticks j))
                (omega arith))),
    nth_element-IsAt (ticks_from ticks 1 nbrepeats) (nbrepeats / 2)
        (omega (arith, pos, length-ticks_from ticks 1 nbrepeats)),
  )

  -- A wait that gives no time is the last, whatever would follow.
  perf_loop-stops :
      (left i k : ℕ) (ts : List ℕ) (next : List ℕ → ℕ → Measured) (r : Measured)
      → i ≤ k
      → k < i + left
      → ((j : ℕ) → j < k → waits j ≡ took (ticks j))
      → ((rest : ℕ → Measured) → after_wait (waits k) rest ≡ r)
      → perf_loop waits left i ts next ≡ r
  unfolding perf_loop
  perf_loop-stops zero i k ts next r lo hi h stop = absurd (omega (arith, lo, hi))
  perf_loop-stops (suc left) i k ts next r lo hi h stop = elim (Bool-cases (ltb i k)) [
    | inl before ↦
        rw (h i (ground (arith, before)), perf_loop)
          (perf_loop-stops left (i + 1) k (ts ++ ticks i ∷ []) next r (ground (arith, before))
            (omega (arith, hi)) h stop)
    | inr here ↦ let same : k ≡ i = ground (arith, here, lo) in rw (← same, perf_loop) (stop _)
  ]

  stops :
      (nbrepeats k : ℕ) (r : Measured)
      → k < nbrepeats + 2
      → ((j : ℕ) → j < k → waits j ≡ took (ticks j))
      → ((rest : ℕ → Measured) → after_wait (waits k) rest ≡ r)
      → measure waits nbrepeats ≡ r
  unfolding measure
  stops nbrepeats zero r hi h stop = stop _
  stops nbrepeats (suc k) r hi h stop = elim (Bool-cases (ltb k nbrepeats)) [
    | inl inside ↦
        rw (h 0 (omega arith), measure)
          (perf_loop-stops nbrepeats 1 (suc k) [] _ r (omega arith) (ground (arith, inside)) h stop)
    | inr last ↦
        let same : suc k ≡ 1 + nbrepeats = ground (arith, last, hi) in
        rw (h 0 (omega arith), measure)
          (perf_loop-took nbrepeats 1 [] _ (λ j lo hi'. h j (omega (arith, hi', same)))
            ∙ rw (← same) (stop _))
  ]

  -- The first wait of the master that gives no time ends the measurements: its error message is
  -- returned, or its exception thrown.
  pub measure_stops :
      (nbrepeats k : ℕ)
      → k < nbrepeats + 2
      → ((j : ℕ) → j < k → waits j ≡ took (ticks j))
      → ((message : ℕ) → waits k ≡ failed message → measure waits nbrepeats ≡ error message)
        × (waits k ≡ overran → measure waits nbrepeats ≡ throws)
  measure_stops nbrepeats k hi h = (
    λ message e. stops nbrepeats k (error message) hi h (λ rest. rw e refl),
    λ e. stops nbrepeats k throws hi h (λ rest. rw e refl),
  )

-- ===== src/Reference/Unlink.antt =====
-- What tm_free does to the list of segments.
use concurrent_project.Prelude.{
  ◌%◌, ◌-◌, ◌∙◌, ◌^◌, ◌<◌, ℕ, ◌+◌, ◌≡◌, ◌≢◌, refl, true, none, some, List, [], ◌∷◌, ◌++◌, arith,
  All, All-middle, All-append,
}
use concurrent_project.Heap.{update}
use concurrent_project.Reference.{
  linked, node, node_size, Store, Region, node_at, set_prev, set_next, tm_free, unlink_before,
  unlink_behind,
}
use concurrent_project.Reference.Chain.{
  Blocks, first, last, previous, Linked, Distinct, Before, Behind, Linked-unlink, Linked-at,
  Linked-live, Distinct-middle, All-split, All-last,
}
use concurrent_project.Reference.Segments.{IsList, SameOutside}

-- The nodes before `x` end in one that points behind it.
abbrev before_set : Blocks → List ℕ → (next : ℕ) → Blocks
before_set b [] next = b
before_set b (y ∷ ys) next = update b (last y ys) (some (linked (node (previous 0 y ys) next)))

-- The nodes behind `x` begin with one that points before it.
abbrev behind_set : Blocks → (prev : ℕ) → List ℕ → Blocks
behind_set b prev [] = b
behind_set b prev (z ∷ zs) = update b z (some (linked (node prev (first zs))))

module _ (r : Region) (s : Store) (ys : List ℕ) (x : ℕ) (zs : List ℕ)
    (l : IsList r s (ys ++ x ∷ zs)) where
  at :
      (x ≢ 0)
      × (s.blocks x ≡ some (linked (node (last 0 ys) (first zs))))
      × Before s.blocks 0 ys x
      × Linked s.blocks x zs
  at = Linked-at s.blocks 0 ys x zs l.chain

  apart : All (λ a. a ≢ x) ys × All (λ a. a ≢ x) zs
  apart = All-split (λ a. a ≢ x) ys zs (Distinct-middle ys x zs l.distinct).0

  live : All (λ a. a ≢ 0) ys × (x ≢ 0) × All (λ a. a ≢ 0) zs
  live = All-middle (λ a. a ≢ 0) ys x zs (Linked-live s.blocks 0 (ys ++ x ∷ zs) l.chain)

unlink_before-runs :
    (r : Region) (s : Store) (ys : List ℕ) (x : ℕ) (zs : List ℕ)
    → IsList r s (ys ++ x ∷ zs)
    → unlink_before x r s
      ≡ some (
        record r { allocs = first (ys ++ zs) },
        record s { blocks = before_set s.blocks ys (first zs) },
      )
unfolding unlink_before node_at set_next
unlink_before-runs r s [] x zs l = ground (arith, (at r s [] x zs l).1)
unlink_before-runs r s (y ∷ ys) x zs l = ground (
  arith,
  l.head,
  (at r s (y ∷ ys) x zs l).1,
  (at r s (y ∷ ys) x zs l).2,
  All-last (λ a. a ≢ 0) y ys (live r s (y ∷ ys) x zs l).0,
)

unlink_behind-runs :
    (r : Region) (s : Store) (ys : List ℕ) (x : ℕ) (zs : List ℕ)
    → IsList r s (ys ++ x ∷ zs)
    → (b : Blocks) → b x ≡ some (linked (node (last 0 ys) (first zs)))
    → Behind b x zs
    → unlink_behind x (record s { blocks = b })
      ≡ some (record s { blocks = behind_set b (last 0 ys) zs })
unfolding unlink_behind node_at set_prev
unlink_behind-runs r s ys x [] l b here behind = ground (arith, here)
unlink_behind-runs r s ys x (z ∷ zs) l b here behind =
    ground (arith, here, behind, (live r s ys x (z ∷ zs) l).2.0)

-- The store of a tm_free of the segment behind the node `x`.
abbrev pub without_segment : (ys : List ℕ) → (x : ℕ) → (zs : List ℕ) → Store → Store
without_segment ys x zs s = record s {
  blocks = update (behind_set (before_set s.blocks ys (first zs)) (last 0 ys) zs) x none;
}

before_set-at :
    (b : Blocks) (ys : List ℕ) (next a : ℕ) → All (λ y. y ≢ a) ys → before_set b ys next a ≡ b a
before_set-at b [] next a h = refl
before_set-at b (y ∷ ys) next a h = ground (arith, All-last (λ y. y ≢ a) y ys h)

behind_set-at :
    (b : Blocks) (prev : ℕ) (zs : List ℕ) (a : ℕ)
    → All (λ z. z ≢ a) zs
    → behind_set b prev zs a ≡ b a
behind_set-at b prev [] a h = refl
behind_set-at b prev (z ∷ zs) a h = ground (arith, h.0)

others : (ys : List ℕ) (x z : ℕ) (zs : List ℕ) → Distinct (ys ++ x ∷ z ∷ zs) → All (λ a. a ≢ z) ys
others ys x z zs d =
    (All-split (λ a. a ≢ z) ys zs (Distinct-middle ys z zs (Distinct-middle ys x (z ∷ zs) d).1).0).0

pub free-runs :
    (r : Region) (s : Store) (ys : List ℕ) (x : ℕ) (zs : List ℕ)
    → IsList r s (ys ++ x ∷ zs)
    → tm_free (x + node_size) r s
      ≡ some (true, record r { allocs = first (ys ++ zs) }, without_segment ys x zs s)
unfolding tm_free
free-runs r s ys x zs l =
    rw
      (
        address,
        unlink_before-runs r s ys x zs l,
        unlink_behind-runs r s ys x zs l (before_set s.blocks ys (first zs)) here (behind zs l),
        tm_free,
      )
      refl
  where
    small : x + node_size < 2 ^ 64
    small = (All-middle (λ a. a + node_size < 2 ^ 64) ys x zs l.small).1

    address : (x + node_size + 2 ^ 64 - node_size) % 2 ^ 64 ≡ x
    address = omega (arith, small)

    here : before_set s.blocks ys (first zs) x ≡ some (linked (node (last 0 ys) (first zs)))
    here = before_set-at s.blocks ys (first zs) x (apart r s ys x zs l).0 ∙ (at r s ys x zs l).1

    behind :
        (zs : List ℕ) → IsList r s (ys ++ x ∷ zs) → Behind (before_set s.blocks ys (first zs)) x zs
    behind [] l = tt
    behind (z ∷ zs) l =
        before_set-at s.blocks ys z z (others ys x z zs l.distinct) ∙ (at r s ys x (z ∷ zs) l).3.1

pub free-IsList :
    (r : Region) (s : Store) (ys : List ℕ) (x : ℕ) (zs : List ℕ)
    → IsList r s (ys ++ x ∷ zs)
    → IsList (record r { allocs = first (ys ++ zs) }) (without_segment ys x zs s) (ys ++ zs)
free-IsList r s ys x zs l = record {
  head = refl;
  chain =
      Linked-unlink s.blocks (without_segment ys x zs s).blocks 0 ys x zs l.chain l.distinct
        (same ys zs) (Linked-live s.blocks 0 (ys ++ x ∷ zs) l.chain) (pred ys zs l)
        (behind ys zs l);
  distinct = (Distinct-middle ys x zs l.distinct).1;
  small =
      let parts = All-middle (λ a. a + node_size < 2 ^ 64) ys x zs l.small in
      All-append (λ a. a + node_size < 2 ^ 64) ys zs parts.0 parts.2;
}
  where
    same :
        (ys zs : List ℕ) (a : ℕ)
        → a ≢ last 0 ys
        → a ≢ first zs
        → a ≢ x
        → (without_segment ys x zs s).blocks a ≡ s.blocks a
    same [] [] a p q e = ground arith
    same [] (z ∷ zs) a p q e = ground arith
    same (y ∷ ys) [] a p q e = ground arith
    same (y ∷ ys) (z ∷ zs) a p q e = ground arith

    pred :
        (ys zs : List ℕ)
        → IsList r s (ys ++ x ∷ zs)
        → Before (without_segment ys x zs s).blocks 0 ys (first zs)
    pred [] zs l = tt
    pred (y ∷ ys) [] l = ground (arith, All-last (λ a. a ≢ x) y ys (apart r s (y ∷ ys) x [] l).0)
    pred (y ∷ ys) (z ∷ zs) l = ground (
      arith,
      All-last (λ a. a ≢ x) y ys (apart r s (y ∷ ys) x (z ∷ zs) l).0,
      All-last (λ a. a ≢ z) y ys (others (y ∷ ys) x z zs l.distinct),
    )

    behind :
        (ys zs : List ℕ)
        → IsList r s (ys ++ x ∷ zs)
        → Behind (without_segment ys x zs s).blocks (last 0 ys) zs
    behind ys [] l = tt
    behind ys (z ∷ zs) l = ground (arith, (apart r s ys x (z ∷ zs) l).1.0)

pub free-SameOutside :
    (s : Store) (ys : List ℕ) (x : ℕ) (zs : List ℕ)
    → SameOutside (ys ++ x ∷ zs) s (without_segment ys x zs s)
free-SameOutside s ys x zs a h =
    let parts = All-middle (λ y. y ≢ a) ys x zs h in
    ground (
      arith,
      parts.1,
      behind_set-at (before_set s.blocks ys (first zs)) (last 0 ys) zs a parts.2,
      before_set-at s.blocks ys (first zs) a parts.0,
    )

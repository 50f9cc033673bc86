-- ===== src/Reference/Segments.antt =====
-- What tm_alloc and tm_free do to the list of segments.
use concurrent_project.Prelude.{
  ℕ, ◌+◌, ◌^◌, ◌<◌, ◌≡◌, ◌≢◌, refl, ap, Option, none, some, List, [], ◌∷◌, arith, All,
}
use concurrent_project.Heap.{update, memset}
use concurrent_project.Api.{success, nomem}
use concurrent_project.Reference.{
  linked, node, node_size, Store, Region, node_at, set_prev, alloc_align, tm_alloc,
}
use concurrent_project.Reference.Chain.{Blocks, first, Linked, Distinct, Linked-frame}

-- The nodes of the region's list are `xs`, from its first to its last. They are live, no two are the
-- same, and a segment behind a node has an address of 64 bits.
pub record IsList (r : Region) (s : Store) (xs : List ℕ) : Type 0 where
  pub head : r.allocs ≡ first xs
  pub chain : Linked s.blocks 0 xs
  pub distinct : Distinct xs
  pub small : All (λ x. x + node_size < 2 ^ 64) xs

-- A block that is not live is no node of the list.
pub unlisted :
    (b : Blocks) (before : ℕ) (xs : List ℕ) (sn : ℕ)
    → Linked b before xs
    → b sn ≡ none
    → All (λ y. y ≢ sn) xs
unlisted b before [] sn h dead = tt
unlisted b before (x ∷ xs) sn (live, here, rest) dead =
    (λ e. cc (ap b e), unlisted b x xs sn rest dead)

-- Blocks that are not of a list are left alone.
abbrev pub SameOutside : List ℕ → Store → Store → Type 0
SameOutside xs s s' = (a : ℕ) → All (λ y. y ≢ a) xs → s'.blocks a ≡ s.blocks a

-- The store of a successful tm_alloc.
abbrev pub with_segment : (sn size : ℕ) → List ℕ → Store → Store
with_segment sn size [] s = record s {
  blocks = update s.blocks sn (some (linked (node 0 0)));
  memory = memset s.memory (sn + node_size) 0 size;
}
with_segment sn size (x ∷ xs) s = record s {
  blocks =
      update (update s.blocks sn (some (linked (node 0 x)))) x (some (linked (node sn (first xs))));
  memory = memset s.memory (sn + node_size) 0 size;
}

module _ (memalign : (align size : ℕ) → Option ℕ) (size sn : ℕ) (r : Region) (s : Store)
    (given : memalign (alloc_align r.align) (node_size + size) ≡ some sn) (live : sn ≢ 0)
    (fresh : s.blocks sn ≡ none) (fits : sn + node_size < 2 ^ 64) where
  pub alloc-runs :
      (xs : List ℕ)
      → IsList r s xs
      → tm_alloc memalign size r s
        ≡ some (success, sn + node_size, record r { allocs = sn }, with_segment sn size xs s)
  unfolding tm_alloc set_prev node_at
  alloc-runs [] l = ground (arith, given, l.head)
  alloc-runs (x ∷ xs) l = ground (
    arith,
    given,
    l.head,
    l.chain.0,
    l.chain.1,
    (unlisted s.blocks 0 (x ∷ xs) sn l.chain fresh).0,
  )

  pub alloc-IsList :
      (xs : List ℕ)
      → IsList r s xs
      → IsList (record r { allocs = sn }) (with_segment sn size xs s) (sn ∷ xs)
  alloc-IsList [] l = record {
    head = refl;
    chain = (live, ground arith, tt);
    distinct = (tt, tt);
    small = (fits, tt);
  }
  alloc-IsList (x ∷ xs) l = record {
    head = refl;
    chain = (
      live,
      ground (arith, new.0),
      (
        l.chain.0,
        ground arith,
        Linked-frame s.blocks _ x xs l.chain.2 (spared xs new.1 l.distinct.0),
      ),
    );
    distinct = (new, l.distinct);
    small = (fits, l.small);
  }
    where
      new : All (λ y. y ≢ sn) (x ∷ xs)
      new = unlisted s.blocks 0 (x ∷ xs) sn l.chain fresh

      spared :
          (ws : List ℕ)
          → All (λ y. y ≢ sn) ws
          → All (λ y. y ≢ x) ws
          → All (λ y. (with_segment sn size (x ∷ xs) s).blocks y ≡ s.blocks y) ws
      spared [] h1 h2 = tt
      spared (w ∷ ws) h1 h2 = (ground (arith, h1.0, h2.0), spared ws h1.1 h2.1)

  pub alloc-SameOutside : (xs : List ℕ) → SameOutside (sn ∷ xs) s (with_segment sn size xs s)
  alloc-SameOutside [] a h = ground (arith, h.0)
  alloc-SameOutside (x ∷ xs) a h = ground (arith, h.0, h.1.0)

-- When there is no memory nothing changes.
pub alloc-nomem :
    (memalign : (align size : ℕ) → Option ℕ) (size : ℕ) (r : Region) (s : Store)
    → memalign (alloc_align r.align) (node_size + size) ≡ none
    → tm_alloc memalign size r s ≡ some (nomem, 0, r, s)
unfolding tm_alloc
alloc-nomem memalign size r s refused = rw (refused, tm_alloc) refl

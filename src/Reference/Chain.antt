-- ===== src/Reference/Chain.antt =====
-- The list of segments in the store, and what adding a node and taking one out do to it.
use concurrent_project.Prelude.{
  ◌∙◌, ℕ, ◌≡◌, ◌≢◌, Option, some, List, [], ◌∷◌, ◌++◌, arith, All, sym, All-append, All-middle,
}
use concurrent_project.Reference.{Block, linked, node}

abbrev pub Blocks : Type 0
Blocks = ℕ → Option Block

-- The pointer to a list's first node.
abbrev pub first : List ℕ → ℕ
first [] = 0
first (x ∷ xs) = x

-- The last of some nodes, with what stands before them.
abbrev pub last : (before : ℕ) → List ℕ → ℕ
last before [] = before
last before (x ∷ xs) = last x xs

-- The nodes `xs` are live, and point to each other in both directions; `before` stands before them.
abbrev pub Linked : Blocks → (before : ℕ) → List ℕ → Type 0
Linked b before [] = Unit {0}
Linked b before (x ∷ xs) = (x ≢ 0) × (b x ≡ some (linked (node before (first xs)))) × Linked b x xs

-- No node stands in the list twice.
abbrev pub Distinct : List ℕ → Type 0
Distinct [] = Unit {0}
Distinct (x ∷ xs) = All (λ y. y ≢ x) xs × Distinct xs

-- A chain survives any change that spares its nodes.
pub Linked-frame :
    (b b' : Blocks) (before : ℕ) (xs : List ℕ)
    → Linked b before xs
    → All (λ y. b' y ≡ b y) xs
    → Linked b' before xs
Linked-frame b b' before [] h same = tt
Linked-frame b b' before (x ∷ xs) (live, here, rest) (same, others) =
    (live, ground (arith, here, same), Linked-frame b b' x xs rest others)

-- What a node that stands behind `before` holds.
abbrev pub Behind : Blocks → (before : ℕ) → List ℕ → Type 0
Behind b before [] = Unit {0}
Behind b before (x ∷ xs) = b x ≡ some (linked (node before (first xs)))

-- What the last of `y ∷ ys` has before it.
abbrev pub previous : (before y : ℕ) → List ℕ → ℕ
previous before y [] = before
previous before y (y2 ∷ ys) = previous y y2 ys

abbrev pub Before : Blocks → (before : ℕ) → List ℕ → (next : ℕ) → Type 0
Before b before [] next = Unit {0}
Before b before (y ∷ ys) next = b (last y ys) ≡ some (linked (node (previous before y ys) next))

pub All-last {ℓ} : (P : ℕ → Type ℓ) (x : ℕ) (xs : List ℕ) → All P (x ∷ xs) → P (last x xs)
All-last P x [] h = h.0
All-last P x (y ∷ xs) h = All-last P y xs h.1

pub All-first {ℓ} : (P : ℕ → Type ℓ) (xs : List ℕ) → P 0 → All P xs → P (first xs)
All-first P [] zero_holds h = zero_holds
All-first P (x ∷ xs) zero_holds h = h.0

-- A node is taken out of the middle: when its neighbours are set to each other and nothing else of the
-- chain changes, the others are linked.
pub Linked-unlink :
    (b b' : Blocks) (before : ℕ) (ys : List ℕ) (x : ℕ) (zs : List ℕ)
    → Linked b before (ys ++ x ∷ zs)
    → Distinct (ys ++ x ∷ zs)
    → ((a : ℕ) → a ≢ last before ys → a ≢ first zs → a ≢ x → b' a ≡ b a)
    → All (λ y. y ≢ before) (ys ++ x ∷ zs)
    → Before b' before ys (first zs)
    → Behind b' (last before ys) zs
    → Linked b' before (ys ++ zs)
Linked-unlink b b' before [] x [] h d same out hb hz = tt
Linked-unlink b b' before [] x (z ∷ zs) (_, _, (live, _, rest)) (dx, (dz, d)) same (_, out) hb hz =
    (live, hz, Linked-frame b b' z zs rest (spared zs dz dx.1 out.1))
  where
    spared :
        (ws : List ℕ)
        → All (λ y. y ≢ z) ws
        → All (λ y. y ≢ x) ws
        → All (λ y. y ≢ before) ws
        → All (λ y. b' y ≡ b y) ws
    spared [] h1 h2 h3 = tt
    spared (w ∷ ws) h1 h2 h3 = (same w h3.0 h1.0 h2.0, spared ws h1.1 h2.1 h3.1)
Linked-unlink b b' before (y ∷ []) x zs (live, here, rest) (dy, d) same out hb hz =
    (live, hb, Linked-unlink b b' y [] x zs rest d same dy tt hz)
Linked-unlink b b' before (y ∷ y2 ∷ ys) x zs (live, here, rest) (dy, d) same out hb hz = (
  live,
  (same y (λ e. (All-last (λ a. a ≢ y) y2 ys (parts.0)) (sym e)) (λ e. first_ne (sym e))
        (λ e. parts.1 (sym e)))
      ∙ here,
  Linked-unlink b b' y (y2 ∷ ys) x zs rest d same dy hb hz,
)
  where
    parts : All (λ a. a ≢ y) (y2 ∷ ys) × (x ≢ y) × All (λ a. a ≢ y) zs
    parts = All-middle (λ a. a ≢ y) (y2 ∷ ys) x zs dy

    first_ne : first zs ≢ y
    first_ne = All-first (λ a. a ≢ y) zs (λ e. live (sym e)) parts.2

-- A node in the middle of the chain, and the one before it.
pub Linked-at :
    (b : Blocks) (before : ℕ) (ys : List ℕ) (x : ℕ) (zs : List ℕ)
    → Linked b before (ys ++ x ∷ zs)
    → (x ≢ 0)
      × (b x ≡ some (linked (node (last before ys) (first zs))))
      × Before b before ys x
      × Linked b x zs
Linked-at b before [] x zs h = (h.0, h.1, tt, h.2)
Linked-at b before (y ∷ []) x zs (live, here, rest) = (rest.0, rest.1, here, rest.2)
Linked-at b before (y ∷ y2 ∷ ys) x zs (live, here, rest) = Linked-at b y (y2 ∷ ys) x zs rest

pub Linked-live : (b : Blocks) (before : ℕ) (xs : List ℕ) → Linked b before xs → All (λ y. y ≢ 0) xs
Linked-live b before [] h = tt
Linked-live b before (x ∷ xs) h = (h.0, Linked-live b x xs h.2)

pub Distinct-middle :
    (ys : List ℕ) (x : ℕ) (zs : List ℕ)
    → Distinct (ys ++ x ∷ zs)
    → All (λ a. a ≢ x) (ys ++ zs) × Distinct (ys ++ zs)
Distinct-middle [] x zs h = h
Distinct-middle (y ∷ ys) x zs (hy, h) =
    let parts = All-middle (λ a. a ≢ y) ys x zs hy in
    let rest = Distinct-middle ys x zs h in
    ((λ e. parts.1 (sym e), rest.0), (All-append (λ a. a ≢ y) ys zs parts.0 parts.2, rest.1))

pub All-split {ℓ} : (P : ℕ → Type ℓ) (xs ys : List ℕ) → All P (xs ++ ys) → All P xs × All P ys
All-split P [] ys h = (tt, h)
All-split P (x ∷ xs) ys h = let rest = All-split P xs ys h.1 in ((h.0, rest.0), rest.1)

-- ===== src/Reference/Destroy.antt =====
-- The end of a region: tm_destroy frees every segment.
use concurrent_project.Prelude.{
  ℕ, zero, suc, ◌<◌, ◌≡◌, ◌≢◌, refl, false, none, some, List, [], ◌∷◌, arith, ◌==◌, All, length,
  Bool-cases, inl, inr,
}
use concurrent_project.Heap.{update}
use concurrent_project.Reference.{Store, release, node_at, free_allocs}
use concurrent_project.Reference.Chain.{Blocks, first, Linked, Distinct, Linked-frame}

-- The blocks with some of them freed.
abbrev pub freed : List ℕ → Blocks → Blocks
freed [] b = b
freed (x ∷ xs) b = freed xs (update b x none)

-- With more fuel than there are nodes the loop ends, and it has freed them.
pub free_allocs-freed :
    (fuel before : ℕ) (xs : List ℕ) (s : Store)
    → length xs < fuel
    → Linked s.blocks before xs
    → Distinct xs
    → free_allocs fuel (first xs) s ≡ some (record s { blocks = freed xs s.blocks })
unfolding free_allocs node_at
free_allocs-freed zero before xs s enough h d = absurd (omega arith)
free_allocs-freed (suc fuel) before [] s enough h d = refl
free_allocs-freed (suc fuel) before (x ∷ xs) s enough (live, here, rest) (dx, d) =
    rw (ne, here, free_allocs)
      (free_allocs-freed fuel x xs (release x s) (omega arith)
        (Linked-frame s.blocks _ x xs rest (spared xs dx)) d)
  where
    ne : (x == 0) ≡ false
    ne = ground (arith, live)

    spared : (ws : List ℕ) → All (λ y. y ≢ x) ws → All (λ y. (release x s).blocks y ≡ s.blocks y) ws
    spared [] h = tt
    spared (w ∷ ws) h = (ground (arith, h.0), spared ws h.1)

-- Freed blocks are not live, and the others are as they were.
pub freed-at :
    (xs : List ℕ) (b base : Blocks)
    → ((a : ℕ) → All (λ y. y ≢ a) xs → b a ≡ base a)
    → All (λ x. base x ≡ none) xs
    → (a : ℕ) → freed xs b a ≡ base a
freed-at [] b base outside h a = outside a tt
freed-at (x ∷ xs) b base outside h a =
    freed-at xs (update b x none) base
      (λ c hc. elim (Bool-cases (x == c)) [
        | inl same ↦ ground (arith, same, h.0)
        | inr other ↦ ground (arith, other, outside c (ground (arith, other), hc))
      ])
      h.1 a

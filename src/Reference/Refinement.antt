-- ===== src/Reference/Refinement.antt =====
-- Every run of allowed calls on a region refines the same calls on the list of its segments.
use mathlib.Core.Path.{subst}
use concurrent_project.Prelude.{
  All-append, ℕ, ◌+◌, ◌-◌, ◌^◌, ◌<◌, ◌≡◌, ◌≢◌, refl, sym, ◌∙◌, Option, none, some, List, [], ◌∷◌,
  ◌++◌, arith, ◌==◌, Bool-cases, Option-cases, inl, inr, All, All-middle, All-fill,
}
use concurrent_project.Reference.{Store, node_size, alloc_align}
use concurrent_project.Reference.Chain.{Blocks, first, All-split}
use concurrent_project.Reference.Segments.{
  alloc-nomem, with_segment, alloc-runs, alloc-IsList, alloc-SameOutside, unlisted,
}
use concurrent_project.Reference.Unlink.{free-runs, free-IsList, free-SameOutside, without_segment}
use concurrent_project.Reference.Runs.{
  State, Call, begins, ends, reads, writes, allocs, frees, perform, run, abstract_call, replay,
  Allowed, AllAllowed,
}
use concurrent_project.Reference.Refine.{
  IsIsolated, Holds, Performs, remove-middle, begins-Performs, ends-Performs, reads-Performs,
  writes-Performs,
}

module _ (base : Blocks) (st : State) (xs : List ℕ) (h : Holds base st xs) where
  -- The state with another list of segments.
  abbrev listed : (head : ℕ) → Store → State
  listed head s = record st { region = record (st.region) { allocs = head }; store = s }

  listed-IsIsolated : (head : ℕ) (s : Store) → IsIsolated (listed head s)
  listed-IsIsolated head s = record {
    writing = h.isolated.writing;
    reading = h.isolated.reading;
    apart = h.isolated.apart;
  }

  added-Holds :
      (memalign : (align size : ℕ) → Option ℕ) (size sn : ℕ)
      → memalign (alloc_align st.region.align) (node_size + size) ≡ some sn
      → sn ≢ 0
      → st.store.blocks sn ≡ none
      → sn + node_size < 2 ^ 64
      → Holds base (listed sn (with_segment sn size xs st.store)) (sn ∷ xs)
  added-Holds memalign size sn given live fresh fits = record {
    list = alloc-IsList memalign size sn st.region st.store given live fresh fits xs h.list;
    isolated = listed-IsIsolated sn _;
    outside = λ a out.
        alloc-SameOutside memalign size sn st.region st.store given live fresh fits xs a out
        ∙ h.outside a out.1;
    unused = (sym (h.outside sn unlisted_here) ∙ fresh, h.unused);
  }
    where
      unlisted_here : All (λ y. y ≢ sn) xs
      unlisted_here = unlisted st.store.blocks 0 xs sn h.list.chain fresh

  allocs-Performs :
      (memalign : (align size : ℕ) → Option ℕ) (size : ℕ)
      → Allowed (allocs memalign size) st xs
      → Performs base (allocs memalign size) st xs
  unfolding abstract_call perform
  allocs-Performs memalign size (writer, promised) =
      elim (Option-cases (memalign (alloc_align st.region.align) (node_size + size))) [
        | inl refused ↦ (
          st,
          rw (alloc-nomem memalign size st.region st.store refused) refl,
          rw refused h,
          refl,
          refl,
        )
        | inr (sn, given) ↦
            let (live, fresh, fits) = promised sn given in
            let small : sn + node_size < 2 ^ 64 = omega (arith, fits) in
            (
              listed sn (with_segment sn size xs st.store),
              rw (alloc-runs memalign size sn st.region st.store given live fresh small xs h.list)
                  refl,
              rw given (added-Holds memalign size sn given live fresh small),
              refl,
              refl,
            )
      ]

  removed-Holds :
      (ys : List ℕ) (x : ℕ) (zs : List ℕ)
      → xs ≡ ys ++ x ∷ zs
      → Holds base (listed (first (ys ++ zs)) (without_segment ys x zs st.store)) (ys ++ zs)
  removed-Holds ys x zs e = record {
    list = free-IsList st.region st.store ys x zs (rw (← e) h.list);
    isolated = listed-IsIsolated (first (ys ++ zs)) _;
    outside = λ a out. elim (Bool-cases (x == a)) [
      | inl freed ↦ ground (arith, freed, unused.1)
      | inr other ↦
          let kept : All (λ y. y ≢ a) (ys ++ x ∷ zs) =
            let halves = All-split (λ y. y ≢ a) ys zs out in
            All-fill (λ y. y ≢ a) ys x zs halves.0 (ground (arith, other)) halves.1 in
          free-SameOutside st.store ys x zs a kept ∙ h.outside a (rw e kept)
    ];
    unused = All-append (λ a. base a ≡ none) ys zs unused.0 unused.2;
  }
    where
      unused : All (λ a. base a ≡ none) ys × (base x ≡ none) × All (λ a. base a ≡ none) zs
      unused = All-middle (λ a. base a ≡ none) ys x zs (rw (← e) h.unused)

  frees-Performs :
      (segment : ℕ) → Allowed (frees segment) st xs → Performs base (frees segment) st xs
  unfolding abstract_call perform
  frees-Performs segment (writer, (x, e, listed_x)) =
      let address : x + node_size - node_size ≡ x = omega arith in
      let (ys, zs, parts, removed) = remove-middle x xs listed_x in
      (
        listed (first (ys ++ zs)) (without_segment ys x zs st.store),
        rw (e, free-runs st.region st.store ys x zs (rw (← parts) h.list)) refl,
        rw (e, address, removed) (removed-Holds ys x zs parts),
        refl,
        refl,
      )

-- An allowed call goes well.
pub perform-Performs :
    (base : Blocks) (c : Call) (st : State) (xs : List ℕ)
    → Holds base st xs
    → Allowed c st xs
    → Performs base c st xs
perform-Performs base (begins is_ro code) st xs h allowed = begins-Performs base st xs h is_ro code
perform-Performs base (ends tx) st xs h allowed = ends-Performs base st xs h tx allowed
perform-Performs base (reads source size target) st xs h allowed =
    reads-Performs base st xs h source size target
perform-Performs base (writes source size target) st xs h allowed =
    writes-Performs base st xs h source size target
perform-Performs base (allocs memalign size) st xs h allowed =
    allocs-Performs base st xs h memalign size allowed
perform-Performs base (frees segment) st xs h allowed = frees-Performs base st xs h segment allowed

-- Whatever calls the transactions make on a region, in any order, as long as each is allowed: none of
-- them is a fault, and at the end the doubly linked list of the region is the abstract list to which the
-- same calls lead, the lock is held by the transactions that are live and by no reader beside a writer,
-- and the blocks that are no nodes of the list are those of before.
pub run_refines :
    (base : Blocks) (calls : List Call) (st : State) (xs : List ℕ)
    → Holds base st xs
    → AllAllowed calls st xs
    → (st' : State) × (run calls st ≡ some st')
      × Holds base st' (replay st.region.align calls xs)
      × (st'.region.start ≡ st.region.start)
unfolding run replay
run_refines base [] st xs h allowed = (st, refl, h, refl)
run_refines base (c ∷ calls) st xs h allowed =
    let (st1, e, h1, align, start) = perform-Performs base c st xs h allowed.0 in
    let (st', e', h', start') = run_refines base calls st1 _ h1 (allowed.1 st1 e) in
    (
      st',
      rw (e, run) e',
      subst (λ a. Holds base st' (replay a calls (abstract_call st.region.align c xs))) align h',
      start' ∙ start,
    )

-- ===== src/Transaction/Opacity/Views.antt =====
-- A read of a read-only transaction, as the transaction and the others see it.
use concurrent_project.Transaction.Reading.Words.{seen}
use concurrent_project.Prelude.{
  reverse, ℕ, zero, suc, ◌+◌, ◌*◌, ◌/◌, ◌^◌, ◌≤◌, ◌<◌, ◌≡◌, sym, ap, ◌∙◌, ◌⊎◌, inl, inr, true,
  false, ◌==◌, if◌then◌else◌, List, ◌++◌, arith, All, All-append, All-map, Bool-cases,
}
use mathlib.Core.Path.{subst}
use mathlib.Core.List.{Memᴰ}
use mathlib.Core.List.Memᴰ
use concurrent_project.Heap.{Memory, load}
use concurrent_project.Region.{Store}
use concurrent_project.Transaction.Types.{Read}
use concurrent_project.Transaction.Reading.{Outcome, read_only_read}
use concurrent_project.Transaction.Reading.ReadWrite.{reads}
use concurrent_project.Transaction.Opacity.{Live, AreShared, IsPrivate, words_at, after_scan}
use concurrent_project.Transaction.Opacity.Moves.{
  version, lock_of, IsTimed, IsFixed, Moves, IsFixed-Moves,
}
use concurrent_project.Transaction.Opacity.Ready.{AreOld, Scans}
use concurrent_project.Transaction.Opacity.Scans.{read_only_words-Scans}
use concurrent_project.Transaction.Opacity.Still.{
  reads-member, All-member, still-Moves, still-IsTimed, reads-places,
}

words_at-All :
    (source target segment_index n i align : ℕ) (m : Memory) (P : Read × List ℕ → Type 0)
    → ((j : ℕ)
        → i ≤ j
        → j < i + n
        → P (
          record { source = source + j * align; segment_index = segment_index },
          load m (target + j * align) align,
        ))
    → All P (words_at source target segment_index n i align m)
words_at-All source target segment_index zero i align m P h = tt
words_at-All source target segment_index (suc n) i align m P h = (
  h i (omega arith) (omega arith),
  words_at-All source target segment_index n (i + 1) align m P
      (λ j lo hi. h j (omega (arith, lo)) (omega (arith, hi))),
)

module _ (IsWord : (a segment_index : ℕ) → Type 0) where
  module _ (s : Store) (l : Live) (source size target segment_index : ℕ) (timed : IsTimed IsWord s)
      (fixed : IsFixed IsWord s l) (small : s.global_clock < 2 ^ 30)
      (shared : AreShared IsWord s source size segment_index)
      (private : IsPrivate IsWord s size target) where
    abbrev outcome : Outcome
    outcome = read_only_read source size target segment_index l.tx s

    abbrev after : Live
    after = after_scan source size target segment_index l s

    scanned :
        Scans IsWord source target segment_index (size / s.align) (size / s.align) 0 l.tx s outcome
    unfolding read_only_read
    scanned =
        read_only_words-Scans IsWord source target segment_index (size / s.align) (size / s.align) 0
          l.tx s (omega arith)
          (record {
            fresh = fixed.fresh;
            begun = fixed.begun;
            timed = timed;
            small = small;
            apart = λ j k lt lt'. private (source + j * s.align) segment_index k (shared j lt) lt';
          })

    same_tm : outcome.2.tm ≡ s.tm
    same_tm = ap (λ s'. s'.tm) scanned.rest

    same_locks : outcome.2.locks ≡ s.locks
    same_locks = ap (λ s'. s'.locks) scanned.rest

    pub scan-IsTimed : IsTimed IsWord outcome.2
    scan-IsTimed = still-IsTimed IsWord s outcome.2 same_tm same_locks timed

    pub scan-Moves : Moves IsWord s outcome.2
    scan-Moves =
        still-Moves IsWord s outcome.2 same_tm same_locks
          (λ a i place. scanned.apart a (λ k lo hi. private a i k place (omega (arith, hi))))

    -- The view is kept, with the read version, or it is the memory before the read and all that was
    -- read is no newer than the read version.
    abbrev Seen : Memory → Type 0
    Seen view =
        ((view ≡ l.view) × (outcome.1.read_version ≡ l.tx.read_version))
        ⊎ ((view ≡ s.memory)
            × (outcome.1.read_version ≡ s.global_clock)
            × AreOld s l.tx.read_version l.tx.read_set)

    view-Seen : outcome.0 ≡ true → Seen after.view
    view-Seen ok = elim (Bool-cases (outcome.1.read_version == l.tx.read_version)) [
      | inl e ↦ inl (ap (λ b. if b then l.view else s.memory) e, ground (arith, e))
      | inr ne ↦
          let (now, old) = moved ne (scanned.later ok) in
          inr (ap (λ b. if b then l.view else s.memory) ne, now, old)
    ]
      where
        moved :
            {v c : ℕ} {P : Type 0}
            → (v == l.tx.read_version) ≡ false
            → (v ≡ l.tx.read_version) ⊎ ((v ≡ c) × P)
            → (v ≡ c) × P
        moved ne (inl e) = absurd (ground (arith, ne, e))
        moved ne (inr h) = h

    -- A word no newer than the read version is in the view what it is in memory.
    view_same :
        (view : Memory)
        → Seen view
        → (a i : ℕ) → IsWord a i
        → version s (lock_of s a i) ≤ outcome.1.read_version
        → load s.memory a s.align ≡ load view a s.align
    view_same view (inl (e, kept)) a i place old =
        fixed.same a i place (omega (arith, old, kept)) ∙ ap (λ m. load m a s.align) (sym e)
    view_same view (inr (e, moved, old_reads)) a i place old = ap (λ m. load m a s.align) (sym e)

    -- What was read before is in the view what it was.
    view_keeps :
        (view : Memory)
        → Seen view
        → (r : Read) → Memᴰ r l.tx.read_set
        → load view r.source s.align ≡ load l.view r.source s.align
    view_keeps view (inl (e, kept)) r m = ap (λ m. load m r.source s.align) e
    view_keeps view (inr (e, moved, old)) r m =
        ap (λ m. load m r.source s.align) e
        ∙ fixed.same r.source r.segment_index
            (All-member (λ r. IsWord r.source r.segment_index) r l.tx.read_set fixed.noted m)
            (All-member (λ r. version s (lock_of s r.source r.segment_index) ≤ l.tx.read_version) r
              l.tx.read_set old m)

    -- The transaction that the read leaves, with one of the two views.
    abbrev with_view : Memory → Live
    with_view view = record {
      tx = record (l.tx) {
        read_version = outcome.1.read_version;
        read_set = l.tx.read_set ++ reads source target segment_index (size / s.align) 0 s.align;
      };
      view = view;
      shown =
          l.shown
          ++ words_at source target segment_index (size / s.align) 0 s.align outcome.2.memory;
      given = l.given;
    }

    with_view-IsFixed :
        outcome.0 ≡ true → (view : Memory) → Seen view → IsFixed IsWord s (with_view view)
    with_view-IsFixed ok view seen_view = record {
      empty = fixed.empty;
      fresh = fixed.fresh;
      begun = elim seen_view [
        | inl (e, kept) ↦ omega (arith, kept, fixed.begun)
        | inr (e, moved, old) ↦ omega (arith, moved)
      ];
      whole = fixed.whole;
      written = fixed.written;
      noted = All-append _ l.tx.read_set _ fixed.noted (
          reads-places IsWord source target segment_index (size / s.align) 0 s.align
            (λ k lt. shared k (omega (arith, lt))));
      same = view_same view seen_view;
      given =
          All-map _ _ l.given
            (λ g h. (
              h.0
                  ∙ ap (seen g.entry.source (reverse g.writes))
                      (sym (view_keeps view seen_view g.entry h.1)),
              Memᴰ.append_left _ h.1,
            ))
            fixed.given;
      shown =
          All-append _ l.shown _
            (All-map _ _ l.shown
              (λ p h. (view_keeps view seen_view p.0 h.1 ∙ h.0, Memᴰ.append_left _ h.1))
              fixed.shown)
            (words_at-All source target segment_index (size / s.align) 0 s.align outcome.2.memory _
              (λ j lo hi.
                let (copied, old) = scanned.copied ok j lo hi in
                (
                  sym (
                      copied
                      ∙ view_same view seen_view (source + j * s.align) segment_index
                          (shared j (omega (arith, hi))) old),
                  Memᴰ.append_right l.tx.read_set
                      (reads-member source target segment_index (size / s.align) 0 s.align j lo hi),
                )));
    }

    pub scan-IsFixed : outcome.0 ≡ true → IsFixed IsWord outcome.2 after
    scan-IsFixed ok = IsFixed-Moves IsWord after scan-Moves (
        subst
          (λ tx.
            IsFixed IsWord s
              (record { tx = tx; view = after.view; shown = after.shown; given = l.given }))
          (sym (scanned.noted ok)) (with_view-IsFixed ok after.view (view-Seen ok)))

-- ===== src/Transaction/Opacity/Scans.antt =====
-- What a read of a read-only transaction does.
use concurrent_project.Prelude.{
  ℕ, zero, suc, ◌+◌, ◌*◌, ◌≤◌, ◌≡◌, refl, sym, ap, ◌∙◌, inl, inr, true, false, if◌then◌else◌, arith,
  Bool-cases,
}
use mathlib.Core.Path.{subst}
use mathlib.Core.List.{append-nil, append_assoc}
use native.Mathlib.Decide.{ℕ_discrete}
use concurrent_project.Heap.{Memory, load, memcpy}
use concurrent_project.Heap.Bytes.{load-memcpy, load-memcpy_disjoint}
use concurrent_project.Region.{Store}
use concurrent_project.Transaction.Types.{Read, Transaction, ro_retries}
use concurrent_project.Transaction.Reading.{Outcome, note_read, read_only_words}
use concurrent_project.Transaction.Reading.Words.{Apart-index}
use concurrent_project.Transaction.Opacity.Moves.{version}
use concurrent_project.Transaction.Opacity.Ready.{
  IsReady, IsReady-next, Later-same, Scans, later-grows, later-later, later-le, lock_at, passed-le,
}
use concurrent_project.Transaction.Opacity.Waits.{Waits, read_only_wait-Waits}

module _ (IsWord : (a segment_index : ℕ) → Type 0) (source target segment_index total : ℕ) where
  module _ (n i : ℕ) (le : i + suc n ≤ total) (tx : Transaction) (s : Store)
      (ready : IsReady IsWord source target segment_index total tx s) where
    abbrev read_at : Read
    read_at = record { source = source + i * s.align; segment_index = segment_index }

    abbrev copied_first : Store
    copied_first = record s {
      memory = memcpy s.memory (target + i * s.align) (source + i * s.align) s.align;
    }

    Scans-suc :
        (v : ℕ) (m : Memory)
        → Waits IsWord
            (lock_at IsWord source target segment_index total s i)
            (source + i * s.align)
            (target + i * s.align)
            tx
            copied_first
            (true, record tx { read_version = v }, record s { memory = m })
        → (r : Outcome)
        → Scans IsWord source target segment_index total n
            (i + 1)
            (note_read (record tx { read_version = v }) read_at)
            (record s { memory = m })
            r
        → Scans IsWord source target segment_index total (suc n) i tx s r
    Scans-suc v m w r ih =
        let le_clock = later-le IsWord source target segment_index total tx s v ready (
          Later-same IsWord source target segment_index total tx s copied_first.memory v w.later) in
        record {
          rest = ih.rest;
          apart = λ c h.
              ih.apart c (λ k lo hi. h k (omega (arith, lo)) (omega (arith, hi)))
              ∙ w.apart c (h i (omega arith) (omega arith))
              ∙ load-memcpy_disjoint s.memory (target + i * s.align) (source + i * s.align) s.align
                  c s.align (h i (omega arith) (omega arith));
          noted = λ ok.
              ih.noted ok
              ∙ ap (λ set. record tx { read_version = r.1.read_version; read_set = set })
                  (append_assoc tx.read_set _ _);
          later = λ ok.
              later-later IsWord source target segment_index total tx s v r.1.read_version read_at
                ready
                (Later-same IsWord source target segment_index total tx s copied_first.memory v
                  w.later)
                (ih.later ok);
          copied = λ ok j lo hi. elim (ℕ_discrete i j) [
            | yes e ↦
                subst
                  (λ k.
                    (load (r.2.memory) (target + k * s.align) s.align
                      ≡ load s.memory (source + k * s.align) s.align)
                    × (version s (lock_at IsWord source target segment_index total s k)
                        ≤ r.1.read_version))
                  e
                  (
                    ih.apart (target + i * s.align)
                          (λ k low high. Apart-index s.align target i k (omega (arith, low)))
                        ∙ w.copied
                        ∙ load-memcpy_disjoint s.memory (target + i * s.align)
                            (source + i * s.align) s.align (source + i * s.align) s.align
                            (ready.apart i i (omega (arith, le)) (omega (arith, le))),
                    omega (
                      arith,
                      passed-le v (s.locks (lock_at IsWord source target segment_index total s i))
                          (omega (arith, le_clock, ready.small))
                          (omega (
                            arith,
                            ready.timed.timed
                                (lock_at IsWord source target segment_index total s i),
                            ready.small,
                          ))
                          (w.accepts refl),
                      later-grows IsWord source target segment_index total s v r.1.read_version
                          le_clock (ih.later ok),
                    ),
                  )
            | no ne ↦
                let (copy, old) = ih.copied ok j (omega (arith, lo, ne)) (omega (arith, hi)) in
                let away = ready.apart j i (omega (arith, hi, le)) (omega (arith, le)) in
                (
                  copy
                      ∙ w.apart (source + j * s.align) away
                      ∙ load-memcpy_disjoint s.memory (target + i * s.align) (source + i * s.align)
                          s.align (source + j * s.align) s.align away,
                  old,
                )
          ];
        }

    -- The outcome of the first word, and the words after it.
    Scans-first :
        (o : Outcome)
        → Waits IsWord
            (lock_at IsWord source target segment_index total s i)
            (source + i * s.align)
            (target + i * s.align)
            tx
            copied_first
            o
        → ((v : ℕ) (m : Memory)
            → v ≤ s.global_clock
            → Scans IsWord source target segment_index total n
                (i + 1)
                (note_read (record tx { read_version = v }) read_at)
                (record s { memory = m })
                (read_only_words n
                  (i + 1)
                  source
                  target
                  segment_index
                  (note_read (record tx { read_version = v }) read_at)
                  (record s { memory = m })))
        → Scans IsWord source target segment_index total (suc n) i tx s (
            if o.0
            then read_only_words n (i + 1) source target segment_index (note_read o.1 read_at) o.2
            else (false, o.1, o.2))
    Scans-first o w ih = elim (Bool-cases (o.0)) [
      | inl ok ↦
          let o' : Outcome = (
            true,
            record tx { read_version = o.1.read_version },
            record s { memory = o.2.memory },
          ) in
          let e : o ≡ o' = λ k. (ok k, w.moved k, w.rest k) in
          subst
            (λ p. Scans IsWord source target segment_index total (suc n) i tx s (
              if p.0
              then read_only_words n (i + 1) source target segment_index (note_read p.1 read_at) p.2
              else (false, p.1, p.2)))
            (sym e)
            (Scans-suc o.1.read_version o.2.memory
              (subst
                (Waits IsWord (lock_at IsWord source target segment_index total s i)
                  (source + i * s.align) (target + i * s.align) tx copied_first)
                e w)
              _
              (ih o.1.read_version o.2.memory (
                later-le IsWord source target segment_index total tx s o.1.read_version ready (
                  Later-same IsWord source target segment_index total tx s copied_first.memory
                    o.1.read_version w.later))))
      | inr failed ↦ rw failed (record {
        rest = w.rest;
        apart = λ c h.
            w.apart c (h i (omega arith) (omega arith))
            ∙ load-memcpy_disjoint s.memory (target + i * s.align) (source + i * s.align) s.align c
                s.align (h i (omega arith) (omega arith));
        noted = λ ok. absurd (cc);
        later = λ ok. absurd (cc);
        copied = λ ok. absurd (cc);
      })
    ]

  pub read_only_words-Scans :
      (n i : ℕ) (tx : Transaction) (s : Store)
      → i + n ≤ total
      → IsReady IsWord source target segment_index total tx s
      → Scans IsWord source target segment_index total n i tx s
          (read_only_words n i source target segment_index tx s)
  unfolding read_only_words
  read_only_words-Scans zero i tx s le ready = record {
    rest = refl;
    apart = λ c h. refl;
    noted = λ ok. ap (λ set. record tx { read_set = set }) (sym (append-nil tx.read_set));
    later = λ ok. inl refl;
    copied = λ ok j lo hi. absurd (omega (arith, lo, hi));
  }
  read_only_words-Scans (suc n) i tx s le ready =
      let cs = source + i * s.align in
      let ct = target + i * s.align in
      let here = ready.apart i i (omega (arith, le)) (omega (arith, le)) in
      Scans-first n i le tx s ready _
        (read_only_wait-Waits IsWord ro_retries
          (lock_at IsWord source target segment_index total s i) cs ct tx
          (copied_first n i le tx s ready) here
          (load-memcpy s.memory ct cs s.align
            ∙ sym (load-memcpy_disjoint s.memory ct cs s.align cs s.align here)))
        (λ v m vle. read_only_words-Scans n (i + 1) _ _ (omega (arith, le)) (
          IsReady-next IsWord source target segment_index total tx s v m (read_at n i le tx s ready)
            ready vle))

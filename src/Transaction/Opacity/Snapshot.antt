-- ===== src/Transaction/Opacity/Snapshot.antt =====
-- Every step keeps the invariants.
use concurrent_project.Prelude.{
  ℕ, zero, suc, ◌+◌, ◌*◌, ◌/◌, ◌^◌, ◌≤◌, ◌<◌, refl, sym, ap, Bool, List, [], arith, All, All-append,
  All-middle, All-fill,
}
use mathlib.Core.Path.{subst}
use concurrent_project.Heap.{Memory}
use concurrent_project.Region.{Store}
use concurrent_project.Transaction.Types.{Write, create, write, write_words}
use concurrent_project.Transaction.Reading.{read_write_read}
use concurrent_project.Transaction.Writing.{write-Writes}
use concurrent_project.Transaction.Opacity
use concurrent_project.Transaction.Opacity.{
  after_read, after_scan, scans, stops, leaves, Live, System, IsLayout, AreShared, IsPrivate,
  SameWords, Step, begins, fails, writes, ends, computes, Reach, starts, goes,
}
use concurrent_project.Transaction.Opacity.Moves.{IsTimed, IsFixed, Moves, All-Moves}
use concurrent_project.Transaction.Opacity.Still.{still-Moves, still-IsTimed}
use concurrent_project.Transaction.Opacity.Reads.{done, read-Moves, read-IsFixed}
use concurrent_project.Transaction.Opacity.Views.{scan-IsTimed, scan-Moves, scan-IsFixed}
use concurrent_project.Transaction.Opacity.Ends.{end_wr-Moves}

module _ (IsWord : (a segment_index : ℕ) → Type 0) where
  write_words-places :
      (n i align : ℕ) (m : Memory) (source target segment_index : ℕ) (ws : List Write)
      → ((k : ℕ) → k < i + n → IsWord (target + k * align) segment_index)
      → All (λ w. IsWord w.destination w.segment_index) ws
      → All
          (λ w. IsWord w.destination w.segment_index)
          (write_words n i align m source target segment_index ws)
  unfolding write_words
  write_words-places zero i align m source target segment_index ws shared written = written
  write_words-places (suc n) i align m source target segment_index ws shared written =
      write_words-places n (i + 1) align m source target segment_index _
        (λ k lt. shared k (omega (arith, lt)))
        (All-append _ ws _ written (shared i (omega arith), tt))

  write-IsFixed :
      (s : Store) (l : Live) (source size target segment_index : ℕ)
      → 0 < s.align
      → AreShared IsWord s target size segment_index
      → IsFixed IsWord s l
      → IsFixed IsWord s (record {
        tx = write l.tx s source size target segment_index;
        view = l.view;
        shown = l.shown;
        given = l.given;
      })
  unfolding write
  write-IsFixed s l source size target segment_index positive shared fixed = record {
    empty = fixed.empty;
    fresh = fixed.fresh;
    begun = fixed.begun;
    whole = (write-Writes source size target segment_index s l.tx positive fixed.whole).words;
    written =
        write_words-places (size / s.align) 0 s.align s.memory source target segment_index
          l.tx.write_set (λ k lt. shared k (omega (arith, lt))) fixed.written;
    noted = fixed.noted;
    same = fixed.same;
    shown = fixed.shown;
    given = fixed.given;
  }

  create-IsFixed :
      (s : Store) (is_ro : Bool)
      → IsFixed IsWord s
          (record { tx = create s.tm is_ro; view = s.memory; shown = []; given = [] })
  unfolding create
  create-IsFixed s is_ro = record {
    empty = refl;
    fresh = refl;
    begun = omega arith;
    whole = tt;
    written = tt;
    noted = tt;
    same = λ a i place old. refl;
    shown = tt;
    given = tt;
  }

  pub record IsConsistent (sys : System) : Type 0 where
    pub layout : IsLayout sys.store.align IsWord
    pub timed : IsTimed IsWord sys.store
    pub fixed : All (IsFixed IsWord sys.store) sys.running

  moved :
      {s s' : Store} {running : List Live}
      → Moves IsWord s s'
      → IsTimed IsWord s'
      → All (IsFixed IsWord s') running
      → IsLayout s.align IsWord
      → IsConsistent (record { store = s'; running = running })
        × (s'.global_clock ≤ s.global_clock + 1)
  moved moves timed fixed layout = (
    record {
      layout = subst (λ n. IsLayout n IsWord) (sym (ap (λ tm. tm.align) moves.region)) layout;
      timed = timed;
      fixed = fixed;
    },
    moves.later.1,
  )

  pub Step-IsConsistent :
      {sys sys' : System}
      → Step IsWord sys sys'
      → sys.store.global_clock + 1 < 2 ^ 30
      → IsConsistent sys
      → IsConsistent sys' × (sys'.store.global_clock ≤ sys.store.global_clock + 1)
  Step-IsConsistent (begins {s} {running} is_ro) small c = (
    record { layout = c.layout; timed = c.timed; fixed = (create-IsFixed s is_ro, c.fixed) },
    omega arith,
  )
  Step-IsConsistent
        (Opacity.reads {s} before l after mode source size target segment_index shared private
          disjoint ok)
        small c =
      let (hb, hl, ha) = All-middle (IsFixed IsWord s) before l after c.fixed in
      let (succeeded, tx', s') = read_write_read source size target segment_index l.tx s in
      let moves = read-Moves IsWord s l source size target segment_index private disjoint hl in
      let rest = (done IsWord s l source size target segment_index private disjoint hl).rest in
      moved moves (still-IsTimed IsWord s s' rest.0 rest.1 c.timed)
        (All-fill (IsFixed IsWord s') before (after_read source size target segment_index l s) after
          (All-Moves IsWord before moves hb)
          (read-IsFixed IsWord s l source size target segment_index private disjoint hl c.timed
            small shared ok)
          (All-Moves IsWord after moves ha))
        c.layout
  Step-IsConsistent
        (fails {s} before l after mode source size target segment_index private disjoint failed)
        small c =
      let (hb, hl, ha) = All-middle (IsFixed IsWord s) before l after c.fixed in
      let moves = read-Moves IsWord s l source size target segment_index private disjoint hl in
      let rest = (done IsWord s l source size target segment_index private disjoint hl).rest in
      moved moves (still-IsTimed IsWord s _ rest.0 rest.1 c.timed)
        (All-append _ before after (All-Moves IsWord before moves hb)
          (All-Moves IsWord after moves ha))
        c.layout
  Step-IsConsistent
        (scans {s} before l after mode source size target segment_index shared private ok) small c =
      let (hb, hl, ha) = All-middle (IsFixed IsWord s) before l after c.fixed in
      let fits : s.global_clock < 2 ^ 30 = omega (arith, small) in
      let moves =
        scan-Moves IsWord s l source size target segment_index c.timed hl fits shared private in
      moved moves
        (scan-IsTimed IsWord s l source size target segment_index c.timed hl fits shared private)
        (All-fill _ before (after_scan source size target segment_index l s) after
          (All-Moves IsWord before moves hb)
          (scan-IsFixed IsWord s l source size target segment_index c.timed hl fits shared private
            ok)
          (All-Moves IsWord after moves ha))
        c.layout
  Step-IsConsistent
        (stops {s} before l after mode source size target segment_index shared private failed) small
        c =
      let (hb, hl, ha) = All-middle (IsFixed IsWord s) before l after c.fixed in
      let fits : s.global_clock < 2 ^ 30 = omega (arith, small) in
      let moves =
        scan-Moves IsWord s l source size target segment_index c.timed hl fits shared private in
      moved moves
        (scan-IsTimed IsWord s l source size target segment_index c.timed hl fits shared private)
        (All-append _ before after (All-Moves IsWord before moves hb)
          (All-Moves IsWord after moves ha))
        c.layout
  Step-IsConsistent (leaves {s} before l after mode) small c =
      let (hb, hl, ha) = All-middle (IsFixed IsWord s) before l after c.fixed in
      (
        record { layout = c.layout; timed = c.timed; fixed = All-append _ before after hb ha },
        omega arith,
      )
  Step-IsConsistent (writes {s} before l after source size target segment_index shared) small c =
      let (hb, hl, ha) = All-middle (IsFixed IsWord s) before l after c.fixed in
      (
        record {
          layout = c.layout;
          timed = c.timed;
          fixed =
              All-fill (IsFixed IsWord s) before _ after hb
                (write-IsFixed s l source size target segment_index c.layout.positive shared hl) ha;
        },
        omega arith,
      )
  Step-IsConsistent (ends {s} before l after mode) small c =
      let (hb, hl, ha) = All-middle (IsFixed IsWord s) before l after c.fixed in
      let (moves, timed) = end_wr-Moves IsWord l s c.layout c.timed hl small in
      moved moves timed
        (All-append _ before after (All-Moves IsWord before moves hb)
          (All-Moves IsWord after moves ha))
        c.layout
  Step-IsConsistent (computes {s} {running} {m} same) small c =
      let s' : Store = record s { memory = m } in
      let moves = still-Moves IsWord s s' refl refl same in
      moved moves (still-IsTimed IsWord s s' refl refl c.timed)
        (All-Moves IsWord running moves c.fixed) c.layout

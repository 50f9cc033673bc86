-- ===== src/Reference/Lifecycle.antt =====
-- A region from tm_create to tm_destroy.
use concurrent_project.Prelude.{
  ◌⊎◌, ℕ, suc, ◌≡◌, ◌≢◌, refl, ◌∙◌, Option, none, some, List, [], arith, ◌==◌, Bool-cases, inl, inr,
  length,
}
use concurrent_project.Heap.{update, memset}
use concurrent_project.SharedMutex.{unheld}
use concurrent_project.Reference.{Store, tm_create, tm_destroy, plain, allocate, release}
use concurrent_project.Reference.Lock.{shared_lock_init}
use concurrent_project.Reference.Chain.{Blocks}
use concurrent_project.Reference.Runs.{State, Call, run, replay, AllAllowed}
use concurrent_project.Reference.Refine.{Holds}
use concurrent_project.Reference.Refinement.{run_refines}
use concurrent_project.Reference.Destroy.{freed, free_allocs-freed, freed-at}

-- When one of the three steps of tm_create fails there is no region, and every block that it had
-- allocated is free again: the blocks are those of before. `malloc`, `memalign` and `init_code` are the
-- results of the three calls, whose addresses were free.
pub tm_create_fails :
    (malloc memalign : Option ℕ) (init_code size align : ℕ) (s : Store)
    → ((p : ℕ) → malloc ≡ some p → s.blocks p ≡ none)
    → ((p : ℕ) → memalign ≡ some p → s.blocks p ≡ none)
    → (malloc ≡ none) ⊎ (memalign ≡ none) ⊎ (init_code ≢ 0)
    → ((tm_create malloc memalign init_code size align s).0 ≡ none)
      × ((a : ℕ) → (tm_create malloc memalign init_code size align s).1.blocks a ≡ s.blocks a)
      × ((tm_create malloc memalign init_code size align s).1.memory ≡ s.memory)
unfolding tm_create shared_lock_init
tm_create_fails none memalign init_code size align s fresh fresh' fails = (refl, λ a. refl, refl)
tm_create_fails (some region) none init_code size align s fresh fresh' fails =
    (refl, λ a. ground (arith, fresh region refl), refl)
tm_create_fails (some region) (some start) init_code size align s fresh fresh' fails =
    elim (Bool-cases (init_code == 0)) [
      | inl done ↦ absurd (ground (arith, done, fails))
      | inr refused ↦
          rw (refused, tm_create, shared_lock_init)
            (refl, λ a. ground (arith, fresh region refl, fresh' start refl), refl)
    ]

-- tm_destroy frees the segments, the start and the region.
destroy-Holds :
    (base : Blocks) (shared : ℕ) (st : State) (xs : List ℕ)
    → Holds base st xs
    → (s' : Store) × (tm_destroy (suc (length xs)) shared st.region st.store ≡ some s')
      × ((a : ℕ) → s'.blocks a ≡ update (update base st.region.start none) shared none a)
unfolding tm_destroy
destroy-Holds base shared st xs h = (
  release shared
      (release st.region.start (record (st.store) { blocks = freed xs st.store.blocks })),
  rw
      (
        h.list.head,
        free_allocs-freed (suc (length xs)) 0 xs st.store (omega arith) h.list.chain
            h.list.distinct,
        tm_destroy,
      )
      refl,
  λ a. ground (arith, freed-at xs st.store.blocks base h.outside h.unused a),
)

module _ (region start size align : ℕ) (s : Store) where
  -- The state after a tm_create that has gone well.
  abbrev pub created : State
  created = record {
    region = record { lock = unheld; start = start; allocs = 0; size = size; align = align };
    store = record {
      blocks = (allocate start plain (allocate region plain s)).blocks;
      memory = memset s.memory start 0 size;
    };
    readers = 0;
    writers = 0;
  }

  pub create-created :
      tm_create (some region) (some start) 0 size align s
      ≡ (some (region, created.region), created.store)
  unfolding tm_create shared_lock_init
  create-created = refl

  pub created-Holds : Holds created.store.blocks created []
  created-Holds = record {
    list = record { head = refl; chain = tt; distinct = tt; small = tt };
    isolated = record { writing = refl; reading = refl; apart = inl refl };
    outside = λ a out. refl;
    unused = tt;
  }

  -- A region is created in two blocks that were free, used by any allowed calls, and destroyed. Then
  -- none of the calls is a fault; the fuel of one round for each segment that is left, and one more, is
  -- enough for tm_destroy to end without a fault; and the blocks are those of before: nothing leaks.
  pub lifecycle :
      (calls : List Call)
      → s.blocks region ≡ none
      → s.blocks start ≡ none
      → AllAllowed calls created []
      → (st' : State) × (s' : Store) × (run calls created ≡ some st')
        × (tm_destroy (suc (length (replay align calls []))) region st'.region st'.store ≡ some s')
        × ((a : ℕ) → s'.blocks a ≡ s.blocks a)
  lifecycle calls fresh fresh' allowed =
      let (st', e, h, kept) =
        run_refines created.store.blocks calls created [] created-Holds allowed in
      let (s', destroyed, blocks) = destroy-Holds created.store.blocks region st' _ h in
      (st', s', e, destroyed, λ a. blocks a ∙ rw kept (restored a))
    where
      restored :
          (a : ℕ) → update (update created.store.blocks start none) region none a ≡ s.blocks a
      restored a = ground (arith, fresh, fresh')

-- ===== src/Api/Runs.antt =====
-- 358982/tm.cpp: what any sequence of calls leaves behind.
-- A step is one whole call of one of the running transactions, or the begin or the end of one.
use concurrent_project.Prelude.{
  length-append, ℕ, ◌+◌, ◌-◌, ◌≡◌, ◌≢◌, refl, Bool, true, false, Option, List, [], ◌∷◌, ◌++◌,
  length, arith, if◌then◌else◌, ◌∙◌,
}
use concurrent_project.SharedMutex.{SharedMutex}
use concurrent_project.SharedMutex
use concurrent_project.MemorySegment.{MemorySegment}
use concurrent_project.MemorySegment
use concurrent_project.Region.{
  get_pointer_top_digits, create_transparent_data_pointer, Store, free_marked_segments_if_time,
  realloc_segments,
}
use concurrent_project.Transaction.Types.{Transaction, clean_up}
use concurrent_project.Api.{
  returns, Alloc, tm_begin, tm_end, tm_read, tm_write, tm_alloc, tm_free, alloc_segment,
}
use concurrent_project.Api.Kept.{Kept, read-Kept, end-Kept}

-- The region, and the transactions that have begun and not ended.
pub record System : Type 0 where
  pub store : Store
  pub running : List Transaction

-- The calls. A failed read ends its transaction.
pub data Step : System → System → Type 0 where
  begins :
      {s t : Store}
      → {running : List Transaction} → (is_ro : Bool) → (tx : Transaction)
      → tm_begin is_ro s ≡ returns (tx, t)
      → Step
          (record { store = s; running = running })
          (record { store = t; running = tx ∷ running })
  ends :
      {s : Store}
      → (before : List Transaction) → (tx : Transaction) → (after : List Transaction)
      → Step
          (record { store = s; running = before ++ tx ∷ after })
          (record { store = (tm_end tx s).1; running = before ++ after })
  reads :
      {s t : Store}
      → (before : List Transaction) → (tx tx' : Transaction) → (after : List Transaction)
      → (source size target : ℕ) → tm_read source size target tx s ≡ (true, tx', t)
      → Step
          (record { store = s; running = before ++ tx ∷ after })
          (record { store = t; running = before ++ tx' ∷ after })
  fails :
      {s t : Store}
      → (before : List Transaction) → (tx tx' : Transaction) → (after : List Transaction)
      → (source size target : ℕ) → tm_read source size target tx s ≡ (false, tx', t)
      → Step
          (record { store = s; running = before ++ tx ∷ after })
          (record { store = t; running = before ++ after })
  writes :
      {s : Store}
      → (before : List Transaction) → (tx : Transaction) → (after : List Transaction)
      → (source size target : ℕ)
      → Step
          (record { store = s; running = before ++ tx ∷ after })
          (record { store = s; running = before ++ (tm_write source size target tx s).1 ∷ after })
  allocates :
      {s t : Store}
      → {running : List Transaction} → (block : Option ℕ) → (lock_array : ℕ)
      → (junk_segments : ℕ → MemorySegment) → (junk_status : ℕ → ℕ) → (size opaque : ℕ)
      → (alloc : Alloc)
      → tm_alloc block lock_array junk_segments junk_status size s ≡ returns (alloc, opaque, t)
      → Step (record { store = s; running = running }) (record { store = t; running = running })
  frees :
      {s : Store}
      → {running : List Transaction} → (target : ℕ)
      → Step
          (record { store = s; running = running })
          (record { store = (tm_free target s).1; running = running })

-- Between calls the freeing lock is held once, shared, for each running transaction.
pub record IsCounted (sys : System) : Type 0 where
  pub shared : sys.store.freeing_lock.exclusive ≡ false
  pub count : sys.store.freeing_lock.readers ≡ length sys.running

begin-lock :
    (is_ro : Bool) (s t : Store) (tx : Transaction)
    → tm_begin is_ro s ≡ returns (tx, t)
    → s.freeing_lock.exclusive ≡ false
    → (t.freeing_lock.exclusive ≡ false) × (t.freeing_lock.readers ≡ s.freeing_lock.readers + 1)
unfolding tm_begin free_marked_segments_if_time SharedMutex.try_lock SharedMutex.try_lock_shared
    SharedMutex.unlock
begin-lock is_ro s t tx e shared = ground arith

read-lock :
    (source size target : ℕ) (tx tx' : Transaction) (s t : Store) (ok : Bool)
    → tm_read source size target tx s ≡ (ok, tx', t)
    → (t.freed_segments ≡ s.freed_segments)
      × (t.freeing_lock.exclusive ≡ s.freeing_lock.exclusive)
      × (t.freeing_lock.readers
          ≡ (if ok then s.freeing_lock.readers else s.freeing_lock.readers - 1))
unfolding tm_read clean_up SharedMutex.unlock_shared
read-lock source size target tx tx' s t ok e =
    let p = create_transparent_data_pointer s.tm source in
    let k = read-Kept p size target (get_pointer_top_digits source) tx s in
    ground (arith, k.freeing, k.blocks)

end-lock :
    (tx : Transaction) (s : Store)
    → ((tm_end tx s).1.freed_segments ≡ s.freed_segments)
      × ((tm_end tx s).1.freeing_lock.exclusive ≡ s.freeing_lock.exclusive)
      × ((tm_end tx s).1.freeing_lock.readers ≡ s.freeing_lock.readers - 1)
unfolding tm_end clean_up SharedMutex.unlock_shared
end-lock tx s = let k = end-Kept tx s in ground (arith, k.freeing, k.blocks)

alloc-Kept :
    (block : Option ℕ) (lock_array : ℕ) (junk_segments : ℕ → MemorySegment) (junk_status : ℕ → ℕ)
    (size opaque : ℕ) (s t : Store) (alloc : Alloc)
    → tm_alloc block lock_array junk_segments junk_status size s ≡ returns (alloc, opaque, t)
    → Kept s t
unfolding tm_alloc alloc_segment realloc_segments MemorySegment.create
alloc-Kept block lock_array junk_segments junk_status size opaque s t alloc e = record {
  freeing = ground arith;
  blocks = ground arith;
}

-- Every call keeps the count.
pub Step-IsCounted : {sys sys' : System} → Step sys sys' → IsCounted sys → IsCounted sys'
unfolding tm_free
Step-IsCounted (begins {s} {t} is_ro tx e) c =
    let b = begin-lock is_ro s t tx e c.shared in
    record { shared = b.0; count = omega (arith, b.1, c.count) }
Step-IsCounted (ends {s} before tx after) c =
    let b = end-lock tx s in
    record {
      shared = b.1 ∙ c.shared;
      count =
          omega
            (arith, b.2, c.count, length-append before (tx ∷ after), length-append before after);
    }
Step-IsCounted (reads {s} {t} before tx tx' after source size target e) c =
    let b = read-lock source size target tx tx' s t true e in
    record {
      shared = b.1 ∙ c.shared;
      count = omega (
        arith,
        b.2,
        c.count,
        length-append before (tx ∷ after),
        length-append before (tx' ∷ after),
      );
    }
Step-IsCounted (fails {s} {t} before tx tx' after source size target e) c =
    let b = read-lock source size target tx tx' s t false e in
    record {
      shared = b.1 ∙ c.shared;
      count =
          omega
            (arith, b.2, c.count, length-append before (tx ∷ after), length-append before after);
    }
Step-IsCounted (writes {s} before tx after source size target) c = record {
  shared = c.shared;
  count = omega (
    arith,
    c.count,
    length-append before (tx ∷ after),
    length-append before ((tm_write source size target tx s).1 ∷ after),
  );
}
Step-IsCounted (allocates {s} {t} block lock_array junk_segments junk_status size opaque alloc e)
      c =
    let k = alloc-Kept block lock_array junk_segments junk_status size opaque s t alloc e in
    record {
      shared = ground (arith, k.freeing, c.shared);
      count = ground (arith, k.freeing, c.count);
    }
Step-IsCounted (frees target) c = record { shared = c.shared; count = c.count }

-- Any number of calls.
pub data Steps : System → System → Type 0 where
  done : {sys : System} → Steps sys sys
  more : {start sys sys' : System} → Steps start sys → Step sys sys' → Steps start sys'

Steps-IsCounted : {start sys : System} → Steps start sys → IsCounted start → IsCounted sys
Steps-IsCounted done c = c
Steps-IsCounted (more steps step) c = Step-IsCounted step (Steps-IsCounted steps c)

length-zero {ℓ} : {A : Type ℓ} → (xs : List A) → length xs ≡ 0 → xs ≡ []
length-zero [] h = refl
length-zero (x ∷ xs) h = absurd (omega arith)

begin-freed_segments :
    (is_ro : Bool) (s t : Store) (tx : Transaction)
    → tm_begin is_ro s ≡ returns (tx, t)
    → t.freed_segments ≢ s.freed_segments
    → s.freeing_lock.readers ≡ 0
unfolding tm_begin free_marked_segments_if_time SharedMutex.try_lock
begin-freed_segments is_ro s t tx e changed = ground arith

Step-freed_segments :
    {sys sys' : System}
    → Step sys sys'
    → sys'.store.freed_segments ≢ sys.store.freed_segments
    → sys.store.freeing_lock.readers ≡ 0
unfolding tm_free
Step-freed_segments (begins {s} {t} is_ro tx e) changed =
    begin-freed_segments is_ro s t tx e changed
Step-freed_segments (ends {s} before tx after) changed = absurd (changed (end-lock tx s).0)
Step-freed_segments (reads {s} {t} before tx tx' after source size target e) changed =
    absurd (changed (read-lock source size target tx tx' s t true e).0)
Step-freed_segments (fails {s} {t} before tx tx' after source size target e) changed =
    absurd (changed (read-lock source size target tx tx' s t false e).0)
Step-freed_segments (writes before tx after source size target) changed = absurd (changed refl)
Step-freed_segments
      (allocates {s} {t} block lock_array junk_segments junk_status size opaque alloc e) changed =
    absurd (
      changed
        (alloc-Kept block lock_array junk_segments junk_status size opaque s t alloc e).blocks)
Step-freed_segments (frees target) changed = absurd (changed refl)

-- From a state in which the freeing lock is held only shared, once for each running transaction, and
-- after any calls but `tm_destroy`: a further such call that gives the words or the locks of a segment back to
-- the allocator is made when no transaction is running.
pub Steps-freed_segments :
    {start sys sys' : System}
    → IsCounted start
    → Steps start sys
    → Step sys sys'
    → sys'.store.freed_segments ≢ sys.store.freed_segments
    → sys.running ≡ []
Steps-freed_segments {sys = sys} counted steps step changed =
    let c = Steps-IsCounted steps counted in
    length-zero sys.running (omega (arith, c.count, Step-freed_segments step changed))

-- ===== src/Transaction/Locking/Acquire.antt =====
-- What `lock_write_set` and `unlock_write_set` do to each lock.
use concurrent_project.VersionedLock.Cycle.{unlock-try_lock}
use concurrent_project.Prelude.{
  ℕ, ◌^◌, ◌<◌, ◌≡◌, refl, ◌⊎◌, inl, inr, Bool, true, false, not, ◌&&◌, ◌||◌, List, [], ◌∷◌, arith,
  ◌==◌, if◌then◌else◌, Bool-cases,
}
use concurrent_project.VersionedLock.{get_version_locked}
use concurrent_project.VersionedLock
use concurrent_project.Region.{TransactionalMemory}
use concurrent_project.Transaction.Types.{Write, contains, insert, erase}
use concurrent_project.Transaction.Locking.{
  Held, write_lock, release, acquire, unlock_write_set, lock_writes,
}

-- The lock guards a word that one of the writes goes to.
abbrev pub guards : TransactionalMemory → ℕ → List Write → Bool
guards tm l [] = false
guards tm l (w ∷ ws) = (write_lock tm w == l) || guards tm l ws

contains-insert : (a l : ℕ) (xs : List ℕ) → contains l (insert a xs) ≡ ((l == a) || contains l xs)
contains-insert a l xs = ground arith

contains-erase : (a l : ℕ) (xs : List ℕ) → contains l (erase a xs) ≡ (not (l == a) && contains l xs)
contains-erase a l [] = ground arith
contains-erase a l (x ∷ xs) = ground (arith, contains-erase a l xs)

-- `unlock_write_set` unlocks exactly the locks that are held and guard a write, leaves every other as it
-- is, and holds exactly those that were held and guard no write.
pub unlock_write_set_lem :
    (tm : TransactionalMemory) (ws : List Write) (h : Held) (l : ℕ)
    → ((unlock_write_set tm ws h).locks l ≡ (
        if contains l h.locked_set && guards tm l ws
        then VersionedLock.unlock (h.locks l)
        else h.locks l))
      × (contains l (unlock_write_set tm ws h).locked_set
          ≡ (contains l h.locked_set && not (guards tm l ws)))
unfolding unlock_write_set
unlock_write_set_lem tm [] h l = ground arith
unlock_write_set_lem tm (w ∷ ws) h l = ground (
  arith,
  unlock_write_set_lem tm ws h l,
  unlock_write_set_lem tm ws (release (write_lock tm w) h) l,
  contains-erase (write_lock tm w) l h.locked_set,
)

-- The words of the locks are 32-bit patterns.
abbrev pub AreWords : (ℕ → ℕ) → Type 0
AreWords locks = (l : ℕ) → locks l < 2 ^ 32

-- The locks that are held guard writes, and were free; the others are as they were in `base`.
pub record Holds (tm : TransactionalMemory) (all : List Write) (base : ℕ → ℕ) (h : Held)
    : Type 0 where
  pub held :
      (l : ℕ)
      → contains l h.locked_set ≡ true
      → ((VersionedLock.try_lock (base l) (base l)).1 ≡ true)
        × (h.locks l ≡ (VersionedLock.try_lock (base l) (base l)).0)
        × (guards tm l all ≡ true)
  pub other : (l : ℕ) → contains l h.locked_set ≡ false → h.locks l ≡ base l

-- One more lock is taken.
acquire-Holds :
    (tm : TransactionalMemory) (all : List Write) (base : ℕ → ℕ) (h : Held) (l : ℕ)
    → guards tm l all ≡ true
    → contains l h.locked_set ≡ false
    → (VersionedLock.try_lock (h.locks l) (h.locks l)).1 ≡ true
    → Holds tm all base h
    → Holds tm all base (acquire l h)
acquire-Holds tm all base h l guarded new free inv = record {
  held =
      λ k m. ground (arith, inv.held k, inv.other k, inv.other l, contains-insert l k h.locked_set);
  other = λ k m. ground (arith, inv.other k, contains-insert l k h.locked_set);
}

-- Every held lock is given back as it was in `base`.
unlock_write_set-Holds :
    (tm : TransactionalMemory) (all : List Write) (base : ℕ → ℕ) (h : Held)
    → AreWords base
    → Holds tm all base h
    → (l : ℕ)
    → ((unlock_write_set tm all h).locks l ≡ base l)
      × (contains l (unlock_write_set tm all h).locked_set ≡ false)
unlock_write_set-Holds tm all base h words inv l = ground (
  arith,
  unlock_write_set_lem tm all h l,
  inv.held l,
  inv.other l,
  unlock-try_lock (base l) (words l),
)

-- The loop of `lock_write_set` began at `h`, with the writes `left` to do. Either it has locked all
-- that guard them, or one of these was not free and every lock is as it was in `base`.
abbrev pub Locks :
    (tm : TransactionalMemory) (all left : List Write) (base : ℕ → ℕ) (h : Held)
    → Bool × Held
    → Type 0
Locks tm all left base h (ok, h') =
    ((ok ≡ true)
      × Holds tm all base h'
      × ((l : ℕ) → contains l h'.locked_set ≡ (contains l h.locked_set || guards tm l left)))
    ⊎ ((ok ≡ false)
        × ((l : ℕ) → (h'.locks l ≡ base l) × (contains l h'.locked_set ≡ false))
        × ((l : ℕ) × (guards tm l left ≡ true)
            × ((VersionedLock.try_lock (base l) (base l)).1 ≡ false)))

Locks-cons :
    (tm : TransactionalMemory) (all : List Write) (w : Write) (ws : List Write) (base : ℕ → ℕ)
    (h h1 : Held) (r : Bool × Held)
    → ((l : ℕ) → contains l h1.locked_set ≡ (contains l h.locked_set || write_lock tm w == l))
    → Locks tm all ws base h1 r
    → Locks tm all (w ∷ ws) base h r
Locks-cons tm all w ws base h h1 r grown (inl (done, inv, set)) =
    inl (done, inv, λ l. ground (arith, set l, grown l))
Locks-cons tm all w ws base h h1 r grown (inr (failed, restored, (l, guarded, taken))) =
    inr (failed, restored, (l, ground arith, taken))

lock_writes-cons_free :
    (tm : TransactionalMemory) (all : List Write) (w : Write) (ws : List Write) (h : Held)
    → contains (write_lock tm w) h.locked_set ≡ false
    → (VersionedLock.try_lock (h.locks (write_lock tm w)) (h.locks (write_lock tm w))).1 ≡ true
    → lock_writes tm all (w ∷ ws) h ≡ lock_writes tm all ws (acquire (write_lock tm w) h)
unfolding lock_writes
lock_writes-cons_free tm all w ws h new free = ground arith

pub lock_writes-Locks :
    (tm : TransactionalMemory) (all left : List Write) (base : ℕ → ℕ) (h : Held)
    → AreWords base
    → ((l : ℕ) → guards tm l left ≡ true → guards tm l all ≡ true)
    → Holds tm all base h
    → Locks tm all left base h (lock_writes tm all left h)
unfolding lock_writes
lock_writes-Locks tm all [] base h words sub inv = inl (refl, inv, λ l. ground arith)
lock_writes-Locks tm all (w ∷ ws) base h words sub inv =
    elim (Bool-cases (contains (write_lock tm w) h.locked_set)) [
      | inl old ↦
          rw (old, lock_writes)
            (Locks-cons tm all w ws base h h _ (λ l. ground arith)
              (lock_writes-Locks tm all ws base h words (λ l g. sub l (ground arith)) inv))
      | inr new ↦
          elim (Bool-cases
            (VersionedLock.try_lock (h.locks (write_lock tm w)) (h.locks (write_lock tm w))).1) [
              | inl free ↦ rw (lock_writes-cons_free tm all w ws h new free) (
                  Locks-cons tm all w ws base h (acquire (write_lock tm w) h) _
                    (λ l. ground (arith, contains-insert (write_lock tm w) l h.locked_set))
                    (lock_writes-Locks tm all ws base (acquire (write_lock tm w) h) words
                      (λ l g. sub l (ground arith))
                      (acquire-Holds tm all base h (write_lock tm w) (sub _ (ground arith)) new free
                        inv)))
              | inr taken ↦
                  rw (new, taken, lock_writes)
                    (inr (
                      refl,
                      unlock_write_set-Holds tm all base h words inv,
                      (write_lock tm w, ground arith, ground (arith, inv.other (write_lock tm w))),
                    ))
            ]
    ]

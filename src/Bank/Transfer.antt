-- ===== src/Bank/Transfer.antt =====
-- `short_tx` finds the accounts with the two numbers, and neither makes nor destroys money.
use concurrent_project.Prelude.{
  ℕ, zero, suc, ◌+◌, ◌-◌, ◌%◌, ◌^◌, ◌≤◌, ◌<◌, ◌≡◌, refl, inl, inr, Bool, true, false, not, ◌&&◌,
  ◌⊎◌, Option, none, some, List, [], ◌∷◌, arith, ltb, ◌==◌, if◌then◌else◌, Bool-cases, ◌∙◌, ap,
}
use concurrent_project.Heap.{update}
use concurrent_project.Bank.{
  AccountSegment, Cursor, at, passing, advance, find_accounts, read_balance, write_balance,
  transfer, short_tx, is_negative,
}
use concurrent_project.Bank.Totals.{money, population, total, money-update_outside}

-- The account is allocated.
abbrev pub IsAccount : List AccountSegment → (index account : ℕ) → Type 0
IsAccount [] index account = ⊥
IsAccount (segment ∷ rest) zero account = account < segment.count
IsAccount (segment ∷ rest) (suc index) account = IsAccount rest index account

-- Its number, the accounts being counted through from the start segment on.
abbrev pub number : List AccountSegment → (index account : ℕ) → ℕ
number [] index account = account
number (segment ∷ rest) zero account = account
number (segment ∷ rest) (suc index) account = segment.count + number rest index account

-- The search for one account, in segments of which the first has the index `index`.
abbrev locate : List AccountSegment → (index id : ℕ) → Option (ℕ × ℕ)
locate [] index id = none
locate (segment ∷ rest) index id =
    let further = locate rest (index + 1) (id - segment.count) in
    if ltb id segment.count then some (index, id) else further

abbrev resolve : List AccountSegment → (index : ℕ) → Cursor → Option (ℕ × ℕ)
resolve segments index (at i a) = some (i, a)
resolve segments index (passing id) = locate segments index id

abbrev both : Option (ℕ × ℕ) → Option (ℕ × ℕ) → Option ((ℕ × ℕ) × (ℕ × ℕ))
both none q = none
both (some p) none = none
both (some p) (some q) = some (p, q)

abbrev is_at : Cursor → Bool
is_at (at i a) = true
is_at (passing id) = false

resolve-advance :
    (segment : AccountSegment) (rest : List AccountSegment) (index : ℕ) (c : Cursor)
    → resolve (segment ∷ rest) index c ≡ resolve rest (index + 1) (advance index segment.count c)
resolve-advance segment rest index (at i a) = refl
resolve-advance segment rest index (passing id) = ground arith

both-none : (p : Option (ℕ × ℕ)) → none ≡ both p none
both-none none = refl
both-none (some p) = refl

-- The two searches of `short_tx` are two searches for one account.
find_accounts-eq-both :
    (segments : List AccountSegment) (index : ℕ) (send recv : Cursor)
    → (is_at send && is_at recv) ≡ false
    → find_accounts segments index send recv
      ≡ both (resolve segments index send) (resolve segments index recv)
unfolding find_accounts
find_accounts-eq-both [] index (passing id) recv h = refl
find_accounts-eq-both [] index (at i a) (passing id) h = refl
find_accounts-eq-both [] index (at i a) (at j b) h = cc
find_accounts-eq-both (segment ∷ rest) index send recv h =
    rw (resolve-advance segment rest index send, resolve-advance segment rest index recv)
      (step (advance index segment.count send) (advance index segment.count recv) _
        (find_accounts-eq-both rest (index + 1) _ _))
  where
    step :
        (send' recv' : Cursor) (further : Option ((ℕ × ℕ) × (ℕ × ℕ)))
        → ((is_at send' && is_at recv') ≡ false
            → further ≡ both (resolve rest (index + 1) send') (resolve rest (index + 1) recv'))
        → elim send' [
          | passing id ↦ further
          | at i a ↦ elim recv' [ passing id ↦ further | at j b ↦ some ((i, a), (j, b)) ]
        ]
          ≡ both (resolve rest (index + 1) send') (resolve rest (index + 1) recv')
    step (passing id) recv' further h = h refl
    step (at i a) (passing id) further h = h refl
    step (at i a) (at j b) further h = refl

-- A search finds the account with the number, or there is none.
locate-IsAccount :
    (segments : List AccountSegment) (index id : ℕ)
    → ((population segments ≤ id) × (locate segments index id ≡ none))
      ⊎ ((id < population segments)
          × ((i : ℕ) × (a : ℕ) × (locate segments index id ≡ some (index + i, a))
              × IsAccount segments i a
              × (number segments i a ≡ id)))
locate-IsAccount [] index id = inl (omega arith, refl)
locate-IsAccount (segment ∷ rest) index id = elim (Bool-cases (ltb id segment.count)) [
  | inl here ↦ inr (ground arith, (0, id, ground arith, ground arith, refl))
  | inr beyond ↦ elim (locate-IsAccount rest (index + 1) (id - segment.count)) [
    | inl (few, e) ↦ inl (ground arith, ground arith)
    | inr (enough, (i, a, e, account, n)) ↦
        inr (ground arith, (suc i, a, ground arith, account, ground arith))
  ]
]

money-update_inside :
    (n i : ℕ) (accounts : ℕ → ℕ) (j v : ℕ)
    → i ≤ j
    → j < i + n
    → money n i (update accounts j v) + accounts j ≡ money n i accounts + v
money-update_inside zero i accounts j v lo hi = absurd (omega arith)
money-update_inside (suc n) i accounts j v lo hi =
    ground (
      arith,
      money-update_inside n (i + 1) accounts j v,
      money-update_outside n (i + 1) accounts j v,
    )

total-write_balance :
    (segments : List AccountSegment) (i a v : ℕ)
    → IsAccount segments i a
    → total (write_balance segments i a v) + read_balance segments i a ≡ total segments + v
unfolding write_balance read_balance
total-write_balance [] i a v h = elim h [ ]
total-write_balance (segment ∷ rest) zero a v h = omega (
  arith,
  money-update_inside segment.count 0 segment.accounts a v (omega arith) (omega (arith, h)),
)
total-write_balance (segment ∷ rest) (suc i) a v h = omega (arith, total-write_balance rest i a v h)

population-write_balance :
    (segments : List AccountSegment) (i a v : ℕ)
    → population (write_balance segments i a v) ≡ population segments
unfolding write_balance
population-write_balance [] i a v = refl
population-write_balance (segment ∷ rest) zero a v = refl
population-write_balance (segment ∷ rest) (suc i) a v =
    ap (λ n. segment.count + n) (population-write_balance rest i a v)

write_balance-IsAccount :
    (segments : List AccountSegment) (i a v j b : ℕ)
    → IsAccount segments j b
    → IsAccount (write_balance segments i a v) j b
unfolding write_balance
write_balance-IsAccount [] i a v j b h = elim h [ ]
write_balance-IsAccount (segment ∷ rest) zero a v zero b h = h
write_balance-IsAccount (segment ∷ rest) zero a v (suc j) b h = h
write_balance-IsAccount (segment ∷ rest) (suc i) a v zero b h = h
write_balance-IsAccount (segment ∷ rest) (suc i) a v (suc j) b h =
    write_balance-IsAccount rest i a v j b h

transfer-total :
    (segments : List AccountSegment) (i a j b : ℕ)
    → IsAccount segments i a
    → IsAccount segments j b
    → (total (transfer segments ((i, a), (j, b))) % 2 ^ 64 ≡ total segments % 2 ^ 64)
      × (population (transfer segments ((i, a), (j, b))) ≡ population segments)
unfolding transfer
transfer-total segments i a j b ha hb =
    let send_val = read_balance segments i a in
    let less = (send_val + 2 ^ 64 - 1) % 2 ^ 64 in
    let sent = write_balance segments i a less in
    let more = (read_balance sent j b + 1) % 2 ^ 64 in
    elim (Bool-cases (ltb 0 send_val && not (is_negative send_val))) [
      | inr none_left ↦ rw (none_left, transfer) (refl, refl)
      | inl funds ↦
          rw (funds, transfer)
            (
              omega (
                arith,
                total-write_balance segments i a less ha,
                total-write_balance sent j b more
                    (write_balance-IsAccount segments i a less j b hb),
              ),
              population-write_balance sent j b more ∙ population-write_balance segments i a less,
            )
    ]

-- The balance of the account `c` of the segment `k` after one is written.
read_balance-write_balance :
    (segments : List AccountSegment) (i a v k c : ℕ)
    → IsAccount segments i a
    → read_balance (write_balance segments i a v) k c
      ≡ (if k == i && c == a then v else read_balance segments k c)
unfolding write_balance read_balance
read_balance-write_balance [] i a v k c h = elim h [ ]
read_balance-write_balance (segment ∷ rest) zero a v zero c h = ground arith
read_balance-write_balance (segment ∷ rest) zero a v (suc k) c h = ground arith
read_balance-write_balance (segment ∷ rest) (suc i) a v zero c h = ground arith
read_balance-write_balance (segment ∷ rest) (suc i) a v (suc k) c h =
    read_balance-write_balance rest i a v k c h ∙ ground arith

-- One unit has gone from the account (i, a) to the account (j, b), if the balance of the first is positive;
-- else nothing has changed. A payment to oneself changes no balance.
abbrev pub Pays : (i a j b : ℕ) → (segments segments' : List AccountSegment) → Type 0
Pays i a j b segments segments' =
    let funds = read_balance segments i a in
    (((funds ≡ 0) ⊎ (2 ^ 63 ≤ funds)) × (segments' ≡ segments))
    ⊎ ((0 < funds)
        × (funds < 2 ^ 63)
        × ((k c : ℕ)
            → read_balance segments' k c ≡ (
                if k == i && c == a
                then (if k == j && c == b then funds else funds - 1)
                else (if k == j && c == b
                    then (read_balance segments k c + 1) % 2 ^ 64
                    else read_balance segments k c))))

transfer-Pays :
    (segments : List AccountSegment) (i a j b : ℕ)
    → IsAccount segments i a
    → IsAccount segments j b
    → Pays i a j b segments (transfer segments ((i, a), (j, b)))
unfolding transfer
transfer-Pays segments i a j b ha hb =
    let funds = read_balance segments i a in
    let less = (funds + 2 ^ 64 - 1) % 2 ^ 64 in
    let sent = write_balance segments i a less in
    let more = (read_balance sent j b + 1) % 2 ^ 64 in
    elim (Bool-cases (ltb 0 funds && not (is_negative funds))) [
      | inr none_left ↦ rw (none_left, transfer) (inl (ground (arith, none_left), refl))
      | inl enough ↦
          let low : 0 < funds = ground (arith, enough) in
          let high : funds < 2 ^ 63 = ground (arith, enough) in
          rw (enough, transfer)
            (inr (
              low,
              high,
              λ k c. ground (
                arith,
                read_balance-write_balance sent j b more k c
                    (write_balance-IsAccount segments i a less j b hb),
                read_balance-write_balance segments i a less k c ha,
                read_balance-write_balance segments i a less j b ha,
                low,
                high,
              ),
            ))
    ]

-- What a short transaction comes to: one of the accounts does not exist, and nothing has changed; or
-- both do, and one unit has gone from the account with the one number to that with the other, if the
-- balance of the first is positive, which leaves the total in 64 bits and the number of accounts.
abbrev pub Transfers :
    List AccountSegment → (send_id recv_id : ℕ) → Bool × List AccountSegment → Type 0
Transfers segments send_id recv_id (ok, segments') =
    ((ok ≡ false)
      × ((population segments ≤ send_id) ⊎ (population segments ≤ recv_id))
      × (segments' ≡ segments))
    ⊎ ((ok ≡ true)
        × ((i : ℕ) × (a : ℕ) × (j : ℕ) × (b : ℕ) × IsAccount segments i a
            × (number segments i a ≡ send_id)
            × IsAccount segments j b
            × (number segments j b ≡ recv_id)
            × Pays i a j b segments segments')
        × (total segments' % 2 ^ 64 ≡ total segments % 2 ^ 64)
        × (population segments' ≡ population segments))

-- A short transaction does nothing, and says so, exactly when one of its accounts does not exist; else
-- if the balance of the first account is positive as a signed number, one unit goes from it to the second and no other
-- balance changes, and if not, or if the two are one account, no balance changes. Neither the total of the
-- money in 64 bits nor the number of accounts changes.
pub short_tx-Transfers :
    (segments : List AccountSegment) (send_id recv_id : ℕ)
    → Transfers segments send_id recv_id (short_tx segments send_id recv_id)
unfolding short_tx
short_tx-Transfers segments send_id recv_id =
    let found = find_accounts-eq-both segments 0 (passing send_id) (passing recv_id) refl in
    elim (locate-IsAccount segments 0 send_id) [
      | inl (few, e) ↦ rw (found, e, short_tx) (inl (refl, inl few, refl))
      | inr (enough, (i, a, e, ha, na)) ↦ elim (locate-IsAccount segments 0 recv_id) [
        | inl (few, e') ↦ rw (found, e, e', short_tx) (inl (refl, inr few, refl))
        | inr (enough', (j, b, e', hb, nb)) ↦
            let kept = transfer-total segments i a j b ha hb in
            let first : 0 + i ≡ i = omega arith in
            let second : 0 + j ≡ j = omega arith in
            rw (found, e, e', first, second, short_tx)
              (inr (
                refl,
                (i, a, j, b, ha, na, hb, nb, transfer-Pays segments i a j b ha hb),
                kept.0,
                kept.1,
              ))
      ]
    ]

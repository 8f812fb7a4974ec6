-- ===== src/Core/Outbox/Claims.antt =====
-- The claims of app/core/db/outbox/relay.py and immediate_dispatch.py as workers make them in any
-- order: which steps change the table, and that a claim which another has taken over settles nothing.
use boat_backend.Prelude.{
  arith, ℕ, ◌+◌, ◌≤◌, ◌≡◌, ◌⊎◌, inl, inr, ap, subst, Bool, true, false, not, ◌&&◌, List, [], ◌∷◌,
  Option, some, ◌==◌, ltb, All, All-map, find, select, if◌then◌else◌, Bool-cases, Option-cases,
  String, ⊤, IsIn,
}
use boat_backend.Core.Outbox.{
  OutboxEvent, ClaimedEvent, Relay, is_due, first_due, touch, claim_time, claim_next, is_held,
  not_held, delete_succeeded, mark_failed, settle, claim_immediately,
}

-- Two rows of the table have different primary keys and different event ids.
abbrev pub Differs : {P : Type 0} → OutboxEvent P → OutboxEvent P → Type 0
Differs x y = ((x.id == y.id) ≡ false) × ((x.event_id == y.event_id) ≡ false)

abbrev pub IsKeyed : {P : Type 0} → List (OutboxEvent P) → Type 0
IsKeyed [] = ⊤
IsKeyed (x ∷ xs) = All (Differs x) xs × IsKeyed xs

-- The row of the event, if it is there, has been touched at `t` or later.
abbrev pub IsSince : {P : Type 0} → ℕ → ℕ → OutboxEvent P → Type 0
IsSince e t x = ((x.event_id == e) ≡ false) ⊎ (t ≤ x.occurred_at)

module _ {P E : Type 0} (deserialize : String → P → Option E) (event_time : E → ℕ) where
  -- One committed change of the table; what is published is another event than `e`.
  pub data Step (e : ℕ) (rows : List (OutboxEvent P)) : List (OutboxEvent P) → Type 0 where
    publishes :
        (row : OutboxEvent P)
        → All (Differs row) rows
        → ((row.event_id == e) ≡ false)
        → Step e rows (row ∷ rows)
    claims :
        (r : Relay) (now : ℕ) (locked : OutboxEvent P → Bool)
        → Step e rows (claim_next r now locked rows).1
    claims_immediately :
        (now event_id : ℕ)
        → Step e rows (claim_immediately deserialize event_time now event_id rows).1
    settles : (handled : Bool) (c : ClaimedEvent P) → Step e rows (settle handled c rows)

  pub data Reaches (e : ℕ) (rows : List (OutboxEvent P)) : List (OutboxEvent P) → Type 0 where
    stays : Reaches e rows rows
    steps :
        {rows' rows'' : List (OutboxEvent P)}
        → Reaches e rows rows'
        → Step e rows' rows''
        → Reaches e rows rows''

  -- A worker has claimed an event, by the poller or right after the response.
  pub data Takes (rows : List (OutboxEvent P)) (c : ClaimedEvent P) (rows' : List (OutboxEvent P))
      : Type 0 where
    by_relay :
        (r : Relay) (now : ℕ) (locked : OutboxEvent P → Bool)
        → claim_next r now locked rows ≡ (some c, rows')
        → Takes rows c rows'
    by_request :
        (now event_id : ℕ)
        → claim_immediately deserialize event_time now event_id rows ≡ (some c, rows')
        → Takes rows c rows'

abbrev pub Only : {P : Type 0} → OutboxEvent P → OutboxEvent P → Type 0
Only row x = (x ≡ row) ⊎ Differs x row

module _ {P : Type 0} where
  pub IsIn-All :
      (Q : OutboxEvent P → Type 0) (row : OutboxEvent P) (rows : List (OutboxEvent P))
      → IsIn row rows
      → All Q rows
      → Q row
  IsIn-All Q row [] m a = absurd m
  IsIn-All Q row (x ∷ xs) (inl p) a = subst Q p a.0
  IsIn-All Q row (x ∷ xs) (inr m) a = IsIn-All Q row xs m a.1

  pub Differs-sym : (x y : OutboxEvent P) → Differs x y → Differs y x
  Differs-sym x y d = (ground (arith, d.0), ground (arith, d.1))

  pub IsIn-Only :
      (row : OutboxEvent P) (rows : List (OutboxEvent P))
      → IsIn row rows
      → IsKeyed rows
      → All (Only row) rows
  IsIn-Only row [] m k = tt
  IsIn-Only row (x ∷ xs) (inl p) k =
      (inl p, All-map (λ y d. inr (Differs-sym row y (subst (λ z. Differs z y) p d))) xs k.0)
  IsIn-Only row (x ∷ xs) (inr m) k =
      (inr (IsIn-All (Differs x) row xs m k.0), IsIn-Only row xs m k.1)

  pub first_due-IsIn :
      (r : Relay) (now : ℕ) (locked : OutboxEvent P → Bool) (rows : List (OutboxEvent P))
      (row : OutboxEvent P)
      → first_due r now locked rows ≡ some row
      → IsIn row rows
  unfolding first_due
  first_due-IsIn r now locked [] row h = absurd (ground arith)
  first_due-IsIn r now locked (x ∷ xs) row h = elim (Option-cases (first_due r now locked xs)) [
    | inl n ↦ inl (ground arith)
    | inr (y, e) ↦ elim (Bool-cases (is_due r now locked x && not (ltb y.id x.id))) [
      | inl t ↦ inl (ground arith)
      | inr f ↦ inr (first_due-IsIn r now locked xs row (ground arith))
    ]
  ]

  pub first_due-is_due :
      (r : Relay) (now : ℕ) (locked : OutboxEvent P → Bool) (rows : List (OutboxEvent P))
      (row : OutboxEvent P)
      → first_due r now locked rows ≡ some row
      → is_due r now locked row ≡ true
  unfolding first_due
  first_due-is_due r now locked [] row h = absurd (ground arith)
  first_due-is_due r now locked (x ∷ xs) row h = elim (Bool-cases (is_due r now locked x)) [
    | inr f ↦ first_due-is_due r now locked xs row (ground arith)
    | inl t ↦ elim (Option-cases (first_due r now locked xs)) [
      | inl n ↦ (let p : x ≡ row = ground arith in subst (λ z. is_due r now locked z ≡ true) p t)
      | inr (y, e) ↦ elim (Bool-cases (ltb y.id x.id)) [
        | inl l ↦ first_due-is_due r now locked xs row (ground arith)
        | inr l ↦ (let p : x ≡ row = ground arith in subst (λ z. is_due r now locked z ≡ true) p t)
      ]
    ]
  ]

  pub find-IsIn :
      (p : OutboxEvent P → Bool) (rows : List (OutboxEvent P)) (row : OutboxEvent P)
      → find p rows ≡ some row
      → IsIn row rows
  find-IsIn p [] row h = absurd (ground arith)
  find-IsIn p (x ∷ xs) row h = elim (Bool-cases (p x)) [
    | inl t ↦ inl (ground arith)
    | inr f ↦ inr (find-IsIn p xs row (ground arith))
  ]

  pub touch-IsSince :
      (e t now : ℕ) (row : OutboxEvent P) (rows : List (OutboxEvent P))
      → All (Only row) rows
      → All (IsSince e t) rows
      → All (IsSince e t) (touch row.id (claim_time now row) rows)
  touch-IsSince e t now row [] o a = tt
  touch-IsSince e t now row (x ∷ xs) (inl p, o) a =
      (touched a.0, touch-IsSince e t now row xs o a.1)
    where
      same : x.occurred_at ≡ row.occurred_at
      same = ap (λ z. z.occurred_at) p

      touched :
          IsSince e t x
          → IsSince e t
              (if x.id == row.id then record x { occurred_at = claim_time now row } else x)
      touched h = ground (arith, same)
  touch-IsSince e t now row (x ∷ xs) (inr d, o) a = (rw d.0 a.0, touch-IsSince e t now row xs o a.1)

  -- keys survive each change
  touch-Differs :
      (x : OutboxEvent P) (id at : ℕ) (rows : List (OutboxEvent P))
      → All (Differs x) rows
      → All (Differs x) (touch id at rows)
  touch-Differs x id at [] a = tt
  touch-Differs x id at (y ∷ ys) a = (ground (arith, a.0), touch-Differs x id at ys a.1)

  pub touch-IsKeyed :
      (id at : ℕ) (rows : List (OutboxEvent P)) → IsKeyed rows → IsKeyed (touch id at rows)
  touch-IsKeyed id at [] k = tt
  touch-IsKeyed id at (x ∷ xs) k = elim (Bool-cases (x.id == id)) [
    | inl t ↦ rw t (touch-Differs x id at xs k.0, touch-IsKeyed id at xs k.1)
    | inr t ↦ rw t (touch-Differs x id at xs k.0, touch-IsKeyed id at xs k.1)
  ]

  pub mark_failed-All :
      (Q : OutboxEvent P → Type 0) (c : ClaimedEvent P) (rows : List (OutboxEvent P))
      → ((x : OutboxEvent P) → Q x → Q (record x { retry_count = c.retry_count + 1 }))
      → All Q rows
      → All Q (mark_failed c rows)
  unfolding mark_failed
  mark_failed-All Q c [] f a = tt
  mark_failed-All Q c (x ∷ xs) f a = elim (Bool-cases (is_held c x)) [
    | inl t ↦ (rw t (f x a.0), mark_failed-All Q c xs f a.1)
    | inr t ↦ (rw t a.0, mark_failed-All Q c xs f a.1)
  ]

  pub select-All :
      (Q : OutboxEvent P → Type 0) (p : OutboxEvent P → Bool) (rows : List (OutboxEvent P))
      → All Q rows
      → All Q (select p rows)
  select-All Q p [] a = tt
  select-All Q p (x ∷ xs) a = elim (Bool-cases (p x)) [
    | inl t ↦ rw t (a.0, select-All Q p xs a.1)
    | inr t ↦ rw t (select-All Q p xs a.1)
  ]

  mark_failed-IsKeyed :
      (c : ClaimedEvent P) (rows : List (OutboxEvent P))
      → IsKeyed rows
      → IsKeyed (mark_failed c rows)
  unfolding mark_failed
  mark_failed-IsKeyed c [] k = tt
  mark_failed-IsKeyed c (x ∷ xs) k = elim (Bool-cases (is_held c x)) [
    | inl t ↦ rw t (mark_failed-All (Differs x) c xs (λ y d. d) k.0, mark_failed-IsKeyed c xs k.1)
    | inr t ↦ rw t (mark_failed-All (Differs x) c xs (λ y d. d) k.0, mark_failed-IsKeyed c xs k.1)
  ]

  pub select-IsKeyed :
      (p : OutboxEvent P → Bool) (rows : List (OutboxEvent P))
      → IsKeyed rows
      → IsKeyed (select p rows)
  select-IsKeyed p [] k = tt
  select-IsKeyed p (x ∷ xs) k = elim (Bool-cases (p x)) [
    | inl t ↦ rw t (select-All (Differs x) p xs k.0, select-IsKeyed p xs k.1)
    | inr t ↦ rw t (select-IsKeyed p xs k.1)
  ]

  pub settle-IsKeyed :
      (handled : Bool) (c : ClaimedEvent P) (rows : List (OutboxEvent P))
      → IsKeyed rows
      → IsKeyed (settle handled c rows)
  unfolding settle delete_succeeded
  settle-IsKeyed true c rows k = select-IsKeyed (not_held c) rows k
  settle-IsKeyed false c rows k = mark_failed-IsKeyed c rows k

  pub settle-IsSince :
      (e t : ℕ) (handled : Bool) (c : ClaimedEvent P) (rows : List (OutboxEvent P))
      → All (IsSince e t) rows
      → All (IsSince e t) (settle handled c rows)
  unfolding settle delete_succeeded
  settle-IsSince e t true c rows a = select-All (IsSince e t) (not_held c) rows a
  settle-IsSince e t false c rows a = mark_failed-All (IsSince e t) c rows (λ x h. h) a

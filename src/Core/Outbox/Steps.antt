-- ===== src/Core/Outbox/Steps.antt =====
-- What the steps of app/core/db/outbox keep: the keys of the table, and the date of a claimed event.
use boat_backend.Prelude.{
  IsIn, arith, ℕ, suc, ◌≤◌, ◌≡◌, ◌⊎◌, inl, inr, ap, sym, subst, refl, Bool, true, false, not, ◌||◌,
  List, [], ◌∷◌, Option, none, some, ◌==◌, All, find, if◌then◌else◌, Bool-cases, Option-cases,
  String,
}
use boat_backend.Core.Outbox.{
  OutboxEvent, ClaimedEvent, Relay, first_due, touch, claim_time, claim_of, claim_next,
  delete_succeeded, mark_failed, settle, claim_immediately,
}
use boat_backend.Core.Outbox.Claims.{
  IsKeyed, IsSince, IsIn-All, Only, IsIn-Only, first_due-IsIn, find-IsIn, touch-IsSince,
  touch-IsKeyed, settle-IsKeyed, settle-IsSince, Step, Step.publishes, Step.claims,
  Step.claims_immediately, Step.settles, Reaches, Reaches.stays, Reaches.steps, Takes,
  Takes.by_relay, Takes.by_request,
}

-- What a claim does: it touches a row that is there.
abbrev pub Took :
    {P : Type 0} → List (OutboxEvent P) → ClaimedEvent P → List (OutboxEvent P) → Type 0
Took {P} rows c rows' =
    (row : OutboxEvent P) × (now : ℕ) × IsIn row rows
    × (c ≡ claim_of (claim_time now row) row)
    × (rows' ≡ touch row.id (claim_time now row) rows)

module _ {P : Type 0} where
  pub claim_next-Took :
      (r : Relay) (now : ℕ) (locked : OutboxEvent P → Bool) (rows rows' : List (OutboxEvent P))
      (c : ClaimedEvent P)
      → claim_next r now locked rows ≡ (some c, rows')
      → Took rows c rows'
  unfolding claim_next
  claim_next-Took r now locked rows rows' c h = elim (Option-cases (first_due r now locked rows)) [
    | inl n ↦ absurd (ground arith)
    | inr (row, e) ↦ (row, now, first_due-IsIn r now locked rows row e, ground arith, ground arith)
  ]

  pub claim_next-cases :
      (r : Relay) (now : ℕ) (locked : OutboxEvent P → Bool) (rows : List (OutboxEvent P))
      → ((claim_next r now locked rows).1 ≡ rows)
        ⊎ ((c : ClaimedEvent P) × Took rows c (claim_next r now locked rows).1)
  unfolding claim_next
  claim_next-cases r now locked rows = elim (Option-cases (first_due r now locked rows)) [
    | inl n ↦ inl (ground arith)
    | inr (row, e) ↦ inr (
      claim_of (claim_time now row) row,
      (row, now, first_due-IsIn r now locked rows row e, refl, ground arith),
    )
  ]

  touch-dates :
      (now : ℕ) (row : OutboxEvent P) (rows : List (OutboxEvent P))
      → All (Only row) rows
      → All (IsSince row.event_id (claim_time now row)) (touch row.id (claim_time now row) rows)
  touch-dates now row [] o = tt
  touch-dates now row (x ∷ xs) (inl p, o) = (dated, touch-dates now row xs o)
    where
      same : x.id ≡ row.id
      same = ap (λ z. z.id) p

      dated :
          IsSince row.event_id
            (claim_time now row)
            (if x.id == row.id then record x { occurred_at = claim_time now row } else x)
      dated = ground (arith, same)
  touch-dates now row (x ∷ xs) (inr d, o) = (rw d.0 (inl d.1), touch-dates now row xs o)

  -- Nothing is settled by a claim that is older than the row.
  pub settle-later :
      (handled : Bool) (c : ClaimedEvent P) (rows : List (OutboxEvent P))
      → All (IsSince c.event_id (suc c.claimed_at)) rows
      → settle handled c rows ≡ rows
  unfolding settle delete_succeeded mark_failed
  settle-later true c [] a = refl
  settle-later true c (x ∷ xs) a = ground (arith, a.0, settle-later true c xs a.1)
  settle-later false c [] a = refl
  settle-later false c (x ∷ xs) a = ground (arith, a.0, settle-later false c xs a.1)

module _ {P E : Type 0} (deserialize : String → P → Option E) (event_time : E → ℕ) where
  pub claim_immediately-cases :
      (now id : ℕ) (rows : List (OutboxEvent P))
      → (claim_immediately deserialize event_time now id rows ≡ (none, rows))
        ⊎ ((c : ClaimedEvent P) × (claim_immediately deserialize event_time now id rows
              ≡ (some c, (claim_immediately deserialize event_time now id rows).1))
            × Took rows c (claim_immediately deserialize event_time now id rows).1)
  unfolding claim_immediately
  claim_immediately-cases now id rows =
      elim (Option-cases (find (λ row. row.event_id == id) rows)) [
        | inl n ↦ inl (ground arith)
        | inr (row, e) ↦ elim (Option-cases (deserialize row.event_type row.payload)) [
          | inl n ↦ inl (ground arith)
          | inr (event, d) ↦
              elim (Bool-cases
                (not (row.retry_count == 0) || not (row.occurred_at == event_time event))) [
                  | inl t ↦ inl (ground arith)
                  | inr f ↦ inr (
                    claim_of (claim_time now row) row,
                    ground arith,
                    (row, now, find-IsIn (λ x. x.event_id == id) rows row e, refl, ground arith),
                  )
                ]
        ]
      ]

  pub Takes-Took :
      (rows rows' : List (OutboxEvent P)) (c : ClaimedEvent P)
      → Takes deserialize event_time rows c rows'
      → Took rows c rows'
  Takes-Took rows rows' c (by_relay r now locked h) = claim_next-Took r now locked rows rows' c h
  Takes-Took rows rows' c (by_request now id h) = elim (claim_immediately-cases now id rows) [
    | inl n ↦ absurd (ground arith)
    | inr (c', e, t) ↦
        (let pc : c' ≡ c = ground arith in
          let pr : (claim_immediately deserialize event_time now id rows).1 ≡ rows' =
            ap (λ z. z.1) h in
          subst (λ z. Took rows z rows') pc (subst (Took rows c') pr t))
  ]

  pub Took-IsKeyed :
      (rows rows' : List (OutboxEvent P)) (c : ClaimedEvent P)
      → Took rows c rows'
      → IsKeyed rows
      → IsKeyed rows'
  Took-IsKeyed rows rows' c (row, now, m, p, q) k =
      subst IsKeyed (sym q) (touch-IsKeyed row.id (claim_time now row) rows k)

  -- An event claimed again, and the time of that claim.
  Took-IsSince :
      (e t : ℕ) (rows rows' : List (OutboxEvent P)) (c : ClaimedEvent P)
      → Took rows c rows'
      → IsKeyed rows
      → All (IsSince e t) rows
      → All (IsSince e t) rows'
  Took-IsSince e t rows rows' c (row, now, m, p, q) k a =
      subst (All (IsSince e t)) (sym q) (touch-IsSince e t now row rows (IsIn-Only row rows m k) a)

  -- A claim dates its event's row.
  pub Took-dates :
      (rows rows' : List (OutboxEvent P)) (c : ClaimedEvent P)
      → Took rows c rows'
      → IsKeyed rows
      → All (IsSince c.event_id c.claimed_at) rows'
  Took-dates rows rows' c (row, now, m, p, q) k =
      subst (λ z. All (IsSince z.event_id z.claimed_at) rows') (sym p)
        (subst (All (IsSince row.event_id (claim_time now row))) (sym q)
          (touch-dates now row rows (IsIn-Only row rows m k)))

  -- and the date is later than each earlier one
  pub Took-later :
      (t : ℕ) (rows rows' : List (OutboxEvent P)) (c : ClaimedEvent P)
      → Took rows c rows'
      → All (IsSince c.event_id t) rows
      → suc t ≤ c.claimed_at
  Took-later t rows rows' c (row, now, m, p, q) a = later
    where
      since : IsSince c.event_id t row
      since = IsIn-All (IsSince c.event_id t) row rows m a

      same : c.event_id ≡ row.event_id
      same = ap (λ z. z.event_id) p

      at : c.claimed_at ≡ claim_time now row
      at = ap (λ z. z.claimed_at) p

      later : suc t ≤ c.claimed_at
      later = ground (arith, since, same, at)

  Step-Invariant :
      (e t : ℕ) (rows rows' : List (OutboxEvent P))
      → Step deserialize event_time e rows rows'
      → IsKeyed rows × All (IsSince e t) rows
      → IsKeyed rows' × All (IsSince e t) rows'
  Step-Invariant e t rows rows' (publishes row d n) (k, a) = ((d, k), (inl n, a))
  Step-Invariant e t rows rows' (claims r now locked) (k, a) =
      elim (claim_next-cases r now locked rows) [
        | inl p ↦ subst Keeps (sym p) (k, a)
        | inr (c, took) ↦ (Took-IsKeyed rows _ c took k, Took-IsSince e t rows _ c took k a)
      ]
    where
      Keeps : List (OutboxEvent P) → Type 0
      Keeps z = IsKeyed z × All (IsSince e t) z
  Step-Invariant e t rows rows' (claims_immediately now id) (k, a) =
      elim (claim_immediately-cases now id rows) [
        | inl p ↦ subst Keeps (sym (ap (λ z. z.1) p)) (k, a)
        | inr (c, _, took) ↦ (Took-IsKeyed rows _ c took k, Took-IsSince e t rows _ c took k a)
      ]
    where
      Keeps : List (OutboxEvent P) → Type 0
      Keeps z = IsKeyed z × All (IsSince e t) z
  Step-Invariant e t rows rows' (settles handled c) (k, a) =
      (settle-IsKeyed handled c rows k, settle-IsSince e t handled c rows a)

  pub Reaches-Invariant :
      (e t : ℕ) (rows rows' : List (OutboxEvent P))
      → Reaches deserialize event_time e rows rows'
      → IsKeyed rows × All (IsSince e t) rows
      → IsKeyed rows' × All (IsSince e t) rows'
  Reaches-Invariant e t rows rows' stays i = i
  Reaches-Invariant e t rows rows' (steps before step) i =
      Step-Invariant e t _ _ step (Reaches-Invariant e t rows _ before i)

-- ===== src/Core/Outbox/Contents.antt =====
-- What the steps of app/core/db/outbox keep of the contents of a row.
use boat_backend.Prelude.{
  ℕ, ◌+◌, ◌≡◌, inl, inr, ap, sym, subst, Bool, true, false, List, [], ◌∷◌, Option, String, ◌==◌,
  All, Bool-cases,
}
use boat_backend.Core.Outbox.{
  OutboxEvent, ClaimedEvent, touch, claim_time, delete_succeeded, not_held, settle,
}
use boat_backend.Core.Outbox.Claims.{
  mark_failed-All, select-All, Step.publishes, Step.claims, Step.claims_immediately, Step.settles,
  Reaches, Reaches.stays, Reaches.steps,
}
use boat_backend.Core.Outbox.Steps.{Took, claim_next-cases, claim_immediately-cases}

-- What a row's event says of it stays so, whatever becomes of its date and its failures.
module _ {P E : Type 0} (deserialize : String → P → Option E) (event_time : E → ℕ)
    (Q : OutboxEvent P → Type 0)
    (dated : (x : OutboxEvent P) (at : ℕ) → Q x → Q (record x { occurred_at = at }))
    (failed : (x : OutboxEvent P) (n : ℕ) → Q x → Q (record x { retry_count = n })) where
  touch-All : (id at : ℕ) (rows : List (OutboxEvent P)) → All Q rows → All Q (touch id at rows)
  touch-All id at [] a = tt
  touch-All id at (x ∷ xs) a = elim (Bool-cases (x.id == id)) [
    | inl t ↦ rw t (dated x at a.0, touch-All id at xs a.1)
    | inr t ↦ rw t (a.0, touch-All id at xs a.1)
  ]

  pub Took-All :
      (rows rows' : List (OutboxEvent P)) (c : ClaimedEvent P)
      → Took rows c rows'
      → All Q rows
      → All Q rows'
  Took-All rows rows' c (row, now, m, p, q) a =
      subst (All Q) (sym q) (touch-All row.id (claim_time now row) rows a)

  settle-All :
      (handled : Bool) (c : ClaimedEvent P) (rows : List (OutboxEvent P))
      → All Q rows
      → All Q (settle handled c rows)
  unfolding settle delete_succeeded
  settle-All true c rows a = select-All Q (not_held c) rows a
  settle-All false c rows a = mark_failed-All Q c rows (λ x h. failed x (c.retry_count + 1) h) a

  pub Reaches-All :
      (e : ℕ) (rows rows' : List (OutboxEvent P))
      → ((x : OutboxEvent P) → (x.event_id == e) ≡ false → Q x)
      → Reaches deserialize event_time e rows rows'
      → All Q rows
      → All Q rows'
  Reaches-All e rows rows' others stays a = a
  Reaches-All e rows rows' others (steps before (publishes row d n)) a =
      (others row n, Reaches-All e rows _ others before a)
  Reaches-All e rows rows' others (steps before (claims r now locked)) a =
      elim (claim_next-cases r now locked _) [
        | inl p ↦ subst (All Q) (sym p) (Reaches-All e rows _ others before a)
        | inr (c, took) ↦ Took-All _ _ c took (Reaches-All e rows _ others before a)
      ]
  Reaches-All e rows rows' others (steps before (claims_immediately now id)) a =
      elim (claim_immediately-cases deserialize event_time now id _) [
        | inl p ↦ subst (All Q) (sym (ap (λ z. z.1) p)) (Reaches-All e rows _ others before a)
        | inr (c, _, took) ↦ Took-All _ _ c took (Reaches-All e rows _ others before a)
      ]
  Reaches-All e rows rows' others (steps before (settles handled c)) a =
      settle-All handled c _ (Reaches-All e rows _ others before a)

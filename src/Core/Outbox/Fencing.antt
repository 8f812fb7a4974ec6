-- ===== src/Core/Outbox/Fencing.antt =====
-- The claim generations of app/core/db/outbox: a claim is not made again before its lease has run out,
-- and once another worker has claimed the event, the first worker's settling has no effect.
use boat_backend.Prelude.{
  arith, ℕ, suc, ◌+◌, ◌<◌, ◌≤◌, ◌≡◌, sym, subst, Bool, List, Option, some, String, All, All-map,
  Option-cases, inl, inr,
}
use boat_backend.Core.Outbox.{OutboxEvent, ClaimedEvent, Relay, settle, claim_next, first_due}
use boat_backend.Core.Outbox.Claims.{
  IsKeyed, IsSince, Reaches, Takes, IsIn-All, first_due-IsIn, first_due-is_due,
}
use boat_backend.Core.Outbox.Steps.{
  Took, Takes-Took, Took-IsKeyed, Took-dates, Took-later, Reaches-Invariant, settle-later,
}

module _ {P E : Type 0} (deserialize : String → P → Option E) (event_time : E → ℕ) where
  -- In a table with distinct keys a worker claims an event, others go on, one of them claims the
  -- same event again, and they go on: then the first worker's settling, for whatever outcome of its
  -- handlers, changes nothing. What is published meanwhile are other events.
  pub superseded_claim_settles_nothing :
      (rows rows' rows'' rows3 rows4 : List (OutboxEvent P)) (c c' : ClaimedEvent P)
      (handled : Bool)
      → IsKeyed rows
      → Takes deserialize event_time rows c rows'
      → Reaches deserialize event_time c.event_id rows' rows''
      → Takes deserialize event_time rows'' c' rows3
      → c'.event_id ≡ c.event_id
      → Reaches deserialize event_time c.event_id rows3 rows4
      → settle handled c rows4 ≡ rows4
  superseded_claim_settles_nothing rows rows' rows'' rows3 rows4 c c' handled k first before second
        same after =
      settle-later handled c rows4
        (Reaches-Invariant deserialize event_time c.event_id (suc c.claimed_at) rows3 rows4 after
          (k3, since3)).1
    where
      took : Took rows c rows'
      took = Takes-Took deserialize event_time rows rows' c first

      took' : Took rows'' c' rows3
      took' = Takes-Took deserialize event_time rows'' rows3 c' second

      until : IsKeyed rows'' × All (IsSince c.event_id c.claimed_at) rows''
      until = Reaches-Invariant deserialize event_time c.event_id c.claimed_at rows' rows'' before (
        Took-IsKeyed deserialize event_time rows rows' c took k,
        Took-dates deserialize event_time rows rows' c took k,
      )

      k3 : IsKeyed rows3
      k3 = Took-IsKeyed deserialize event_time rows'' rows3 c' took' until.0

      newer : suc c.claimed_at ≤ c'.claimed_at
      newer =
          Took-later deserialize event_time c.claimed_at rows'' rows3 c' took'
            (subst (λ z. All (IsSince z c.claimed_at) rows'') (sym same) until.1)

      since3 : All (IsSince c.event_id (suc c.claimed_at)) rows3
      since3 =
          All-map (λ x h. ground (arith, newer, same)) rows3
            (Took-dates deserialize event_time rows'' rows3 c' took' until.0)

  claimed_after :
      (r : Relay) (now e t : ℕ) (locked : OutboxEvent P → Bool) (rows rows' : List (OutboxEvent P))
      (c : ClaimedEvent P)
      → All (IsSince e t) rows
      → claim_next r now locked rows ≡ (some c, rows')
      → c.event_id ≡ e
      → t + r.redeliver_after < now
  unfolding claim_next
  claimed_after r now e t locked rows rows' c since h same =
      elim (Option-cases (first_due r now locked rows)) [
        | inl n ↦ absurd (ground arith)
        | inr (row, p) ↦
            (let d = first_due-is_due r now locked rows row p in
              let dated =
                IsIn-All (IsSince e t) row rows (first_due-IsIn r now locked rows row p) since in
              let q : c.event_id ≡ row.event_id = ground arith in ground (arith, d, dated, q))
      ]

  -- In a table with distinct keys a worker claims an event and others go on: the poller claims that
  -- event again only when `redeliver_after` has passed since the claim. What is published meanwhile
  -- are other events.
  pub claim_again_after_lease :
      (rows rows' rows'' rows3 : List (OutboxEvent P)) (c c' : ClaimedEvent P) (r : Relay) (now : ℕ)
      (locked : OutboxEvent P → Bool)
      → IsKeyed rows
      → Takes deserialize event_time rows c rows'
      → Reaches deserialize event_time c.event_id rows' rows''
      → claim_next r now locked rows'' ≡ (some c', rows3)
      → c'.event_id ≡ c.event_id
      → c.claimed_at + r.redeliver_after < now
  claim_again_after_lease rows rows' rows'' rows3 c c' r now locked k first between second same =
      (let took = Takes-Took deserialize event_time rows rows' c first in
        let until =
          Reaches-Invariant deserialize event_time c.event_id c.claimed_at rows' rows'' between (
            Took-IsKeyed deserialize event_time rows rows' c took k,
            Took-dates deserialize event_time rows rows' c took k,
          ) in
        claimed_after r now c.event_id c.claimed_at locked rows'' rows3 c' until.1 second same)

-- ===== src/Core/Outbox/Immediate.antt =====
-- `dispatch_outbox_event_immediately` of app/core/db/outbox/immediate_dispatch.py: an event that nobody
-- has touched, and one that has been claimed.
use boat_backend.Prelude.{
  arith, ℕ, ◌<◌, ◌≡◌, ◌⊎◌, inl, inr, ap, sym, subst, Bool, true, false, List, Option, none, some,
  String, ◌==◌, All, All-map, find, find-passes, select, Option-cases,
}
use boat_backend.Core.Outbox.{
  OutboxEvent, ClaimedEvent, touch, claim_time, claim_of, settle, claim_immediately,
  dispatch_immediately,
}
use boat_backend.Core.Outbox.Batch.{delete-touch}
use boat_backend.Core.Outbox.Due.{other_than}
use boat_backend.Core.Outbox.Claims.{
  IsKeyed, IsSince, IsIn-All, Only, IsIn-Only, find-IsIn, Reaches, Takes,
}
use boat_backend.Core.Outbox.Contents.{Took-All, Reaches-All}
use boat_backend.Core.Outbox.Steps.{Took, Takes-Took, Took-IsKeyed, Took-dates, Reaches-Invariant}

module _ {P E : Type 0} (deserialize : String → P → Option E) (event_time : E → ℕ) where
  -- The event of a row or of a claim, where it can be restored, happened before `t`.
  abbrev pub HappenedBefore : ℕ → String → P → Type 0
  HappenedBefore t event_type payload = elim (deserialize event_type payload) [
    | none ↦ Unit
    | some event ↦ event_time event < t
  ]

  -- The row of the event, if it is there, is of an event that happened before `t`.
  abbrev IsPast : ℕ → ℕ → OutboxEvent P → Type 0
  IsPast e t row = ((row.event_id == e) ≡ false) ⊎ HappenedBefore t row.event_type row.payload

  fresh_claim :
      (now id : ℕ) (rows : List (OutboxEvent P)) (row : OutboxEvent P) (event : E)
      → find (λ x. x.event_id == id) rows ≡ some row
      → deserialize row.event_type row.payload ≡ some event
      → row.retry_count ≡ 0
      → row.occurred_at ≡ event_time event
      → claim_immediately deserialize event_time now id rows
        ≡ (some (claim_of (claim_time now row) row), touch row.id (claim_time now row) rows)
  unfolding claim_immediately
  fresh_claim now id rows row event found restored untouched dated = ground arith

  -- In a table with distinct keys an event that is restored and that nobody has touched is handed to
  -- the handlers right after the response and, when they return and no other worker steps in, its
  -- row alone is deleted.
  pub dispatch_immediately-delivers :
      (now id : ℕ) (rows : List (OutboxEvent P)) (row : OutboxEvent P) (event : E)
      → IsKeyed rows
      → find (λ x. x.event_id == id) rows ≡ some row
      → deserialize row.event_type row.payload ≡ some event
      → row.retry_count ≡ 0
      → row.occurred_at ≡ event_time event
      → dispatch_immediately deserialize event_time now (λ _. true) (λ r. r) id rows
        ≡ (true, select (other_than row) rows)
  unfolding dispatch_immediately settle
  dispatch_immediately-delivers now id rows row event k found restored untouched dated = ground (
    arith,
    fresh_claim now id rows row event found restored untouched dated,
    delete-touch (claim_time now row) row rows
        (IsIn-Only row rows (find-IsIn (λ x. x.event_id == id) rows row found) k),
  )

  untaken :
      (now id t : ℕ) (rows : List (OutboxEvent P))
      → All (IsSince id t) rows
      → All (IsPast id t) rows
      → claim_immediately deserialize event_time now id rows ≡ (none, rows)
  unfolding claim_immediately
  untaken now id t rows since before = elim (Option-cases (find (λ x. x.event_id == id) rows)) [
    | inl n ↦ ground arith
    | inr (row, e) ↦
        (let there = find-IsIn (λ x. x.event_id == id) rows row e in
          let own : (row.event_id == id) ≡ true = find-passes (λ x. x.event_id == id) rows row e in
          let dated = IsIn-All (IsSince id t) row rows there since in
          let happened = IsIn-All (IsPast id t) row rows there before in
          ground (arith, e, own, dated, happened))
  ]

  -- The claimed row is the one of its event.
  Took-IsPast :
      (t : ℕ) (rows rows' : List (OutboxEvent P)) (c : ClaimedEvent P)
      → IsKeyed rows
      → Took rows c rows'
      → HappenedBefore t c.event_type c.payload
      → All (IsPast c.event_id t) rows
  Took-IsPast t rows rows' c k (row, now, m, p, q) h = All-map past rows (IsIn-Only row rows m k)
    where
      own : HappenedBefore t row.event_type row.payload
      own = subst (λ z. HappenedBefore t z.event_type z.payload) p h

      same : row.event_id ≡ c.event_id
      same = sym (ap (λ z. z.event_id) p)

      past : (x : OutboxEvent P) → Only row x → IsPast c.event_id t x
      past x (inl e) = inr (subst (λ z. HappenedBefore t z.event_type z.payload) (sym e) own)
      past x (inr d) = inl (subst (λ z. (x.event_id == z) ≡ false) same d.1)

  -- In a table with distinct keys an event that happened before a worker claimed it is not handed to the
  -- handlers right after the response any more, whatever happens between. What is published meanwhile
  -- are other events.
  pub claimed_event_is_not_dispatched :
      (rows rows' rows'' : List (OutboxEvent P)) (c : ClaimedEvent P) (now : ℕ)
      (handles : ClaimedEvent P → Bool) (meanwhile : List (OutboxEvent P) → List (OutboxEvent P))
      → IsKeyed rows
      → Takes deserialize event_time rows c rows'
      → HappenedBefore c.claimed_at c.event_type c.payload
      → Reaches deserialize event_time c.event_id rows' rows''
      → dispatch_immediately deserialize event_time now handles meanwhile c.event_id rows''
        ≡ (false, rows'')
  unfolding dispatch_immediately
  claimed_event_is_not_dispatched rows rows' rows'' c now handles meanwhile k first before between =
      (let took = Takes-Took deserialize event_time rows rows' c first in
        let until =
          Reaches-Invariant deserialize event_time c.event_id c.claimed_at rows' rows'' between (
            Took-IsKeyed deserialize event_time rows rows' c took k,
            Took-dates deserialize event_time rows rows' c took k,
          ) in
        let past =
          Reaches-All deserialize event_time (IsPast c.event_id c.claimed_at) (λ x at h. h)
            (λ x n h. h) c.event_id rows' rows'' (λ x n. inl n) between
            (Took-All deserialize event_time (IsPast c.event_id c.claimed_at) (λ x at h. h)
              (λ x n h. h) rows rows' c took
              (Took-IsPast c.claimed_at rows rows' c k took before)) in
        ground (arith, untaken now c.event_id c.claimed_at rows'' until.1 past))

-- ===== src/Core/Outbox.antt =====
-- app/core/db/outbox: rows of domain events that wait for delivery (orm.py), the poller that delivers
-- them again (relay.py), and the delivery right after the response (immediate_dispatch.py). Instants
-- are microseconds. Between a claim and its settling no transaction is open, so other workers may
-- change the table there: `meanwhile` says how.
pub mod Claims
pub mod Steps
pub mod Contents
pub mod Fencing
pub mod Due
pub mod Batch
pub mod Retries
pub mod Immediate
use boat_backend.Prelude.{
  ℕ, zero, suc, ◌+◌, ◌-◌, String, Bool, true, false, not, ◌&&◌, ◌||◌, List, [], ◌∷◌, Option, none,
  some, ◌==◌, ltb, find, select, if◌then◌else◌,
}

-- `orm.OutboxEvent` over an abstract payload
pub record OutboxEvent (P : Type 0) : Type 0 where
  pub id : ℕ
  pub event_id : ℕ
  pub event_type : String
  pub payload : P
  pub occurred_at : ℕ
  pub retry_count : ℕ

-- `_ClaimedEvent`
pub record ClaimedEvent (P : Type 0) : Type 0 where
  pub event_id : ℕ
  pub event_type : String
  pub payload : P
  pub retry_count : ℕ
  pub claimed_at : ℕ

-- The settings of `OutboxRelay`.
pub record Relay : Type 0 where
  pub redeliver_after : ℕ
  pub max_retry : ℕ
  pub batch_size : ℕ

-- What one round of the batch meets: the clock, the rows that others have locked, whether the event
-- is restored, whether all its handlers return, and what other workers do to the table meanwhile.
pub record Round (P : Type 0) : Type 0 where
  pub now : ℕ
  pub locked : OutboxEvent P → Bool
  pub restores : ClaimedEvent P → Bool
  pub handles : ClaimedEvent P → Bool
  pub meanwhile : List (OutboxEvent P) → List (OutboxEvent P)

-- What a batch comes to: the number it answers, the claims whose events it handed to the dispatcher, in
-- order, and the rows at the end.
pub record BatchOutcome (P : Type 0) : Type 0 where
  pub processed : ℕ
  pub dispatched : List (ClaimedEvent P)
  pub rows : List (OutboxEvent P)

abbrev pub larger : ℕ → ℕ → ℕ
larger a b = if ltb a b then b else a

module _ {P : Type 0} where
  -- The `WHERE` clause of `_claim_next`, and `skip_locked`.
  abbrev pub is_due : Relay → ℕ → (OutboxEvent P → Bool) → OutboxEvent P → Bool
  is_due r now locked row =
      ltb row.occurred_at (now - r.redeliver_after)
      && (ltb row.retry_count r.max_retry && not (locked row))

  abbrev pub earlier : OutboxEvent P → Option (OutboxEvent P) → OutboxEvent P
  earlier row none = row
  earlier row (some other) = if ltb other.id row.id then other else row

  -- `ORDER BY id LIMIT 1`
  unfoldable pub first_due :
      Relay → ℕ → (OutboxEvent P → Bool) → List (OutboxEvent P) → Option (OutboxEvent P)
  first_due r now locked [] = none
  first_due r now locked (row ∷ rows) =
      let rest = first_due r now locked rows in
      if is_due r now locked row then some (earlier row rest) else rest

  -- `row.occurred_at = claimed_at`, by the primary key
  abbrev pub touch : ℕ → ℕ → List (OutboxEvent P) → List (OutboxEvent P)
  touch id claimed_at [] = []
  touch id claimed_at (row ∷ rows) =
      (if row.id == id then record row { occurred_at = claimed_at } else row)
      ∷ touch id claimed_at rows

  abbrev pub claim_time : ℕ → OutboxEvent P → ℕ
  claim_time now row = larger now (row.occurred_at + 1)

  abbrev pub claim_of : ℕ → OutboxEvent P → ClaimedEvent P
  claim_of claimed_at row = record {
    event_id = row.event_id;
    event_type = row.event_type;
    payload = row.payload;
    retry_count = row.retry_count;
    claimed_at = claimed_at;
  }

  -- `OutboxRelay._claim_next`
  unfoldable pub claim_next :
      Relay
      → ℕ
      → (OutboxEvent P → Bool)
      → List (OutboxEvent P)
      → Option (ClaimedEvent P) × List (OutboxEvent P)
  claim_next r now locked rows = elim (first_due r now locked rows) [
    | none ↦ (none, rows)
    | some row ↦ (some (claim_of (claim_time now row) row), touch row.id (claim_time now row) rows)
  ]

  -- The `WHERE` clause of `_delete_succeeded` and `_mark_failed`.
  abbrev pub is_held : ClaimedEvent P → OutboxEvent P → Bool
  is_held c row =
      row.event_id == c.event_id
      && (row.retry_count == c.retry_count && row.occurred_at == c.claimed_at)

  abbrev pub not_held : ClaimedEvent P → OutboxEvent P → Bool
  not_held c row = not (is_held c row)

  -- `OutboxRelay._delete_succeeded`
  unfoldable pub delete_succeeded : ClaimedEvent P → List (OutboxEvent P) → List (OutboxEvent P)
  delete_succeeded c rows = select (not_held c) rows

  -- `OutboxRelay._mark_failed`
  unfoldable pub mark_failed : ClaimedEvent P → List (OutboxEvent P) → List (OutboxEvent P)
  mark_failed c [] = []
  mark_failed c (row ∷ rows) =
      (if is_held c row then record row { retry_count = c.retry_count + 1 } else row)
      ∷ mark_failed c rows

  -- The end of a round: deleted if it was handled, marked as failed if not.
  unfoldable pub settle : Bool → ClaimedEvent P → List (OutboxEvent P) → List (OutboxEvent P)
  unfolding delete_succeeded mark_failed
  settle true c rows = delete_succeeded c rows
  settle false c rows = mark_failed c rows

  -- `dispatch([event])` is reached if the event is restored.
  abbrev pub hand_over :
      (ClaimedEvent P → Bool) → ClaimedEvent P → List (ClaimedEvent P) → List (ClaimedEvent P)
  hand_over restores c later = if restores c then c ∷ later else later

  -- `OutboxRelay.run_once` with so many rounds left.
  unfoldable pub run_rounds : Relay → ℕ → (ℕ → Round P) → List (OutboxEvent P) → BatchOutcome P
  unfolding claim_next settle
  run_rounds r zero rounds rows = record { processed = 0; dispatched = []; rows = rows }
  run_rounds r (suc left) rounds rows =
      let e = rounds left in
      elim (claim_next r e.now e.locked rows).0 [
        | none ↦ (record {
          processed = 0;
          dispatched = [];
          rows = (claim_next r e.now e.locked rows).1;
        })
        | some c ↦
            (let rest = run_rounds r left rounds (
                settle (e.restores c && e.handles c) c
                  (e.meanwhile (claim_next r e.now e.locked rows).1)) in
              record {
                processed = rest.processed + 1;
                dispatched = hand_over e.restores c rest.dispatched;
                rows = rest.rows;
              })
      ]

  unfoldable pub run_once : Relay → (ℕ → Round P) → List (OutboxEvent P) → BatchOutcome P
  unfolding run_rounds
  run_once r rounds rows = run_rounds r r.batch_size rounds rows

  module _ {E : Type 0} (deserialize : String → P → Option E) (event_time : E → ℕ) where
    -- `dispatch_outbox_event_immediately` up to the claim: nothing to do, or the claim it makes.
    unfoldable pub claim_immediately :
        ℕ → ℕ → List (OutboxEvent P) → Option (ClaimedEvent P) × List (OutboxEvent P)
    claim_immediately now event_id rows = elim (find (λ row. row.event_id == event_id) rows) [
      | none ↦ (none, rows)
      | some row ↦ elim (deserialize row.event_type row.payload) [
        | none ↦ (none, rows)
        | some event ↦
            if not (row.retry_count == 0) || not (row.occurred_at == event_time event)
            then (none, rows)
            else (some (claim_of (claim_time now row) row), touch row.id (claim_time now row) rows)
      ]
    ]

    -- The whole of it: whether the event was handed to the handlers, and the rows at the end.
    unfoldable pub dispatch_immediately :
        ℕ
        → (ClaimedEvent P → Bool)
        → (List (OutboxEvent P) → List (OutboxEvent P))
        → ℕ
        → List (OutboxEvent P)
        → Bool × List (OutboxEvent P)
    unfolding claim_immediately settle
    dispatch_immediately now handles meanwhile event_id rows =
        elim (claim_immediately now event_id rows).0 [
          | none ↦ (false, (claim_immediately now event_id rows).1)
          | some c ↦
              (true, settle (handles c) c (meanwhile (claim_immediately now event_id rows).1))
        ]

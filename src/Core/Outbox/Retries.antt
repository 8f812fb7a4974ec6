-- ===== src/Core/Outbox/Retries.antt =====
-- The bounds of a batch of app/core/db/outbox/relay.py, for every behaviour of the handlers and of the
-- other workers.
use boat_backend.Prelude.{
  arith, ℕ, zero, suc, ◌+◌, ◌≤◌, ◌<◌, ◌≡◌, inl, inr, sym, subst, refl, Bool, true, false, ◌&&◌,
  List, [], ◌∷◌, none, some, All, Option-cases,
}
use boat_backend.Core.Outbox.{
  OutboxEvent, ClaimedEvent, Relay, Round, BatchOutcome, hand_over, first_due, touch, claim_time,
  claim_of, claim_next, not_held, delete_succeeded, settle, run_rounds, run_once,
}
use boat_backend.Core.Outbox.Claims.{first_due-is_due, mark_failed-All, select-All}

abbrev pub IsWithin : {P : Type 0} → Relay → OutboxEvent P → Type 0
IsWithin r row = row.retry_count ≤ r.max_retry

module _ {P : Type 0} (r : Relay) where
  touch-IsWithin :
      (id at : ℕ) (rows : List (OutboxEvent P))
      → All (IsWithin r) rows
      → All (IsWithin r) (touch id at rows)
  touch-IsWithin id at [] a = tt
  touch-IsWithin id at (x ∷ xs) a = (ground (arith, a.0), touch-IsWithin id at xs a.1)

  settle-IsWithin :
      (handled : Bool) (c : ClaimedEvent P) (rows : List (OutboxEvent P))
      → c.retry_count < r.max_retry
      → All (IsWithin r) rows
      → All (IsWithin r) (settle handled c rows)
  unfolding settle delete_succeeded
  settle-IsWithin true c rows l a = select-All (IsWithin r) (not_held c) rows a
  settle-IsWithin false c rows l a = mark_failed-All (IsWithin r) c rows (λ x h. omega (arith, l)) a

  idle_round :
      (left : ℕ) (rounds : ℕ → Round P) (rows : List (OutboxEvent P))
      → first_due r (rounds left).now (rounds left).locked rows ≡ none
      → run_rounds r (suc left) rounds rows ≡ record { processed = 0; dispatched = []; rows = rows }
  unfolding run_rounds claim_next
  idle_round left rounds rows h = ground arith

  claimed_round :
      (left : ℕ) (rounds : ℕ → Round P) (rows : List (OutboxEvent P)) (row : OutboxEvent P) (t : ℕ)
      → first_due r (rounds left).now (rounds left).locked rows ≡ some row
      → t ≡ claim_time (rounds left).now row
      → (let rest = run_rounds r left rounds (
            settle
              ((rounds left).restores (claim_of t row) && (rounds left).handles (claim_of t row))
              (claim_of t row)
              ((rounds left).meanwhile (touch row.id t rows))) in
          run_rounds r (suc left) rounds rows ≡ record {
            processed = rest.processed + 1;
            dispatched = hand_over (rounds left).restores (claim_of t row) rest.dispatched;
            rows = rest.rows;
          })
  unfolding run_rounds claim_next
  claimed_round left rounds rows row t h q = ground arith

  abbrev Bounded : ℕ → BatchOutcome P → Type 0
  Bounded left out = (out.processed ≤ left) × All (IsWithin r) out.rows

  run_rounds-bounded :
      (left : ℕ) (rounds : ℕ → Round P) (rows : List (OutboxEvent P))
      → ((n : ℕ) (others : List (OutboxEvent P))
          → All (IsWithin r) others
          → All (IsWithin r) ((rounds n).meanwhile others))
      → All (IsWithin r) rows
      → ((run_rounds r left rounds rows).processed ≤ left)
        × All (IsWithin r) (run_rounds r left rounds rows).rows
  unfolding run_rounds
  run_rounds-bounded zero rounds rows f a = (omega arith, a)
  run_rounds-bounded (suc left) rounds rows f a =
      let e = rounds left in
      elim (Option-cases (first_due r e.now e.locked rows)) [
        | inl n ↦ subst (Bounded (suc left)) (sym (idle_round left rounds rows n)) (omega arith, a)
        | inr (row, p) ↦
            (let d = first_due-is_due r e.now e.locked rows row p in
              let l : row.retry_count < r.max_retry = ground (arith, d) in
              let t = claim_time e.now row in
              let c = claim_of t row in
              let rest =
                run_rounds-bounded left rounds
                  (settle (e.restores c && e.handles c) c (e.meanwhile (touch row.id t rows))) f
                  (settle-IsWithin (e.restores c && e.handles c) c _ l
                    (f left _ (touch-IsWithin row.id t rows a))) in
              subst (Bounded (suc left)) (sym (claimed_round left rounds rows row t p refl))
                (omega (arith, rest.0), rest.1))
      ]

  -- A batch processes at most `batch_size` events and no event of the table ever has more than
  -- `max_retry` failures, if other workers keep to that in the table as well.
  pub run_once-bounded :
      (rounds : ℕ → Round P) (rows : List (OutboxEvent P))
      → ((n : ℕ) (others : List (OutboxEvent P))
          → All (IsWithin r) others
          → All (IsWithin r) ((rounds n).meanwhile others))
      → All (IsWithin r) rows
      → ((run_once r rounds rows).processed ≤ r.batch_size)
        × All (IsWithin r) (run_once r rounds rows).rows
  unfolding run_once
  run_once-bounded rounds rows f a = run_rounds-bounded r.batch_size rounds rows f a

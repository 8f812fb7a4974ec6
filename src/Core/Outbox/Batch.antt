-- ===== src/Core/Outbox/Batch.antt =====
-- `OutboxRelay.run_once` of app/core/db/outbox/relay.py: what a batch leaves when its worker is alone,
-- and dispatches.
use mathlib.Core.List.{Perm}
use mathlib.Core.List.Perm
use boat_backend.Prelude.{
  IsIn, arith, ℕ, zero, suc, ◌+◌, ◌≤◌, ◌≡◌, inl, inr, ap, sym, refl, ◌∙◌, map, true, false, List,
  [], ◌∷◌, none, some, All, count, select, Option-cases,
}
use boat_backend.Core.Outbox.{
  OutboxEvent, ClaimedEvent, Relay, Round, BatchOutcome, first_due, touch, claim_time, claim_of,
  claim_next, delete_succeeded, settle, run_rounds, run_once,
}
use boat_backend.Core.Outbox.Due.{
  due, not_due, other_than, none-due, others_due, few_due, none_selected, others_selected,
}
use boat_backend.Core.Outbox.Claims.{
  IsKeyed, Only, IsIn-Only, first_due-IsIn, first_due-is_due, select-IsKeyed,
}

-- The worker is alone, the clock stands still, and all events are restored and their handlers return.
abbrev pub alone : {P : Type 0} → ℕ → Round P
alone now = record {
  now = now;
  locked = λ _. false;
  restores = λ _. true;
  handles = λ _. true;
  meanwhile = λ rows. rows;
}

-- The claim of a row at `now`.
abbrev pub claim_at_now : {P : Type 0} → ℕ → OutboxEvent P → ClaimedEvent P
claim_at_now now row = claim_of (claim_time now row) row

-- What a batch comes to that takes all rows that are due: each is handed to the dispatcher once and
-- deleted.
pub record TakesAllDue {P : Type 0} (r : Relay) (now : ℕ) (rows : List (OutboxEvent P))
    (b : BatchOutcome P) : Type 0 where
  pub processed : b.processed ≡ count (due r now) rows
  pub dispatched : Perm b.dispatched (map (claim_at_now now) (select (due r now) rows))
  pub rows_left : b.rows ≡ select (not_due r now) rows

module _ {P : Type 0} where
  pub delete-touch :
      (t : ℕ) (row : OutboxEvent P) (rows : List (OutboxEvent P))
      → All (Only row) rows
      → delete_succeeded (claim_of t row) (touch row.id t rows) ≡ select (other_than row) rows
  unfolding delete_succeeded
  delete-touch t row [] o = refl
  delete-touch t row (x ∷ xs) (inl p, o) =
      (let rest = delete-touch t row xs o in
        let q : x.id ≡ row.id = ap (λ z. z.id) p in
        let q' : x.event_id ≡ row.event_id = ap (λ z. z.event_id) p in
        let q'' : x.retry_count ≡ row.retry_count = ap (λ z. z.retry_count) p in
        ground (arith, rest, q, q', q''))
  delete-touch t row (x ∷ xs) (inr d, o) =
      (let rest = delete-touch t row xs o in ground (arith, rest, d))

module _ {P : Type 0} (r : Relay) (now : ℕ) where
  idle :
      (left : ℕ) (rows : List (OutboxEvent P))
      → first_due r now (λ _. false) rows ≡ none
      → run_rounds r (suc left) (λ _. alone now) rows
        ≡ record { processed = 0; dispatched = []; rows = rows }
  unfolding run_rounds claim_next
  idle left rows h = ground arith

  delivered :
      (left : ℕ) (rows others : List (OutboxEvent P)) (row : OutboxEvent P)
      → first_due r now (λ _. false) rows ≡ some row
      → delete_succeeded
          (claim_of (claim_time now row) row)
          (touch row.id (claim_time now row) rows)
        ≡ others
      → let rest = run_rounds r left (λ _. alone now) others in
        run_rounds r (suc left) (λ _. alone now) rows ≡ record {
          processed = rest.processed + 1;
          dispatched = claim_at_now now row ∷ rest.dispatched;
          rows = rest.rows;
        }
  unfolding run_rounds claim_next settle
  delivered left rows others row h d = ground arith

  nothing_due :
      (left : ℕ) (rows : List (OutboxEvent P)) (b : BatchOutcome P)
      → count (due r now) rows ≡ 0
      → b ≡ record { processed = 0; dispatched = []; rows = rows }
      → TakesAllDue r now rows b
  nothing_due left rows b n e = rw e (record {
    processed = sym n;
    dispatched = rw (none_selected r now rows n) Perm.rfl;
    rows_left = sym (few_due r now rows n);
  })

  drained :
      (left : ℕ) (rows : List (OutboxEvent P))
      → IsKeyed rows
      → count (due r now) rows ≤ left
      → TakesAllDue r now rows (run_rounds r left (λ _. alone now) rows)
  unfolding run_rounds
  drained zero rows k few = nothing_due 0 rows _ (omega (arith, few)) refl
  drained (suc left) rows k few = elim (Option-cases (first_due r now (λ _. false) rows)) [
    | inl n ↦ nothing_due (suc left) rows _ (none-due r now rows n).0 (idle left rows n)
    | inr (row, e) ↦
        (let m : IsIn row rows = first_due-IsIn r now (λ _. false) rows row e in
          let d = first_due-is_due r now (λ _. false) rows row e in
          let fewer = others_due r now row rows m k d in
          let others = select (other_than row) rows in
          let step =
            delivered left rows others row e
              (delete-touch (claim_time now row) row rows (IsIn-Only row rows m k)) in
          let rest =
            drained left others (select-IsKeyed (other_than row) rows k)
              (omega (arith, few, fewer.0)) in
          rw step (record {
            processed = omega (arith, fewer.0, rest.processed);
            dispatched =
                Perm.trans (Perm.cons (claim_at_now now row) rest.dispatched)
                  (Perm.map (claim_at_now now) (others_selected r now row rows m k d));
            rows_left = rest.rows_left ∙ fewer.1;
          }))
  ]

  -- On a table with distinct keys a worker that is alone, while the clock stands still, with a batch
  -- size that covers the events that are due, and with events that are restored and handlers that return,
  -- hands the claim of each event that is due to the dispatcher once and nothing else, deletes those
  -- events, leaves the others as they were, and answers their number.
  pub run_once-drains :
      (rows : List (OutboxEvent P))
      → IsKeyed rows
      → count (due r now) rows ≤ r.batch_size
      → TakesAllDue r now rows (run_once r (λ _. alone now) rows)
  unfolding run_once
  run_once-drains rows k few = drained r.batch_size rows k few

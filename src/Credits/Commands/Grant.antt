-- ===== src/Credits/Commands/Grant.antt =====
-- `GrantCreditCommandUseCase.execute`, step by step from a session that has just begun.
use boat_backend.Prelude.{
  ◌∙◌, ℕ, ◌+◌, ◌≡◌, refl, true, false, List, [], ◌∷◌, Option, none, some, arith, is_some,
}
use boat_backend.Prelude.Int.{pos, ◌≤ℤ◌}
use boat_backend.Core.Errors.{ok}
use boat_backend.Credits.Values.{ocr, grant_action}
use boat_backend.Credits.Domain.{UserCredit, pull_events, total_granted_count, remaining_count}
use boat_backend.Credits.Laws.{topped_up, grant_credit_lem}
use boat_backend.Credits.Ledger.{IsSound, save_transactions}
use boat_backend.Credits.Repository.{
  row_of, save_write, xor_bool, exists_transaction_with_idempotency_key,
  exists_transaction_with_source,
}
use boat_backend.Credits.Commands.{
  GrantCreditCommand, GrantCreditCommandResult, write_grant, grant_credit_execute,
  is_duplicate_grant, settle_grant,
}
use boat_backend.Credits.Commands.Account.{
  user_credit_to_domain_lem, begin, account, account-IsBalanced,
}
use boat_backend.Database.{
  Tables, Write, UserCreditRow, CreditTransactionRow, find_user_credit, insert_credit_transaction,
  insert_outbox_event, reason_action_pair, apply_all, violation, first_violation,
}
use boat_backend.Database.Session.{Session, view, UnitOfWork, flush, commit, commit_of, bind_ok}
use boat_backend.Events.{Event, credit_granted}

save_violation :
    (o : Option UserCreditRow) (row : UserCreditRow) (t : Tables)
    → o ≡ find_user_credit row.user_id row.feature_key t
    → violation (save_write o row) t ≡ none
unfolding violation find_user_credit
save_violation none row t h = ground arith
save_violation (some old) row t h = refl

-- A command that its constructor accepts, with a reason that goes with a grant.
pub record IsValid (c : GrantCreditCommand) : Type 0 where
  pub positive : pos 1 ≤ℤ c.amount.value
  pub allowance : reason_action_pair c.reason grant_action ≡ true
  pub paired : xor_bool (is_some c.source_type) (is_some c.source_id) ≡ false

module _ (t : Tables) (c : GrantCreditCommand) where
  abbrev pub old_row : Option UserCreditRow
  old_row = find_user_credit c.user_id ocr t

  abbrev pub granted_credit : UserCredit
  granted_credit =
      topped_up (account old_row c.user_id) c.amount c.reason c.source_type c.source_id
        c.idempotency_key

  abbrev pub grant_event : Event
  grant_event =
      credit_granted (account old_row c.user_id).id c.amount.value c.reason c.source_type
        c.source_id c.idempotency_key

  abbrev pub grant_row : ℕ → ℕ → CreditTransactionRow
  grant_row id now = record {
    id = id;
    user_id = c.user_id;
    feature_key = ocr;
    reason = c.reason;
    action = grant_action;
    amount = c.amount.value;
    source_type = c.source_type;
    source_id = c.source_id;
    idempotency_key = c.idempotency_key;
    created_at = now;
  }

  abbrev pub grant_writes : ℕ → ℕ → List Write
  grant_writes id now =
      save_write
        (find_user_credit (account old_row c.user_id).id (account old_row c.user_id).feature_key t)
        (row_of granted_credit)
      ∷ insert_credit_transaction (grant_row id now)
      ∷ insert_outbox_event grant_event
      ∷ []

  module _ (arrivals : List (List Write)) (fresh now : ℕ) (valid : IsValid c)
      (h : IsSound old_row) where
    -- A grant that is not a duplicate writes the row, the transaction and the event, in this order.
    pub write_grant-begin : write_grant c (begin t arrivals fresh now) ≡ (
      ok (pull_events granted_credit).1,
      record {
        committed = t;
        pending = grant_writes fresh now;
        arrivals = arrivals;
        fresh = fresh + 1;
        now = now;
      },
    )
    unfolding write_grant view apply_all
    write_grant-begin = ground (
      arith,
      user_credit_to_domain_lem old_row c.user_id h,
      grant_credit_lem (account old_row c.user_id) c.amount (account-IsBalanced old_row c.user_id h)
          valid.positive c.reason c.source_type c.source_id c.idempotency_key,
      valid.paired,
    )

  unfoldable pub grant_result : GrantCreditCommandResult
  grant_result = record {
    total_granted_count = total_granted_count granted_credit;
    remaining_count = remaining_count granted_credit;
  }

  -- A grant that the tables do not hold yet breaks no constraint of theirs.
  pub grant_writes-first_violation :
      (id now : ℕ)
      → reason_action_pair c.reason grant_action ≡ true
      → is_duplicate_grant c t ≡ false
      → first_violation (grant_writes id now) t ≡ none
  unfolding first_violation is_duplicate_grant exists_transaction_with_idempotency_key
      exists_transaction_with_source
  grant_writes-first_violation id now pair new =
      rw
        (save_violation
          (find_user_credit (account old_row c.user_id).id (account old_row c.user_id).feature_key
            t)
          (row_of granted_credit) t refl)
        (rw
          (save_transactions
            (find_user_credit (account old_row c.user_id).id (account old_row c.user_id).feature_key
              t)
            (row_of granted_credit) t)
          (ground arith))

  -- The session between the writes and the flush.
  abbrev pub written : List (List Write) → ℕ → ℕ → Session
  written arrivals fresh now = record {
    committed = t;
    pending = grant_writes fresh now;
    arrivals = arrivals;
    fresh = fresh + 1;
    now = now;
  }

  module _ (uow : UnitOfWork) (arrivals : List (List Write)) (fresh now : ℕ) where
    pub grant_credit_execute-new :
        IsValid c
        → IsSound old_row
        → is_duplicate_grant c t ≡ false
        → grant_credit_execute uow c (begin t arrivals fresh now)
          ≡ settle_grant uow c (pull_events granted_credit).1 (written arrivals fresh now)
    unfolding grant_credit_execute view apply_all
    grant_credit_execute-new valid h new = rw new (
        bind_ok (write_grant c) (settle_grant uow c) (begin t arrivals fresh now)
          (write_grant-begin arrivals fresh now valid h))

  -- With no other session at work, a valid grant that is not a duplicate, over a sound row, answers
  -- the new counts and commits the balance, the transaction and the event.
  pub grant_alone :
      (fresh now : ℕ)
      → IsValid c
      → IsSound old_row
      → is_duplicate_grant c t ≡ false
      → grant_credit_execute UnitOfWork.sql_alchemy c (begin t [] fresh now)
        ≡ (ok grant_result, begin (apply_all (grant_writes fresh now) t) [] (fresh + 1) now)
  unfolding settle_grant flush commit commit_of view grant_result pull_events
  grant_alone fresh now valid h new =
      grant_credit_execute-new UnitOfWork.sql_alchemy [] fresh now valid h new
      ∙ ground (arith, grant_writes-first_violation fresh now valid.allowance new)

-- ===== src/Credits/Commands/Use.antt =====
-- `UseCreditCommandUseCase.execute`: reserve, then finalize, from a session that has just begun.
use boat_backend.Prelude.{
  ℕ, ◌+◌, ◌≡◌, refl, sym, true, List, [], ◌∷◌, Option, none, arith, Bool-cases, inl, inr, ◌∙◌,
  if◌then◌else◌,
}
use boat_backend.Prelude.Int.{pos, ◌≤ℤ◌, leb_ℤ, int_laws}
use boat_backend.Core.Errors.{ok, err, insufficient_credit}
use boat_backend.Credits.Values.{ocr, use_action}
use boat_backend.Credits.Domain.{UserCredit}
use boat_backend.Credits.Laws.{spent, use_credit_lem, spent-IsBalanced}
use boat_backend.Credits.Ledger.{IsSound, IsLedger, post, post-IsLedger, eq_self}
use boat_backend.Credits.Repository.{row_of, save_write}
use boat_backend.Credits.Commands.{
  UseCreditCommand, reserve_credit_execute, finalize_credit_usage_execute, use_credit_execute,
}
use boat_backend.Credits.Commands.Account.{
  begin, account, account-IsBalanced, account-Entry, id-account, feature_key-account,
  user_credit_to_domain_lem,
}
use boat_backend.Database.{
  Tables, Write, UserCreditRow, CreditTransactionRow, find_user_credit, insert_credit_transaction,
  insert_outbox_event, reason_action_pair, apply_all, first_violation, violation,
}
use boat_backend.Database.Session.{
  Session, view, publish, UnitOfWork, commit, commit_of, bind_ok, bind_err,
}
use boat_backend.Events.{credit_used}

module _ (t : Tables) (c : UseCreditCommand) where
  abbrev pub read_row : Option UserCreditRow
  read_row = find_user_credit c.user_id ocr t

  abbrev pub reader : UserCredit
  reader = account read_row c.user_id

  abbrev pub used_row : UserCreditRow
  used_row = row_of (spent reader c.amount)

  abbrev pub saving : Write
  saving = save_write (find_user_credit reader.id reader.feature_key t) used_row

  abbrev pub use_row : ℕ → ℕ → CreditTransactionRow
  use_row id now = record {
    id = id;
    user_id = c.user_id;
    feature_key = ocr;
    reason = c.reason;
    action = use_action;
    amount = c.amount.value;
    source_type = none;
    source_id = none;
    idempotency_key = none;
    created_at = now;
  }

  abbrev pub use_writes : ℕ → ℕ → List Write
  use_writes id now =
      saving
      ∷ insert_credit_transaction (use_row id now)
      ∷ insert_outbox_event (credit_used c.user_id c.amount.value c.reason)
      ∷ []

  -- The session of a reservation: the new balance is written and not committed.
  abbrev pub reserved : List (List Write) → ℕ → ℕ → Session
  reserved arrivals fresh now = record {
    committed = t;
    pending = saving ∷ [];
    arrivals = arrivals;
    fresh = fresh;
    now = now;
  }

  module _ (arrivals : List (List Write)) (fresh now : ℕ) (positive : pos 1 ≤ℤ c.amount.value)
      (h : IsSound read_row) where
    -- A reservation of a positive amount from a sound row writes the smaller balance if the remaining
    -- count covers the amount, and writes nothing and raises if it does not.
    pub reserve_credit-begin : reserve_credit_execute c (begin t arrivals fresh now) ≡ (
        if leb_ℤ c.amount.value reader.balance.remaining.value
        then (ok tt, reserved arrivals fresh now)
        else (err insufficient_credit, begin t arrivals fresh now))
    unfolding reserve_credit_execute view apply_all
    reserve_credit-begin = ground (
      arith,
      user_credit_to_domain_lem read_row c.user_id h,
      use_credit_lem reader c.amount (account-IsBalanced read_row c.user_id h) positive,
    )

  saving_first_violation :
      (id now : ℕ)
      → reason_action_pair c.reason use_action ≡ true
      → first_violation (use_writes id now) t ≡ none
  unfolding first_violation violation find_user_credit
  saving_first_violation id now pair = ground arith

  pub finalize-reserved :
      (arrivals : List (List Write)) (fresh now : ℕ)
      → reason_action_pair c.reason use_action ≡ true
      → finalize_credit_usage_execute UnitOfWork.sql_alchemy c (reserved arrivals fresh now)
        ≡ (ok tt, begin (apply_all (use_writes fresh now) t) arrivals (fresh + 1) now)
  unfolding finalize_credit_usage_execute commit_of commit view publish
  finalize-reserved arrivals fresh now pair = ground (arith, saving_first_violation fresh now pair)

  module _ (arrivals : List (List Write)) (fresh now : ℕ) (positive : pos 1 ≤ℤ c.amount.value)
      (pair : reason_action_pair c.reason use_action ≡ true) (h : IsSound read_row) where
    -- Using a positive amount of credits from a sound row, for a reason that goes with a use, either
    -- commits the smaller balance, the transaction and the event together, when the remaining count
    -- covers the amount, or raises and leaves the session as it began.
    pub use_credit_execute_lem :
        use_credit_execute UnitOfWork.sql_alchemy c (begin t arrivals fresh now) ≡ (
          if leb_ℤ c.amount.value reader.balance.remaining.value
          then (ok tt, begin (apply_all (use_writes fresh now) t) arrivals (fresh + 1) now)
          else (err insufficient_credit, begin t arrivals fresh now))
    unfolding use_credit_execute
    use_credit_execute_lem =
        elim (Bool-cases (leb_ℤ c.amount.value reader.balance.remaining.value)) [
          | inl covered ↦ rw covered (
              bind_ok (reserve_credit_execute c)
                (λ _. finalize_credit_usage_execute UnitOfWork.sql_alchemy c)
                (begin t arrivals fresh now) {s' = reserved arrivals fresh now}
                (reserve_credit-begin arrivals fresh now positive h ∙ rw covered refl)
              ∙ finalize-reserved arrivals fresh now pair)
          | inr short ↦ rw short (
              bind_err (reserve_credit_execute c)
                (λ _. finalize_credit_usage_execute UnitOfWork.sql_alchemy c)
                (begin t arrivals fresh now) {s' = begin t arrivals fresh now}
                (reserve_credit-begin arrivals fresh now positive h ∙ rw short refl))
        ]

    pub use_writes-IsLedger :
        IsLedger t
        → c.amount.value ≤ℤ reader.balance.remaining.value
        → IsLedger (apply_all (use_writes fresh now) t)
    unfolding apply_all post
    use_writes-IsLedger ledger covered =
        let id : reader.id ≡ c.user_id = id-account c.user_id t read_row refl in
        post-IsLedger t _ used_row (use_row fresh now)
          (credit_used c.user_id c.amount.value c.reason) ledger
          (rw (feature_key-account read_row c.user_id) refl) (sym id)
          (let (g, u) = account-Entry read_row c.user_id _ _ (ledger.at c.user_id) in
            rw id (
              spent-IsBalanced reader c.amount (account-IsBalanced read_row c.user_id h) positive
                  covered,
              rw (g, eq_self c.user_id) (omega int_laws),
              rw (u, eq_self c.user_id) refl,
            ))

    -- Using a positive amount of credits, for a reason that goes with a use, keeps the ledger, whether
    -- it is refused or not.
    pub use_keeps_IsLedger :
        IsLedger t
        → IsLedger
            (use_credit_execute UnitOfWork.sql_alchemy c (begin t arrivals fresh now)).1.committed
    use_keeps_IsLedger ledger =
        rw use_credit_execute_lem
          (elim (Bool-cases (leb_ℤ c.amount.value reader.balance.remaining.value)) [
            | inl covered ↦ rw covered (use_writes-IsLedger ledger (ground arith))
            | inr short ↦ rw short ledger
          ])

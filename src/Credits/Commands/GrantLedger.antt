-- ===== src/Credits/Commands/GrantLedger.antt =====
-- Grants and the ledger: `GrantCreditCommandUseCase.execute` next to other sessions, and repeated.
use boat_backend.Prelude.{
  ◌⊎◌, ℕ, ◌≡◌, refl, sym, true, false, List, [], ◌∷◌, Option, none, some, arith, Bool-cases,
  Option-cases, inl, inr, ap, ◌∙◌,
}
use boat_backend.Prelude.Int.{int_laws}
use boat_backend.Credits.Values.{ocr}
use boat_backend.Credits.Laws.{topped_up_Balances}
use boat_backend.Credits.Ledger.{IsSound, IsLedger, post, post-IsLedger, eq_self}
use boat_backend.Credits.Repository.{row_of, save_write, get_balance, flush_error}
use boat_backend.Core.Errors.{
  Constraint, Error, Result, err, credit_transaction_write_conflict, integrity_error,
}
use boat_backend.Credits.Domain.{UserCredit}
use boat_backend.Database.Session.{
  Session, UnitOfWork, flush, commit, commit_of, view, arrive, rollback, rollback_of, except_err,
  flush_fails,
}
use boat_backend.Credits.Commands.{
  GrantCreditCommand, finish_grant, GrantCreditCommandResult, on_conflict, has_idempotent_identity,
  stored_balance, settle_grant, grant_credit_execute, is_duplicate_grant,
}
use boat_backend.Credits.Commands.Account.{
  account-Entry, begin, account, account-IsBalanced, id-account, feature_key-account,
  IsLedger-IsSound,
}
use boat_backend.Credits.Commands.Grant.{
  IsValid, old_row, granted_credit, written, grant_credit_execute-new, grant_row, grant_event,
  grant_writes,
}
use boat_backend.Database.{
  Tables, Write, UserCreditRow, find_user_credit, apply_all, violation, first_violation,
}

module _ (t : Tables) (c : GrantCreditCommand) (valid : IsValid c) (id now : ℕ) where
  -- On top of any tables that hold the user's row as it was read, a grant keeps the ledger.
  pub grant_writes-IsLedger :
      (t' : Tables)
      → IsLedger t'
      → find_user_credit c.user_id ocr t' ≡ old_row t c
      → IsLedger (apply_all (grant_writes t c id now) t')
  unfolding apply_all post
  grant_writes-IsLedger t' h same =
      post-IsLedger t' _ (row_of (granted_credit t c)) (grant_row t c id now) (grant_event t c) h
        (rw (feature_key-account (old_row t c) c.user_id, id-account c.user_id t (old_row t c) refl)
          (sym same))
        (sym (id-account c.user_id t (old_row t c) refl))
        (let (g, u) = account-Entry (old_row t c) c.user_id _ _ (rw same at (h.at c.user_id)) in
          rw (id-account c.user_id t (old_row t c) refl) (
            topped_up_Balances (account (old_row t c) c.user_id) c.amount
                (account-IsBalanced (old_row t c) c.user_id
                  (rw same at (IsLedger-IsSound c.user_id h)))
                valid.positive,
            rw (g, eq_self c.user_id) refl,
            rw (u, eq_self c.user_id) (omega int_laws),
          ))

-- What other sessions have committed by the time of the flush: it keeps the ledger, and it leaves
-- the user's row alone if there is one, since `with_for_update` has locked it.
pub record Respects (t t' : Tables) (user_id : ℕ) : Type 0 where
  pub ledger : IsLedger t'
  pub locked :
      (find_user_credit user_id ocr t ≡ none)
      ⊎ (find_user_credit user_id ocr t' ≡ find_user_credit user_id ocr t)

abbrev pub after_arrivals : List (List Write) → Tables → Tables
after_arrivals [] t = t
after_arrivals (ws ∷ _) t = apply_all ws t

stored_balance-session : (user_id : ℕ) (s : Session) → (stored_balance user_id s).1 ≡ s
unfolding stored_balance get_balance
stored_balance-session user_id s = ground arith

-- An insert that breaks no constraint is of a row that was not there.
absent :
    (o : Option UserCreditRow) (row : UserCreditRow) (t : Tables)
    → o ≡ none
    → violation (save_write o row) t ≡ none
    → find_user_credit row.user_id row.feature_key t ≡ none
unfolding violation find_user_credit
absent none row t h k = ground arith
absent (some old) row t h k = cc

on_conflict-committed :
    (uow : UnitOfWork) (c : GrantCreditCommand) (e : Error) (s : Session)
    → (on_conflict uow c e s).1.committed ≡ s.committed
unfolding rollback_of rollback
on_conflict-committed uow c credit_transaction_write_conflict s =
    elim (Bool-cases (has_idempotent_identity c)) [
      | inl yes_identity ↦ rw yes_identity (
          ap (λ (s' : Session). s'.committed)
            (stored_balance-session c.user_id (record s { pending = [] })))
      | inr no_identity ↦ rw no_identity
    ]
on_conflict-committed uow c e s = refl

first_violation-head :
    (w : Write) (ws : List Write) (t : Tables)
    → first_violation (w ∷ ws) t ≡ none
    → violation w t ≡ none
unfolding first_violation
first_violation-head w ws t h = ground arith

pub finish_fails :
    (uow : UnitOfWork) (u : UserCredit) (s : Session) {k : Constraint}
    → first_violation s.pending (arrive s).committed ≡ some k
    → finish_grant uow u s ≡ (err (flush_error (integrity_error k)), arrive s)
unfolding finish_grant
finish_fails uow u s h = ground (arith, flush_fails s h)

module _ (c : GrantCreditCommand) (u : UserCredit) (s : Session) where
  settle_ok :
      first_violation s.pending (arrive s).committed ≡ none
      → (settle_grant UnitOfWork.sql_alchemy c u s).1.committed
        ≡ apply_all s.pending (arrive s).committed
  unfolding settle_grant flush commit commit_of view
  settle_ok h = ground arith

  settle_fails :
      {k : Constraint}
      → first_violation s.pending (arrive s).committed ≡ some k
      → (settle_grant UnitOfWork.sql_alchemy c u s).1.committed ≡ (arrive s).committed
  unfolding settle_grant
  settle_fails {k} h =
      ap (λ (r : Result GrantCreditCommandResult × Session). r.1.committed)
        (except_err (finish_grant UnitOfWork.sql_alchemy u) (on_conflict UnitOfWork.sql_alchemy c) s
          (finish_fails UnitOfWork.sql_alchemy u s h))
      ∙ on_conflict-committed UnitOfWork.sql_alchemy c (flush_error (integrity_error k)) (arrive s)

module _ (t : Tables) (c : GrantCreditCommand) (arrivals : List (List Write)) (fresh now : ℕ) where
  committed-arrive : (arrive (written t c arrivals fresh now)).committed ≡ after_arrivals arrivals t
  unfolding arrive
  committed-arrive = ground arith

  abbrev pub flushed : Option Constraint
  flushed = first_violation (grant_writes t c fresh now) (after_arrivals arrivals t)

  -- A valid grant that is not a duplicate, over a sound row, leaves all three of its writes
  -- (balance, transaction and event) on top of what the other sessions committed by the flush, or
  -- none.
  pub grant_atomic :
      IsValid c
      → IsSound (old_row t c)
      → is_duplicate_grant c t ≡ false
      → let done =
          (grant_credit_execute UnitOfWork.sql_alchemy c
            (begin t arrivals fresh now)).1.committed in
        (done ≡ after_arrivals arrivals t)
        ⊎ ((done ≡ apply_all (grant_writes t c fresh now) (after_arrivals arrivals t))
            × (flushed ≡ none))
  grant_atomic valid h new =
      rw (grant_credit_execute-new t c UnitOfWork.sql_alchemy arrivals fresh now valid h new)
        (elim (Option-cases flushed) [
          | inl fits ↦ inr (
            rw (settle_ok c _ (written t c arrivals fresh now) (rw committed-arrive fits))
                (ap (apply_all (grant_writes t c fresh now)) committed-arrive),
            fits,
          )
          | inr (k, breaks) ↦ inl (
              settle_fails c _ (written t c arrivals fresh now) {k = k} (rw committed-arrive breaks)
              ∙ committed-arrive)
        ])

  grant_credit_execute-again :
      is_duplicate_grant c t ≡ true
      → grant_credit_execute UnitOfWork.sql_alchemy c (begin t arrivals fresh now)
        ≡ stored_balance c.user_id (begin t arrivals fresh now)
  unfolding grant_credit_execute view apply_all
  grant_credit_execute-again again = rw again refl

  -- A grant that breaks no constraint was written over the row that it read.
  unmoved_row :
      Respects t (after_arrivals arrivals t) c.user_id
      → flushed ≡ none
      → find_user_credit c.user_id ocr (after_arrivals arrivals t) ≡ old_row t c
  unmoved_row others fits = elim others.locked [
    | inl missing ↦
        (let reader : UserCredit = account (old_row t c) c.user_id in
          let id : reader.id ≡ c.user_id = id-account c.user_id t (old_row t c) refl in
          let key : reader.feature_key ≡ ocr = feature_key-account (old_row t c) c.user_id in
          let gone : find_user_credit reader.id reader.feature_key (after_arrivals arrivals t)
              ≡ none =
            absent (find_user_credit reader.id reader.feature_key t) (row_of (granted_credit t c))
              (after_arrivals arrivals t) (rw (key, id) missing)
              (first_violation-head _ _ _ fits) in
          (rw (key, id) at gone) ∙ sym missing)
    | inr same ↦ same
  ]

  -- A grant of a command that its constructor accepts, for a reason that goes with a grant, keeps
  -- the ledger, whether it is new, repeated or refused at the flush, if what the other sessions have
  -- committed by the flush keeps it and leaves the locked row as it was read.
  pub grant_keeps_IsLedger :
      IsValid c
      → IsLedger t
      → Respects t (after_arrivals arrivals t) c.user_id
      → IsLedger
          (grant_credit_execute UnitOfWork.sql_alchemy c (begin t arrivals fresh now)).1.committed
  grant_keeps_IsLedger valid h others = elim (Bool-cases (is_duplicate_grant c t)) [
    | inl again ↦
        rw
          (
            grant_credit_execute-again again,
            stored_balance-session c.user_id (begin t arrivals fresh now),
          )
          h
    | inr new ↦ elim (grant_atomic valid (IsLedger-IsSound c.user_id h) new) [
      | inl nothing ↦ rw nothing others.ledger
      | inr (all, fits) ↦ rw all (
          grant_writes-IsLedger t c valid fresh now (after_arrivals arrivals t) others.ledger
            (unmoved_row others fits))
    ]
  ]

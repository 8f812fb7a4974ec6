-- ===== src/Credits/Commands/GrantRepeat.antt =====
-- Grants that meet their own traces: the same command again, and a write conflict that is taken for it.
use text.Mathlib.TextPositions.{eq_refl}
use boat_backend.Prelude.{
  ℕ, ◌+◌, ◌≡◌, refl, sym, subst, IsIn, Bool-cases, Bool, true, false, List, [], ◌∷◌, ◌++◌, Option,
  none, some, arith, is_some, Option-cases, inl, inr, ◌∙◌, find, ◌&&◌,
}
use boat_backend.Core.Errors.{ok, pk_user_credits}
use boat_backend.Credits.Domain.{UserCredit, pull_events}
use boat_backend.Credits.Commands.GrantLedger.{finish_fails}
use boat_backend.Credits.Values.{
  ocr, source_type_eq, CreditSourceType, promotion_redemption, monthly_allowance, ocr_analysis,
  grant_action,
}
use boat_backend.Credits.Laws.{topped_up_Balances}
use boat_backend.Credits.Ledger.{IsSound, save_transactions, saved, eq_self}
use boat_backend.Credits.Repository.{
  row_of, save_write, is_idempotent_constraint, exists_transaction_with_idempotency_key,
  exists_transaction_with_source,
}
use boat_backend.Credits.Commands.{
  GrantCreditCommand, GrantCreditCommandResult, grant_credit_execute, is_duplicate_grant,
  stored_balance, has_idempotent_identity, settle_grant, finish_grant, on_conflict,
}
use boat_backend.Credits.Commands.Account.{
  begin, account, account-IsBalanced, id-account, feature_key-account, get_balance-begin,
}
use boat_backend.Credits.Commands.Grant.{
  IsValid, old_row, granted_credit, grant_row, grant_writes, grant_result, grant_alone,
  grant_credit_execute-new, written,
}
use boat_backend.Database.{
  Tables, Write, CreditTransactionRow, UserCreditRow, find_user_credit, has_idempotency_key,
  has_source, apply, apply_all, violation, first_violation,
}
use boat_backend.Database.Session.{UnitOfWork, view, except_err, arrive, rollback_of, rollback}

found :
    (p : CreditTransactionRow → Bool) (rows : List CreditTransactionRow)
    (row : CreditTransactionRow)
    → IsIn row rows
    → p row ≡ true
    → is_some (find p rows) ≡ true
found p [] row m h = absurd m
found p (x ∷ xs) row (inl e) h = rw (subst (λ z. p z ≡ true) (sym e) h) refl
found p (x ∷ xs) row (inr m) h = elim (Bool-cases (p x)) [
  | inl t ↦ rw t refl
  | inr t ↦ rw t (found p xs row m h)
]

IsIn-last :
    (rows : List CreditTransactionRow) (row : CreditTransactionRow) → IsIn row (rows ++ row ∷ [])
IsIn-last [] row = inl refl
IsIn-last (x ∷ xs) row = inr (IsIn-last xs row)

source_type_eq_refl : (s : CreditSourceType) → source_type_eq s s ≡ true
source_type_eq_refl promotion_redemption = refl
source_type_eq_refl monthly_allowance = refl
source_type_eq_refl ocr_analysis = refl

both_there :
    (a : Option CreditSourceType) (b : Option ℕ)
    → (is_some a && is_some b) ≡ true
    → (st : CreditSourceType) × (sid : ℕ) × (a ≡ some st) × (b ≡ some sid)
both_there (some st) (some sid) h = (st, sid, refl, refl)
both_there (some st) none h = cc
both_there none b h = cc

module _ (t : Tables) (c : GrantCreditCommand) (id now : ℕ) where
  -- A grant with an identity is a duplicate of its own transaction, while that is in the log.
  recorded-is_duplicate :
      (t' : Tables)
      → has_idempotent_identity c ≡ true
      → IsIn (grant_row t c id now) t'.credit_transactions
      → is_duplicate_grant c t' ≡ true
  unfolding is_duplicate_grant has_idempotent_identity exists_transaction_with_idempotency_key
      exists_transaction_with_source
  recorded-is_duplicate t' identity logged = elim (Option-cases c.idempotency_key) [
    | inr (key, e) ↦ rw e (
        ground (
          arith,
          found (has_idempotency_key key) t'.credit_transactions (grant_row t c id now) logged
              (rw e (eq_refl key)),
        ))
    | inl without ↦
        (let (st, sid, est, esid) = both_there c.source_type c.source_id (rw without at identity) in
          rw (without, est, esid)
            (found (has_source st sid c.user_id ocr grant_action) t'.credit_transactions
              (grant_row t c id now) logged (ground (arith, est, esid, source_type_eq_refl st))))
  ]

-- The answer of a stored balance.
abbrev pub stored_result : Option UserCreditRow → ℕ → GrantCreditCommandResult
stored_result o user_id = record {
  total_granted_count = (account o user_id).balance.total_granted.value;
  remaining_count = (account o user_id).balance.remaining.value;
}

pub stored_balance-begin :
    (t : Tables) (arrivals : List (List Write)) (fresh now user_id : ℕ)
    → IsSound (find_user_credit user_id ocr t)
    → stored_balance user_id (begin t arrivals fresh now)
      ≡ (ok (stored_result (find_user_credit user_id ocr t) user_id), begin t arrivals fresh now)
unfolding stored_balance
stored_balance-begin t arrivals fresh now user_id h =
    ground (arith, get_balance-begin t arrivals fresh now user_id h)

pub grant_again :
    (t : Tables) (c : GrantCreditCommand) (uow : UnitOfWork) (arrivals : List (List Write))
    (fresh now : ℕ)
    → is_duplicate_grant c t ≡ true
    → IsSound (old_row t c)
    → grant_credit_execute uow c (begin t arrivals fresh now)
      ≡ (ok (stored_result (old_row t c) c.user_id), begin t arrivals fresh now)
unfolding grant_credit_execute view apply_all
grant_again t c uow arrivals fresh now again h =
    rw again (stored_balance-begin t arrivals fresh now c.user_id h)

-- An insert of a row that is there breaks the primary key, whatever follows it.
pub insert_clash :
    (o : Option UserCreditRow) (row old : UserCreditRow) (ws : List Write) (t : Tables)
    → o ≡ none
    → find_user_credit row.user_id row.feature_key t ≡ some old
    → first_violation (save_write o row ∷ ws) t ≡ some pk_user_credits
unfolding first_violation violation find_user_credit
insert_clash none row old ws t h k = rw k refl
insert_clash (some x) row old ws t h k = cc

module _ (t : Tables) (c : GrantCreditCommand) (fresh now : ℕ) where
  abbrev after_grant : Tables
  after_grant = apply_all (grant_writes t c fresh now) t

  after_grant-row : find_user_credit c.user_id ocr after_grant ≡ some (row_of (granted_credit t c))
  unfolding apply_all apply find_user_credit
  after_grant-row =
      saved c.user_id (row_of (granted_credit t c)) t _
        (rw (feature_key-account (old_row t c) c.user_id) refl)
      ∙ rw (id-account c.user_id t (old_row t c) refl, eq_self c.user_id) refl

  after_grant-transactions :
      after_grant.credit_transactions ≡ t.credit_transactions ++ grant_row t c fresh now ∷ []
  unfolding apply_all apply
  after_grant-transactions = rw save_transactions refl

  -- A valid grant that carries an idempotency key or a source, made alone over a sound row, takes
  -- effect once. Its transaction is in the log, the row is sound, and the counts stored are those it
  -- answers. The same command again, whatever was committed since, as long as the transaction is in the log and the row is
  -- sound, changes nothing and answers the counts stored then.
  pub grant_twice :
      (uow : UnitOfWork) (since : Tables) (arrivals : List (List Write)) (later today : ℕ)
      → IsValid c
      → IsSound (old_row t c)
      → is_duplicate_grant c t ≡ false
      → has_idempotent_identity c ≡ true
      → IsIn (grant_row t c fresh now) since.credit_transactions
      → IsSound (old_row since c)
      → let (answer, done) = grant_credit_execute UnitOfWork.sql_alchemy c (begin t [] fresh now) in
        IsIn (grant_row t c fresh now) done.committed.credit_transactions
        × IsSound (old_row done.committed c)
        × (answer ≡ ok (stored_result (old_row done.committed c) c.user_id))
        × (grant_credit_execute uow c (begin since arrivals later today)
            ≡ (ok (stored_result (old_row since c) c.user_id), begin since arrivals later today))
  unfolding grant_result
  grant_twice uow since arrivals later today valid h new identity logged sound =
      rw (grant_alone t c fresh now valid h new) (
        rw after_grant-transactions (IsIn-last t.credit_transactions (grant_row t c fresh now)),
        rw after_grant-row (
            topped_up_Balances (account (old_row t c) c.user_id) c.amount
              (account-IsBalanced (old_row t c) c.user_id h) valid.positive),
        rw after_grant-row refl,
        grant_again since c uow arrivals later today
            (recorded-is_duplicate t c fresh now since identity logged) sound,
      )

  -- A valid new grant with a key or a source, whose user has no row yet and whose row another
  -- session inserts before the flush, is answered with that session's counts and leaves nothing
  -- behind, although neither its key nor its source has been recorded.
  pub grant_lost :
      (ws : List Write) (row : UserCreditRow)
      → IsValid c
      → has_idempotent_identity c ≡ true
      → is_duplicate_grant c t ≡ false
      → old_row t c ≡ none
      → find_user_credit c.user_id ocr (apply_all ws t) ≡ some row
      → IsSound (some row)
      → is_duplicate_grant c (apply_all ws t) ≡ false
      → grant_credit_execute UnitOfWork.sql_alchemy c (begin t (ws ∷ []) fresh now)
        ≡ (ok (stored_result (some row) c.user_id), begin (apply_all ws t) [] (fresh + 1) now)
  unfolding settle_grant is_idempotent_constraint arrive rollback_of rollback
  grant_lost ws row valid identity new missing there sound unrecorded =
      let reader : UserCredit = account (old_row t c) c.user_id in
      let id : reader.id ≡ c.user_id = id-account c.user_id t (old_row t c) refl in
      let key : reader.feature_key ≡ ocr = feature_key-account (old_row t c) c.user_id in
      grant_credit_execute-new t c UnitOfWork.sql_alchemy (ws ∷ []) fresh now valid (rw missing tt)
        new
      ∙ except_err (finish_grant UnitOfWork.sql_alchemy (pull_events (granted_credit t c)).1)
          (on_conflict UnitOfWork.sql_alchemy c) (written t c (ws ∷ []) fresh now)
          (finish_fails UnitOfWork.sql_alchemy (pull_events (granted_credit t c)).1
            (written t c (ws ∷ []) fresh now)
            (insert_clash _ _ row _ (apply_all ws t) (rw (key, id) missing) (rw (key, id) there)))
      ∙ rw identity (
          stored_balance-begin (apply_all ws t) [] (fresh + 1) now c.user_id (rw there sound)
          ∙ rw there refl)

-- ===== src/Credits/Repository.antt =====
-- app/modules/credits/infrastructure/persistence: the mapper and `SqlAlchemyCreditRepository`, and
-- the value types of app/modules/credits/application/ports/credit_repository.py.
use boat_backend.Prelude.{
  ℕ, String, Bool, true, false, not, [], ◌∷◌, Option, none, some, ⊤, is_some, find, if◌then◌else◌,
}
use boat_backend.Prelude.Int.{pos}
use boat_backend.Core.Errors.{
  Error, Result, ok, err, Constraint, pk_user_credits,
  ix_credit_transactions_idempotency_key_unique, ix_credit_transactions_source_unique,
  validation_error, integrity_error, credit_transaction_write_conflict,
}
use boat_backend.Credits.Values.{CreditReason, CreditAction, CreditSourceType, ocr}
use boat_backend.Credits.Domain.{
  CreditAmount, CreditBalance, UserCredit, restore, total_granted_count, used_count,
  remaining_count,
}
use boat_backend.Database.{
  Tables, Write, UserCreditRow, find_user_credit, has_source, has_idempotency_key,
  insert_user_credit, update_user_credit, insert_credit_transaction, delete_credit_transactions,
  delete_user_credits,
}
use boat_backend.Database.Session.{
  Action, ◌>>=◌, ◌>>◌, raise, lift, try_except, query, add, uuid4, flush,
}

-- `CreditTransactionAppend`
pub record CreditTransactionAppend : Type 0 where
  pub user_id : ℕ
  pub reason : CreditReason
  pub action : CreditAction
  pub amount : CreditAmount
  pub source_type : Option CreditSourceType
  pub source_id : Option ℕ
  pub idempotency_key : Option String

abbrev pub xor_bool : Bool → Bool → Bool
xor_bool a b = if a then not b else b

-- `CreditTransactionAppend.__post_init__`
unfoldable pub credit_transaction_append : CreditTransactionAppend → Result CreditTransactionAppend
credit_transaction_append t =
    if xor_bool (is_some t.source_type) (is_some t.source_id)
    then err (validation_error ("source" ∷ []))
    else ok t

-- `mapper.user_credit_to_domain`
unfoldable pub user_credit_to_domain : Option UserCreditRow → ℕ → Result UserCredit
user_credit_to_domain none user_id = restore user_id ocr (pos 0) (pos 0) (pos 0)
user_credit_to_domain (some row) user_id =
    restore row.user_id row.feature_key row.total_granted_count row.used_count row.remaining_count

abbrev balance_of : Result UserCredit → Result CreditBalance
balance_of (ok u) = ok u.balance
balance_of (err e) = err e

-- `mapper.user_credit_to_balance`
unfoldable pub user_credit_to_balance : Option UserCreditRow → ℕ → Result CreditBalance
user_credit_to_balance row user_id = balance_of (user_credit_to_domain row user_id)

unfoldable pub get_balance : ℕ → Action CreditBalance
unfolding user_credit_to_balance
get_balance user_id = do
  row ← query (find_user_credit user_id ocr)
  lift (user_credit_to_balance row user_id)

unfoldable pub get_user_credit_for_update : ℕ → Action UserCredit
get_user_credit_for_update user_id = do
  row ← query (find_user_credit user_id ocr)
  lift (user_credit_to_domain row user_id)

abbrev pub row_of : UserCredit → UserCreditRow
row_of u = record {
  user_id = u.id;
  feature_key = u.feature_key;
  total_granted_count = total_granted_count u;
  used_count = used_count u;
  remaining_count = remaining_count u;
}

-- The write that stores a row: an insert or an update, as the record is there or not.
abbrev pub save_write : Option UserCreditRow → UserCreditRow → Write
save_write none row = insert_user_credit row
save_write (some _) row = update_user_credit row

unfoldable pub save : UserCredit → Action ⊤
save u = do
  record_found ← query (find_user_credit u.id u.feature_key)
  add (save_write record_found (row_of u))

unfoldable pub append_transaction : CreditTransactionAppend → Action ⊤
unfolding uuid4
append_transaction t = do
  id ← uuid4
  λ s.
      add
        (insert_credit_transaction (record {
          id = id;
          user_id = t.user_id;
          feature_key = ocr;
          reason = t.reason;
          action = t.action;
          amount = t.amount.value;
          source_type = t.source_type;
          source_id = t.source_id;
          idempotency_key = t.idempotency_key;
          created_at = s.now;
        }))
        s

-- `_IDEMPOTENT_CREDIT_TRANSACTION_CONSTRAINTS`
unfoldable pub is_idempotent_constraint : Constraint → Bool
is_idempotent_constraint pk_user_credits = true
is_idempotent_constraint ix_credit_transactions_idempotency_key_unique = true
is_idempotent_constraint ix_credit_transactions_source_unique = true
is_idempotent_constraint _ = false

-- What `flush_pending_writes` raises for what `session.flush` raises.
abbrev pub flush_error : Error → Error
flush_error (integrity_error c) =
    if is_idempotent_constraint c then credit_transaction_write_conflict else integrity_error c
flush_error e = e

unfoldable pub flush_pending_writes : Action ⊤
unfolding is_idempotent_constraint
flush_pending_writes = try_except flush (λ e. raise (flush_error e))

unfoldable pub exists_transaction_with_idempotency_key : String → Tables → Bool
exists_transaction_with_idempotency_key key t =
    is_some (find (has_idempotency_key key) t.credit_transactions)

unfoldable pub exists_transaction_with_source :
    CreditSourceType → ℕ → ℕ → CreditAction → Tables → Bool
exists_transaction_with_source source_type source_id user_id action t =
    is_some (find (has_source source_type source_id user_id ocr action) t.credit_transactions)

unfoldable pub delete_by_user_id : ℕ → Action ⊤
delete_by_user_id user_id = do
  add (delete_credit_transactions user_id)
  add (delete_user_credits user_id)

-- ===== src/Credits/Commands.antt =====
-- app/modules/credits/application/commands: grant, reserve, finalize, use and delete.
pub mod Account
pub mod Grant
pub mod GrantLedger
pub mod GrantRepeat
pub mod Use
pub mod GrantWithin
use boat_backend.Prelude.{
  ℕ, String, Bool, true, false, not, ◌&&◌, ◌||◌, List, [], ◌∷◌, Option, none, some, ⊤, is_some,
  if◌then◌else◌,
}
use boat_backend.Prelude.Int.{ℤ}
use boat_backend.Core.Errors.{
  Error, Result, ok, err, validation_error, credit_transaction_write_conflict,
}
use boat_backend.Credits.Values.{CreditReason, CreditSourceType, grant_action, use_action}
use boat_backend.Credits.Domain.{
  CreditAmount, UserCredit, use_credit, grant_credit, pull_events, total_granted_count,
  remaining_count,
}
use boat_backend.Credits.Repository.{
  get_balance, get_user_credit_for_update, save, append_transaction, flush_pending_writes,
  exists_transaction_with_idempotency_key, exists_transaction_with_source, delete_by_user_id,
  xor_bool, credit_transaction_append,
}
use boat_backend.Database.{Tables}
use boat_backend.Database.Session.{
  Session, Action, ◌>>=◌, ◌>>◌, pure, raise, lift, query, try_except, UnitOfWork, commit_of,
  rollback_of, publish,
}
use boat_backend.Events.{credit_used, user_credits_deleted}

pub record GrantCreditCommand : Type 0 where
  pub user_id : ℕ
  pub amount : CreditAmount
  pub reason : CreditReason
  pub source_type : Option CreditSourceType
  pub source_id : Option ℕ
  pub idempotency_key : Option String

pub record GrantCreditCommandResult : Type 0 where
  pub total_granted_count : ℤ
  pub remaining_count : ℤ

pub record UseCreditCommand : Type 0 where
  pub user_id : ℕ
  pub amount : CreditAmount
  pub reason : CreditReason

-- `GrantCreditCommand.__post_init__`
unfoldable pub grant_credit_command : GrantCreditCommand → Result GrantCreditCommand
grant_credit_command c =
    if xor_bool (is_some c.source_type) (is_some c.source_id)
    then err (validation_error ("source" ∷ []))
    else ok c

abbrev key_exists : Option String → Tables → Bool
key_exists none t = false
key_exists (some key) t = exists_transaction_with_idempotency_key key t

abbrev source_exists : GrantCreditCommand → Tables → Bool
source_exists c t = elim c.source_type [
  | none ↦ false
  | some source_type ↦ elim c.source_id [
    | none ↦ false
    | some source_id ↦ exists_transaction_with_source source_type source_id c.user_id grant_action t
  ]
]

-- `_is_duplicate_grant`
unfoldable pub is_duplicate_grant : GrantCreditCommand → Tables → Bool
is_duplicate_grant c t = key_exists c.idempotency_key t || source_exists c t

-- `_has_idempotent_identity`
unfoldable pub has_idempotent_identity : GrantCreditCommand → Bool
has_idempotent_identity c =
    is_some c.idempotency_key || is_some c.source_type && is_some c.source_id

-- The answer that reads the stored balance.
unfoldable pub stored_balance : ℕ → Action GrantCreditCommandResult
unfolding get_balance
stored_balance user_id = do
  balance ← get_balance user_id
  pure (record {
    total_granted_count = balance.total_granted.value;
    remaining_count = balance.remaining.value;
  })

-- The writes of a grant that is not a duplicate, before the flush.
unfoldable pub write_grant : GrantCreditCommand → Action UserCredit
unfolding get_user_credit_for_update save append_transaction credit_transaction_append pull_events
    publish
write_grant c = do
  user_credit ← get_user_credit_for_update c.user_id
  granted ←
      lift (grant_credit user_credit c.amount c.reason c.source_type c.source_id c.idempotency_key)
  save granted
  transaction ← lift (
      credit_transaction_append (record {
        user_id = c.user_id;
        reason = c.reason;
        action = grant_action;
        amount = c.amount;
        source_type = c.source_type;
        source_id = c.source_id;
        idempotency_key = c.idempotency_key;
      }))
  append_transaction transaction
  publish (pull_events granted).0
  pure (pull_events granted).1

-- `except CreditTransactionWriteConflictError`
abbrev pub on_conflict : UnitOfWork → GrantCreditCommand → Error → Action GrantCreditCommandResult
on_conflict uow c credit_transaction_write_conflict =
    if has_idempotent_identity c
    then rollback_of uow >> stored_balance c.user_id
    else raise credit_transaction_write_conflict
on_conflict uow c e = raise e

abbrev pub granted_result : UserCredit → GrantCreditCommandResult
granted_result granted = record {
  total_granted_count = total_granted_count granted;
  remaining_count = remaining_count granted;
}

-- The flush and the commit, which stand in the `try` block, and the answer after them.
unfoldable pub finish_grant : UnitOfWork → UserCredit → Action GrantCreditCommandResult
unfolding flush_pending_writes
finish_grant uow granted = do flush_pending_writes; commit_of uow; pure (granted_result granted)

-- The `try` statement.
unfoldable pub settle_grant :
    UnitOfWork → GrantCreditCommand → UserCredit → Action GrantCreditCommandResult
unfolding finish_grant stored_balance has_idempotent_identity
settle_grant uow c granted = try_except (finish_grant uow granted) (on_conflict uow c)

-- `GrantCreditCommandUseCase.execute`
unfoldable pub grant_credit_execute :
    UnitOfWork → GrantCreditCommand → Action GrantCreditCommandResult
grant_credit_execute uow c = do
  duplicate ← query (is_duplicate_grant c)
  if duplicate
      then stored_balance c.user_id
      else do granted ← write_grant c; settle_grant uow c granted

-- `ReserveCreditCommandUseCase.execute`
unfoldable pub reserve_credit_execute : UseCreditCommand → Action ⊤
unfolding get_user_credit_for_update save
reserve_credit_execute c = do
  user_credit ← get_user_credit_for_update c.user_id
  used ← lift (use_credit user_credit c.amount)
  save used

-- `FinalizeCreditUsageCommandUseCase.execute`
unfoldable pub finalize_credit_usage_execute : UnitOfWork → UseCreditCommand → Action ⊤
unfolding append_transaction
finalize_credit_usage_execute uow c = do
  append_transaction (record {
    user_id = c.user_id;
    reason = c.reason;
    action = use_action;
    amount = c.amount;
    source_type = none;
    source_id = none;
    idempotency_key = none;
  })
  publish (credit_used c.user_id c.amount.value c.reason ∷ [])
  commit_of uow

-- `UseCreditCommandUseCase.execute`
unfoldable pub use_credit_execute : UnitOfWork → UseCreditCommand → Action ⊤
unfolding reserve_credit_execute finalize_credit_usage_execute
use_credit_execute uow c = reserve_credit_execute c >> finalize_credit_usage_execute uow c

-- `DeleteUserCreditsCommandUseCase.execute`
unfoldable pub delete_user_credits_execute : UnitOfWork → ℕ → Action ⊤
unfolding delete_by_user_id
delete_user_credits_execute uow user_id = do
  delete_by_user_id user_id
  publish (user_credits_deleted user_id ∷ [])
  commit_of uow

-- ===== src/Tests/Credits.antt =====
-- The theorems on app/modules/credits at a user who was granted ten credits and has used three.
use boat_backend.Prelude.{
  ℕ, ◌≡◌, ◌⊎◌, inl, inr, refl, true, false, List, [], ◌∷◌, ◌++◌, IsIn, none, some, arith, ◌==◌,
  Bool-cases, if◌then◌else◌,
}
use boat_backend.Prelude.Int.{pos, ◌+ℤ◌, leb_ℤ}
use boat_backend.Core.Errors.{ok, err, insufficient_credit}
use boat_backend.Credits.Values.{
  ocr, event_ocr_allowance, ocr_usage, grant_action, use_action, promotion_redemption,
}
use boat_backend.Credits.Domain.{UserCredit, CreditAmount}
use boat_backend.Credits.Laws.{Balances, balance}
use boat_backend.Credits.Ledger.{IsLedger, IsSound, total_of}
use boat_backend.Credits.Repository.{
  exists_transaction_with_idempotency_key, exists_transaction_with_source,
}
use boat_backend.Credits.Commands.{
  GrantCreditCommand, UseCreditCommand, grant_credit_execute, use_credit_execute,
  is_duplicate_grant, has_idempotent_identity,
}
use boat_backend.Credits.Commands.Account.{begin}
use boat_backend.Credits.Commands.Grant.{
  IsValid, old_row, grant_row, grant_writes, grant_result, grant_alone,
}
use boat_backend.Credits.Commands.GrantLedger.{
  Respects, after_arrivals, flushed, grant_atomic, grant_keeps_IsLedger,
}
use boat_backend.Credits.Commands.GrantRepeat.{grant_twice, grant_lost, stored_result}
use boat_backend.Credits.Commands.Use.{
  reader, use_writes, use_credit_execute_lem, use_keeps_IsLedger,
}
use boat_backend.Database.{
  Tables, Write, UserCreditRow, CreditTransactionRow, insert_user_credit, find_user_credit, apply,
  apply_all,
}
use boat_backend.Database.Session.{UnitOfWork}

abbrev three : CreditAmount
three = record { value = pos 3 }

abbrev stored : UserCreditRow
stored = record {
  user_id = 1;
  feature_key = ocr;
  total_granted_count = pos 10;
  used_count = pos 3;
  remaining_count = pos 7;
}

abbrev first_grant : CreditTransactionRow
first_grant = record {
  id = 20;
  user_id = 1;
  feature_key = ocr;
  reason = event_ocr_allowance;
  action = grant_action;
  amount = pos 10;
  source_type = some promotion_redemption;
  source_id = some 30;
  idempotency_key = some "first";
  created_at = 5;
}

abbrev first_use : CreditTransactionRow
first_use = record {
  id = 21;
  user_id = 1;
  feature_key = ocr;
  reason = ocr_usage;
  action = use_action;
  amount = pos 3;
  source_type = none;
  source_id = none;
  idempotency_key = none;
  created_at = 6;
}

abbrev no_rows : Tables
no_rows = record {
  user_credits = [];
  credit_transactions = [];
  outbox_events = [];
  promotions = [];
  promotion_contents = [];
  promotion_codes = [];
  promotion_redemptions = [];
}

abbrev pub one_user : Tables
one_user = record no_rows {
  user_credits = stored ∷ [];
  credit_transactions = first_grant ∷ first_use ∷ [];
}

pub stored_Balances : Balances (pos 10) (pos 3) (pos 7)
unfolding ◌+ℤ◌
stored_Balances = record {
  used_nonneg = omega arith;
  remaining_nonneg = omega arith;
  adds_up = refl;
}

pub one_user-IsLedger : IsLedger one_user
unfolding find_user_credit total_of ◌+ℤ◌
one_user-IsLedger = record {
  at = λ j. elim (Bool-cases (1 == j)) [
    | inl own ↦ rw own (stored_Balances, refl, refl)
    | inr other ↦ rw other (refl, refl)
  ];
}

abbrev granting : ℕ → GrantCreditCommand
granting user_id = record {
  user_id = user_id;
  amount = three;
  reason = event_ocr_allowance;
  source_type = some promotion_redemption;
  source_id = some 31;
  idempotency_key = some "second";
}

granting-IsValid : (user_id : ℕ) → IsValid (granting user_id)
granting-IsValid user_id = record { positive = omega arith; allowance = refl; paired = refl }

abbrev using : UseCreditCommand
using = record { user_id = 1; amount = three; reason = ocr_usage }

abbrev account_of_one : UserCredit
account_of_one = record {
  id = 1;
  feature_key = ocr;
  balance = balance (pos 10) (pos 3) (pos 7);
  domain_events = [];
}

not_granted : is_duplicate_grant (granting 1) one_user ≡ false
unfolding is_duplicate_grant exists_transaction_with_idempotency_key exists_transaction_with_source
not_granted = refl

old_row-IsSound : IsSound (old_row one_user (granting 1))
unfolding find_user_credit
old_row-IsSound = stored_Balances

grant_alone_example :
    grant_credit_execute UnitOfWork.sql_alchemy (granting 1) (begin one_user [] 40 7) ≡ (
      ok (grant_result one_user (granting 1)),
      begin (apply_all (grant_writes one_user (granting 1) 40 7) one_user) [] 41 7,
    )
grant_alone_example =
    grant_alone one_user (granting 1) 40 7 (granting-IsValid 1) old_row-IsSound not_granted

one_user-Respects : Respects one_user (after_arrivals [] one_user) 1
one_user-Respects = record { ledger = one_user-IsLedger; locked = inr refl }

grant_keeps_IsLedger_example :
    IsLedger
      (grant_credit_execute UnitOfWork.sql_alchemy
        (granting 1)
        (begin one_user [] 40 7)).1.committed
grant_keeps_IsLedger_example =
    grant_keeps_IsLedger one_user (granting 1) [] 40 7 (granting-IsValid 1) one_user-IsLedger
      one_user-Respects

grant_atomic_example :
    let done =
      (grant_credit_execute UnitOfWork.sql_alchemy
        (granting 1)
        (begin one_user [] 40 7)).1.committed in
    (done ≡ one_user)
    ⊎ ((done ≡ apply_all (grant_writes one_user (granting 1) 40 7) one_user)
        × (flushed one_user (granting 1) [] 40 7 ≡ none))
grant_atomic_example =
    grant_atomic one_user (granting 1) [] 40 7 (granting-IsValid 1) old_row-IsSound not_granted

identified : has_idempotent_identity (granting 1) ≡ true
unfolding has_idempotent_identity
identified = refl

-- Since the grant the user has spent one more credit.
abbrev spent : UserCreditRow
spent = record stored { total_granted_count = pos 13; used_count = pos 4; remaining_count = pos 9 }

abbrev since : Tables
since = record one_user {
  user_credits = spent ∷ [];
  credit_transactions = one_user.credit_transactions ++ grant_row one_user (granting 1) 40 7 ∷ [];
}

since-IsSound : IsSound (old_row since (granting 1))
unfolding find_user_credit ◌+ℤ◌
since-IsSound = record { used_nonneg = omega arith; remaining_nonneg = omega arith; adds_up = refl }

still_logged : IsIn (grant_row one_user (granting 1) 40 7) since.credit_transactions
still_logged = inr (inr (inl refl))

grant_twice_example :
    let (answer, done) =
      grant_credit_execute UnitOfWork.sql_alchemy (granting 1) (begin one_user [] 40 7) in
    IsIn (grant_row one_user (granting 1) 40 7) done.committed.credit_transactions
    × IsSound (old_row done.committed (granting 1))
    × (answer ≡ ok (stored_result (old_row done.committed (granting 1)) 1))
    × (grant_credit_execute UnitOfWork.deferred_commit (granting 1) (begin since [] 50 8)
        ≡ (ok (stored_result (old_row since (granting 1)) 1), begin since [] 50 8))
grant_twice_example =
    grant_twice one_user (granting 1) 40 7 UnitOfWork.deferred_commit since [] 50 8
      (granting-IsValid 1) old_row-IsSound not_granted identified still_logged since-IsSound

-- Another session gives the user the row that the grant has not found.
abbrev others_row : List Write
others_row = insert_user_credit stored ∷ []

unrecorded : is_duplicate_grant (granting 1) no_rows ≡ false
unfolding is_duplicate_grant exists_transaction_with_idempotency_key exists_transaction_with_source
unrecorded = refl

no_row : old_row no_rows (granting 1) ≡ none
unfolding find_user_credit
no_row = refl

others_row_there : find_user_credit 1 ocr (apply_all others_row no_rows) ≡ some stored
unfolding find_user_credit apply_all apply
others_row_there = refl

still_unrecorded : is_duplicate_grant (granting 1) (apply_all others_row no_rows) ≡ false
unfolding is_duplicate_grant exists_transaction_with_idempotency_key exists_transaction_with_source
    apply_all apply
still_unrecorded = refl

grant_lost_example :
    grant_credit_execute UnitOfWork.sql_alchemy (granting 1) (begin no_rows (others_row ∷ []) 40 7)
    ≡ (ok (stored_result (some stored) 1), begin (apply_all others_row no_rows) [] 41 7)
grant_lost_example =
    grant_lost no_rows (granting 1) 40 7 others_row stored (granting-IsValid 1) identified
      unrecorded no_row others_row_there stored_Balances still_unrecorded

use_credit_execute_lem_example :
    use_credit_execute UnitOfWork.sql_alchemy using (begin one_user [] 40 7) ≡ (
      if leb_ℤ (pos 3) (reader one_user using).balance.remaining.value
      then (ok tt, begin (apply_all (use_writes one_user using 40 7) one_user) [] 41 7)
      else (err insufficient_credit, begin one_user [] 40 7))
use_credit_execute_lem_example =
    use_credit_execute_lem one_user using [] 40 7 (omega arith) refl old_row-IsSound

use_keeps_IsLedger_example :
    IsLedger (use_credit_execute UnitOfWork.sql_alchemy using (begin one_user [] 40 7)).1.committed
use_keeps_IsLedger_example =
    use_keeps_IsLedger one_user using [] 40 7 (omega arith) refl old_row-IsSound one_user-IsLedger

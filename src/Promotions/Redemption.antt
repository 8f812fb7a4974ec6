-- ===== src/Promotions/Redemption.antt =====
-- app/modules/promotions/application/commands/redemption_executor.py, and the port to the credits
-- module, `CreditsPromotionCreditGrantPort` of app/modules/promotions/dependencies.py.
use boat_backend.Prelude.{ℕ, ◌-◌, String, Bool, true, false, Option, none, some, ⊤}
use boat_backend.Prelude.Int.{ℤ}
use boat_backend.Core.Errors.{Result, ok, promotion_not_found}
use boat_backend.Credits.Values.{event_ocr_allowance, promotion_redemption}
use boat_backend.Credits.Domain.{credit_amount}
use boat_backend.Credits.Commands.{
  GrantCreditCommandResult, grant_credit_command, grant_credit_execute, stored_balance,
}
use boat_backend.Database.Session.{
  Action, ◌>>=◌, ◌>>◌, pure, raise, lift, uuid4, UnitOfWork, deferred_commit, commit_of, publish,
}
use boat_backend.Promotions.Domain.{
  Promotion, PromotionCode, PromotionContent, PromotionRedemption, PromotionRedemptionStatus,
  ensure_redeemable, ensure_code_redeemable, ensure_user_can_redeem, record_redemption,
  record_code_redemption, create_granted, pull_redemption_events,
}
use boat_backend.Promotions.Repository.{
  find_redemption_by_idempotency_key, find_promotion_for_update, find_content_by_promotion_id,
  count_user_redemptions, create_redemption, save_promotion, save_code,
}

-- `CreditsPromotionCreditGrantPort.grant_ocr_credit`; the grant's commit is deferred.
unfoldable pub grant_ocr_credit : ℕ → ℤ → ℕ → String → Action GrantCreditCommandResult
grant_ocr_credit user_id amount redemption_id key = do
  credit ← lift (credit_amount amount "amount")
  command ← lift (
      grant_credit_command (record {
        user_id = user_id;
        amount = credit;
        reason = event_ocr_allowance;
        source_type = some promotion_redemption;
        source_id = some redemption_id;
        idempotency_key = some key;
      }))
  grant_credit_execute deferred_commit command

-- `CreatePromotionRedemptionResult`
pub record RedemptionResult : Type 0 where
  pub redemption_id : ℕ
  pub promotion_id : ℕ
  pub promotion_code_id : Option ℕ
  pub status : PromotionRedemptionStatus
  pub already_redeemed : Bool
  pub credit_granted : Bool
  pub benefit_amount : ℤ
  pub remaining_redemptions : Option ℕ
  pub credit_balance_after : ℤ
  pub credit_remaining_after : ℤ
  pub banner_image_url : Option String

-- `_remaining_redemptions`; `-` on ℕ stops at 0, which is the `max(…, 0)`.
unfoldable pub remaining_redemptions : Promotion → Option ℕ
remaining_redemptions p = elim p.max_redemptions [
  | none ↦ none
  | some limit ↦ some (limit - p.times_redeemed)
]

-- `_banner_image_url`
abbrev pub banner_image_url : Option PromotionContent → Option String
banner_image_url none = none
banner_image_url (some content) = content.banner_image_url

-- `_result`
unfoldable pub redemption_result :
    PromotionRedemption
    → Promotion
    → Option PromotionContent
    → Bool
    → Bool
    → GrantCreditCommandResult
    → RedemptionResult
unfolding remaining_redemptions
redemption_result r p content already granted counts = record {
  redemption_id = r.id;
  promotion_id = r.promotion_id;
  promotion_code_id = r.promotion_code_id;
  status = r.status;
  already_redeemed = already;
  credit_granted = granted;
  benefit_amount = p.benefit_amount;
  remaining_redemptions = remaining_redemptions p;
  credit_balance_after = counts.total_granted_count;
  credit_remaining_after = counts.remaining_count;
  banner_image_url = banner_image_url content;
}

-- The answer of `replay_if_existing` for a redemption that is there.
unfoldable pub replay : ℕ → PromotionRedemption → Action (Option RedemptionResult)
replay user_id existing = do
  promotion ← find_promotion_for_update existing.promotion_id
  λ s. elim promotion [
    | none ↦ raise promotion_not_found s
    | some p ↦
        (do
          counts ← stored_balance user_id
          content ← find_content_by_promotion_id p.id
          pure (some (redemption_result existing p content true false counts)))
          s
  ]

-- `PromotionRedemptionExecutor.replay_if_existing`
unfoldable pub replay_if_existing : ℕ → String → Action (Option RedemptionResult)
replay_if_existing user_id key = do
  existing ← find_redemption_by_idempotency_key key
  λ s. elim existing [ none ↦ pure none s | some r ↦ replay user_id r s ]

-- `_promotion_code_id`
abbrev pub promotion_code_id : Option PromotionCode → Option ℕ
promotion_code_id none = none
promotion_code_id (some code) = some code.id

abbrev pub ensure_code : Option PromotionCode → ℕ → Result ⊤
ensure_code none at = ok tt
ensure_code (some code) at = ensure_code_redeemable code at

abbrev pub save_code_if_given : Option PromotionCode → Action ⊤
save_code_if_given none = pure tt
save_code_if_given (some code) = save_code (record_code_redemption code)

-- The checks of `redeem`, all before anything is written.
unfoldable pub check_redeem : ℕ → ℕ → Promotion → Option PromotionCode → Action ⊤
check_redeem now user_id p code = do
  lift (ensure_code code now)
  lift (ensure_redeemable p now)
  user_redemption_count ← count_user_redemptions user_id p.id
  lift (ensure_user_can_redeem p user_redemption_count)

-- The writes of `redeem`, up to the commit.
unfoldable pub write_redeem :
    ℕ
    → PromotionRedemption
    → Promotion
    → Option PromotionCode
    → String
    → Action GrantCreditCommandResult
write_redeem user_id redemption p code key = do
  create_redemption redemption
  save_promotion (record_redemption p)
  save_code_if_given code
  publish (pull_redemption_events redemption).0
  grant_ocr_credit redemption.user_id p.benefit_amount redemption.id key

-- `PromotionRedemptionExecutor.redeem`; `now` is the clock's answer.
unfoldable pub redeem :
    UnitOfWork → ℕ → ℕ → Promotion → Option PromotionCode → String → Action RedemptionResult
redeem uow now user_id p code key = do
  check_redeem now user_id p code
  id ← uuid4
  let redemption =
      create_granted id p.id (promotion_code_id code) user_id none key now p.benefit_amount
  counts ← write_redeem user_id redemption p code key
  commit_of uow
  content ← find_content_by_promotion_id p.id
  pure (redemption_result redemption (record_redemption p) content false true counts)

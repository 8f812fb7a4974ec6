-- ===== src/Promotions/Commands.antt =====
-- The use cases of app/modules/promotions/application: redemption by a promotion's identifier, by a
-- code, and at signup, and the query for the current promotion.
use boat_backend.Prelude.{ℕ, String, Bool, true, false, Option, none, some, ⊤}
use boat_backend.Core.Errors.{Result, ok, err, promotion_not_found, promotion_code_not_found}
use boat_backend.Database.Session.{
  Action, ◌>>=◌, ◌>>◌, pure, raise, lift, uuid4, UnitOfWork, commit_of, publish,
}
use boat_backend.Promotions.Domain.{
  Promotion, PromotionCode, recharge, signup, ensure_redeemable, record_redemption, create_granted,
  pull_redemption_events,
}
use boat_backend.Promotions.Keys.{promotion_key, code_key, signup_redemption_key, signup_credit_key}
use boat_backend.Promotions.Redemption.{
  RedemptionResult, replay_if_existing, redeem, grant_ocr_credit,
}
use boat_backend.Promotions.Repository.{
  find_promotion_for_update, find_code_by_code_for_update, find_current_ocr_credit_promotion,
  find_redemption_by_promotion_and_beneficiary, create_redemption, save_promotion,
}

-- `match promotion.context`: signup promotions are hidden from these use cases.
abbrev pub ensure_open : Promotion → Result ⊤
ensure_open p = elim p.context [
  | none ↦ ok tt
  | some recharge ↦ ok tt
  | some signup ↦ err promotion_not_found
]

-- The part that both use cases share: the replay, or else the redemption.
unfoldable pub replay_or_redeem :
    UnitOfWork → ℕ → ℕ → Promotion → Option PromotionCode → String → Action RedemptionResult
replay_or_redeem uow now user_id p code key = do
  replayed ← replay_if_existing user_id key
  λ s. elim replayed [ some result ↦ pure result s | none ↦ redeem uow now user_id p code key s ]

-- What follows once the promotion has been looked up.
unfoldable pub redeem_found :
    UnitOfWork → ℕ → ℕ → Option Promotion → Option PromotionCode → String → Action RedemptionResult
redeem_found uow now user_id none code key = raise promotion_not_found
redeem_found uow now user_id (some p) code key = do
  lift (ensure_open p)
  replay_or_redeem uow now user_id p code key

module _ (str : ℕ → String) where
  -- `CreatePromotionRedemptionCommandUseCase.execute`
  unfoldable pub create_promotion_redemption_execute :
      UnitOfWork → ℕ → ℕ → ℕ → Option String → Action RedemptionResult
  unfolding promotion_key redeem_found
  create_promotion_redemption_execute uow now user_id promotion_id key = do
    promotion ← find_promotion_for_update promotion_id
    redeem_found uow now user_id promotion none (promotion_key str promotion_id user_id key)

  -- `CreatePromotionCodeRedemptionCommandUseCase.execute`
  unfoldable pub create_promotion_code_redemption_execute :
      (String → String) → UnitOfWork → ℕ → ℕ → String → Option String → Action RedemptionResult
  unfolding code_key redeem_found
  create_promotion_code_redemption_execute lower uow now user_id code key = do
    found ← find_code_by_code_for_update lower code
    λ s. elim found [
      | none ↦ raise promotion_code_not_found s
      | some c ↦
          (do
            promotion ← find_promotion_for_update c.promotion_id
            redeem_found uow now user_id promotion (some c) (code_key str c.id user_id key))
            s
    ]

  -- The writes of a signup redemption.
  unfoldable pub redeem_signup : UnitOfWork → ℕ → ℕ → String → Promotion → Action Bool
  unfolding signup_redemption_key signup_credit_key
  redeem_signup uow now user_id beneficiary_key p = do
    lift (ensure_redeemable p now)
    id ← uuid4
    let redemption =
        create_granted id p.id none user_id (some beneficiary_key)
          (signup_redemption_key str p.id id) now p.benefit_amount
    create_redemption redemption
    save_promotion (record_redemption p)
    publish (pull_redemption_events redemption).0
    grant_ocr_credit user_id p.benefit_amount id (signup_credit_key str p.id id)
    commit_of uow
    pure true

  -- `RedeemSignupPromotionCommandUseCase.execute`; the answer is `granted`.
  unfoldable pub redeem_signup_promotion_execute : UnitOfWork → ℕ → ℕ → String → Action Bool
  redeem_signup_promotion_execute uow now user_id beneficiary_key = do
    promotion ← find_current_ocr_credit_promotion now (some signup)
    λ s. elim promotion [
      | none ↦ pure false s
      | some p ↦
          (do
            existing ← find_redemption_by_promotion_and_beneficiary p.id beneficiary_key
            λ s'. elim existing [
              | some _ ↦ pure false s'
              | none ↦ redeem_signup uow now user_id beneficiary_key p s'
            ])
            s
    ]

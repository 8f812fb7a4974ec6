-- ===== src/Promotions/Keys.antt =====
-- The idempotency keys of redemptions and grants (`_idempotency_key` and its like in
-- app/modules/promotions/application/commands). `str` is the text of a UUID.
use Prim.Native.String.{◌++◌}
use boat_backend.Prelude.{ℕ, String, Option, none, some}

module _ (str : ℕ → String) where
  -- `f"…:{a}:{b}"`, or `f"…:{a}:{b}:{key}"` where the client sent a key
  abbrev pub keyed : String → ℕ → ℕ → Option String → String
  keyed prefix a b none = prefix ++ (str a ++ (":" ++ str b))
  keyed prefix a b (some key) = prefix ++ (str a ++ (":" ++ (str b ++ (":" ++ key))))

  -- create_promotion_redemption/use_case.py
  unfoldable pub promotion_key : ℕ → ℕ → Option String → String
  promotion_key promotion_id user_id key = keyed "promotionRedemption:" promotion_id user_id key

  -- create_promotion_code_redemption/use_case.py
  unfoldable pub code_key : ℕ → ℕ → Option String → String
  code_key code_id user_id key = keyed "promotionCodeRedemption:" code_id user_id key

  -- redeem_signup_promotion/use_case.py, `_redemption_idempotency_key`
  unfoldable pub signup_redemption_key : ℕ → ℕ → String
  signup_redemption_key promotion_id redemption_id =
      keyed "signupPromotionRedemption:" promotion_id redemption_id none

  -- redeem_signup_promotion/use_case.py, `_credit_idempotency_key`
  unfoldable pub signup_credit_key : ℕ → ℕ → String
  signup_credit_key promotion_id redemption_id =
      keyed "signupPromotionCredit:" promotion_id redemption_id none

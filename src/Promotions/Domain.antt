-- ===== src/Promotions/Domain.antt =====
-- app/modules/promotions/domain/model.py. Instants are counted from an epoch. A row of a table and
-- the object that the mapper makes of it have the same fields, so one record serves for both.
use boat_backend.Prelude.{
  ℕ, String, ◌+◌, Bool, not, List, [], ◌∷◌, Option, none, some, ltb, leb, false, ⊤, if◌then◌else◌,
}
use boat_backend.Prelude.Int.{ℤ, pos, ltb_ℤ}
use boat_backend.Core.Errors.{
  Result, ok, err, validation_error, promotion_redemption_conflict, inactive, not_started, expired,
  exhausted, already_used, code_inactive, code_not_started, code_expired, code_exhausted, ◌>>◌,
  raise_if,
}
use boat_backend.Credits.Values.{FeatureKey}
use boat_backend.Events.{Event, promotion_redemption_granted}

pub data PromotionContext : Type 0 where
  recharge signup : PromotionContext

pub data PromotionRedemptionStatus : Type 0 where
  granted rejected failed : PromotionRedemptionStatus

pub record Promotion : Type 0 where
  pub id : ℕ
  pub name : String
  pub active : Bool
  pub starts_at : ℕ
  pub expires_at : Option ℕ
  pub max_redemptions : Option ℕ
  pub times_redeemed : ℕ
  pub max_redemptions_per_user : ℕ
  pub benefit_feature_key : FeatureKey
  pub context : Option PromotionContext
  pub benefit_amount : ℤ

pub record PromotionContent : Type 0 where
  pub id : ℕ
  pub promotion_id : ℕ
  pub banner_image_url : Option String

pub record PromotionCode : Type 0 where
  pub id : ℕ
  pub promotion_id : ℕ
  pub code : String
  pub active : Bool
  pub starts_at : Option ℕ
  pub expires_at : Option ℕ
  pub max_redemptions : Option ℕ
  pub times_redeemed : ℕ

-- The key has at most 255 characters in its column and is not bounded here.
pub record PromotionRedemption : Type 0 where
  pub id : ℕ
  pub promotion_id : ℕ
  pub promotion_code_id : Option ℕ
  pub user_id : ℕ
  pub beneficiary_key : Option String
  pub status : PromotionRedemptionStatus
  pub idempotency_key : String
  pub failure_reason : Option String
  pub redeemed_at : Option ℕ
  pub domain_events : List Event

-- `Promotion.restore`, which checks the amount by `PromotionBenefitAmount.__post_init__`
unfoldable pub restore_promotion : Promotion → Result Promotion
restore_promotion p =
    if ltb_ℤ p.benefit_amount (pos 1) then err (validation_error ("benefit_amount" ∷ [])) else ok p

-- `self.expires_at is not None and self.expires_at <= at`
abbrev pub is_over : Option ℕ → ℕ → Bool
is_over none at = false
is_over (some expires_at) at = leb expires_at at

-- `self.max_redemptions is not None and self.times_redeemed >= self.max_redemptions`
abbrev pub is_used_up : Option ℕ → ℕ → Bool
is_used_up none times = false
is_used_up (some limit) times = leb limit times

-- `self.starts_at is not None and self.starts_at > at`
abbrev pub is_early : Option ℕ → ℕ → Bool
is_early none at = false
is_early (some starts_at) at = ltb at starts_at

-- `Promotion.ensure_redeemable`
unfoldable pub ensure_redeemable : Promotion → ℕ → Result ⊤
ensure_redeemable p at = do
  raise_if (not p.active) (promotion_redemption_conflict inactive)
  raise_if (ltb at p.starts_at) (promotion_redemption_conflict not_started)
  raise_if (is_over p.expires_at at) (promotion_redemption_conflict expired)
  raise_if (is_used_up p.max_redemptions p.times_redeemed) (promotion_redemption_conflict exhausted)

-- `Promotion.ensure_user_can_redeem`
unfoldable pub ensure_user_can_redeem : Promotion → ℕ → Result ⊤
ensure_user_can_redeem p user_redemption_count =
    raise_if (leb p.max_redemptions_per_user user_redemption_count)
      (promotion_redemption_conflict already_used)

-- `Promotion.record_redemption`
unfoldable pub record_redemption : Promotion → Promotion
record_redemption p = record p { times_redeemed = p.times_redeemed + 1 }

-- `PromotionCode.ensure_redeemable`
unfoldable pub ensure_code_redeemable : PromotionCode → ℕ → Result ⊤
ensure_code_redeemable c at = do
  raise_if (not c.active) (promotion_redemption_conflict code_inactive)
  raise_if (is_early c.starts_at at) (promotion_redemption_conflict code_not_started)
  raise_if (is_over c.expires_at at) (promotion_redemption_conflict code_expired)
  raise_if (is_used_up c.max_redemptions c.times_redeemed)
      (promotion_redemption_conflict code_exhausted)

-- `PromotionCode.record_redemption`
unfoldable pub record_code_redemption : PromotionCode → PromotionCode
record_code_redemption c = record c { times_redeemed = c.times_redeemed + 1 }

-- `PromotionRedemption.create_granted`, once the identifier is chosen
unfoldable pub create_granted :
    ℕ → ℕ → Option ℕ → ℕ → Option String → String → ℕ → ℤ → PromotionRedemption
create_granted id promotion_id code_id user_id beneficiary_key key redeemed_at benefit_amount =
    record {
      id = id;
      promotion_id = promotion_id;
      promotion_code_id = code_id;
      user_id = user_id;
      beneficiary_key = beneficiary_key;
      status = granted;
      idempotency_key = key;
      failure_reason = none;
      redeemed_at = some redeemed_at;
      domain_events =
          promotion_redemption_granted id promotion_id user_id code_id benefit_amount key ∷ [];
    }

-- `AggregateRoot.pull_events`
unfoldable pub pull_redemption_events : PromotionRedemption → List Event × PromotionRedemption
pull_redemption_events r = (r.domain_events, record r { domain_events = [] })

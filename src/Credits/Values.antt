-- ===== src/Credits/Values.antt =====
-- app/modules/credits/domain/value_objects.py: the enumerations of the credits module.
use boat_backend.Prelude.{Bool, true, false}

pub data CreditReason : Type 0 where
  monthly_ocr_allowance event_ocr_allowance ocr_usage : CreditReason

pub data FeatureKey : Type 0 where
  ocr : FeatureKey

pub data CreditAction : Type 0 where
  grant_action use_action : CreditAction

pub data CreditSourceType : Type 0 where
  promotion_redemption monthly_allowance ocr_analysis : CreditSourceType

abbrev pub feature_key_eq : FeatureKey → FeatureKey → Bool
feature_key_eq ocr ocr = true

abbrev pub action_eq : CreditAction → CreditAction → Bool
action_eq grant_action grant_action = true
action_eq use_action use_action = true
action_eq _ _ = false

abbrev pub source_type_eq : CreditSourceType → CreditSourceType → Bool
source_type_eq promotion_redemption promotion_redemption = true
source_type_eq monthly_allowance monthly_allowance = true
source_type_eq ocr_analysis ocr_analysis = true
source_type_eq _ _ = false

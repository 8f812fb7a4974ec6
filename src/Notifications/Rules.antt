-- ===== src/Notifications/Rules.antt =====
-- `NotificationScheduleRule`, app/modules/notifications/domain/schedule_rule.py. A time of day is a number of
-- seconds.
use Prim.Native.String.{count}
use boat_backend.Prelude.{
  ℕ, String, Bool, not, ◌&&◌, ◌||◌, List, [], ◌∷◌, ◌++◌, Option, none, some, ⊤, ltb, text_eq,
  is_some, if◌then◌else◌,
}
use boat_backend.Prelude.Int.{ℤ, pos, ltb_ℤ}
use boat_backend.Prelude.Text.{strip, is_empty}
use boat_backend.Core.Errors.{Result, ok, err, validation_error}
use boat_backend.Core.Validation.{
  Notify, ◌>>=◌, ◌>>◌, pure, lift, collect, raise_if_any, value, notified,
}

pub data ScheduleRuleTargetKind : Type 0 where
  warranty_receipt engagement_unregistered_receipt : ScheduleRuleTargetKind
  engagement_inactive_receipt engagement_all_user : ScheduleRuleTargetKind

-- A rule, and the arguments of its `create` with the target kind already read.
pub record NotificationScheduleRule : Type 0 where
  pub campaign_key : String
  pub enabled : Bool
  pub target_kind : ScheduleRuleTargetKind
  pub day_offset : Option ℤ
  pub first_delay_days : Option ℤ
  pub repeat_interval_days : Option ℤ
  pub lookback_days : Option ℤ
  pub send_time_local : ℕ
  pub requires_marketing_consent : Bool
  pub title_template : String
  pub body_template : String

pub record RuleArguments : Type 0 where
  pub campaign_key : String
  pub enabled : Bool
  pub target_kind : String
  pub day_offset : Option ℤ
  pub first_delay_days : Option ℤ
  pub repeat_interval_days : Option ℤ
  pub lookback_days : Option ℤ
  pub send_time_local : ℕ
  pub requires_marketing_consent : Bool
  pub title_template : String
  pub body_template : String

abbrev pub is_bad_text : String → ℕ → Bool
is_bad_text v max_length = is_empty v || (not (text_eq (strip v) v) || ltb max_length (count v))

-- `_validate_text`
unfoldable pub validate_text : String → String → ℕ → Result ⊤
validate_text field v max_length =
    if is_bad_text v max_length then err (validation_error (field ∷ [])) else ok tt

-- `_validate_campaign_key`
unfoldable pub validate_campaign_key : String → Result ⊤
unfolding validate_text
validate_campaign_key v = validate_text "campaignKey" v 100

-- `_validate_optional_non_negative`
unfoldable pub validate_optional_non_negative : String → Option ℤ → Result ⊤
validate_optional_non_negative field none = ok tt
validate_optional_non_negative field (some v) =
    if ltb_ℤ v (pos 0) then err (validation_error (field ∷ [])) else ok tt

-- `_target_kind`
unfoldable pub target_kind_of : String → Result ScheduleRuleTargetKind
target_kind_of v =
    if text_eq v "warranty_receipt"
    then ok warranty_receipt
    else if text_eq v "engagement_unregistered_receipt"
    then ok engagement_unregistered_receipt
    else if text_eq v "engagement_inactive_receipt"
    then ok engagement_inactive_receipt
    else if text_eq v "engagement_all_user"
    then ok engagement_all_user
    else err (validation_error ("targetKind" ∷ []))

abbrev field_if : Bool → String → List String
field_if b field = if b then field ∷ [] else []

abbrev raise_details : List String → Result ⊤
raise_details [] = ok tt
raise_details (d ∷ ds) = err (validation_error (d ∷ ds))

abbrev validate_repeat : Option ℤ → Result ⊤
validate_repeat none = err (validation_error ("repeatIntervalDays" ∷ []))
validate_repeat (some v) = ok tt

-- `_validate_timing_rule`
unfoldable pub validate_timing_rule :
    ScheduleRuleTargetKind → Option ℤ → Option ℤ → Option ℤ → Option ℤ → Result ⊤
validate_timing_rule warranty_receipt day_offset first_delay repeat_interval lookback =
    raise_details (
      field_if (not (is_some day_offset)) "dayOffset"
      ++ (field_if (is_some first_delay) "firstDelayDays"
          ++ (field_if (is_some repeat_interval) "repeatIntervalDays"
              ++ field_if (is_some lookback) "lookbackDays")))
validate_timing_rule engagement_unregistered_receipt day_offset first_delay repeat_interval
      lookback =
    validate_repeat repeat_interval
validate_timing_rule engagement_inactive_receipt day_offset first_delay repeat_interval lookback =
    validate_repeat repeat_interval
validate_timing_rule engagement_all_user day_offset first_delay repeat_interval lookback =
    validate_repeat repeat_interval

-- `_ENGAGEMENT_TARGET_KINDS`
abbrev pub is_engagement : ScheduleRuleTargetKind → Bool
is_engagement warranty_receipt = Bool.false
is_engagement _ = Bool.true

-- `_validate_engagement_consent`
unfoldable pub validate_engagement_consent : ScheduleRuleTargetKind → Bool → Result ⊤
validate_engagement_consent kind requires_marketing_consent =
    if is_engagement kind && not requires_marketing_consent
    then err (validation_error ("requiresMarketingConsent" ∷ []))
    else ok tt

-- `NotificationScheduleRule.create`, with its `Notification`
unfoldable pub collect_rule : RuleArguments → Notify NotificationScheduleRule
collect_rule a = do
  key ← collect (validate_campaign_key a.campaign_key)
  offset ← collect (validate_optional_non_negative "dayOffset" a.day_offset)
  delay ← collect (validate_optional_non_negative "firstDelayDays" a.first_delay_days)
  interval ← collect (validate_optional_non_negative "repeatIntervalDays" a.repeat_interval_days)
  lookback ← collect (validate_optional_non_negative "lookbackDays" a.lookback_days)
  title ← collect (validate_text "titleTemplate" a.title_template 100)
  body ← collect (validate_text "bodyTemplate" a.body_template 255)
  new_target_kind ← collect (target_kind_of a.target_kind)
  raise_if_any
  kind ← value new_target_kind
  lift (
      validate_timing_rule kind a.day_offset a.first_delay_days a.repeat_interval_days
        a.lookback_days)
  lift (validate_engagement_consent kind a.requires_marketing_consent)
  pure (record {
    campaign_key = a.campaign_key;
    enabled = a.enabled;
    target_kind = kind;
    day_offset = a.day_offset;
    first_delay_days = a.first_delay_days;
    repeat_interval_days = a.repeat_interval_days;
    lookback_days = a.lookback_days;
    send_time_local = a.send_time_local;
    requires_marketing_consent = a.requires_marketing_consent;
    title_template = a.title_template;
    body_template = a.body_template;
  })

unfoldable pub create_rule : RuleArguments → Result NotificationScheduleRule
create_rule a = notified (collect_rule a)

-- ===== src/Notifications/Valid.antt =====
-- The checks of the table `notification_schedule_rules`
-- (app/modules/notifications/infrastructure/persistence/schedule_rule_orm.py) on what kinds of rule are timed
-- by, and the rules that `NotificationScheduleRule.create` makes.
use boat_backend.Prelude.{◌≡◌, Bool, true, not, ◌&&◌, ◌||◌, arith, is_some}
use boat_backend.Core.Errors.{ok}
use boat_backend.Core.Validation.{collect, raise_if_any}
use boat_backend.Core.Validation.Posts.{
  Post, bind-Post, any-Post, value-Post, pure-Post, notified-Post, lift-Post,
}
use boat_backend.Notifications.Rules.{
  ScheduleRuleTargetKind, NotificationScheduleRule, RuleArguments, is_engagement,
  validate_timing_rule, validate_engagement_consent, validate_campaign_key,
  validate_optional_non_negative, validate_text, target_kind_of, collect_rule, create_rule,
}

abbrev is_warranty : ScheduleRuleTargetKind → Bool
is_warranty kind = not (is_engagement kind)

-- `ck_notification_schedule_rules_warranty_timing`
unfoldable pub warranty_timing_check : NotificationScheduleRule → Bool
warranty_timing_check r =
    not (is_warranty r.target_kind)
    || (is_some r.day_offset
        && (not (is_some r.first_delay_days)
            && (not (is_some r.repeat_interval_days) && not (is_some r.lookback_days))))

-- `ck_notification_schedule_rules_engagement_timing`
unfoldable pub engagement_timing_check : NotificationScheduleRule → Bool
engagement_timing_check r = is_warranty r.target_kind || is_some r.repeat_interval_days

-- `ck_notification_schedule_rules_engagement_consent`
unfoldable pub engagement_consent_check : NotificationScheduleRule → Bool
engagement_consent_check r = is_warranty r.target_kind || r.requires_marketing_consent

pub record IsStorable (r : NotificationScheduleRule) : Type 0 where
  pub warranty_timing : warranty_timing_check r ≡ true
  pub engagement_timing : engagement_timing_check r ≡ true
  pub engagement_consent : engagement_consent_check r ≡ true

checked-IsStorable :
    (r : NotificationScheduleRule)
    → validate_timing_rule r.target_kind r.day_offset r.first_delay_days r.repeat_interval_days
        r.lookback_days
      ≡ ok tt
    → validate_engagement_consent r.target_kind r.requires_marketing_consent ≡ ok tt
    → IsStorable r
unfolding validate_timing_rule validate_engagement_consent warranty_timing_check
    engagement_timing_check engagement_consent_check
checked-IsStorable r timed consented = record {
  warranty_timing = ground (arith, timed);
  engagement_timing = ground (arith, timed);
  engagement_consent = ground (arith, consented);
}

collect_rule-Post : (a : RuleArguments) → Post (collect_rule a) IsStorable
unfolding collect_rule
collect_rule-Post a = bind-Post (any-Post (collect (validate_campaign_key a.campaign_key))) (λ _ _.
    bind-Post (any-Post (collect (validate_optional_non_negative "dayOffset" a.day_offset))) (λ _ _.
      bind-Post
        (any-Post (collect (validate_optional_non_negative "firstDelayDays" a.first_delay_days)))
        (λ _ _.
          bind-Post
            (any-Post (
              collect (validate_optional_non_negative "repeatIntervalDays" a.repeat_interval_days)))
            (λ _ _.
              bind-Post
                (any-Post (collect (validate_optional_non_negative "lookbackDays" a.lookback_days)))
                (λ _ _.
                  bind-Post
                    (any-Post (collect (validate_text "titleTemplate" a.title_template 100)))
                    (λ _ _.
                      bind-Post
                        (any-Post (collect (validate_text "bodyTemplate" a.body_template 255)))
                        (λ _ _.
                          bind-Post (any-Post (collect (target_kind_of a.target_kind))) (λ k _.
                            bind-Post (any-Post raise_if_any) (λ _ _.
                              bind-Post (value-Post k) (λ kind _.
                                bind-Post
                                  (lift-Post (
                                    validate_timing_rule kind a.day_offset a.first_delay_days
                                      a.repeat_interval_days a.lookback_days))
                                  (λ _ timed.
                                    bind-Post
                                      (lift-Post (
                                        validate_engagement_consent kind
                                          a.requires_marketing_consent))
                                      (λ _ consented.
                                        pure-Post _ IsStorable
                                          (checked-IsStorable _ timed consented)))))))))))))

-- A rule that is made satisfies the checks of the table on the timing of warranty rules and of engagement
-- rules and on the consent to marketing.
pub create_rule-IsStorable :
    (a : RuleArguments) (r : NotificationScheduleRule) → create_rule a ≡ ok r → IsStorable r
unfolding create_rule
create_rule-IsStorable a r h = notified-Post (collect_rule a) IsStorable (collect_rule-Post a) r h

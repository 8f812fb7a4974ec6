-- ===== src/Notifications/Due.antt =====
-- When a rule is due and for whom: app/modules/notifications/domain/due_notification.py. An instant is already
-- local to Seoul: a day number and a second of the day.
use boat_backend.Prelude.{
  ℕ, ◌+◌, ◌%◌, String, Bool, false, not, ◌&&◌, ◌||◌, Option, none, some, ltb, ◌==◌, if◌then◌else◌,
}
use boat_backend.Prelude.Int.{ℤ, pos, pos_part, neg_part, ◌-ℤ◌, ltb_ℤ}
use boat_backend.Core.Errors.{Result, ok, err, runtime_error}
use boat_backend.Notifications.Rules.{
  ScheduleRuleTargetKind, warranty_receipt, engagement_unregistered_receipt,
  engagement_inactive_receipt, engagement_all_user, NotificationScheduleRule,
}

pub record LocalTime : Type 0 where
  pub day : ℕ
  pub second : ℕ

pub record DueNotificationRule : Type 0 where
  pub rule : NotificationScheduleRule
  pub target_date : ℕ

abbrev pub or_today : Option ℕ → ℕ → ℕ
or_today none today = today
or_today (some d) today = d

-- `resolve_due_notification_rule`
unfoldable pub resolve_due_notification_rule :
    NotificationScheduleRule → LocalTime → Option ℕ → Option DueNotificationRule
resolve_due_notification_rule rule now target_date =
    let resolved = or_today target_date now.day in
    if not rule.enabled
      || (ltb now.day resolved || resolved == now.day && ltb now.second rule.send_time_local)
    then none
    else some (record { rule = rule; target_date = resolved })

pub data NotificationCategory : Type 0 where
  product_management warranty benefit : NotificationCategory

pub data NotificationMessageType : Type 0 where
  transactional marketing : NotificationMessageType

pub record NotificationDeliveryContract : Type 0 where
  pub category : NotificationCategory
  pub message_type : NotificationMessageType
  pub kind : String
  pub resource_type : Option String

-- `delivery_contract_for`
unfoldable pub delivery_contract_for : ScheduleRuleTargetKind → NotificationDeliveryContract
delivery_contract_for warranty_receipt = record {
  category = warranty;
  message_type = transactional;
  kind = "warranty_expiry";
  resource_type = some "receipt";
}
delivery_contract_for engagement_unregistered_receipt = record {
  category = product_management;
  message_type = marketing;
  kind = "receipt_registration_reminder";
  resource_type = none;
}
delivery_contract_for engagement_inactive_receipt = record {
  category = product_management;
  message_type = marketing;
  kind = "receipt_inactivity_reminder";
  resource_type = none;
}
delivery_contract_for engagement_all_user = record {
  category = benefit;
  message_type = marketing;
  kind = "receipt_analysis_reminder";
  resource_type = none;
}

-- `_first_due_day`
unfoldable pub first_due_day : NotificationScheduleRule → ℤ
first_due_day rule = elim rule.first_delay_days [
  | some d ↦ d
  | none ↦ elim rule.lookback_days [ some d ↦ d | none ↦ pos 0 ]
]

-- Python's `(a - b) % interval == 0`, for b ≤ a
abbrev pub is_multiple : ℤ → ℤ → ℤ → Bool
is_multiple a b interval = pos_part (a -ℤ b) % (pos_part interval + neg_part interval) == 0

abbrev pub eq_ℤ : ℤ → ℤ → Bool
eq_ℤ a b = pos_part a + neg_part b == pos_part b + neg_part a

-- The test of the interval, once the first due day has come.
unfoldable pub matches_interval : ℤ → Option ℤ → ℤ → Bool
matches_interval first none days_since_joined = eq_ℤ days_since_joined first
matches_interval first (some interval) days_since_joined =
    if eq_ℤ interval (pos 0)
    then eq_ℤ days_since_joined first
    else is_multiple days_since_joined first interval

-- `matches_join_cadence`
unfoldable pub matches_join_cadence : NotificationScheduleRule → ℤ → Bool
matches_join_cadence rule days_since_joined =
    if ltb_ℤ days_since_joined (first_due_day rule)
    then false
    else matches_interval (first_due_day rule) rule.repeat_interval_days days_since_joined

-- `registration_age_days_on`
unfoldable pub registration_age_days_on : ℕ → LocalTime → ℤ
registration_age_days_on target_date registered_at = pos target_date -ℤ pos registered_at.day

-- `matches_receipt_activity`
unfoldable pub matches_receipt_activity : ScheduleRuleTargetKind → ℕ → Bool
matches_receipt_activity engagement_unregistered_receipt receipt_count = receipt_count == 0
matches_receipt_activity engagement_inactive_receipt receipt_count = ltb 0 receipt_count
matches_receipt_activity warranty_receipt receipt_count = false
matches_receipt_activity engagement_all_user receipt_count = false

-- `receipt_activity_since_for`: the day at whose midnight the activity begins, if it has a beginning
unfoldable pub receipt_activity_since_for : DueNotificationRule → Result (Option ℤ)
receipt_activity_since_for due = elim due.rule.target_kind [
  | engagement_unregistered_receipt ↦ ok none
  | engagement_inactive_receipt ↦ elim due.rule.lookback_days [
    | none ↦ err runtime_error
    | some days ↦ ok (some (pos due.target_date -ℤ days))
  ]
  | warranty_receipt ↦ err runtime_error
  | engagement_all_user ↦ err runtime_error
]

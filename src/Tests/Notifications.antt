-- ===== src/Tests/Notifications.antt =====
-- The theorems on app/modules/notifications at two due notifications, one of them not valid, and a template
-- with two markers.
use Prim.Native.String.{count}
use boat_backend.Prelude.{
  ℕ, String, ◌≤◌, arith, ◌==◌, ◌*◌, ◌≡◌, ◌↔◌, refl, Bool, true, false, List, [], ◌∷◌, none, some,
}
use boat_backend.Prelude.Int.{pos, ◌+ℤ◌}
use boat_backend.Prelude.Text.{strip, is_space}
use boat_backend.Core.Errors.{ok}
use boat_backend.Core.Validation.{collect, raise_if_any, value, lift}
use boat_backend.Notifications.Cadence.{step, matches_join_cadence_iff}
use boat_backend.Notifications.Due.{
  matches_join_cadence, first_due_day, product_management, marketing,
}
use boat_backend.Notifications.Job.{
  ScheduleOccurrenceKey, CreateNotificationCommand, DueNotification, JobTables, user,
  create_for_rule,
}
use boat_backend.Notifications.Rendering.{
  item_name_marker, occurrences, replace, starts_with, first, render_notification_text,
  render_notification_text-bounded, render_notification_text-whole,
}
use boat_backend.Notifications.Reserved.{IsJobState, create_for_rule-IsJobState}
use boat_backend.Notifications.Rules.{
  NotificationScheduleRule, RuleArguments, engagement_all_user, create_rule, collect_rule,
  target_kind_of, validate_campaign_key, validate_engagement_consent,
  validate_optional_non_negative, validate_text, validate_timing_rule,
}
use boat_backend.Notifications.Tally.{IsTally, create_for_rule-IsTally}
use boat_backend.Notifications.Twice.{job_twice}
use boat_backend.Notifications.Valid.{IsStorable, create_rule-IsStorable}

abbrev arguments : RuleArguments
arguments = record {
  campaign_key = "weekly";
  enabled = true;
  target_kind = "engagement_all_user";
  day_offset = none;
  first_delay_days = some (pos 3);
  repeat_interval_days = some (pos 7);
  lookback_days = none;
  send_time_local = 36000;
  requires_marketing_consent = true;
  title_template = "A";
  body_template = "B";
}

abbrev weekly : NotificationScheduleRule
weekly = record {
  campaign_key = "weekly";
  enabled = true;
  target_kind = engagement_all_user;
  day_offset = none;
  first_delay_days = some (pos 3);
  repeat_interval_days = some (pos 7);
  lookback_days = none;
  send_time_local = 36000;
  requires_marketing_consent = true;
  title_template = "A";
  body_template = "B";
}

weekly-made : create_rule arguments ≡ ok weekly
unfolding create_rule collect_rule collect raise_if_any value lift target_kind_of
    validate_campaign_key validate_engagement_consent validate_optional_non_negative validate_text
    validate_timing_rule strip is_space
weekly-made = refl

create_rule-IsStorable_example : IsStorable weekly
create_rule-IsStorable_example = create_rule-IsStorable arguments weekly weekly-made

matches_join_cadence_iff_example :
    (matches_join_cadence weekly (pos 17) ≡ true)
    ↔ ((k : ℕ) × (pos 17 ≡ first_due_day weekly +ℤ pos (k * step (some (pos 7)))))
matches_join_cadence_iff_example = matches_join_cadence_iff weekly (pos 17)

abbrev sent : CreateNotificationCommand
sent = record {
  user_id = 1;
  category = product_management;
  message_type = marketing;
  kind = "receipt_registration_reminder";
  title = "A";
  message = "B";
  resource_type = none;
  resource_id = none;
  metadata = [];
}

abbrev due : List DueNotification
due =
    record {
      command = sent;
      occurrence = record {
        campaign_key = "weekly";
        target_type = user;
        target_id = 1;
        occurrence_on = 9;
      };
    }
    ∷ record {
      command = record sent { user_id = 2; title = "" };
      occurrence = record {
        campaign_key = "weekly";
        target_type = user;
        target_id = 2;
        occurrence_on = 9;
      };
    }
    ∷ []

abbrev nothing : JobTables
nothing = record { occurrences = []; notifications = []; fresh = 0 }

abbrev consents : ℕ → Bool
consents user_id = true

-- A notification of the job goes to the user that its occurrence is for.
abbrev ForTarget : ScheduleOccurrenceKey → CreateNotificationCommand → Type 0
ForTarget key command = command.user_id ≡ key.target_id

nothing-IsJobState : IsJobState ForTarget nothing
nothing-IsJobState = record { distinct = tt; bound = tt; numbered = tt; drawn = tt }

create_for_rule-IsJobState_example :
    IsJobState ForTarget (create_for_rule consents false due nothing).1
create_for_rule-IsJobState_example =
    create_for_rule-IsJobState consents ForTarget due nothing (refl, (refl, tt)) nothing-IsJobState

create_for_rule-IsTally_example : IsTally due nothing (create_for_rule consents false due nothing)
create_for_rule-IsTally_example = create_for_rule-IsTally consents due nothing

job_twice_example :
    let first = create_for_rule consents false due nothing in
    let second = create_for_rule consents false due first.1 in
    (second.1 ≡ first.1) × (second.0.created ≡ 0)
job_twice_example = job_twice consents due nothing

abbrev template : String
template = "[기기명]: the warranty of [기기명] ends"

rendered : render_notification_text template "Washer" 34 ≡ "Washe: the warranty of Washe ends"
unfolding render_notification_text occurrences replace starts_with first
rendered = refl

render_notification_text-bounded_example :
    count (render_notification_text template "Washer" 34) ≤ 34
render_notification_text-bounded_example =
    render_notification_text-bounded template "Washer" 34 (ground arith)

marked : occurrences item_name_marker 0 template == 0 ≡ false
unfolding occurrences starts_with
marked = refl

fitting : count (replace item_name_marker "TV" 0 template) ≤ 34
unfolding replace starts_with
fitting = ground arith

render_notification_text-whole_example :
    render_notification_text template "TV" 34 ≡ replace item_name_marker "TV" 0 template
render_notification_text-whole_example =
    render_notification_text-whole template "TV" 34 marked fitting

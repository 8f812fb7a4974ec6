-- ===== src/Notifications/Job.antt =====
-- The job that creates the due notifications of a rule: `CreateDueNotificationsCommandUseCase`
-- (app/modules/notifications/application/commands/create_due_notifications/use_case.py), the creator it
-- calls (create_notification/use_case.py), `UserNotification._assemble` (domain/model.py), and the
-- repository of occurrences (infrastructure/persistence/schedule_occurrence_repository.py). The due
-- notifications are a list; `consents` is the stored consent of a user to marketing. Days are numbers.
-- Each notification begins and ends with nothing uncommitted, so a rollback gives back the tables that it
-- began with; events go to the outbox.
use Prim.Native.String.{count}
use boat_backend.Prelude.{
  ℕ, suc, String, Bool, true, false, not, ◌&&◌, ◌||◌, List, [], ◌∷◌, ◌++◌, length, Option, none,
  some, ⊤, ltb, ◌==◌, text_eq, if◌then◌else◌,
}
use boat_backend.Prelude.Text.{strip}
use boat_backend.Core.Errors.{Result, ok, err, validation_error}
use boat_backend.Core.Validation.{◌>>=◌, collect, collect_some, raise_if_any, notified}
use boat_backend.Notifications.Due.{
  NotificationCategory, NotificationMessageType, transactional, marketing,
}
use boat_backend.Notifications.Rules.{
  ScheduleRuleTargetKind, warranty_receipt, engagement_unregistered_receipt,
  engagement_inactive_receipt, engagement_all_user, validate_text,
}
use boat_backend.Auth.Store.{any}

-- app/modules/notifications/domain/schedule_occurrence.py
pub data ScheduleOccurrenceTargetType : Type 0 where
  receipt user : ScheduleOccurrenceTargetType

pub record ScheduleOccurrenceKey : Type 0 where
  pub campaign_key : String
  pub target_type : ScheduleOccurrenceTargetType
  pub target_id : ℕ
  pub occurrence_on : ℕ

-- `target_type_for_kind`
unfoldable pub target_type_for_kind : ScheduleRuleTargetKind → ScheduleOccurrenceTargetType
target_type_for_kind warranty_receipt = receipt
target_type_for_kind engagement_unregistered_receipt = user
target_type_for_kind engagement_inactive_receipt = user
target_type_for_kind engagement_all_user = user

pub record CreateNotificationCommand : Type 0 where
  pub user_id : ℕ
  pub category : NotificationCategory
  pub message_type : NotificationMessageType
  pub kind : String
  pub title : String
  pub message : String
  pub resource_type : Option String
  pub resource_id : Option ℕ
  pub metadata : List (String × String)

pub record DueNotification : Type 0 where
  pub command : CreateNotificationCommand
  pub occurrence : ScheduleOccurrenceKey

-- `_validate_resource_pair`
unfoldable pub validate_resource_pair : Option String → Option ℕ → Result ⊤
validate_resource_pair none none = ok tt
validate_resource_pair (some t) (some i) = ok tt
validate_resource_pair _ _ = err (validation_error ("resource" ∷ []))

abbrev pub is_bad_item : String × String → Bool
is_bad_item (key, v) =
    not (text_eq (strip key) key)
    || (ltb (count key) 1 || (ltb 40 (count key) || ltb 500 (count v)))

-- `NotificationMetadata`
unfoldable pub validate_metadata : List (String × String) → Result ⊤
validate_metadata m =
    if ltb 50 (length m) || any is_bad_item m
    then err (validation_error ("metadata" ∷ []))
    else ok tt

-- The validation of `UserNotification._assemble`.
unfoldable pub validate_notification : CreateNotificationCommand → Result ⊤
validate_notification c = notified (do
  kind ← collect (validate_text "kind" c.kind 50)
  title ← collect (validate_text "title" c.title 100)
  message ← collect (validate_text "message" c.message 255)
  resource_type ← collect_some (λ t. validate_text "resourceType" t 50) c.resource_type
  pair ← collect (validate_resource_pair c.resource_type c.resource_id)
  metadata ← collect (validate_metadata c.metadata)
  raise_if_any)

-- `orm.NotificationScheduleOccurrence`; its key is the primary key
pub record OccurrenceRow : Type 0 where
  pub key : ScheduleOccurrenceKey
  pub notification_id : Option ℕ

pub record NotificationRow : Type 0 where
  pub id : ℕ
  pub content : CreateNotificationCommand

pub record JobTables : Type 0 where
  pub occurrences : List OccurrenceRow
  pub notifications : List NotificationRow
  -- the next identifier that `uuid4` draws
  pub fresh : ℕ

abbrev pub type_eq : ScheduleOccurrenceTargetType → ScheduleOccurrenceTargetType → Bool
type_eq receipt receipt = true
type_eq user user = true
type_eq _ _ = false

abbrev pub key_eq : ScheduleOccurrenceKey → ScheduleOccurrenceKey → Bool
key_eq a b =
    text_eq a.campaign_key b.campaign_key
    && (type_eq a.target_type b.target_type
        && (a.target_id == b.target_id && a.occurrence_on == b.occurrence_on))

unfoldable pub is_reserved : ScheduleOccurrenceKey → List OccurrenceRow → Bool
is_reserved key rows = any (λ row. key_eq row.key key) rows

-- `reserve`: INSERT ... ON CONFLICT DO NOTHING RETURNING
unfoldable pub reserve : ScheduleOccurrenceKey → List OccurrenceRow → Bool × List OccurrenceRow
unfolding is_reserved
reserve key rows =
    if is_reserved key rows
    then (false, rows)
    else (true, rows ++ record { key = key; notification_id = none } ∷ [])

-- `bind_notification`
unfoldable pub bind_notification :
    ScheduleOccurrenceKey → ℕ → List OccurrenceRow → List OccurrenceRow
bind_notification key id [] = []
bind_notification key id (row ∷ rows) =
    (if key_eq row.key key then record row { notification_id = some id } else row)
    ∷ bind_notification key id rows

-- `NotificationCreationResult`: a created notification, or the skip for want of consent
pub data Creation : Type 0 where
  notification_created : ℕ → Creation
  skipped_marketing_consent : Creation

-- `_save_notification`
unfoldable pub save_notification :
    CreateNotificationCommand → List NotificationRow → ℕ → Creation × List NotificationRow
save_notification c rows id =
    (notification_created id, rows ++ record { id = id; content = c } ∷ [])

abbrev pub may_send : (ℕ → Bool) → CreateNotificationCommand → Bool
may_send consents c = elim c.message_type [ transactional ↦ true | marketing ↦ consents c.user_id ]

-- `NotificationCreator.create`
unfoldable pub create_notification :
    (ℕ → Bool)
    → CreateNotificationCommand
    → List NotificationRow
    → ℕ
    → Result (Creation × List NotificationRow)
unfolding save_notification
create_notification consents c rows id = elim (validate_notification c) [
  | err e ↦ err e
  | ok u ↦
      if may_send consents c
      then ok (save_notification c rows id)
      else ok (skipped_marketing_consent, rows)
]

-- `DueNotificationAction`
pub data DueNotificationAction : Type 0 where
  created skipped failed dry_run : DueNotificationAction

-- What becomes of a reserved notification.
unfoldable pub settle_creation :
    DueNotification
    → JobTables
    → List OccurrenceRow
    → Result (Creation × List NotificationRow)
    → DueNotificationAction × JobTables
settle_creation n t reserved (ok (notification_created id, notifications)) = (
  created,
  record {
    occurrences = bind_notification n.occurrence id reserved;
    notifications = notifications;
    fresh = suc t.fresh;
  },
)
settle_creation n t reserved (ok (skipped_marketing_consent, notifications)) = (skipped, t)
settle_creation n t reserved (err e) = (failed, t)

-- `_create_notification`
unfoldable pub create_due_notification :
    (ℕ → Bool) → Bool → DueNotification → JobTables → DueNotificationAction × JobTables
unfolding reserve
create_due_notification consents is_dry_run n t =
    if is_dry_run
    then (dry_run, t)
    else let (is_new, reserved) = reserve n.occurrence t.occurrences in
      if is_new
      then settle_creation n t reserved
          (create_notification consents n.command t.notifications t.fresh)
      else (skipped, t)

-- `_RuleTotals`
pub record RuleTotals : Type 0 where
  pub candidates : ℕ
  pub created : ℕ
  pub skipped : ℕ
  pub failed : ℕ

-- `_RuleTotals.add`
unfoldable pub add_action : RuleTotals → DueNotificationAction → RuleTotals
add_action r created = record r { candidates = suc r.candidates; created = suc r.created }
add_action r skipped = record r { candidates = suc r.candidates; skipped = suc r.skipped }
add_action r failed = record r { candidates = suc r.candidates; failed = suc r.failed }
add_action r dry_run = record r { candidates = suc r.candidates }

abbrev pub no_totals : RuleTotals
no_totals = record { candidates = 0; created = 0; skipped = 0; failed = 0 }

-- The loop of `_create_for_rule`.
unfoldable pub create_all :
    (ℕ → Bool) → Bool → List DueNotification → RuleTotals → JobTables → RuleTotals × JobTables
unfolding create_due_notification add_action
create_all consents is_dry_run [] totals t = (totals, t)
create_all consents is_dry_run (n ∷ ns) totals t =
    let (action, after) = create_due_notification consents is_dry_run n t in
    create_all consents is_dry_run ns (add_action totals action) after

-- `_create_for_rule`
unfoldable pub create_for_rule :
    (ℕ → Bool) → Bool → List DueNotification → JobTables → RuleTotals × JobTables
create_for_rule consents is_dry_run ns t = create_all consents is_dry_run ns no_totals t

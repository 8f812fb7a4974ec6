-- ===== src/Notifications/Reserved.antt =====
-- What the job of app/modules/notifications stores: each occurrence is reserved once, with its notification.
use text.Mathlib.TextPositions.{eq_refl}
use boat_backend.Prelude.{
  ℕ, suc, ◌<◌, ◌≡◌, ◌⊎◌, inl, inr, refl, sym, ap, subst, Bool, true, false, List, [], ◌∷◌, ◌++◌,
  none, some, arith, All, All-map, All-append, Bool-cases,
}
use boat_backend.Notifications.Bound.{
  IsDistinct, IsNumbered, IsBound, append-IsDistinct, append-IsNumbered, append-IsBound,
}
use boat_backend.Notifications.Job.{
  ScheduleOccurrenceKey, CreateNotificationCommand, DueNotification, OccurrenceRow, JobTables,
  RuleTotals, DueNotificationAction, created, skipped, failed, key_eq, is_reserved, reserve,
  bind_notification, create_notification, settle_creation, save_notification,
  create_due_notification, no_totals, create_all, create_for_rule,
}

-- Each occurrence is there once and is bound to a notification of its own, the notifications are these
-- alone, and the next identifier is new.
pub record IsJobState (From : ScheduleOccurrenceKey → CreateNotificationCommand → Type 0)
    (t : JobTables) : Type 0 where
  pub distinct : IsDistinct t.occurrences
  pub bound : IsBound From t.occurrences t.notifications
  pub numbered : IsNumbered t.notifications
  pub drawn : All (λ n. n.id < t.fresh) t.notifications

pub key_eq_refl : (k : ScheduleOccurrenceKey) → key_eq k k ≡ true
key_eq_refl k = rw (eq_refl k.campaign_key) (ground arith)

module _ (k : ScheduleOccurrenceKey) where
  unreserved-All :
      (rows : List OccurrenceRow)
      → is_reserved k rows ≡ false
      → All (λ row. key_eq row.key k ≡ false) rows
  unfolding is_reserved
  unreserved-All [] h = tt
  unreserved-All (row ∷ rows) h = (ground (arith, h), unreserved-All rows (ground (arith, h)))

  bind-reserved :
      (id : ℕ) (rows : List OccurrenceRow)
      → All (λ row. key_eq row.key k ≡ false) rows
      → bind_notification k id (rows ++ record { key = k; notification_id = none } ∷ [])
        ≡ rows ++ record { key = k; notification_id = some id } ∷ []
  unfolding bind_notification
  bind-reserved id [] h = rw (key_eq_refl k) refl
  bind-reserved id (row ∷ rows) h = rw h.0 (ap (λ xs. row ∷ xs) (bind-reserved id rows h.1))

-- The tables after a notification was created.
abbrev pub grown : DueNotification → JobTables → JobTables
grown n t = record {
  occurrences = t.occurrences ++ record { key = n.occurrence; notification_id = some t.fresh } ∷ [];
  notifications = t.notifications ++ record { id = t.fresh; content = n.command } ∷ [];
  fresh = suc t.fresh;
}

module _ (consents : ℕ → Bool) where
  -- Whatever a notification meets, it grows the tables by itself or leaves them.
  abbrev pub Outcome : DueNotification → JobTables → DueNotificationAction × JobTables → Type 0
  Outcome n t r =
      ((r ≡ (created, grown n t)) × (is_reserved n.occurrence t.occurrences ≡ false))
      ⊎ ((r ≡ (skipped, t)) ⊎ (r ≡ (failed, t)))

  created-Outcome :
      (n : DueNotification) (t : JobTables)
      → is_reserved n.occurrence t.occurrences ≡ false
      → Outcome n t (
          settle_creation n t
            (t.occurrences ++ record { key = n.occurrence; notification_id = none } ∷ [])
            (create_notification consents n.command t.notifications t.fresh))
  unfolding settle_creation create_notification save_notification
  created-Outcome n t new = ground (
    arith,
    bind-reserved n.occurrence t.fresh t.occurrences
        (unreserved-All n.occurrence t.occurrences new),
  )

  pub due_new :
      (n : DueNotification) (t : JobTables)
      → is_reserved n.occurrence t.occurrences ≡ false
      → create_due_notification consents false n t
        ≡ settle_creation n t
            (t.occurrences ++ record { key = n.occurrence; notification_id = none } ∷ [])
            (create_notification consents n.command t.notifications t.fresh)
  unfolding create_due_notification reserve
  due_new n t new = rw new refl

  pub due_taken :
      (n : DueNotification) (t : JobTables)
      → is_reserved n.occurrence t.occurrences ≡ true
      → create_due_notification consents false n t ≡ (skipped, t)
  unfolding create_due_notification reserve
  due_taken n t taken = rw taken refl

  pub outcome :
      (n : DueNotification) (t : JobTables)
      → Outcome n t (create_due_notification consents false n t)
  outcome n t = elim (Bool-cases (is_reserved n.occurrence t.occurrences)) [
    | inl taken ↦ inr (inl (due_taken n t taken))
    | inr new ↦ subst (Outcome n t) (sym (due_new n t new)) (created-Outcome n t new)
  ]

  module _ (From : ScheduleOccurrenceKey → CreateNotificationCommand → Type 0) where
    -- The notification is due for its occurrence.
    abbrev pub IsFrom : DueNotification → Type 0
    IsFrom n = From n.occurrence n.command

    grown-IsJobState :
        (n : DueNotification) (t : JobTables)
        → IsFrom n
        → is_reserved n.occurrence t.occurrences ≡ false
        → IsJobState From t
        → IsJobState From (grown n t)
    grown-IsJobState n t origin new i = record {
      distinct =
          append-IsDistinct n.occurrence _ t.occurrences refl
            (unreserved-All n.occurrence t.occurrences new) i.distinct;
      bound = append-IsBound From _ _ t.occurrences t.notifications refl origin i.bound;
      numbered = append-IsNumbered _ t.notifications i.drawn i.numbered;
      drawn =
          All-append (λ x. x.id < suc t.fresh) t.notifications _
            (All-map (λ x h. omega (arith, h)) t.notifications i.drawn) (omega arith, tt);
    }

    Outcome-IsJobState :
        (n : DueNotification) (t : JobTables) (r : DueNotificationAction × JobTables)
        → IsFrom n
        → Outcome n t r
        → IsJobState From t
        → IsJobState From r.1
    Outcome-IsJobState n t r origin (inl (e, new)) i = rw e (grown-IsJobState n t origin new i)
    Outcome-IsJobState n t r origin (inr (inl e)) i = rw e i
    Outcome-IsJobState n t r origin (inr (inr e)) i = rw e i

    create_all-IsJobState :
        (ns : List DueNotification) (totals : RuleTotals) (t : JobTables)
        → All IsFrom ns
        → IsJobState From t
        → IsJobState From (create_all consents false ns totals t).1
    unfolding create_all
    create_all-IsJobState [] totals t origins i = i
    create_all-IsJobState (n ∷ ns) totals t origins i =
        create_all-IsJobState ns _ _ origins.1 (Outcome-IsJobState n t _ origins.0 (outcome n t) i)

    -- In a run that is not dry: whatever relation of an occurrence to a content holds of the notifications
    -- that are due and of those that are stored, the job keeps the occurrences distinct and each bound, by
    -- its identifier, to a stored notification of its own, whose content is so related to it. There are
    -- no other notifications, their identifiers differ, and the next one drawn is new.
    pub create_for_rule-IsJobState :
        (ns : List DueNotification) (t : JobTables)
        → All IsFrom ns
        → IsJobState From t
        → IsJobState From (create_for_rule consents false ns t).1
    unfolding create_for_rule
    create_for_rule-IsJobState ns t origins i = create_all-IsJobState ns no_totals t origins i

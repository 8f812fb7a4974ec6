-- ===== src/Notifications/Twice.antt =====
-- The job of app/modules/notifications run again for the same notifications.
use boat_backend.Prelude.{
  ℕ, ◌≡◌, ◌⊎◌, inl, inr, refl, sym, subst, ◌∙◌, Bool, true, false, ◌&&◌, List, [], ◌∷◌, ◌++◌, arith,
  All, Bool-cases,
}
use boat_backend.Core.Errors.{Result, ok, err}
use boat_backend.Notifications.Job.{
  ScheduleOccurrenceKey, CreateNotificationCommand, DueNotification, OccurrenceRow, JobTables,
  RuleTotals, DueNotificationAction, created, skipped, failed, key_eq, is_reserved,
  create_notification, settle_creation, save_notification, create_due_notification, add_action,
  no_totals, create_all, create_for_rule, validate_notification, may_send,
}
use boat_backend.Notifications.Reserved.{Outcome, outcome, grown, key_eq_refl, due_taken, due_new}

reserved-append :
    (k : ScheduleOccurrenceKey) (row : OccurrenceRow) (rows : List OccurrenceRow)
    → is_reserved k rows ≡ true
    → is_reserved k (rows ++ row ∷ []) ≡ true
unfolding is_reserved
reserved-append k row [] h = absurd (ground (arith, h))
reserved-append k row (x ∷ xs) h = elim (Bool-cases (key_eq x.key k)) [
  | inl e ↦ rw e refl
  | inr e ↦ rw e (reserved-append k row xs (rw e at h))
]

reserved-last :
    (k : ScheduleOccurrenceKey) (row : OccurrenceRow) (rows : List OccurrenceRow)
    → key_eq row.key k ≡ true
    → is_reserved k (rows ++ row ∷ []) ≡ true
unfolding is_reserved
reserved-last k row [] h = rw h refl
reserved-last k row (x ∷ xs) h = elim (Bool-cases (key_eq x.key k)) [
  | inl e ↦ rw e refl
  | inr e ↦ rw e (reserved-last k row xs h)
]

abbrev is_valid : Result Unit → Bool
is_valid (ok u) = true
is_valid (err e) = false

module _ (consents : ℕ → Bool) where
  -- A notification that the creator would create.
  abbrev is_sendable : CreateNotificationCommand → Bool
  is_sendable c = is_valid (validate_notification c) && may_send consents c

  -- Nothing more becomes of it: its occurrence is reserved, or it cannot be created.
  abbrev IsSettled : JobTables → DueNotification → Type 0
  IsSettled t n = (is_reserved n.occurrence t.occurrences ≡ true) ⊎ (is_sendable n.command ≡ false)

  -- The action leaves the tables and creates nothing.
  abbrev Leaves : JobTables → DueNotificationAction × JobTables → Type 0
  Leaves t r = (r ≡ (skipped, t)) ⊎ (r ≡ (failed, t))

  unsendable-Leaves :
      (n : DueNotification) (t : JobTables) (rows : List OccurrenceRow)
      → is_sendable n.command ≡ false
      → Leaves t (
          settle_creation n t rows (create_notification consents n.command t.notifications t.fresh))
  unfolding settle_creation create_notification save_notification
  unsendable-Leaves n t rows h = ground (arith, h)

  settled-Leaves :
      (n : DueNotification) (t : JobTables)
      → IsSettled t n
      → Leaves t (create_due_notification consents false n t)
  settled-Leaves n t (inl taken) = inl (due_taken consents n t taken)
  settled-Leaves n t (inr stuck) = elim (Bool-cases (is_reserved n.occurrence t.occurrences)) [
    | inl taken ↦ inl (due_taken consents n t taken)
    | inr new ↦ subst (Leaves t) (sym (due_new consents n t new)) (unsendable-Leaves n t _ stuck)
  ]

  sendable-created :
      (n : DueNotification) (t : JobTables) (rows : List OccurrenceRow)
      → is_sendable n.command ≡ true
      → (settle_creation n t rows
          (create_notification consents n.command t.notifications t.fresh)).0
        ≡ created
  unfolding settle_creation create_notification save_notification
  sendable-created n t rows fine = ground (arith, fine)

  grown-IsSettled :
      (m n : DueNotification) (t : JobTables) → IsSettled t m → IsSettled (grown n t) m
  grown-IsSettled m n t (inl taken) = inl (reserved-append m.occurrence _ t.occurrences taken)
  grown-IsSettled m n t (inr stuck) = inr stuck

  kept-IsSettled :
      (m n : DueNotification) (t : JobTables) (r : DueNotificationAction × JobTables)
      → Outcome consents n t r
      → IsSettled t m
      → IsSettled r.1 m
  kept-IsSettled m n t r (inl (e, new)) i = rw e (grown-IsSettled m n t i)
  kept-IsSettled m n t r (inr (inl e)) i = rw e i
  kept-IsSettled m n t r (inr (inr e)) i = rw e i

  -- What an action on a notification leaves, or grows, is settled for that notification.
  acted-IsSettled :
      (n : DueNotification) (t : JobTables)
      → IsSettled (create_due_notification consents false n t).1 n
  acted-IsSettled n t = elim (Bool-cases (is_reserved n.occurrence t.occurrences)) [
    | inl taken ↦ rw (due_taken consents n t taken) (inl taken)
    | inr new ↦ elim (Bool-cases (is_sendable n.command)) [
      | inr stuck ↦ inr stuck
      | inl fine ↦
          created-IsSettled (create_due_notification consents false n t)
            (rw (due_new consents n t new) (sendable-created n t _ fine)) (outcome consents n t)
    ]
  ]
    where
      created-IsSettled :
          (r : DueNotificationAction × JobTables)
          → r.0 ≡ created
          → Outcome consents n t r
          → IsSettled r.1 n
      created-IsSettled r c (inl (e, new)) =
          rw e (inl (reserved-last n.occurrence _ t.occurrences (key_eq_refl n.occurrence)))
      created-IsSettled r c (inr (inl e)) = absurd (ground (arith, c, e))
      created-IsSettled r c (inr (inr e)) = absurd (ground (arith, c, e))

  create_all-keeps :
      (m : DueNotification) (ns : List DueNotification) (totals : RuleTotals) (t : JobTables)
      → IsSettled t m
      → IsSettled (create_all consents false ns totals t).1 m
  unfolding create_all
  create_all-keeps m [] totals t i = i
  create_all-keeps m (n ∷ ns) totals t i =
      (let r = create_due_notification consents false n t in
        create_all-keeps m ns (add_action totals r.0) r.1
          (kept-IsSettled m n t r (outcome consents n t) i))

  create_all-settles :
      (ns : List DueNotification) (totals : RuleTotals) (t : JobTables)
      → All (IsSettled (create_all consents false ns totals t).1) ns
  unfolding create_all
  create_all-settles [] totals t = tt
  create_all-settles (n ∷ ns) totals t =
      (let r = create_due_notification consents false n t in
        (
          create_all-keeps n ns (add_action totals r.0) r.1 (acted-IsSettled n t),
          create_all-settles ns (add_action totals r.0) r.1,
        ))

  uncounted :
      (totals : RuleTotals)
      → ((add_action totals skipped).created ≡ totals.created)
        × ((add_action totals failed).created ≡ totals.created)
  unfolding add_action
  uncounted totals = (refl, refl)

  -- A run over settled notifications creates nothing.
  settled-Idle :
      (ns : List DueNotification) (totals : RuleTotals) (t : JobTables)
      → All (IsSettled t) ns
      → ((create_all consents false ns totals t).1 ≡ t)
        × ((create_all consents false ns totals t).0.created ≡ totals.created)
  unfolding create_all
  settled-Idle [] totals t i = (refl, refl)
  settled-Idle (n ∷ ns) totals t i =
      next (create_due_notification consents false n t) (settled-Leaves n t i.0)
        (λ r. settled-Idle ns r t i.1)
    where
      next :
          (r : DueNotificationAction × JobTables)
          → Leaves t r
          → ((later : RuleTotals)
              → ((create_all consents false ns later t).1 ≡ t)
                × ((create_all consents false ns later t).0.created ≡ later.created))
          → ((create_all consents false ns (add_action totals r.0) r.1).1 ≡ t)
            × ((create_all consents false ns (add_action totals r.0) r.1).0.created
                ≡ totals.created)
      next r (inl e) h =
          (let k = h (add_action totals skipped) in rw e (k.0, k.1 ∙ (uncounted totals).0))
      next r (inr e) h =
          (let k = h (add_action totals failed) in rw e (k.0, k.1 ∙ (uncounted totals).1))

  -- Run again for the same notifications, with the same consents, the job creates nothing and stores nothing.
  pub job_twice :
      (ns : List DueNotification) (t : JobTables)
      → let first = create_for_rule consents false ns t in
        let second = create_for_rule consents false ns first.1 in
        (second.1 ≡ first.1) × (second.0.created ≡ 0)
  unfolding create_for_rule
  job_twice ns t = settled-Idle ns no_totals _ (create_all-settles ns no_totals t)

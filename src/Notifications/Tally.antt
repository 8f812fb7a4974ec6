-- ===== src/Notifications/Tally.antt =====
-- What the job of app/modules/notifications counts.
use boat_backend.Prelude.{
  ℕ, suc, ◌+◌, ◌≡◌, inl, inr, Bool, true, false, List, [], ◌∷◌, length, length-append, arith, some,
}
use boat_backend.Notifications.Job.{
  DueNotification, JobTables, RuleTotals, DueNotificationAction, create_due_notification,
  add_action, no_totals, create_all, create_for_rule,
}
use boat_backend.Notifications.Reserved.{Outcome, outcome}

-- Each candidate was created, skipped or failed, and as many occurrences were added as were created.
pub record IsTally (ns : List DueNotification) (before : JobTables) (r : RuleTotals × JobTables)
    : Type 0 where
  pub all_counted : r.0.candidates ≡ length ns
  pub adds_up : r.0.created + r.0.skipped + r.0.failed ≡ r.0.candidates
  pub stored : length r.1.occurrences ≡ length before.occurrences + r.0.created

module _ (consents : ℕ → Bool) where
  -- The same from totals so far.
  abbrev Tallies : List DueNotification → RuleTotals → JobTables → RuleTotals × JobTables → Type 0
  Tallies ns from before r =
      (r.0.candidates ≡ from.candidates + length ns)
      × (r.0.created + r.0.skipped + r.0.failed
          ≡ from.created + from.skipped + from.failed + length ns)
      × (length r.1.occurrences + from.created ≡ length before.occurrences + r.0.created)

  step-Tallies :
      (n : DueNotification) (ns : List DueNotification) (from : RuleTotals) (t : JobTables)
      (r : DueNotificationAction × JobTables) (last : RuleTotals × JobTables)
      → Outcome consents n t r
      → Tallies ns (add_action from r.0) r.1 last
      → Tallies (n ∷ ns) from t last
  unfolding add_action
  step-Tallies n ns from t r last (inl (e, new)) h = ground (
    arith,
    e,
    h,
    length-append t.occurrences
        (record { key = n.occurrence; notification_id = some t.fresh } ∷ []),
  )
  step-Tallies n ns from t r last (inr (inl e)) h = ground (arith, e, h)
  step-Tallies n ns from t r last (inr (inr e)) h = ground (arith, e, h)

  create_all-Tallies :
      (ns : List DueNotification) (from : RuleTotals) (t : JobTables)
      → Tallies ns from t (create_all consents false ns from t)
  unfolding create_all
  create_all-Tallies [] from t = ground arith
  create_all-Tallies (n ∷ ns) from t =
      (let r = create_due_notification consents false n t in
        step-Tallies n ns from t r (create_all consents false ns (add_action from r.0) r.1)
          (outcome consents n t) (create_all-Tallies ns (add_action from r.0) r.1))

  -- In a run that is not dry each due notification is a candidate, each candidate was created, skipped or
  -- failed, and the occurrences grow by the number created.
  pub create_for_rule-IsTally :
      (ns : List DueNotification) (t : JobTables)
      → IsTally ns t (create_for_rule consents false ns t)
  unfolding create_for_rule
  create_for_rule-IsTally ns t =
      let (candidates, sum, stored) = create_all-Tallies ns no_totals t in
      record {
        all_counted = omega (arith, candidates);
        adds_up = omega (arith, candidates, sum);
        stored = omega (arith, stored);
      }

  dry_all :
      (ns : List DueNotification) (from : RuleTotals) (t : JobTables)
      → create_all consents true ns from t
        ≡ (record from { candidates = from.candidates + length ns }, t)
  unfolding create_all create_due_notification add_action
  dry_all [] from t = ground arith
  dry_all (n ∷ ns) from t =
      ground (arith, dry_all ns (record from { candidates = suc from.candidates }) t)

  -- A dry run counts the candidates and changes nothing.
  pub dry_run_changes_nothing :
      (ns : List DueNotification) (t : JobTables)
      → create_for_rule consents true ns t ≡ (record no_totals { candidates = length ns }, t)
  unfolding create_for_rule
  dry_run_changes_nothing ns t = ground (arith, dry_all ns no_totals t)

-- ===== src/Credits/Commands/GrantWithin.antt =====
-- `GrantCreditCommandUseCase.execute` within a session that has written before, as the promotions
-- module calls it with a deferred commit.
use boat_backend.Prelude.{◌∙◌, ◌+◌, ◌≡◌, refl, ap, false, List, [], ◌∷◌, ◌++◌, none, arith}
use boat_backend.Core.Errors.{ok}
use boat_backend.Credits.Domain.{pull_events}
use boat_backend.Credits.Laws.{grant_credit_lem}
use boat_backend.Credits.Ledger.{IsSound}
use boat_backend.Credits.Repository.{row_of, save_write}
use boat_backend.Credits.Commands.{
  GrantCreditCommand, write_grant, settle_grant, grant_credit_execute, is_duplicate_grant,
}
use boat_backend.Credits.Commands.Account.{user_credit_to_domain_lem, account, account-IsBalanced}
use boat_backend.Credits.Commands.Grant.{
  IsValid, old_row, granted_credit, grant_row, grant_event, grant_writes, grant_result,
  grant_writes-first_violation,
}
use boat_backend.Database.{
  Tables, Write, insert_credit_transaction, insert_outbox_event, find_user_credit, apply_all, apply,
  first_violation, or_else,
}
use boat_backend.Database.Session.{
  Session, view, UnitOfWork, arrive, commit_of, bind_ok, flush_succeeds,
}

append_three :
    {A : Type 0} (xs : List A) (a b c : A)
    → ((xs ++ a ∷ []) ++ b ∷ []) ++ c ∷ [] ≡ xs ++ a ∷ b ∷ c ∷ []
append_three [] a b c = refl
append_three (x ∷ xs) a b c = ap (◌∷◌ x) (append_three xs a b c)

-- The session after the writes of a grant.
abbrev pub grant_written : GrantCreditCommand → Session → Session
grant_written c s = record s {
  pending = s.pending ++ grant_writes (view s) c s.fresh s.now;
  fresh = s.fresh + 1;
}

write_grant-in_turn :
    (c : GrantCreditCommand) (s : Session)
    → IsValid c
    → IsSound (old_row (view s) c)
    → write_grant c s ≡ (
      ok (pull_events (granted_credit (view s) c)).1,
      record s {
        pending =
            ((s.pending
                ++ save_write
                    (find_user_credit
                      (account (old_row (view s) c) c.user_id).id
                      (account (old_row (view s) c) c.user_id).feature_key
                      (view s))
                    (row_of (granted_credit (view s) c))
                  ∷ [])
              ++ insert_credit_transaction (grant_row (view s) c s.fresh s.now) ∷ [])
            ++ insert_outbox_event (grant_event (view s) c) ∷ [];
        fresh = s.fresh + 1;
      },
    )
unfolding write_grant
write_grant-in_turn c s valid h = ground (
  arith,
  user_credit_to_domain_lem (old_row (view s) c) c.user_id h,
  grant_credit_lem (account (old_row (view s) c) c.user_id) c.amount
      (account-IsBalanced (old_row (view s) c) c.user_id h) valid.positive c.reason c.source_type
      c.source_id c.idempotency_key,
  valid.paired,
)

pub write_grant-within :
    (c : GrantCreditCommand) (s : Session)
    → IsValid c
    → IsSound (old_row (view s) c)
    → write_grant c s ≡ (ok (pull_events (granted_credit (view s) c)).1, grant_written c s)
write_grant-within c s valid h =
    write_grant-in_turn c s valid h
    ∙ ap
        (λ ws. (
          ok (pull_events (granted_credit (view s) c)).1,
          record s { pending = ws; fresh = s.fresh + 1 },
        ))
        (append_three s.pending _ _ _)

pub apply_all-append :
    (ws vs : List Write) (t : Tables) → apply_all (ws ++ vs) t ≡ apply_all vs (apply_all ws t)
unfolding apply_all
apply_all-append [] vs t = refl
apply_all-append (w ∷ ws) vs t = apply_all-append ws vs (apply w t)

pub first_violation-append :
    (ws vs : List Write) (t : Tables)
    → first_violation (ws ++ vs) t
      ≡ or_else (first_violation ws t) (first_violation vs (apply_all ws t))
unfolding first_violation apply_all
first_violation-append [] vs t = refl
first_violation-append (w ∷ ws) vs t = ground (arith, first_violation-append ws vs (apply w t))

pub grant_execute-within :
    (uow : UnitOfWork) (c : GrantCreditCommand) (s : Session)
    → IsValid c
    → IsSound (old_row (view s) c)
    → is_duplicate_grant c (view s) ≡ false
    → grant_credit_execute uow c s
      ≡ settle_grant uow c (pull_events (granted_credit (view s) c)).1 (grant_written c s)
unfolding grant_credit_execute
grant_execute-within uow c s valid h new =
    rw new (bind_ok (write_grant c) (settle_grant uow c) s (write_grant-within c s valid h))

pub arrive_alone : (s : Session) → s.arrivals ≡ [] → arrive s ≡ s
unfolding arrive
arrive_alone s alone = ground arith

pub grant_written-first_violation :
    (c : GrantCreditCommand) (s : Session)
    → IsValid c
    → is_duplicate_grant c (view s) ≡ false
    → first_violation s.pending s.committed ≡ none
    → first_violation (s.pending ++ grant_writes (view s) c s.fresh s.now) s.committed ≡ none
unfolding view
grant_written-first_violation c s valid new fits =
    rw (first_violation-append s.pending (grant_writes (view s) c s.fresh s.now) s.committed, fits)
      (grant_writes-first_violation (view s) c s.fresh s.now valid.allowance new)

-- A new grant with a deferred commit adds its writes to those of the session, with no other session at
-- work, and answers the new counts.
pub grant_within :
    (c : GrantCreditCommand) (s : Session)
    → IsValid c
    → IsSound (old_row (view s) c)
    → is_duplicate_grant c (view s) ≡ false
    → s.arrivals ≡ []
    → first_violation s.pending s.committed ≡ none
    → grant_credit_execute UnitOfWork.deferred_commit c s
      ≡ (ok (grant_result (view s) c), grant_written c s)
unfolding settle_grant grant_result pull_events commit_of
grant_within c s valid h new alone fits =
    grant_execute-within UnitOfWork.deferred_commit c s valid h new
    ∙ ground (
      arith,
      flush_succeeds (grant_written c s) (
          rw (arrive_alone (grant_written c s) alone)
            (grant_written-first_violation c s valid new fits)),
      arrive_alone (grant_written c s) alone,
    )

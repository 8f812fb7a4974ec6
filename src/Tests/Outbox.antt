-- ===== src/Tests/Outbox.antt =====
-- The theorems on app/core/db/outbox at a table of two events, one of which is due.
use boat_backend.Prelude.{
  ℕ, ◌+◌, ◌<◌, ◌≤◌, ◌≡◌, refl, Bool, true, false, String, List, [], ◌∷◌, Option, some, arith, All,
  select,
}
use boat_backend.Core.Outbox.{
  OutboxEvent, ClaimedEvent, Relay, Round, first_due, touch, dispatch_immediately, claim_next,
  settle, run_once,
}
use boat_backend.Core.Outbox.Claims.{
  IsKeyed, Step.publishes, Reaches.stays, Reaches.steps, Takes.by_relay,
}
use boat_backend.Core.Outbox.Fencing.{superseded_claim_settles_nothing, claim_again_after_lease}
use boat_backend.Core.Outbox.Batch.{alone, TakesAllDue, run_once-drains}
use boat_backend.Core.Outbox.Due.{other_than}
use boat_backend.Core.Outbox.Immediate.{
  dispatch_immediately-delivers, claimed_event_is_not_dispatched,
}
use boat_backend.Core.Outbox.Retries.{IsWithin, run_once-bounded}

abbrev relay : Relay
relay = record { redeliver_after = 10; max_retry = 3; batch_size = 5 }

abbrev old_event : OutboxEvent ℕ
old_event = record {
  id = 1;
  event_id = 100;
  event_type = "promotions.redeemed";
  payload = 0;
  occurred_at = 5;
  retry_count = 0;
}

abbrev new_event : OutboxEvent ℕ
new_event = record old_event { id = 2; event_id = 101; occurred_at = 95 }

abbrev both : List (OutboxEvent ℕ)
both = old_event ∷ new_event ∷ []

both-IsKeyed : IsKeyed both
both-IsKeyed = (((refl, refl), tt), (tt, tt))

run_once-drains_example : TakesAllDue relay 100 both (run_once relay (λ _. alone 100) both)
run_once-drains_example = run_once-drains relay 100 both both-IsKeyed (omega arith)

abbrev failing : ℕ → Round ℕ
failing n = record {
  now = 100 + n;
  locked = λ _. false;
  restores = λ _. true;
  handles = λ _. false;
  meanwhile = λ rows. rows;
}

run_once-bounded_example :
    ((run_once relay failing both).processed ≤ 5)
    × All (IsWithin relay) (run_once relay failing both).rows
run_once-bounded_example =
    run_once-bounded relay failing both (λ n others h. h) (omega arith, (omega arith, tt))

abbrev claim_at : ℕ → ClaimedEvent ℕ
claim_at now = record {
  event_id = 100;
  event_type = "promotions.redeemed";
  payload = 0;
  retry_count = 0;
  claimed_at = now;
}

abbrev no_locks : OutboxEvent ℕ → Bool
no_locks _ = false

abbrev claimed_rows : ℕ → List (OutboxEvent ℕ)
claimed_rows now = touch 1 now both

first_claim : claim_next relay 50 no_locks both ≡ (some (claim_at 50), claimed_rows 50)
unfolding claim_next first_due
first_claim = refl

second_claim :
    claim_next relay 70 no_locks (claimed_rows 50) ≡ (some (claim_at 70), claimed_rows 70)
unfolding claim_next first_due
second_claim = refl

abbrev decode : String → ℕ → Option ℕ
decode event_type payload = some payload

abbrev happened : ℕ → ℕ
happened event = event

-- The first worker comes back after the lease has run out and the second one has claimed the event.
superseded_claim_settles_nothing_example :
    settle true (claim_at 50) (claimed_rows 70) ≡ claimed_rows 70
superseded_claim_settles_nothing_example =
    superseded_claim_settles_nothing decode happened both (claimed_rows 50) (claimed_rows 50)
      (claimed_rows 70) (claimed_rows 70) (claim_at 50) (claim_at 70) true both-IsKeyed
      (by_relay relay 50 no_locks first_claim) stays (by_relay relay 70 no_locks second_claim) refl
      stays

claim_again_after_lease_example : 50 + 10 < 70
claim_again_after_lease_example =
    claim_again_after_lease decode happened both (claimed_rows 50) (claimed_rows 50)
      (claimed_rows 70) (claim_at 50) (claim_at 70) relay 70 no_locks both-IsKeyed
      (by_relay relay 50 no_locks first_claim) stays second_claim refl

-- The old event as the response leaves it: its date is the one in its payload.
abbrev untouched : OutboxEvent ℕ
untouched = record old_event { payload = 5 }

abbrev just_written : List (OutboxEvent ℕ)
just_written = untouched ∷ new_event ∷ []

abbrev handlers_return : ClaimedEvent ℕ → Bool
handlers_return _ = true

dispatch_immediately-delivers_example :
    dispatch_immediately decode happened 6 (λ _. true) (λ r. r) 100 just_written
    ≡ (true, select (other_than untouched) just_written)
dispatch_immediately-delivers_example =
    dispatch_immediately-delivers decode happened 6 100 just_written untouched 5
      (((refl, refl), tt), (tt, tt)) refl refl refl refl

-- Another event is published between the claim and the request.
abbrev newer : OutboxEvent ℕ
newer = record old_event { id = 3; event_id = 102; payload = 58; occurred_at = 58 }

claimed_event_is_not_dispatched_example :
    dispatch_immediately decode happened 60 handlers_return (λ r. r) 100 (newer ∷ claimed_rows 50)
    ≡ (false, newer ∷ claimed_rows 50)
claimed_event_is_not_dispatched_example =
    claimed_event_is_not_dispatched decode happened both (claimed_rows 50) (newer ∷ claimed_rows 50)
      (claim_at 50) 60 handlers_return (λ r. r) both-IsKeyed
      (by_relay relay 50 no_locks first_claim) (omega arith)
      (steps stays (publishes newer ((refl, refl), ((refl, refl), tt)) refl))

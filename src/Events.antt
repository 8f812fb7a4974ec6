-- ===== src/Events.antt =====
-- The domain events that credits and promotions record, with the fields of their own
-- (app/modules/credits/domain/events.py, app/modules/promotions/domain/events.py). What every event
-- carries (event_id, occurred_at, event_version) is the business of the outbox.
use boat_backend.Prelude.{ℕ, String, Option}
use boat_backend.Prelude.Int.{ℤ}
use boat_backend.Credits.Values.{CreditReason, CreditSourceType}

pub data Event : Type 0 where
  -- user_id, amount, reason, source_type, source_id, idempotency_key
  credit_granted : ℕ → ℤ → CreditReason → Option CreditSourceType → Option ℕ → Option String → Event
  -- user_id, amount, reason
  credit_used : ℕ → ℤ → CreditReason → Event
  -- user_id
  user_credits_deleted : ℕ → Event
  -- redemption_id, promotion_id, user_id, promotion_code_id, benefit_amount, idempotency_key
  promotion_redemption_granted : ℕ → ℕ → ℕ → Option ℕ → ℤ → String → Event

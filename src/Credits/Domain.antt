-- ===== src/Credits/Domain.antt =====
-- app/modules/credits/domain/model.py: counts, amounts, balances and the aggregate `UserCredit`.
-- `_credit_count_for` is taken at integers, which is what every caller passes.
use boat_backend.Prelude.{ℕ, String, Bool, not, ◌&&◌, List, [], ◌∷◌, ◌++◌, Option, if◌then◌else◌}
use boat_backend.Prelude.Int.{ℤ, pos, ◌+ℤ◌, ◌-ℤ◌, ltb_ℤ, leb_ℤ}
use boat_backend.Core.Errors.{
  Result, ok, err, validation_error, insufficient_credit, ◌>>=◌, ◌>>◌, raise_if,
}
use boat_backend.Credits.Values.{CreditReason, CreditSourceType, FeatureKey}
use boat_backend.Events.{Event, credit_granted}

pub record CreditCount : Type 0 where
  pub value : ℤ

pub record CreditAmount : Type 0 where
  pub value : ℤ

pub record CreditBalance : Type 0 where
  pub total_granted : CreditCount
  pub used : CreditCount
  pub remaining : CreditCount

pub record UserCredit : Type 0 where
  pub id : ℕ
  pub feature_key : FeatureKey
  pub balance : CreditBalance
  pub domain_events : List Event

-- `CreditCount.__post_init__`
unfoldable pub credit_count : ℤ → String → Result CreditCount
credit_count value field_name =
    if ltb_ℤ value (pos 0)
    then err (validation_error (field_name ∷ []))
    else ok (record { value = value })

-- `CreditAmount.__post_init__`
unfoldable pub credit_amount : ℤ → String → Result CreditAmount
credit_amount value field_name =
    if ltb_ℤ value (pos 1)
    then err (validation_error (field_name ∷ []))
    else ok (record { value = value })

abbrev pub eqb_ℤ : ℤ → ℤ → Bool
eqb_ℤ a b = leb_ℤ a b && leb_ℤ b a

-- `CreditBalance.__init__`
unfoldable pub credit_balance : ℤ → ℤ → ℤ → Result CreditBalance
unfolding credit_count
credit_balance total_granted_count used_count remaining_count = do
  total_granted ← credit_count total_granted_count "total_granted_count"
  used ← credit_count used_count "used_count"
  remaining ← credit_count remaining_count "remaining_count"
  raise_if (not (eqb_ℤ total_granted.value (used.value +ℤ remaining.value)))
      (validation_error ("total_granted_count" ∷ []))
  ok (record { total_granted = total_granted; used = used; remaining = remaining })

abbrev pub total_granted_count : UserCredit → ℤ
total_granted_count u = u.balance.total_granted.value

abbrev pub used_count : UserCredit → ℤ
used_count u = u.balance.used.value

abbrev pub remaining_count : UserCredit → ℤ
remaining_count u = u.balance.remaining.value

-- `CreditBalance.can_cover`, which `UserCredit.can_use` calls
unfoldable pub can_cover : CreditBalance → CreditAmount → Bool
can_cover b amount = leb_ℤ amount.value b.remaining.value

unfoldable pub can_use : UserCredit → CreditAmount → Bool
unfolding can_cover
can_use u amount = can_cover u.balance amount

-- `UserCredit.restore`
unfoldable pub restore : ℕ → FeatureKey → ℤ → ℤ → ℤ → Result UserCredit
restore user_id feature_key total used remaining = do
  balance ← credit_balance total used remaining
  ok (record { id = user_id; feature_key = feature_key; balance = balance; domain_events = [] })

-- `UserCredit.use`
unfoldable pub use_credit : UserCredit → CreditAmount → Result UserCredit
unfolding can_use
use_credit u amount = do
  raise_if (not (can_use u amount)) insufficient_credit
  balance ←
      credit_balance (total_granted_count u) (used_count u +ℤ amount.value)
        (remaining_count u -ℤ amount.value)
  ok (record u { balance = balance })

-- `AggregateRoot.record_event`
unfoldable pub record_event : UserCredit → Event → UserCredit
record_event u event = record u { domain_events = u.domain_events ++ event ∷ [] }

-- `AggregateRoot.pull_events`
unfoldable pub pull_events : UserCredit → List Event × UserCredit
pull_events u = (u.domain_events, record u { domain_events = [] })

-- `UserCredit.grant`
unfoldable pub grant_credit :
    UserCredit
    → CreditAmount
    → CreditReason
    → Option CreditSourceType
    → Option ℕ
    → Option String
    → Result UserCredit
unfolding record_event
grant_credit u amount reason source_type source_id idempotency_key = do
  balance ←
      credit_balance (total_granted_count u +ℤ amount.value) (used_count u)
        (remaining_count u +ℤ amount.value)
  ok (
      record_event (record u { balance = balance })
        (credit_granted u.id amount.value reason source_type source_id idempotency_key))

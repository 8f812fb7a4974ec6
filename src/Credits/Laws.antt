-- ===== src/Credits/Laws.antt =====
-- The rules of app/modules/credits/domain/model.py: what a balance is, and what granting and
-- spending make of it.
use boat_backend.Prelude.{
  ap, Bool-cases, inl, inr, ℕ, String, ◌≡◌, ◌↔◌, refl, [], ◌∷◌, ◌++◌, Option, arith, if◌then◌else◌,
}
use boat_backend.Prelude.Int.{
  ℤ, pos, pos_part, neg_part, ◌+ℤ◌, ◌-ℤ◌, ◌≤ℤ◌, leb_ℤ, int_laws, +ℤ_parts, eq_of_parts,
}
use boat_backend.Core.Errors.{ok, err, insufficient_credit}
use boat_backend.Credits.Values.{CreditReason, CreditSourceType}
use boat_backend.Credits.Domain.{
  CreditAmount, CreditBalance, UserCredit, credit_balance, can_use, use_credit, grant_credit,
}
use boat_backend.Events.{credit_granted}

-- Three counts that `CreditBalance` accepts.
pub record Balances (total used remaining : ℤ) : Type 0 where
  pub used_nonneg : pos 0 ≤ℤ used
  pub remaining_nonneg : pos 0 ≤ℤ remaining
  pub adds_up : total ≡ used +ℤ remaining

abbrev pub IsBalanced : CreditBalance → Type 0
IsBalanced b = Balances b.total_granted.value b.used.value b.remaining.value

abbrev pub balance : ℤ → ℤ → ℤ → CreditBalance
balance total used remaining = record {
  total_granted = record { value = total };
  used = record { value = used };
  remaining = record { value = remaining };
}

pub credit_balance-Balances :
    (t u r : ℤ) → Balances t u r → credit_balance t u r ≡ ok (balance t u r)
unfolding credit_balance
credit_balance-Balances t u r h = ground (arith, +ℤ_parts u r)

pub Balances-credit_balance :
    (t u r : ℤ) (b : CreditBalance) → credit_balance t u r ≡ ok b → IsBalanced b
unfolding credit_balance
Balances-credit_balance t u r b h = ground (arith, +ℤ_parts u r, eq_of_parts t (u +ℤ r))

-- A balance is made of three counts exactly when neither the used nor the remaining count is negative
-- and the total is their sum.
pub credit_balance_iff : (t u r : ℤ) → (credit_balance t u r ≡ ok (balance t u r)) ↔ Balances t u r
credit_balance_iff t u r =
    (λ h. Balances-credit_balance t u r (balance t u r) h, λ h. credit_balance-Balances t u r h)

abbrev pub spent : UserCredit → CreditAmount → UserCredit
spent u amount = record u {
  balance =
      balance u.balance.total_granted.value (u.balance.used.value +ℤ amount.value)
        (u.balance.remaining.value -ℤ amount.value);
}

abbrev pub topped_up :
    UserCredit
    → CreditAmount
    → CreditReason
    → Option CreditSourceType
    → Option ℕ
    → Option String
    → UserCredit
topped_up u amount reason source_type source_id key = record u {
  balance =
      balance (u.balance.total_granted.value +ℤ amount.value) u.balance.used.value
        (u.balance.remaining.value +ℤ amount.value);
  domain_events =
      u.domain_events ++ credit_granted u.id amount.value reason source_type source_id key ∷ [];
}

module _ (u : UserCredit) (amount : CreditAmount) (valid : IsBalanced u.balance)
    (h : pos 1 ≤ℤ amount.value) where
  spent_Balances :
      amount.value ≤ℤ u.balance.remaining.value
      → Balances u.balance.total_granted.value
          (u.balance.used.value +ℤ amount.value)
          (u.balance.remaining.value -ℤ amount.value)
  spent_Balances covered = omega (int_laws, ap pos_part valid.adds_up, ap neg_part valid.adds_up)

  -- A positive amount is spent from a valid balance exactly when the remaining count covers it;
  -- otherwise the spending is refused as insufficient.
  pub use_credit_lem : use_credit u amount ≡ (
      if leb_ℤ amount.value u.balance.remaining.value
      then ok (spent u amount)
      else err insufficient_credit)
  unfolding use_credit can_use
  use_credit_lem = elim (Bool-cases (leb_ℤ amount.value u.balance.remaining.value)) [
    | inl covered ↦
        rw covered (rw (credit_balance-Balances _ _ _ (spent_Balances (ground arith))) refl)
    | inr short ↦ rw short
  ]

  pub spent-IsBalanced :
      amount.value ≤ℤ u.balance.remaining.value → IsBalanced (spent u amount).balance
  spent-IsBalanced = spent_Balances

  pub topped_up_Balances :
      Balances
        (u.balance.total_granted.value +ℤ amount.value)
        u.balance.used.value
        (u.balance.remaining.value +ℤ amount.value)
  topped_up_Balances = omega (int_laws, ap pos_part valid.adds_up, ap neg_part valid.adds_up)

  -- Granting a positive amount to a valid balance adds it to the total and to the remaining count,
  -- keeps the used count, and records the event with what the grant was called with.
  pub grant_credit_lem :
      (reason : CreditReason) (source_type : Option CreditSourceType) (source_id : Option ℕ)
      (key : Option String)
      → grant_credit u amount reason source_type source_id key
        ≡ ok (topped_up u amount reason source_type source_id key)
  unfolding grant_credit
  grant_credit_lem reason source_type source_id key =
      rw (credit_balance-Balances _ _ _ topped_up_Balances) refl

-- ===== src/Promotions/Monthly.antt =====
-- app/modules/promotions/jobs/ensure_monthly_recharge_promotion.py, from the month's specification on.
-- The instants at which a month starts and ends in Seoul are `zoneinfo`'s, so they are given with it.
pub mod Once
pub mod Months
use boat_backend.Prelude.{
  ℕ, ◌+◌, String, Bool, true, false, Option, none, some, ◌==◌, if◌then◌else◌,
}
use boat_backend.Prelude.Int.{ℤ, pos}
use boat_backend.Core.Errors.{Error, Result, integrity_error}
use boat_backend.Credits.Values.{ocr}
use boat_backend.Database.Session.{
  Action, ◌>>=◌, ◌>>◌, pure, raise, try_except, uuid4, UnitOfWork, commit_of, rollback_of, lift,
}
use boat_backend.Receipts.Dates.{Date, make_date}
use boat_backend.Promotions.Domain.{Promotion, recharge, restore_promotion}
use boat_backend.Promotions.Repository.{
  find_promotion_by_benefit_context_start_for_update, create_promotion, save_promotion,
}

-- `MonthlyRechargePromotionSpec`; its `benefit_amount` is always the default.
pub record Spec : Type 0 where
  pub name : String
  pub starts_at : ℕ
  pub expires_at : ℕ

-- `MONTHLY_RECHARGE_AMOUNT`
abbrev pub monthly_recharge_amount : ℤ
monthly_recharge_amount = pos 5

-- `_new_monthly_recharge_promotion`, once the identifier is drawn
abbrev pub new_promotion : Spec → ℕ → Promotion
new_promotion spec id = record {
  id = id;
  name = spec.name;
  active = true;
  starts_at = spec.starts_at;
  expires_at = some spec.expires_at;
  max_redemptions = none;
  times_redeemed = 0;
  max_redemptions_per_user = 1;
  benefit_feature_key = ocr;
  context = some recharge;
  benefit_amount = monthly_recharge_amount;
}

-- `_apply_monthly_recharge_spec`: the identifier and the counter stay.
unfoldable pub apply_spec : Spec → Promotion → Promotion
apply_spec spec p = record (new_promotion spec p.id) { times_redeemed = p.times_redeemed }

-- The answer: the identifier, and whether the promotion was created.
abbrev pub Ensured : Type 0
Ensured = ℕ × Bool

-- `except IntegrityError`
abbrev pub load_existing : UnitOfWork → Spec → Error → Action Ensured
load_existing uow spec (integrity_error c) = do
  rollback_of uow
  existing ← find_promotion_by_benefit_context_start_for_update ocr recharge spec.starts_at
  λ s. elim existing [
    | none ↦ raise (integrity_error c) s
    | some p ↦ (save_promotion (apply_spec spec p) >> pure (p.id, false)) s
  ]
load_existing uow spec e = raise e

-- `_create_or_load_monthly_recharge_promotion`
unfoldable pub create_or_load : UnitOfWork → Spec → Action Ensured
create_or_load uow spec = do
  id ← uuid4
  promotion ← lift (restore_promotion (new_promotion spec id))
  try_except (create_promotion promotion >> pure (promotion.id, true)) (load_existing uow spec)

-- `ensure_monthly_recharge_promotion`
unfoldable pub ensure_monthly_recharge_promotion : UnitOfWork → Spec → Action Ensured
unfolding create_or_load
ensure_monthly_recharge_promotion uow spec = do
  found ← find_promotion_by_benefit_context_start_for_update ocr recharge spec.starts_at
  ensured ← λ s. elim found [
    | none ↦ create_or_load uow spec s
    | some p ↦ (save_promotion (apply_spec spec p) >> pure (p.id, false)) s
  ]
  commit_of uow
  pure ensured

-- `_next_month`
unfoldable pub next_month : Date → Option Date
unfolding make_date
next_month month =
    if month.month == 12
    then make_date (month.year + 1) 1 1
    else make_date month.year (month.month + 1) 1

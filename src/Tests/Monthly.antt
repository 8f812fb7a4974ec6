-- ===== src/Tests/Monthly.antt =====
-- The theorems on the monthly promotion job at a month with and without its promotion.
use boat_backend.Prelude.{◌≡◌, refl, false, List, [], ◌∷◌, arith}
use boat_backend.Prelude.Int.{pos}
use boat_backend.Core.Errors.{ok}
use boat_backend.Credits.Commands.Account.{begin}
use boat_backend.Database.{Tables, Write, insert_promotion, update_promotion, apply, apply_all}
use boat_backend.Database.Session.{UnitOfWork}
use boat_backend.Promotions.Domain.{Promotion}
use boat_backend.Promotions.Monthly.{
  Spec, new_promotion, apply_spec, ensure_monthly_recharge_promotion,
}
use boat_backend.Promotions.Monthly.Once.{ensure_monthly-raced}
use boat_backend.Receipts.Dates.{Date, IsDate, last_day}

abbrev september : Spec
september = record { name = "september"; starts_at = 30; expires_at = 60 }

-- What an operator has put in by hand.
abbrev by_hand : Promotion
by_hand = record (new_promotion september 3) {
  name = "sale";
  times_redeemed = 4;
  benefit_amount = pos 9;
}

abbrev without : Tables
without = record {
  user_credits = [];
  credit_transactions = [];
  outbox_events = [];
  promotions = [];
  promotion_contents = [];
  promotion_codes = [];
  promotion_redemptions = [];
}

abbrev with_promotion : Tables
with_promotion = record without { promotions = by_hand ∷ [] }

abbrev insertion : List Write
insertion = insert_promotion by_hand ∷ []

inserted : (apply_all insertion without).promotions ≡ by_hand ∷ []
unfolding apply_all apply
inserted = refl

ensure_monthly-raced_example :
    ensure_monthly_recharge_promotion UnitOfWork.sql_alchemy september
      (begin without (insertion ∷ []) 40 7)
    ≡ (
      ok (3, false),
      begin
          (apply (update_promotion (apply_spec september by_hand)) (apply_all insertion without))
          []
          41
          7,
    )
ensure_monthly-raced_example =
    ensure_monthly-raced september 40 7 without insertion by_hand refl (rw inserted refl)
      (rw inserted refl) (omega arith)

abbrev december : Date
december = record { year = 2025; month = 12; day = 1 }

december-IsDate : IsDate december
unfolding last_day
december-IsDate = record {
  year_from = omega arith;
  year_to = omega arith;
  month_from = omega arith;
  month_to = omega arith;
  day_from = omega arith;
  day_to = omega arith;
}

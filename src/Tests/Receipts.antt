-- ===== src/Tests/Receipts.antt =====
-- The theorems on app/modules/receipts at a payment on the last day of January of a leap year.
use boat_backend.Prelude.{◌≡◌, ◌↔◌, ◌⊎◌, true, some, arith}
use boat_backend.Receipts.Dates.{Date, IsDate, last_day}
use boat_backend.Receipts.Period.{IsMonthsAfter, add_months_lem}
use boat_backend.Receipts.Status.{status_condition_iff}
use boat_backend.Receipts.Warranty.{all, expiring, add_months, warranty_status, status_condition}

abbrev payment : Date
payment = record { year = 2024; month = 1; day = 31 }

payment-IsDate : IsDate payment
unfolding last_day
payment-IsDate = record {
  year_from = omega arith;
  year_to = omega arith;
  month_from = omega arith;
  month_to = omega arith;
  day_from = omega arith;
  day_to = omega arith;
}

add_months_lem_example : (d : Date) × (add_months payment 1 ≡ some d) × IsMonthsAfter payment 1 d
add_months_lem_example = add_months_lem payment payment-IsDate 1 (omega arith)

status_condition_iff_example :
    (status_condition expiring 100 130 ≡ true)
    ↔ ((expiring ≡ all) ⊎ (warranty_status 130 100 ≡ expiring))
status_condition_iff_example = status_condition_iff expiring 100 130

-- ===== src/Promotions/Monthly/Months.antt =====
-- The end of the monthly promotion's period, against the months of a warranty.
use boat_backend.Prelude.{
  ℕ, ◌+◌, ◌-◌, ◌/◌, ◌%◌, ◌≡◌, refl, arith, sym, ◌≤◌, ◌==◌, Bool-cases, inl, inr,
}
use boat_backend.Promotions.Monthly.{next_month}
use boat_backend.Receipts.Dates.{Date, IsDate, make_date, last_day}
use boat_backend.Receipts.Warranty.{add_months, smaller}

one_smaller : (y m : ℕ) → smaller 1 (last_day y m) ≡ 1
unfolding last_day
one_smaller y m = ground arith

add_months-date :
    (start : Date) (months y m : ℕ)
    → start.year + (start.month - 1 + months) / 12 ≡ y
    → (start.month - 1 + months) % 12 + 1 ≡ m
    → add_months start months ≡ make_date y m (smaller start.day (last_day y m))
unfolding add_months
add_months-date start months y m p q = rw (sym p, sym q) refl

-- The next month of the job is what the receipts' `_add_months` makes of the month's first day; in
-- December of the last year neither is a date.
pub next_month-add_months :
    (month : Date) → IsDate month → next_month month ≡ add_months (record month { day = 1 }) 1
unfolding next_month
next_month-add_months month h =
    let from = h.month_from in
    let to = h.month_to in
    elim (Bool-cases (month.month == 12)) [
      | inl t ↦
          (let q : month.month ≡ 12 = ground (arith, t) in
            rw
              (
                t,
                add_months-date (record month { day = 1 }) 1 (month.year + 1) 1 (omega (arith, q))
                    (omega (arith, q)),
                one_smaller,
              )
              refl)
      | inr t ↦
          (let q : month.month + 1 ≤ 12 = ground (arith, t, to) in
            rw
              (
                t,
                add_months-date (record month { day = 1 }) 1 month.year (month.month + 1)
                    (omega (arith, q, from)) (omega (arith, q, from)),
                one_smaller,
              )
              refl)
    ]

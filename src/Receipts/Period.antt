-- ===== src/Receipts/Period.antt =====
-- The end of a warranty period is a date, so many months on, and not before the payment.
use boat_backend.Prelude.{
  ℕ, ◌+◌, ◌-◌, ◌*◌, ◌/◌, ◌%◌, ◌≤◌, ◌≡◌, refl, false, Option, none, some, arith, Bool-cases, inl,
  inr, ◌⊎◌, Option-cases,
}
use boat_backend.Core.Errors.{ok}
use boat_backend.Receipts.Dates.{Date, IsDate, last_day, make_date, date_lt}
use boat_backend.Receipts.Warranty.{smaller, add_months, resolve_expires_on}

last_day_range : (y m : ℕ) → (28 ≤ last_day y m) × (last_day y m ≤ 31)
unfolding last_day
last_day_range y m = ground arith

-- The date that is so many months after a date.
pub record IsMonthsAfter (start : Date) (months : ℕ) (d : Date) : Type 0 where
  pub valid : IsDate d
  pub later : d.year * 12 + d.month ≡ start.year * 12 + start.month + months
  pub day : d.day ≡ smaller start.day (last_day d.year d.month)

make_date_lem :
    (y m d : ℕ)
    → IsDate (record { year = y; month = m; day = d })
    → make_date y m d ≡ some (record { year = y; month = m; day = d })
unfolding make_date
make_date_lem y m d h =
    ground (arith, h.year_from, h.year_to, h.month_from, h.month_to, h.day_from, h.day_to)

module _ (start : Date) (h : IsDate start) (months : ℕ) where
  abbrev index : ℕ
  index = start.month - 1 + months

  abbrev pub end_year : ℕ
  end_year = start.year + index / 12

  abbrev pub end_month : ℕ
  end_month = index % 12 + 1

  abbrev pub end_date : Date
  end_date = record {
    year = end_year;
    month = end_month;
    day = smaller start.day (last_day end_year end_month);
  }

  months_later : end_year * 12 + end_month ≡ start.year * 12 + start.month + months
  months_later = (let from = h.month_from in omega (arith, from))

  end_day_range : (1 ≤ end_date.day) × (end_date.day ≤ last_day end_year end_month)
  end_day_range = (let from = h.day_from in ground (arith, from, last_day_range end_year end_month))

  -- A warranty period that ends by the year 9999 ends on a date that is so many months after the payment,
  -- on the same day or, where the month is shorter, on its last day.
  pub add_months_lem :
      start.year * 12 + start.month + months ≤ 120000
      → (d : Date) × (add_months start months ≡ some d) × IsMonthsAfter start months d
  unfolding add_months
  add_months_lem bound =
      let from = h.year_from in
      let mfrom = h.month_from in
      let later = months_later in
      let valid : IsDate end_date = record {
        year_from = omega (arith, from);
        year_to = omega (arith, bound, later);
        month_from = omega arith;
        month_to = omega arith;
        day_from = end_day_range.0;
        day_to = end_day_range.1;
      } in
      (
        end_date,
        make_date_lem end_year end_month _ valid,
        record { valid = valid; later = later; day = refl },
      )

make_date-fields :
    (y m day : ℕ) (d : Date) → make_date y m day ≡ some d → (d.year ≡ y) × (d.month ≡ m)
unfolding make_date
make_date-fields y m day d e = ground arith

add_months-fields :
    (start : Date) (h : IsDate start) (months : ℕ) (d : Date)
    → add_months start months ≡ some d
    → d.year * 12 + d.month ≡ start.year * 12 + start.month + months
unfolding add_months
add_months-fields start h months d e =
    let fields = make_date-fields (end_year start h months) (end_month start h months) _ d e in
    rw (fields.0, fields.1) (months_later start h months)

-- What `_resolve_expires_on` answers is never before the payment date, given or computed, for a period of
-- at least one month.
pub resolve_expires_on-not_before :
    (explicit : Option Date) (payment_date d : Date) (period_months : ℕ)
    → IsDate payment_date
    → 1 ≤ period_months
    → resolve_expires_on explicit payment_date period_months ≡ ok d
    → date_lt d payment_date ≡ false
unfolding resolve_expires_on date_lt
resolve_expires_on-not_before none payment_date d m h few e =
    not_before
      (add_months-fields payment_date h m d (found (Option-cases (add_months payment_date m))))
  where
    found :
        (add_months payment_date m ≡ none) ⊎ ((a : Date) × (add_months payment_date m ≡ some a))
        → add_months payment_date m ≡ some d
    found (inl q) = absurd (ground arith)
    found (inr (a, q)) = ground arith

    not_before :
        d.year * 12 + d.month ≡ payment_date.year * 12 + payment_date.month + m
        → date_lt d payment_date ≡ false
    not_before q = ground (arith, q)
resolve_expires_on-not_before (some x) payment_date d m h few e =
    elim (Bool-cases (date_lt x payment_date)) [
      | inl t ↦ absurd (ground arith)
      | inr t ↦ (let q : x ≡ d = ground arith in rw q at t)
    ]

-- ===== src/Receipts/Dates.antt =====
-- Python's `date` and `calendar.monthrange`, as app/modules/receipts/domain/model.py uses them.
use boat_backend.Prelude.{
  ℕ, ◌%◌, ◌≤◌, Bool, not, ◌&&◌, ◌||◌, Option, none, some, ltb, leb, ◌==◌, if◌then◌else◌,
}

pub record Date : Type 0 where
  pub year : ℕ
  pub month : ℕ
  pub day : ℕ

abbrev pub is_leap : ℕ → Bool
is_leap y = y % 4 == 0 && (not (y % 100 == 0) || y % 400 == 0)

-- `calendar.monthrange(year, month)[1]`
unfoldable pub last_day : ℕ → ℕ → ℕ
last_day y m =
    if m == 2
    then (if is_leap y then 29 else 28)
    else (if m == 4 || (m == 6 || (m == 9 || m == 11)) then 30 else 31)

-- What the constructor `date` accepts.
pub record IsDate (d : Date) : Type 0 where
  pub year_from : 1 ≤ d.year
  pub year_to : d.year ≤ 9999
  pub month_from : 1 ≤ d.month
  pub month_to : d.month ≤ 12
  pub day_from : 1 ≤ d.day
  pub day_to : d.day ≤ last_day d.year d.month

-- The constructor: none stands for its `ValueError`.
unfoldable pub make_date : ℕ → ℕ → ℕ → Option Date
unfolding last_day
make_date y m d =
    if leb 1 y && (leb y 9999 && (leb 1 m && (leb m 12 && (leb 1 d && leb d (last_day y m)))))
    then some (record { year = y; month = m; day = d })
    else none

-- Dates are compared as triples.
unfoldable pub date_lt : Date → Date → Bool
date_lt a b =
    ltb a.year b.year
    || (a.year == b.year && (ltb a.month b.month || (a.month == b.month && ltb a.day b.day)))

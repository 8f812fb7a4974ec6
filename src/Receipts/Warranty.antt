-- ===== src/Receipts/Warranty.antt =====
-- The warranty period of a receipt: `_add_months`, `_resolve_expires_on`, `warranty_d_day` and
-- `warranty_status` of app/modules/receipts/domain/model.py, and the status conditions of
-- app/modules/receipts/infrastructure/persistence/listing.py. A period is at least one month when these
-- functions get it, so it is a natural number. For the status a date is its day number, by which Python
-- subtracts dates and the database compares them.
use boat_backend.Prelude.{
  ℕ, ◌+◌, ◌-◌, ◌/◌, ◌%◌, Bool, true, ◌&&◌, [], ◌∷◌, Option, none, some, ltb, leb, if◌then◌else◌,
}
use boat_backend.Prelude.Int.{ℤ, pos, ltb_ℤ, leb_ℤ, ◌-ℤ◌}
use boat_backend.Core.Errors.{Result, ok, err, validation_error, runtime_error}
use boat_backend.Receipts.Dates.{Date, last_day, make_date, date_lt}

abbrev pub smaller : ℕ → ℕ → ℕ
smaller a b = if ltb b a then b else a

-- `_add_months`
unfoldable pub add_months : Date → ℕ → Option Date
unfolding last_day make_date
add_months start months =
    let month_index = start.month - 1 + months in
    let year = start.year + month_index / 12 in
    let month = month_index % 12 + 1 in
    make_date year month (smaller start.day (last_day year month))

-- `_resolve_expires_on`; a `ValueError` of `date` is not handled.
unfoldable pub resolve_expires_on : Option Date → Date → ℕ → Result Date
unfolding add_months date_lt
resolve_expires_on none payment_date period_months = elim (add_months payment_date period_months) [
  | none ↦ err runtime_error
  | some d ↦ ok d
]
resolve_expires_on (some explicit) payment_date period_months =
    if date_lt explicit payment_date
    then err (validation_error ("expires_on" ∷ []))
    else ok explicit

-- `ReceiptStatusFilter`
pub data ReceiptStatusFilter : Type 0 where
  all active expiring expired : ReceiptStatusFilter

-- `warranty_d_day`
unfoldable pub warranty_d_day : ℕ → ℕ → ℤ
warranty_d_day expires_on today = pos expires_on -ℤ pos today

-- `warranty_status`
unfoldable pub warranty_status : ℕ → ℕ → ReceiptStatusFilter
unfolding warranty_d_day
warranty_status expires_on today =
    let d_day = warranty_d_day expires_on today in
    if ltb_ℤ d_day (pos 0) then expired else if leb_ℤ d_day (pos 30) then expiring else active

-- The status conditions of `list_conditions`, at one row.
unfoldable pub status_condition : ReceiptStatusFilter → ℕ → ℕ → Bool
status_condition all today expires_on = true
status_condition active today expires_on = ltb (today + 30) expires_on
status_condition expiring today expires_on = leb today expires_on && leb expires_on (today + 30)
status_condition expired today expires_on = ltb expires_on today

-- ===== src/Ocr/Domain.antt =====
-- `ReceiptOcrResult` and its value objects, app/modules/ocr/domain. `_add_months` is there the same
-- code as in app/modules/receipts/domain/model.py. Warnings are kept by what they are about.
use boat_backend.Prelude.{
  String, ◌||◌, ◌&&◌, List, [], ◌∷◌, ◌++◌, Option, none, some, if◌then◌else◌,
}
use boat_backend.Prelude.Int.{ℤ, pos, pos_part, leb_ℤ}
use boat_backend.Prelude.Text.{strip, is_empty}
use boat_backend.Core.Errors.{Result, ok, err, validation_error, value_error}
use boat_backend.Core.Validation.{
  Notify, ◌>>=◌, ◌>>◌, pure, collect, collect_some, raise_if_any, value, lift, notified,
}
use boat_backend.Receipts.Dates.{Date, date_lt}
use boat_backend.Receipts.Warranty.{add_months}

pub data Warning : Type 0 where
  today_as_payment_date default_period expires_on_recomputed : Warning

pub record ReceiptOcrResult : Type 0 where
  pub item_name : String
  pub brand_name : Option String
  pub serial_number : Option String
  pub payment_location : Option String
  pub payment_date : Date
  pub total_amount : Option ℤ
  pub period_months : ℤ
  pub expires_on : Date
  pub category : String
  pub sub_category : String
  pub warnings : List Warning

-- `blank_to_none`
unfoldable pub blank_to_none : Option String → Option String
blank_to_none none = none
blank_to_none (some v) = if is_empty (strip v) then none else some (strip v)

-- `value or default`, where the value is not blank
abbrev pub or_default : Option String → String → String
or_default none d = d
or_default (some v) d = v

-- `ItemName`
unfoldable pub item_name : String → Result String
item_name v =
    if is_empty v || is_empty (strip v) then err (validation_error ("item_name" ∷ [])) else ok v

-- `BrandName`
unfoldable pub brand_name : String → Result String
brand_name v = if is_empty (strip v) then err (validation_error ("brand_name" ∷ [])) else ok v

-- `PaymentLocation`
unfoldable pub payment_location : String → Result String
payment_location v =
    if is_empty (strip v) then err (validation_error ("payment_location" ∷ [])) else ok v

-- `PaymentDate`
unfoldable pub payment_date : Date → Date → Result Date
payment_date today v =
    if date_lt today v then err (validation_error ("payment_date" ∷ [])) else ok v

-- `WarrantyPeriodMonths`
unfoldable pub warranty_period_months : ℤ → Result ℤ
warranty_period_months v =
    if leb_ℤ (pos 1) v && leb_ℤ v (pos 60)
    then ok v
    else err (validation_error ("period_months" ∷ []))

-- `TotalAmount`
unfoldable pub total_amount : ℤ → Result ℤ
total_amount v =
    if leb_ℤ (pos 0) v && leb_ℤ v (pos 999999999)
    then ok v
    else err (validation_error ("total_amount" ∷ []))

-- The arguments of `ReceiptOcrResult.create`.
pub record OcrFields : Type 0 where
  pub item_name : Option String
  pub brand_name : Option String
  pub serial_number : Option String
  pub payment_location : Option String
  pub payment_date : Option Date
  pub total_amount : Option ℤ
  pub period_months : Option ℤ
  pub category : Option String
  pub sub_category : Option String
  pub expires_on : Option Date

abbrev pub resolved_payment_date : Date → Option Date → Date × List Warning
resolved_payment_date today none = (today, today_as_payment_date ∷ [])
resolved_payment_date today (some d) = (d, [])

abbrev pub resolved_period_months : Option ℤ → ℤ × List Warning
resolved_period_months none = (pos 12, default_period ∷ [])
resolved_period_months (some m) = (m, [])

unfoldable pub resolved_expires_on : Option Date → Date → Option Date × List Warning
resolved_expires_on none paid = (none, [])
resolved_expires_on (some d) paid =
    if date_lt d paid then (none, expires_on_recomputed ∷ []) else (some d, [])

-- The date that is stored: the given one, or the one that the period gives.
unfoldable pub expires_on_or_computed : Option Date → Date → ℤ → Result Date
expires_on_or_computed (some d) paid months = ok d
expires_on_or_computed none paid months = elim (add_months paid (pos_part months)) [
  | none ↦ err value_error
  | some d ↦ ok d
]

abbrev text_or_empty : Option String → String
text_or_empty none = ""
text_or_empty (some v) = v

-- `(item_name or "").strip()`
unfoldable pub stripped_item_name : Option String → String
stripped_item_name v = strip (text_or_empty v)

-- The value objects of `ReceiptOcrResult.create`, their `Notification`, and the result of them.
unfoldable pub collect_ocr_result :
    Date → OcrFields → Date → ℤ → Option Date → List Warning → Notify ReceiptOcrResult
collect_ocr_result today f paid months expires warnings = do
  new_item_name ← collect (item_name (stripped_item_name f.item_name))
  new_payment_date ← collect (payment_date today paid)
  new_period_months ← collect (warranty_period_months months)
  new_brand_name ← collect_some brand_name (blank_to_none f.brand_name)
  new_payment_location ← collect_some payment_location (blank_to_none f.payment_location)
  new_total_amount ← collect_some total_amount f.total_amount
  raise_if_any
  named ← value new_item_name
  dated ← value new_payment_date
  period ← value new_period_months
  expires_on ← lift (expires_on_or_computed expires dated period)
  pure (record {
    item_name = named;
    brand_name = new_brand_name;
    serial_number = blank_to_none f.serial_number;
    payment_location = new_payment_location;
    payment_date = dated;
    total_amount = new_total_amount;
    period_months = period;
    expires_on = expires_on;
    category = or_default (blank_to_none f.category) "기타 기기";
    sub_category = or_default (blank_to_none f.sub_category) "기타";
    warnings = warnings;
  })

-- `ReceiptOcrResult.create`, on a day
unfoldable pub create_ocr_result : Date → OcrFields → Result ReceiptOcrResult
create_ocr_result today f =
    let (paid, paid_warnings) = resolved_payment_date today f.payment_date in
    let (months, months_warnings) = resolved_period_months f.period_months in
    let (expires, expires_warnings) = resolved_expires_on f.expires_on paid in
    notified (
      collect_ocr_result today f paid months expires
        (paid_warnings ++ (months_warnings ++ expires_warnings)))

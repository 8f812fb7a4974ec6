-- ===== src/Tests/Ocr.antt =====
-- The theorems on app/modules/ocr at a receipt of one image, paid by a user with seven credits.
use boat_backend.Prelude.{◌≡◌, refl, true, List, [], ◌∷◌, none, some, arith, if◌then◌else◌}
use boat_backend.Prelude.Int.{pos, leb_ℤ}
use boat_backend.Prelude.Text.{strip, is_space}
use boat_backend.Core.Errors.{Result, ok, err, insufficient_credit}
use boat_backend.Core.Validation.{collect, collect_some, raise_if_any, value, lift}
use boat_backend.Credits.Commands.Account.{begin}
use boat_backend.Credits.Commands.Use.{read_row, reader}
use boat_backend.Credits.Ledger.{IsSound}
use boat_backend.Database.{find_user_credit}
use boat_backend.Database.Session.{UnitOfWork}
use boat_backend.Ocr.Accepted.{IsAccepted, IsReceipt, read_receipt-IsReceipt}
use boat_backend.Ocr.Charged.{charged, paying, reading, extract_receipt_ocr_charges}
use boat_backend.Ocr.Commands.{
  ExtractReceiptOcrCommand, ocr_use_credit, extract_receipt_ocr_execute,
}
use boat_backend.Ocr.Domain.{
  ReceiptOcrResult, blank_to_none, brand_name, collect_ocr_result, create_ocr_result,
  expires_on_or_computed, item_name, payment_date, payment_location, resolved_expires_on,
  stripped_item_name, total_amount, warranty_period_months, default_period,
}
use boat_backend.Ocr.Policy.{
  ExtractedReceiptOcrFields, ReceiptOcrImage, ensure_accepted, enforce_supported_receipt_policy,
  has_required_evidence, read_receipt,
}
use boat_backend.Receipts.Dates.{Date, IsDate, date_lt, last_day, make_date}
use boat_backend.Receipts.Warranty.{add_months}
use boat_backend.Tests.Credits.{one_user, stored_Balances}

abbrev today : Date
today = record { year = 2024; month = 3; day = 1 }

abbrev paid : Date
paid = record { year = 2024; month = 2; day = 29 }

abbrev image : ReceiptOcrImage
image = record { file_index = 0; content = []; content_type = "image/png" }

abbrev images : List ReceiptOcrImage
images = image ∷ []

abbrev extracted : ExtractedReceiptOcrFields
extracted = record {
  fields = record {
    item_name = some "TV ";
    brand_name = none;
    serial_number = some " ";
    payment_location = none;
    payment_date = some paid;
    total_amount = some (pos 5000);
    period_months = none;
    category = none;
    sub_category = none;
    expires_on = none;
  };
  transaction_evidence =
      some (record {
        merchant = true;
        purchased_item = true;
        total_paid = true;
        payment_proof = true;
      });
  receipt_file_indexes = 0 ∷ [];
  unreadable_file_indexes = [];
  unsupported_file_indexes = [];
}

abbrev receipt : ReceiptOcrResult
receipt = record {
  item_name = "TV";
  brand_name = none;
  serial_number = none;
  payment_location = none;
  payment_date = paid;
  total_amount = some (pos 5000);
  period_months = pos 12;
  expires_on = record { year = 2025; month = 2; day = 28 };
  category = "기타 기기";
  sub_category = "기타";
  warnings = default_period ∷ [];
}

-- The payment date is a leap day, and the receipt expires on the last day of that month.
receipt_read : read_receipt today images extracted ≡ ok receipt
unfolding read_receipt enforce_supported_receipt_policy ensure_accepted has_required_evidence
    create_ocr_result collect_ocr_result collect collect_some raise_if_any value lift item_name
    payment_date warranty_period_months total_amount brand_name payment_location blank_to_none
    stripped_item_name resolved_expires_on expires_on_or_computed add_months make_date last_day
    date_lt strip is_space
receipt_read = refl

paid-IsDate : IsDate paid
unfolding last_day
paid-IsDate = record {
  year_from = omega arith;
  year_to = omega arith;
  month_from = omega arith;
  month_to = omega arith;
  day_from = omega arith;
  day_to = omega arith;
}

read_receipt-IsReceipt_example : IsAccepted extracted × IsReceipt today receipt
read_receipt-IsReceipt_example =
    read_receipt-IsReceipt today images extracted receipt paid-IsDate receipt_read

abbrev extract : List ReceiptOcrImage → Result ExtractedReceiptOcrFields
extract pictures = ok extracted

abbrev command : ExtractReceiptOcrCommand
command = record { user_id = 1; images = images }

row-IsSound : IsSound (read_row one_user (paying one_user command [] 40 7))
unfolding find_user_credit ocr_use_credit
row-IsSound = stored_Balances

extract_receipt_ocr_charges_example :
    extract_receipt_ocr_execute extract today UnitOfWork.sql_alchemy command
      (begin one_user [] 40 7)
    ≡ (if leb_ℤ (pos 1) (reader one_user (paying one_user command [] 40 7)).balance.remaining.value
        then charged one_user command [] 40 7 (reading extract today images)
        else (err insufficient_credit, begin one_user [] 40 7))
extract_receipt_ocr_charges_example =
    extract_receipt_ocr_charges one_user command [] 40 7 extract today row-IsSound

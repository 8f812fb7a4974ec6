-- ===== src/Ocr/Commands.antt =====
-- `ExtractReceiptOcrCommandUseCase.execute`, app/modules/ocr/application/commands/extract_receipt_ocr.
-- The OCR provider is a parameter: it answers fields or raises. Logging is left out.
use boat_backend.Prelude.{ℕ, List}
use boat_backend.Prelude.Int.{pos}
use boat_backend.Core.Errors.{Error, Result}
use boat_backend.Credits.Values.{ocr_usage}
use boat_backend.Credits.Commands.{
  UseCreditCommand, reserve_credit_execute, finalize_credit_usage_execute,
}
use boat_backend.Database.Session.{
  Action, ◌>>=◌, ◌>>◌, pure, raise, lift, try_except, UnitOfWork, rollback_of,
}
use boat_backend.Ocr.Domain.{ReceiptOcrResult}
use boat_backend.Ocr.Policy.{ReceiptOcrImage, ExtractedReceiptOcrFields, read_receipt}
use boat_backend.Receipts.Dates.{Date}

pub record ExtractReceiptOcrCommand : Type 0 where
  pub user_id : ℕ
  pub images : List ReceiptOcrImage

-- The command that pays for one extraction.
unfoldable pub ocr_use_credit : ℕ → UseCreditCommand
ocr_use_credit user_id = record {
  user_id = user_id;
  amount = record { value = pos 1 };
  reason = ocr_usage;
}

module _ (extract : List ReceiptOcrImage → Result ExtractedReceiptOcrFields) (today : Date)
    (uow : UnitOfWork) where
  -- The `try` block.
  unfoldable pub extract_and_charge : ExtractReceiptOcrCommand → Action ReceiptOcrResult
  extract_and_charge c = do
    extracted ← lift (extract c.images)
    result ← lift (read_receipt today c.images extracted)
    finalize_credit_usage_execute uow (ocr_use_credit c.user_id)
    pure result

  -- Each `except` clause.
  abbrev pub on_failure : Error → Action ReceiptOcrResult
  on_failure e = rollback_of uow >> raise e

  unfoldable pub extract_receipt_ocr_execute : ExtractReceiptOcrCommand → Action ReceiptOcrResult
  extract_receipt_ocr_execute c = do
    reserve_credit_execute (ocr_use_credit c.user_id)
    try_except (extract_and_charge c) on_failure

-- ===== src/Ocr/Policy.antt =====
-- Which extracted receipts are accepted: `_enforce_supported_receipt_policy` and the tests of
-- `ExtractReceiptOcrCommandUseCase.execute` (app/modules/ocr/application/commands/extract_receipt_ocr),
-- with the constructors of app/modules/ocr/domain/exceptions.py. A set is a list in order without
-- repetition.
use boat_backend.Prelude.{
  ℕ, String, Bool, true, false, not, ◌||◌, ◌&&◌, List, [], ◌∷◌, map, select, Option, none, some, ⊤,
  ltb, ◌==◌, is_some, if◌then◌else◌,
}
use boat_backend.Prelude.Text.{is_empty}
use boat_backend.Core.Errors.{
  Error, Result, ◌>>◌, raise_if, value_error, unsupported_receipt, receipt_image_unreadable,
}
use boat_backend.Ocr.Domain.{OcrFields, ReceiptOcrResult, stripped_item_name, create_ocr_result}
use boat_backend.Receipts.Dates.{Date}

pub record ReceiptOcrImage : Type 0 where
  pub file_index : ℕ
  pub content : List ℕ
  pub content_type : String

pub record ReceiptTransactionEvidence : Type 0 where
  pub merchant : Bool
  pub purchased_item : Bool
  pub total_paid : Bool
  pub payment_proof : Bool

-- `ExtractedReceiptOcrFields`: the fields of the receipt, and what is known of the images
pub record ExtractedReceiptOcrFields : Type 0 where
  pub fields : OcrFields
  pub transaction_evidence : Option ReceiptTransactionEvidence
  pub receipt_file_indexes : List ℕ
  pub unreadable_file_indexes : List ℕ
  pub unsupported_file_indexes : List ℕ

abbrev pub is_nil : List ℕ → Bool
is_nil [] = true
is_nil (x ∷ xs) = false

abbrev pub is_in : ℕ → List ℕ → Bool
is_in n [] = false
is_in n (x ∷ xs) = n == x || is_in n xs

abbrev pub insert : ℕ → List ℕ → List ℕ
insert n [] = n ∷ []
insert n (x ∷ xs) =
    let rest = insert n xs in if ltb n x then n ∷ x ∷ xs else if n == x then x ∷ xs else x ∷ rest

-- `tuple(sorted(set(indexes)))`
unfoldable pub sorted_set : List ℕ → List ℕ
sorted_set [] = []
sorted_set (x ∷ xs) = insert x (sorted_set xs)

-- `tuple(sorted(set(a) - set(b)))`
unfoldable pub sorted_difference : List ℕ → List ℕ → List ℕ
sorted_difference a b = select (λ n. not (is_in n b)) (sorted_set a)

abbrev pub meets : List ℕ → List ℕ → Bool
meets [] b = false
meets (x ∷ a) b = is_in x b || meets a b

-- The constructor of `ReceiptImageUnreadableError`, which may itself raise.
unfoldable pub unreadable_error : List ℕ → Error
unreadable_error [] = value_error
unreadable_error (x ∷ xs) = receipt_image_unreadable (sorted_set (x ∷ xs))

-- The constructor of `UnsupportedReceiptError`, which may itself raise.
unfoldable pub unsupported_error : List ℕ → List ℕ → Error
unsupported_error [] unreadable = value_error
unsupported_error (x ∷ xs) unreadable =
    if meets (x ∷ xs) unreadable
    then value_error
    else unsupported_receipt (sorted_set (x ∷ xs)) (sorted_set unreadable)

unfoldable pub has_required_evidence : Option ReceiptTransactionEvidence → Bool
has_required_evidence none = false
has_required_evidence (some e) =
    e.merchant && (e.purchased_item && (e.total_paid && e.payment_proof))

-- `_enforce_supported_receipt_policy`
unfoldable pub enforce_supported_receipt_policy :
    ExtractedReceiptOcrFields → List ℕ → ExtractedReceiptOcrFields
enforce_supported_receipt_policy x request_file_indexes =
    if is_nil x.receipt_file_indexes
      || has_required_evidence x.transaction_evidence && is_some x.fields.total_amount
    then x
    else record x {
      receipt_file_indexes = [];
      unsupported_file_indexes = sorted_difference request_file_indexes x.unreadable_file_indexes;
    }

-- The tests on what the policy leaves.
unfoldable pub ensure_accepted : ExtractedReceiptOcrFields → List ℕ → Result ⊤
ensure_accepted x request_file_indexes = do
  raise_if (not (is_nil x.unsupported_file_indexes))
      (unsupported_error x.unsupported_file_indexes x.unreadable_file_indexes)
  raise_if (not (is_nil x.unreadable_file_indexes)) (unreadable_error x.unreadable_file_indexes)
  raise_if (is_nil x.receipt_file_indexes) (unsupported_error request_file_indexes [])
  raise_if (is_empty (stripped_item_name x.fields.item_name))
      (unreadable_error request_file_indexes)

abbrev pub file_indexes : List ReceiptOcrImage → List ℕ
file_indexes images = map (λ image. image.file_index) images

-- What `execute` makes of the extracted fields, up to the charge.
unfoldable pub read_receipt :
    Date → List ReceiptOcrImage → ExtractedReceiptOcrFields → Result ReceiptOcrResult
read_receipt today images extracted =
    let kept = enforce_supported_receipt_policy extracted (file_indexes images) in
    ensure_accepted kept (file_indexes images) >> create_ocr_result today kept.fields

-- ===== src/Ocr/Accepted.antt =====
-- What holds of every receipt that app/modules/ocr reads.
use boat_backend.Prelude.{
  String, ◌≡◌, inl, inr, true, false, List, Option, none, some, arith, is_some, subst, Bool-cases,
}
use boat_backend.Prelude.Int.{ℤ, pos, pos_part, ◌≤ℤ◌}
use boat_backend.Prelude.Text.{strip, is_empty}
use boat_backend.Core.Errors.{Result, ok}
use boat_backend.Core.Validation.Posts.{
  Post, Made, MadeSome, bind-Post, collect-Post, collect_some-Post, any-Post, value-Post, pure-Post,
  notified-Post, lift-Post,
}
use boat_backend.Core.Validation.{collect_some, raise_if_any}
use boat_backend.Ocr.Domain.{
  OcrFields, ReceiptOcrResult, Warning, create_ocr_result, collect_ocr_result, item_name,
  payment_date, warranty_period_months, total_amount, resolved_payment_date, resolved_expires_on,
  expires_on_or_computed, brand_name, payment_location, blank_to_none,
}
use boat_backend.Ocr.Policy.{
  ExtractedReceiptOcrFields, ReceiptOcrImage, ensure_accepted, enforce_supported_receipt_policy,
  has_required_evidence, is_nil, read_receipt,
}
use boat_backend.Receipts.Dates.{Date, IsDate, date_lt}
use boat_backend.Receipts.Period.{resolve_expires_on-not_before}
use boat_backend.Receipts.Warranty.{resolve_expires_on}

-- A total amount that is stored is in its range.
abbrev pub IsAmount : Option ℤ → Type 0
IsAmount none = Unit
IsAmount (some v) = (pos 0 ≤ℤ v) × (v ≤ℤ pos 999999999)

pub record IsReceipt (today : Date) (r : ReceiptOcrResult) : Type 0 where
  pub named : is_empty (strip r.item_name) ≡ false
  pub paid : date_lt today r.payment_date ≡ false
  pub period_from : pos 1 ≤ℤ r.period_months
  pub period_to : r.period_months ≤ℤ pos 60
  pub amount : IsAmount r.total_amount
  pub covered : date_lt r.expires_on r.payment_date ≡ false

ok-Made : {A : Type 0} {r : Result A} {o : Option A} {a : A} → Made r o → o ≡ some a → r ≡ ok a
ok-Made {r = r} made e = subst (Made r) e made

module _ (today : Date) where
  item_name-ok : (v w : String) → item_name v ≡ ok w → is_empty (strip w) ≡ false
  unfolding item_name
  item_name-ok v w h = ground (arith, h)

  payment_date-ok : (v w : Date) → payment_date today v ≡ ok w → (w ≡ v) × (date_lt today w ≡ false)
  unfolding payment_date
  payment_date-ok v w h = ground (arith, h)

  period-ok : (v w : ℤ) → warranty_period_months v ≡ ok w → (pos 1 ≤ℤ w) × (w ≤ℤ pos 60)
  unfolding warranty_period_months
  period-ok v w h = ground (arith, h)

  total_amount-IsAmount : (x o : Option ℤ) → MadeSome total_amount x o → IsAmount o
  unfolding total_amount
  total_amount-IsAmount x none h = tt
  total_amount-IsAmount x (some w) (v, given, h) = ground (arith, h)

  computed-not_before :
      (paid d : Date) (months : ℤ)
      → IsDate paid
      → pos 1 ≤ℤ months
      → expires_on_or_computed none paid months ≡ ok d
      → date_lt d paid ≡ false
  unfolding expires_on_or_computed resolve_expires_on
  computed-not_before paid d months valid from h =
      resolve_expires_on-not_before none paid d (pos_part months) valid (ground (arith, from))
        (ground (arith, h))

  expires_on-not_before :
      (explicit : Option Date) (paid d : Date) (months : ℤ)
      → IsDate paid
      → pos 1 ≤ℤ months
      → expires_on_or_computed (resolved_expires_on explicit paid).0 paid months ≡ ok d
      → date_lt d paid ≡ false
  unfolding expires_on_or_computed resolved_expires_on
  expires_on-not_before none paid d months valid from h =
      computed-not_before paid d months valid from h
  expires_on-not_before (some x) paid d months valid from h = elim (Bool-cases (date_lt x paid)) [
    | inl early ↦ computed-not_before paid d months valid from (rw early at h)
    | inr late ↦ (let same : x ≡ d = ground (arith, h, late) in rw same at late)
  ]

  module _ (f : OcrFields) where
    abbrev pub paid_on : Date
    paid_on = (resolved_payment_date today f.payment_date).0

    collect_ocr_result-Post :
        (months : ℤ) (warnings : List Warning)
        → IsDate paid_on
        → Post
            (collect_ocr_result today f paid_on months
              (resolved_expires_on f.expires_on paid_on).0
              warnings)
            (IsReceipt today)
    unfolding collect_ocr_result
    collect_ocr_result-Post months warnings valid = bind-Post (collect-Post _) (λ n named.
        bind-Post (collect-Post _) (λ p paid. bind-Post (collect-Post _) (λ m period.
          bind-Post (any-Post (collect_some brand_name (blank_to_none f.brand_name))) (λ b made_b.
            bind-Post (any-Post (collect_some payment_location (blank_to_none f.payment_location)))
              (λ l made_l. bind-Post (collect_some-Post total_amount f.total_amount) (λ t amount.
                bind-Post (any-Post raise_if_any) (λ u none_failed.
                  bind-Post (value-Post n) (λ name n_some. bind-Post (value-Post p) (λ dated p_some.
                    bind-Post (value-Post m) (λ covered m_some.
                      bind-Post
                        (lift-Post (
                          expires_on_or_computed (resolved_expires_on f.expires_on paid_on).0 dated
                            covered))
                        (λ d expires. pure-Post _ (IsReceipt today) (
                          let (same, on_time) =
                            payment_date-ok paid_on dated (ok-Made paid p_some) in
                          let (from, to) = period-ok months covered (ok-Made period m_some) in
                          record {
                            named = item_name-ok _ name (ok-Made named n_some);
                            paid = on_time;
                            period_from = from;
                            period_to = to;
                            amount = total_amount-IsAmount f.total_amount t amount;
                            covered = rw same (
                                expires_on-not_before f.expires_on paid_on d covered valid from
                                  (rw same at expires));
                          }))))))))))))

    pub create_ocr_result-IsReceipt :
        (r : ReceiptOcrResult)
        → IsDate paid_on
        → create_ocr_result today f ≡ ok r
        → IsReceipt today r
    unfolding create_ocr_result
    create_ocr_result-IsReceipt r valid h =
        notified-Post _ (IsReceipt today) (collect_ocr_result-Post _ _ valid) r h

-- What the policy and the tests ask of the extracted fields.
pub record IsAccepted (x : ExtractedReceiptOcrFields) : Type 0 where
  pub evidence : has_required_evidence x.transaction_evidence ≡ true
  pub amount_read : is_some x.fields.total_amount ≡ true
  pub some_receipt : is_nil x.receipt_file_indexes ≡ false
  pub all_readable : is_nil x.unreadable_file_indexes ≡ true
  pub all_supported : is_nil x.unsupported_file_indexes ≡ true

read_receipt-cases :
    (today : Date) (images : List ReceiptOcrImage) (x : ExtractedReceiptOcrFields)
    (r : ReceiptOcrResult)
    → read_receipt today images x ≡ ok r
    → IsAccepted x × (create_ocr_result today x.fields ≡ ok r)
unfolding read_receipt enforce_supported_receipt_policy ensure_accepted
read_receipt-cases today images x r h = (
  record {
    evidence = ground (arith, h);
    amount_read = ground (arith, h);
    some_receipt = ground (arith, h);
    all_readable = ground (arith, h);
    all_supported = ground (arith, h);
  },
  ground (arith, h),
)

-- On a day that is a date, with a payment date that is a date if one was extracted: a receipt is read only
-- if the transaction has its evidence and a total amount, some image is a receipt, and none is unreadable
-- or unsupported. The receipt then has a name, a payment date that is not in the future, a period from 1
-- to 60 months, a total amount in its range if any, and does not expire before it was paid.
pub read_receipt-IsReceipt :
    (today : Date) (images : List ReceiptOcrImage) (x : ExtractedReceiptOcrFields)
    (r : ReceiptOcrResult)
    → IsDate (paid_on today x.fields)
    → read_receipt today images x ≡ ok r
    → IsAccepted x × IsReceipt today r
read_receipt-IsReceipt today images x r valid h =
    let (accepted, created) = read_receipt-cases today images x r h in
    (accepted, create_ocr_result-IsReceipt today x.fields r valid created)

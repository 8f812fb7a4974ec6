-- ===== src/Ocr/Charged.antt =====
-- The credit of an extraction (app/modules/ocr/application/commands/extract_receipt_ocr/use_case.py), from a
-- session that has just begun.
use boat_backend.Prelude.{
  ℕ, ◌+◌, ◌≡◌, refl, List, arith, Bool-cases, inl, inr, ◌⊎◌, ◌∙◌, if◌then◌else◌, true,
}
use boat_backend.Prelude.Int.{pos, leb_ℤ}
use boat_backend.Core.Errors.{Result, ok, err, Error, insufficient_credit, ◌>>=◌}
use boat_backend.Credits.Ledger.{IsSound, IsLedger}
use boat_backend.Credits.Commands.{UseCreditCommand, reserve_credit_execute}
use boat_backend.Credits.Commands.Account.{begin}
use boat_backend.Credits.Commands.Use.{
  read_row, reader, use_writes, reserved, reserve_credit-begin, finalize-reserved,
  use_writes-IsLedger,
}
use boat_backend.Database.{Tables, Write, apply_all, reason_action_pair}
use boat_backend.Credits.Values.{use_action}
use boat_backend.Database.Session.{
  Session, Action, UnitOfWork, bind_ok, bind_err, except_ok, except_err, try_except, rollback,
  rollback_of,
}
use boat_backend.Ocr.Domain.{ReceiptOcrResult}
use boat_backend.Ocr.Policy.{ReceiptOcrImage, ExtractedReceiptOcrFields, read_receipt}
use boat_backend.Ocr.Commands.{
  ExtractReceiptOcrCommand, ocr_use_credit, extract_and_charge, on_failure,
  extract_receipt_ocr_execute,
}
use boat_backend.Receipts.Dates.{Date}

Result-cases : {A : Type 0} (r : Result A) → ((a : A) × (r ≡ ok a)) ⊎ ((e : Error) × (r ≡ err e))
Result-cases (ok a) = inl (a, refl)
Result-cases (err e) = inr (e, refl)

-- What the provider and the policy say of the images.
abbrev pub reading :
    (List ReceiptOcrImage → Result ExtractedReceiptOcrFields)
    → Date
    → List ReceiptOcrImage
    → Result ReceiptOcrResult
reading extract today images = extract images >>= read_receipt today images

module _ (t : Tables) (c : ExtractReceiptOcrCommand) (arrivals : List (List Write))
    (fresh now : ℕ) where
  abbrev pub paying : UseCreditCommand
  paying = ocr_use_credit c.user_id

  paired : reason_action_pair paying.reason use_action ≡ true
  unfolding ocr_use_credit
  paired = refl

  -- The session is charged for a result, and is as it began after an error.
  abbrev pub charged : Result ReceiptOcrResult → Result ReceiptOcrResult × Session
  charged (ok r) =
      (ok r, begin (apply_all (use_writes t paying fresh now) t) arrivals (fresh + 1) now)
  charged (err e) = (err e, begin t arrivals fresh now)

  module _ (extract : List ReceiptOcrImage → Result ExtractedReceiptOcrFields) (today : Date) where
    abbrev attempt : Action ReceiptOcrResult
    attempt = extract_and_charge extract today UnitOfWork.sql_alchemy c

    attempt-ok :
        (r : ReceiptOcrResult)
        → reading extract today c.images ≡ ok r
        → attempt (reserved t paying arrivals fresh now) ≡ charged (ok r)
    unfolding extract_and_charge
    attempt-ok r read = ground (arith, read, finalize-reserved t paying arrivals fresh now paired)

    attempt-err :
        (e : Error)
        → reading extract today c.images ≡ err e
        → attempt (reserved t paying arrivals fresh now)
          ≡ (err e, reserved t paying arrivals fresh now)
    unfolding extract_and_charge
    attempt-err e failed = ground (arith, failed)

    abbrev trial : Action ReceiptOcrResult
    trial = try_except attempt (on_failure extract today UnitOfWork.sql_alchemy)

    extract_and_charge-reserved :
        trial (reserved t paying arrivals fresh now) ≡ charged (reading extract today c.images)
    unfolding rollback_of rollback
    extract_and_charge-reserved = elim (Result-cases (reading extract today c.images)) [
      | inl (r, read) ↦ rw read (
          except_ok attempt (on_failure extract today UnitOfWork.sql_alchemy)
            (reserved t paying arrivals fresh now)
            {s' = begin (apply_all (use_writes t paying fresh now) t) arrivals (fresh + 1) now}
            (attempt-ok r read))
      | inr (e, failed) ↦ rw failed (
          except_err attempt (on_failure extract today UnitOfWork.sql_alchemy)
            (reserved t paying arrivals fresh now) {s' = reserved t paying arrivals fresh now}
            (attempt-err e failed))
    ]

    module _ (h : IsSound (read_row t paying)) where
      -- From a sound credit row, an extraction without a remaining credit raises and consults neither
      -- the provider nor the policy; with one, it commits the use of one credit together with its
      -- transaction and event if the provider's answer is read as a receipt, and after any error it
      -- leaves the session as it began.
      pub extract_receipt_ocr_charges :
          extract_receipt_ocr_execute extract today UnitOfWork.sql_alchemy c
            (begin t arrivals fresh now)
          ≡ (if leb_ℤ (pos 1) (reader t paying).balance.remaining.value
              then charged (reading extract today c.images)
              else (err insufficient_credit, begin t arrivals fresh now))
      unfolding extract_receipt_ocr_execute ocr_use_credit
      extract_receipt_ocr_charges =
          elim (Bool-cases (leb_ℤ (pos 1) (reader t paying).balance.remaining.value)) [
            | inl covered ↦ rw covered (
                bind_ok (reserve_credit_execute paying) (λ _. trial) (begin t arrivals fresh now)
                  {s' = reserved t paying arrivals fresh now} (reserving ∙ rw covered refl)
                ∙ extract_and_charge-reserved)
            | inr short ↦ rw short (
                bind_err (reserve_credit_execute paying) (λ _. trial) (begin t arrivals fresh now)
                  {s' = begin t arrivals fresh now} (reserving ∙ rw short refl))
          ]
        where
          reserving : reserve_credit_execute paying (begin t arrivals fresh now) ≡ (
              if leb_ℤ (pos 1) (reader t paying).balance.remaining.value
              then (ok tt, reserved t paying arrivals fresh now)
              else (err insufficient_credit, begin t arrivals fresh now))
          reserving = reserve_credit-begin t paying arrivals fresh now (omega arith) h

      -- Whatever the provider answers, an extraction keeps the ledger of credits.
      pub extract_keeps_IsLedger :
          IsLedger t
          → IsLedger
              (extract_receipt_ocr_execute extract today UnitOfWork.sql_alchemy c
                (begin t arrivals fresh now)).1.committed
      unfolding ocr_use_credit
      extract_keeps_IsLedger ledger =
          rw extract_receipt_ocr_charges
            (elim (Bool-cases (leb_ℤ (pos 1) (reader t paying).balance.remaining.value)) [
              | inl covered ↦ rw covered (elim (Result-cases (reading extract today c.images)) [
                | inl (r, read) ↦ rw read (
                    use_writes-IsLedger t paying arrivals fresh now (omega arith) paired h ledger
                      (ground arith))
                | inr (e, failed) ↦ rw failed ledger
              ])
              | inr short ↦ rw short ledger
            ])

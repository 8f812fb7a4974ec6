-- ===== src/Core/Errors.antt =====
-- app/core/domain/exceptions.py and the exceptions of the modules, as values. A `ValidationError`
-- keeps the `field` of each `ErrorDetail`, in order; the display messages are left out, but each
-- message of `PromotionRedemptionConflictError` is a constructor.
use boat_backend.Prelude.{ℕ, String, Bool, List, ⊤, if◌then◌else◌}

-- The constraints of the tables that the models write, by their names in the `orm` modules: the unique
-- ones, and the check on a transaction that no domain object makes.
pub data Constraint : Type 0 where
  pk_user_credits : Constraint
  ck_credit_transactions_reason_action_pair : Constraint
  ix_credit_transactions_idempotency_key_unique : Constraint
  ix_credit_transactions_source_unique : Constraint
  uq_promotion_redemptions_idempotency_key : Constraint
  uq_promotion_redemptions_promotion_beneficiary : Constraint
  uq_promotions_benefit_context_starts_at : Constraint
  uq_user_credentials_user_id : Constraint
  uq_external_identities_issuer_subject : Constraint
  uq_external_identities_credentials_issuer : Constraint
  uq_refresh_tokens_token_hash : Constraint

-- Why a promotion or a promotion code cannot be redeemed.
pub data Refusal : Type 0 where
  inactive not_started expired exhausted already_used : Refusal
  code_inactive code_not_started code_expired code_exhausted : Refusal

pub data Error : Type 0 where
  validation_error : List String → Error
  integrity_error : Constraint → Error
  insufficient_credit : Error
  credit_transaction_write_conflict : Error
  promotion_not_found : Error
  promotion_code_not_found : Error
  promotion_redemption_conflict : Refusal → Error
  receipt_not_found : ℕ → Error
  -- the file indexes of each kind, in order
  unsupported_receipt : List ℕ → List ℕ → Error
  receipt_image_unreadable : List ℕ → Error
  receipt_ocr_provider_unavailable : Error
  authentication_error authorization_error user_not_registered user_already_exists : Error
  value_error key_error unregistered_event_type conflicting_event_type : Error
  runtime_error : Error

pub data Result (A : Type 0) : Type 0 where
  ok : A → Result A
  err : Error → Result A

infixl 5 ◌>>=◌ ◌>>◌
abbrev pub ◌>>=◌ : {A B : Type 0} → Result A → (A → Result B) → Result B
ok a >>= f = f a
err e >>= f = err e

abbrev pub ◌>>◌ : {A B : Type 0} → Result A → Result B → Result B
m >> k = m >>= λ _. k

-- `if test: raise e`
abbrev pub raise_if : Bool → Error → Result ⊤
raise_if test e = if test then err e else ok tt

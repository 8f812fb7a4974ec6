-- ===== src/Database.antt =====
-- The PostgreSQL tables behind credits and promotions (the `orm` modules of
-- app/modules/credits/infrastructure/persistence and app/modules/promotions/infrastructure/persistence,
-- app/core/db/outbox/orm.py), each as the list of its rows in order of insertion, and the writes that
-- the repositories make. Columns that only the database reads or that no query selects by
-- (current_period, created_at and updated_at of a balance) are left out, and so are the widths of columns:
-- each value is taken to fit its column.
pub mod Session
pub mod Laws
use boat_backend.Prelude.{
  ℕ, String, Bool, true, false, ◌&&◌, List, [], ◌∷◌, ◌++◌, Option, none, some, ◌==◌, text_eq,
  is_some, find, select, not, if◌then◌else◌,
}
use boat_backend.Prelude.Int.{ℤ}
use boat_backend.Core.Errors.{
  Constraint, pk_user_credits, ck_credit_transactions_reason_action_pair,
  ix_credit_transactions_idempotency_key_unique, ix_credit_transactions_source_unique,
  uq_promotion_redemptions_idempotency_key, uq_promotion_redemptions_promotion_beneficiary,
  uq_promotions_benefit_context_starts_at,
}
use boat_backend.Credits.Values.{
  CreditReason, monthly_ocr_allowance, event_ocr_allowance, ocr_usage, FeatureKey, CreditAction,
  grant_action, use_action, CreditSourceType, feature_key_eq, action_eq, source_type_eq,
}
use boat_backend.Events.{Event}
use boat_backend.Promotions.Domain.{
  Promotion, PromotionCode, PromotionContent, PromotionRedemption, PromotionContext, recharge,
  signup,
}

-- `orm.UserCredit`. The counts are integers of 32 bits there, unbounded here.
pub record UserCreditRow : Type 0 where
  pub user_id : ℕ
  pub feature_key : FeatureKey
  pub total_granted_count : ℤ
  pub used_count : ℤ
  pub remaining_count : ℤ

-- `orm.CreditTransaction`. The amount has 32 bits there and the key at most 255 characters; here neither is
-- bounded.
pub record CreditTransactionRow : Type 0 where
  pub id : ℕ
  pub user_id : ℕ
  pub feature_key : FeatureKey
  pub reason : CreditReason
  pub action : CreditAction
  pub amount : ℤ
  pub source_type : Option CreditSourceType
  pub source_id : Option ℕ
  pub idempotency_key : Option String
  pub created_at : ℕ

pub record Tables : Type 0 where
  pub user_credits : List UserCreditRow
  pub credit_transactions : List CreditTransactionRow
  pub outbox_events : List Event
  pub promotions : List Promotion
  pub promotion_contents : List PromotionContent
  pub promotion_codes : List PromotionCode
  pub promotion_redemptions : List PromotionRedemption

pub data Write : Type 0 where
  insert_user_credit update_user_credit : UserCreditRow → Write
  insert_credit_transaction : CreditTransactionRow → Write
  insert_outbox_event : Event → Write
  delete_credit_transactions delete_user_credits : ℕ → Write
  insert_promotion update_promotion : Promotion → Write
  update_promotion_code : PromotionCode → Write
  insert_promotion_redemption : PromotionRedemption → Write

-- SQL's `column = value`: NULL equals nothing.
abbrev pub holds_text : Option String → String → Bool
holds_text none v = false
holds_text (some a) v = text_eq a v

abbrev pub holds : Option ℕ → ℕ → Bool
holds none v = false
holds (some a) v = a == v

abbrev pub holds_source : Option CreditSourceType → CreditSourceType → Bool
holds_source none v = false
holds_source (some a) v = source_type_eq a v

abbrev pub context_eq : PromotionContext → PromotionContext → Bool
context_eq recharge recharge = true
context_eq signup signup = true
context_eq _ _ = false

abbrev pub holds_context : Option PromotionContext → PromotionContext → Bool
holds_context none v = false
holds_context (some a) v = context_eq a v

-- The primary key of `user_credits`.
abbrev pub is_credit_of : ℕ → FeatureKey → UserCreditRow → Bool
is_credit_of user_id feature_key row =
    row.user_id == user_id && feature_key_eq row.feature_key feature_key

unfoldable pub find_user_credit : ℕ → FeatureKey → Tables → Option UserCreditRow
find_user_credit user_id feature_key t = find (is_credit_of user_id feature_key) t.user_credits

-- The columns of `ix_credit_transactions_source_unique`.
abbrev pub has_source :
    CreditSourceType → ℕ → ℕ → FeatureKey → CreditAction → CreditTransactionRow → Bool
has_source source_type source_id user_id feature_key action row =
    holds_source row.source_type source_type
    && (holds row.source_id source_id
        && (row.user_id == user_id
            && (feature_key_eq row.feature_key feature_key && action_eq row.action action)))

abbrev pub has_idempotency_key : String → CreditTransactionRow → Bool
has_idempotency_key key row = holds_text row.idempotency_key key

-- Replaces every row that the test picks.
abbrev pub replace_where {ℓ} : {A : Type ℓ} → (A → Bool) → A → List A → List A
replace_where p a [] = []
replace_where p a (x ∷ xs) = (if p x then a else x) ∷ replace_where p a xs

abbrev keeps_transaction : ℕ → CreditTransactionRow → Bool
keeps_transaction user_id row = not (row.user_id == user_id)

abbrev keeps_credit : ℕ → UserCreditRow → Bool
keeps_credit user_id row = not (row.user_id == user_id)

unfoldable pub apply : Write → Tables → Tables
apply (insert_user_credit row) t = record t { user_credits = t.user_credits ++ row ∷ [] }
apply (update_user_credit row) t = record t {
  user_credits = replace_where (is_credit_of row.user_id row.feature_key) row t.user_credits;
}
apply (insert_credit_transaction row) t = record t {
  credit_transactions = t.credit_transactions ++ row ∷ [];
}
apply (insert_outbox_event e) t = record t { outbox_events = t.outbox_events ++ e ∷ [] }
apply (delete_credit_transactions user_id) t = record t {
  credit_transactions = select (keeps_transaction user_id) t.credit_transactions;
}
apply (delete_user_credits user_id) t = record t {
  user_credits = select (keeps_credit user_id) t.user_credits;
}
apply (insert_promotion p) t = record t { promotions = t.promotions ++ p ∷ [] }
apply (update_promotion p) t = record t {
  promotions = replace_where (λ q. q.id == p.id) p t.promotions;
}
apply (update_promotion_code c) t = record t {
  promotion_codes = replace_where (λ d. d.id == c.id) c t.promotion_codes;
}
apply (insert_promotion_redemption r) t = record t {
  promotion_redemptions = t.promotion_redemptions ++ r ∷ [];
}

unfoldable pub apply_all : List Write → Tables → Tables
unfolding apply
apply_all [] t = t
apply_all (w ∷ ws) t = apply_all ws (apply w t)

abbrev clash : Bool → Constraint → Option Constraint
clash b c = if b then some c else none

-- Where a second constraint is looked at only if the first one holds.
abbrev pub or_else : Option Constraint → Option Constraint → Option Constraint
or_else none d = d
or_else (some c) d = some c

-- `ck_credit_transactions_reason_action_pair`
abbrev pub reason_action_pair : CreditReason → CreditAction → Bool
reason_action_pair monthly_ocr_allowance grant_action = true
reason_action_pair event_ocr_allowance grant_action = true
reason_action_pair ocr_usage use_action = true
reason_action_pair _ _ = false

abbrev key_clash : Option String → List CreditTransactionRow → Option Constraint
key_clash none rows = none
key_clash (some k) rows =
    clash (is_some (find (has_idempotency_key k) rows))
      ix_credit_transactions_idempotency_key_unique

abbrev source_clash : CreditTransactionRow → List CreditTransactionRow → Option Constraint
source_clash row rows = elim row.source_type [
  | none ↦ none
  | some st ↦ elim row.source_id [
    | none ↦ none
    | some sid ↦
        clash (is_some (find (has_source st sid row.user_id row.feature_key row.action) rows))
          ix_credit_transactions_source_unique
  ]
]

abbrev beneficiary_clash : PromotionRedemption → List PromotionRedemption → Option Constraint
beneficiary_clash r rows = elim r.beneficiary_key [
  | none ↦ none
  | some k ↦
      clash
        (is_some
          (find (λ q. q.promotion_id == r.promotion_id && holds_text q.beneficiary_key k) rows))
        uq_promotion_redemptions_promotion_beneficiary
]

abbrev context_start_clash : Promotion → List Promotion → Option Constraint
context_start_clash p rows = elim p.context [
  | none ↦ none
  | some c ↦
      clash
        (is_some (
          find
            (λ q.
              feature_key_eq q.benefit_feature_key p.benefit_feature_key
              && (holds_context q.context c && q.starts_at == p.starts_at))
            rows))
        uq_promotions_benefit_context_starts_at
]

-- The constraint that a write breaks, if it breaks one. Identifiers drawn by `uuid4` are
-- taken to be new, so primary keys made of one are not looked at.
unfoldable pub violation : Write → Tables → Option Constraint
violation (insert_user_credit row) t =
    clash (is_some (find (is_credit_of row.user_id row.feature_key) t.user_credits)) pk_user_credits
violation (insert_credit_transaction row) t =
    or_else
      (clash (not (reason_action_pair row.reason row.action))
        ck_credit_transactions_reason_action_pair)
      (or_else (key_clash row.idempotency_key t.credit_transactions)
        (source_clash row t.credit_transactions))
violation (insert_promotion p) t = context_start_clash p t.promotions
violation (insert_promotion_redemption r) t =
    or_else
      (clash
        (is_some (find (λ q. text_eq q.idempotency_key r.idempotency_key) t.promotion_redemptions))
        uq_promotion_redemptions_idempotency_key)
      (beneficiary_clash r t.promotion_redemptions)
violation _ t = none

-- The first constraint that the writes break, each on top of those before it.
unfoldable pub first_violation : List Write → Tables → Option Constraint
unfolding violation apply
first_violation [] t = none
first_violation (w ∷ ws) t =
    let rest = first_violation ws (apply w t) in or_else (violation w t) rest

-- ===== src/Promotions/Repository.antt =====
-- `SqlAlchemyPromotionRepository` and its mapper
-- (app/modules/promotions/infrastructure/persistence/repository.py, mapper.py).
use boat_backend.Prelude.{
  ℕ, String, Bool, true, false, ◌&&◌, ◌||◌, not, List, [], ◌∷◌, Option, none, some, ⊤, ◌==◌,
  text_eq, ltb, leb, find, count, if◌then◌else◌,
}
use boat_backend.Core.Errors.{Result, ok, err}
use boat_backend.Credits.Values.{ocr, feature_key_eq, FeatureKey}
use boat_backend.Database.{
  insert_promotion, update_promotion, update_promotion_code, insert_promotion_redemption,
  holds_text, holds_context,
}
use boat_backend.Database.Session.{Action, ◌>>=◌, ◌>>◌, lift, query, add, flush}
use boat_backend.Promotions.Domain.{
  Promotion, PromotionCode, PromotionContent, PromotionRedemption, PromotionContext,
  PromotionRedemptionStatus, granted, rejected, failed, restore_promotion, is_over, is_used_up,
}

-- `context = :context`, or `context IS NULL` where no context is asked for
abbrev pub in_context : Option PromotionContext → Promotion → Bool
in_context (some context) p = holds_context p.context context
in_context none p = elim p.context [ none ↦ true | some _ ↦ false ]

-- The conditions of `find_current_ocr_credit_promotion`
abbrev pub is_current : ℕ → Option PromotionContext → Promotion → Bool
is_current at context p =
    p.active
    && (feature_key_eq p.benefit_feature_key ocr
        && (leb p.starts_at at
            && (not (is_over p.expires_at at)
                && (not (is_used_up p.max_redemptions p.times_redeemed) && in_context context p))))

-- `ORDER BY starts_at DESC, id DESC`: whether `p` stands before `q`.
abbrev pub precedes : Promotion → Promotion → Bool
precedes p q = ltb q.starts_at p.starts_at || (q.starts_at == p.starts_at && ltb q.id p.id)

abbrev pub first_of_two : Promotion → Option Promotion → Promotion
first_of_two p none = p
first_of_two p (some q) = if precedes q p then q else p

-- The first row of the ordered selection.
unfoldable pub first_current : ℕ → Option PromotionContext → List Promotion → Option Promotion
first_current at context [] = none
first_current at context (p ∷ ps) =
    let rest = first_current at context ps in
    if is_current at context p then some (first_of_two p rest) else rest

-- `None if record is None else mapper.promotion_to_domain(record)`
abbrev pub to_domain : Option Promotion → Result (Option Promotion)
to_domain none = ok none
to_domain (some p) = elim (restore_promotion p) [ ok q ↦ ok (some q) | err e ↦ err e ]

-- `find_current_ocr_credit_promotion`, and the same query for update
unfoldable pub find_current_ocr_credit_promotion :
    ℕ → Option PromotionContext → Action (Option Promotion)
find_current_ocr_credit_promotion at context = do
  row ← query (λ t. first_current at context t.promotions)
  lift (to_domain row)

unfoldable pub find_content_by_promotion_id : ℕ → Action (Option PromotionContent)
find_content_by_promotion_id promotion_id =
    query (λ t. find (λ c. c.promotion_id == promotion_id) t.promotion_contents)

unfoldable pub find_promotion_for_update : ℕ → Action (Option Promotion)
find_promotion_for_update promotion_id = do
  row ← query (λ t. find (λ p. p.id == promotion_id) t.promotions)
  lift (to_domain row)

unfoldable pub find_promotion_by_benefit_context_start_for_update :
    FeatureKey → PromotionContext → ℕ → Action (Option Promotion)
find_promotion_by_benefit_context_start_for_update benefit context starts_at = do
  row ← query (λ t.
      find
        (λ p.
          feature_key_eq p.benefit_feature_key benefit
          && (holds_context p.context context && p.starts_at == starts_at))
        t.promotions)
  lift (to_domain row)

-- `lower` is the lowercasing that both sides of the query go through.
unfoldable pub find_code_by_code_for_update :
    (String → String) → String → Action (Option PromotionCode)
find_code_by_code_for_update lower code =
    query (λ t. find (λ c. text_eq (lower c.code) (lower code)) t.promotion_codes)

unfoldable pub find_redemption_by_idempotency_key : String → Action (Option PromotionRedemption)
find_redemption_by_idempotency_key key =
    query (λ t. find (λ r. text_eq r.idempotency_key key) t.promotion_redemptions)

unfoldable pub find_redemption_by_user_and_promotion : ℕ → ℕ → Action (Option PromotionRedemption)
find_redemption_by_user_and_promotion user_id promotion_id = query (λ t.
    find (λ r. r.user_id == user_id && r.promotion_id == promotion_id) t.promotion_redemptions)

unfoldable pub find_redemption_by_promotion_and_beneficiary :
    ℕ → String → Action (Option PromotionRedemption)
find_redemption_by_promotion_and_beneficiary promotion_id beneficiary_key = query (λ t.
    find (λ r. r.promotion_id == promotion_id && holds_text r.beneficiary_key beneficiary_key)
      t.promotion_redemptions)

abbrev pub is_granted : PromotionRedemptionStatus → Bool
is_granted granted = true
is_granted rejected = false
is_granted failed = false

abbrev pub is_granted_to : ℕ → ℕ → PromotionRedemption → Bool
is_granted_to user_id promotion_id r =
    r.user_id == user_id && (r.promotion_id == promotion_id && is_granted r.status)

unfoldable pub count_user_redemptions : ℕ → ℕ → Action ℕ
count_user_redemptions user_id promotion_id =
    query (λ t. count (is_granted_to user_id promotion_id) t.promotion_redemptions)

-- `mapper.redemption_to_record`: a row carries no events.
abbrev pub redemption_to_record : PromotionRedemption → PromotionRedemption
redemption_to_record r = record r { domain_events = [] }

unfoldable pub create_redemption : PromotionRedemption → Action ⊤
create_redemption r = do add (insert_promotion_redemption (redemption_to_record r)); flush

unfoldable pub create_promotion : Promotion → Action ⊤
create_promotion p = do add (insert_promotion p); flush

unfoldable pub save_promotion : Promotion → Action ⊤
save_promotion p = do
  row ← query (λ t. find (λ q. q.id == p.id) t.promotions)
  λ s. elim row [ none ↦ (ok tt, s) | some _ ↦ (add (update_promotion p) >> flush) s ]

-- Only the counter of a code is written; the other fields are those that were read.
unfoldable pub save_code : PromotionCode → Action ⊤
save_code c = do
  row ← query (λ t. find (λ d. d.id == c.id) t.promotion_codes)
  λ s. elim row [
    | none ↦ (ok tt, s)
    | some d ↦
        (add (update_promotion_code (record d { times_redeemed = c.times_redeemed })) >> flush) s
  ]

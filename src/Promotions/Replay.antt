-- ===== src/Promotions/Replay.antt =====
-- `CreatePromotionRedemptionCommandUseCase.execute` from the lookup of the promotion on: a first
-- request, and the same request again.
use boat_backend.Prelude.{
  subst, ℕ, ◌≡◌, String, true, false, List, Option, none, some, arith, find, find-passes, text_eq,
  ◌==◌,
}
use boat_backend.Prelude.Int.{pos, ◌≤ℤ◌}
use boat_backend.Core.Errors.{ok}
use boat_backend.Credits.Values.{ocr}
use boat_backend.Credits.Ledger.{IsSound}
use boat_backend.Credits.Commands.Account.{begin}
use boat_backend.Credits.Commands.GrantRepeat.{stored_result, stored_balance-begin}
use boat_backend.Database.{Tables, Write, apply_all, find_user_credit}
use boat_backend.Database.Session.{UnitOfWork, view}
use boat_backend.Promotions.Domain.{Promotion, PromotionRedemption, restore_promotion}
use boat_backend.Promotions.Keys.{promotion_key}
use boat_backend.Promotions.Redemption.{redeem, redemption_result, replay, replay_if_existing}
use boat_backend.Promotions.Repository.{
  find_promotion_for_update, find_redemption_by_idempotency_key, find_content_by_promotion_id,
}
use boat_backend.Promotions.Commands.{
  create_promotion_redemption_execute, ensure_open, redeem_found, replay_or_redeem,
}

module _ (p : Promotion) (t : Tables) (arrivals : List (List Write)) (fresh today : ℕ)
    (stored : find (λ q. q.id == p.id) t.promotions ≡ some p)
    (positive : pos 1 ≤ℤ p.benefit_amount) where
  promotion_found :
      find_promotion_for_update p.id (begin t arrivals fresh today)
      ≡ (ok (some p), begin t arrivals fresh today)
  unfolding find_promotion_for_update view apply_all restore_promotion
  promotion_found = ground (arith, stored, positive)

  module _ (str : ℕ → String) (uow : UnitOfWork) (now user_id : ℕ) (client_key : Option String)
      (is_open : ensure_open p ≡ ok tt) where
    -- A request with a key that no redemption has is a redemption.
    pub execute-redeem :
        find
            (λ r. text_eq r.idempotency_key (promotion_key str p.id user_id client_key))
            t.promotion_redemptions
          ≡ none
        → create_promotion_redemption_execute str uow now user_id p.id client_key
            (begin t arrivals fresh today)
          ≡ redeem uow now user_id p none
              (promotion_key str p.id user_id client_key)
              (begin t arrivals fresh today)
    unfolding create_promotion_redemption_execute redeem_found replay_or_redeem replay_if_existing
        find_redemption_by_idempotency_key view apply_all
    execute-redeem unused = ground (arith, promotion_found, is_open, unused)

    -- A request with the key of a redemption that the promotion has answers that redemption, says that it
    -- was redeemed before, grants nothing and changes nothing.
    pub execute-replay :
        (r : PromotionRedemption)
        → find
            (λ r. text_eq r.idempotency_key (promotion_key str p.id user_id client_key))
            t.promotion_redemptions
          ≡ some r
        → r.promotion_id ≡ p.id
        → IsSound (find_user_credit user_id ocr t)
        → create_promotion_redemption_execute str uow now user_id p.id client_key
            (begin t arrivals fresh today)
          ≡ (
            ok (
                redemption_result r p
                  (find (λ c. c.promotion_id == p.id) t.promotion_contents)
                  true
                  false
                  (stored_result (find_user_credit user_id ocr t) user_id)),
            begin t arrivals fresh today,
          )
    unfolding create_promotion_redemption_execute redeem_found replay_or_redeem replay_if_existing
        find_redemption_by_idempotency_key view apply_all replay find_content_by_promotion_id
    execute-replay r found same h = ground (
      arith,
      promotion_found,
      is_open,
      found,
      stored_balance-begin t arrivals fresh today user_id h,
    )

-- The request for the promotion `id` answers the redemption `r` again.
abbrev pub Replays :
    (ℕ → String)
    → UnitOfWork
    → ℕ
    → ℕ
    → Option String
    → Promotion
    → PromotionRedemption
    → Tables
    → List (List Write)
    → ℕ
    → ℕ
    → ℕ
    → Type 0
Replays str uow now user_id client_key p r t arrivals fresh today id =
    create_promotion_redemption_execute str uow now user_id id client_key
      (begin t arrivals fresh today)
    ≡ (
      ok (
          redemption_result r p (find (λ c. c.promotion_id == id) t.promotion_contents) true false
            (stored_result (find_user_credit user_id ocr t) user_id)),
      begin t arrivals fresh today,
    )

-- The same, for a promotion found by an identifier.
pub execute-Replays :
    (str : ℕ → String) (uow : UnitOfWork) (now user_id : ℕ) (client_key : Option String)
    (p : Promotion) (r : PromotionRedemption) (t : Tables) (arrivals : List (List Write))
    (fresh today id : ℕ)
    → find (λ q. q.id == id) t.promotions ≡ some p
    → pos 1 ≤ℤ p.benefit_amount
    → ensure_open p ≡ ok tt
    → find
        (λ x. text_eq x.idempotency_key (promotion_key str id user_id client_key))
        t.promotion_redemptions
      ≡ some r
    → r.promotion_id ≡ id
    → IsSound (find_user_credit user_id ocr t)
    → Replays str uow now user_id client_key p r t arrivals fresh today id
execute-Replays str uow now user_id client_key p r t arrivals fresh today id there positive still
      recorded same sound =
    subst At own
      (λ a b c.
        execute-replay p t arrivals fresh today a positive str uow now user_id client_key still r b
          c sound)
      there recorded same
  where
    own : p.id ≡ id
    own = ground (arith, find-passes (λ (q : Promotion). q.id == id) t.promotions p there)

    At : ℕ → Type 0
    At z =
        find (λ q. q.id == z) t.promotions ≡ some p
        → find (λ x. text_eq x.idempotency_key (promotion_key str z user_id client_key))
            t.promotion_redemptions
          ≡ some r
        → r.promotion_id ≡ z
        → Replays str uow now user_id client_key p r t arrivals fresh today z

-- ===== src/Tests/Redemptions.antt =====
-- The theorems on redemptions of app/modules/promotions at a promotion that runs and a user who has not
-- redeemed it.
use boat_backend.Prelude.{
  ℕ, ◌≡◌, inl, refl, true, false, String, List, [], ◌∷◌, none, some, arith, ◌==◌, find, text_eq,
}
use boat_backend.Prelude.Int.{pos, ◌+ℤ◌}
use boat_backend.Core.Errors.{Refusal, ok, err, promotion_redemption_conflict}
use boat_backend.Credits.Values.{ocr}
use boat_backend.Credits.Ledger.{IsLedger, IsSound, total_of}
use boat_backend.Credits.Repository.{
  exists_transaction_with_idempotency_key, exists_transaction_with_source,
}
use boat_backend.Credits.Commands.{is_duplicate_grant}
use boat_backend.Credits.Commands.Account.{begin}
use boat_backend.Credits.Commands.Grant.{old_row, grant_result}
use boat_backend.Credits.Commands.GrantRepeat.{stored_result}
use boat_backend.Database.{
  Tables, Write, UserCreditRow, insert_user_credit, find_user_credit, apply, apply_all,
}
use boat_backend.Database.Session.{UnitOfWork}
use boat_backend.Promotions.Commands.{create_promotion_redemption_execute, ensure_open}
use boat_backend.Promotions.Domain.{Promotion, recharge, record_redemption, create_granted}
use boat_backend.Promotions.Eligibility.{IsOpen}
use boat_backend.Promotions.Keys.{promotion_key}
use boat_backend.Promotions.Limits.{Kept, redeem-Kept}
use boat_backend.Promotions.Lost.{redeem_lost}
use boat_backend.Promotions.Redeemed.{
  redemption, redeem_writes, redeem_grant, MayRedeem, redeemed, redeem_alone,
}
use boat_backend.Promotions.Redemption.{redeem, redemption_result}
use boat_backend.Promotions.Refused.{redeem_refused}
use boat_backend.Promotions.Repository.{redemption_to_record}
use boat_backend.Promotions.Twice.{redeem_twice}

abbrev label : ℕ → String
label a = "id"

abbrev august : Promotion
august = record {
  id = 8;
  name = "august";
  active = true;
  starts_at = 10;
  expires_at = some 20;
  max_redemptions = some 2;
  times_redeemed = 1;
  max_redemptions_per_user = 1;
  benefit_feature_key = ocr;
  context = some recharge;
  benefit_amount = pos 5;
}

abbrev shop : Tables
shop = record {
  user_credits = [];
  credit_transactions = [];
  outbox_events = [];
  promotions = august ∷ [];
  promotion_contents = [];
  promotion_codes = [];
  promotion_redemptions = [];
}

abbrev request_key : String
request_key = "promotionRedemption:id:id"

august-IsOpen : IsOpen august 12
august-IsOpen = record {
  active = refl;
  started = omega arith;
  running = omega arith;
  left = omega arith;
}

may : MayRedeem august 1 12 request_key shop
may = record {
  runs = august-IsOpen;
  below = omega arith;
  stored = refl;
  positive = omega arith;
  unused = refl;
}

shop-IsLedger : IsLedger shop
unfolding find_user_credit total_of
shop-IsLedger = record { at = λ j. (refl, refl) }

ungranted : is_duplicate_grant (redeem_grant august 1 12 request_key 40) shop ≡ false
unfolding is_duplicate_grant exists_transaction_with_idempotency_key exists_transaction_with_source
ungranted = refl

shop-IsSound : IsSound (old_row shop (redeem_grant august 1 12 request_key 40))
unfolding find_user_credit
shop-IsSound = tt

redeem_alone_example :
    redeem UnitOfWork.sql_alchemy 12 1 august none request_key (begin shop [] 40 7) ≡ (
      ok (
          redemption_result
            (redemption august 1 12 request_key 40)
            (record_redemption august)
            (find
              (λ c. c.promotion_id == 8)
              (redeemed august 1 12 request_key shop may 40 7).promotion_contents)
            false
            true
            (grant_result
              (apply_all (redeem_writes august 1 12 request_key 40) shop)
              (redeem_grant august 1 12 request_key 40))),
      begin (redeemed august 1 12 request_key shop may 40 7) [] 42 7,
    )
redeem_alone_example = redeem_alone august 1 12 request_key shop may 40 7 shop-IsSound ungranted

redeem-Kept_example :
    Kept august 1 12 request_key shop may 40 7
      (redeem UnitOfWork.sql_alchemy 12 1 august none request_key (begin shop [] 40 7)).1.committed
redeem-Kept_example = redeem-Kept august 1 12 request_key shop may 40 7 shop-IsLedger ungranted

not_open : IsOpen august 25 → ⊥
not_open h = (let left = h.running in omega (arith, left))

redeem_refused_example :
    (e : Refusal) × (redeem UnitOfWork.sql_alchemy 25 1 august none request_key (begin shop [] 40 7)
      ≡ (err (promotion_redemption_conflict e), begin shop [] 40 7))
redeem_refused_example =
    redeem_refused august 25 UnitOfWork.sql_alchemy 1 request_key (begin shop [] 40 7)
      (inl not_open)

august-open : ensure_open august ≡ ok tt
august-open = refl

same_request : promotion_key label 8 1 none ≡ request_key
unfolding promotion_key
same_request = refl

may_by_key : MayRedeem august 1 12 (promotion_key label 8 1 none) shop
unfolding promotion_key
may_by_key = may

ungranted_by_key :
    is_duplicate_grant (redeem_grant august 1 12 (promotion_key label 8 1 none) 40) shop ≡ false
unfolding promotion_key
ungranted_by_key = ungranted

-- Since then the user has spent two of the credits and the promotion has a new name.
abbrev renamed : Promotion
renamed = record august { name = "late august"; times_redeemed = 2 }

abbrev since : Tables
since = record shop {
  user_credits =
      record {
        user_id = 1;
        feature_key = ocr;
        total_granted_count = pos 5;
        used_count = pos 2;
        remaining_count = pos 3;
      }
      ∷ [];
  promotions = renamed ∷ [];
  promotion_redemptions =
      redemption_to_record (redemption august 1 12 (promotion_key label 8 1 none) 40) ∷ [];
}

still_recorded :
    find (λ r. text_eq r.idempotency_key (promotion_key label 8 1 none)) since.promotion_redemptions
    ≡ some (redemption_to_record (redemption august 1 12 (promotion_key label 8 1 none) 40))
unfolding promotion_key create_granted
still_recorded = refl

since-IsSound : IsSound (find_user_credit 1 ocr since)
unfolding find_user_credit ◌+ℤ◌
since-IsSound = record { used_nonneg = omega arith; remaining_nonneg = omega arith; adds_up = refl }

redeem_twice_example :
    let done =
      (create_promotion_redemption_execute label UnitOfWork.sql_alchemy 12 1 8 none
        (begin shop [] 40 7)).1.committed in
    (find (λ r. text_eq r.idempotency_key (promotion_key label 8 1 none)) done.promotion_redemptions
      ≡ some (redemption_to_record (redemption august 1 12 (promotion_key label 8 1 none) 40)))
    × (find (λ x. x.id == 8) done.promotions ≡ some (record_redemption august))
    × IsSound (find_user_credit 1 ocr done)
    × (create_promotion_redemption_execute label UnitOfWork.sql_alchemy 13 1 8 none
          (begin since [] 60 9)
        ≡ (
          ok (
              redemption_result
                (redemption_to_record (redemption august 1 12 (promotion_key label 8 1 none) 40))
                renamed
                (find (λ c. c.promotion_id == 8) since.promotion_contents)
                true
                false
                (stored_result (find_user_credit 1 ocr since) 1)),
          begin since [] 60 9,
        ))
redeem_twice_example =
    redeem_twice label august 1 12 none shop 40 7 may_by_key august-open UnitOfWork.sql_alchemy
      since renamed [] 60 9 13 shop-IsLedger ungranted_by_key still_recorded refl refl (omega arith)
      since-IsSound

-- Another promotion gives the user a first row of credits.
abbrev first_row : UserCreditRow
first_row = record {
  user_id = 1;
  feature_key = ocr;
  total_granted_count = pos 4;
  used_count = pos 0;
  remaining_count = pos 4;
}

abbrev others : List Write
others = insert_user_credit first_row ∷ []

no_row_yet : old_row shop (redeem_grant august 1 12 request_key 40) ≡ none
unfolding find_user_credit
no_row_yet = refl

first_row_there : find_user_credit 1 ocr (apply_all others shop) ≡ some first_row
unfolding find_user_credit apply_all apply
first_row_there = refl

key_unused : (apply_all others shop).promotion_redemptions ≡ []
unfolding apply_all apply
key_unused = refl

first_row-IsSound : IsSound (some first_row)
unfolding ◌+ℤ◌
first_row-IsSound = record {
  used_nonneg = omega arith;
  remaining_nonneg = omega arith;
  adds_up = refl;
}

redeem_lost_example :
    redeem UnitOfWork.sql_alchemy 12 1 august none request_key
      (begin shop ([] ∷ [] ∷ others ∷ []) 40 7)
    ≡ (
      ok (
          redemption_result
            (redemption august 1 12 request_key 40)
            (record_redemption august)
            (find (λ c. c.promotion_id == 8) (apply_all others shop).promotion_contents)
            false
            true
            (stored_result (some first_row) 1)),
      begin (apply_all others shop) [] 42 7,
    )
redeem_lost_example =
    redeem_lost august 1 12 request_key shop may 40 7 others first_row no_row_yet first_row_there
      (rw key_unused refl) first_row-IsSound ungranted

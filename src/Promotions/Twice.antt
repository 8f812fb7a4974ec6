-- ===== src/Promotions/Twice.antt =====
-- A promotion redeemed by its identifier, and the same request sent again.
use text.Mathlib.TextPositions.{eq_refl}
use boat_backend.Prelude.{
  ℕ, ◌≡◌, refl, String, true, false, List, [], Option, some, find, text_eq, ◌==◌,
}
use boat_backend.Prelude.Int.{pos, ◌≤ℤ◌}
use boat_backend.Core.Errors.{ok}
use boat_backend.Credits.Values.{ocr}
use boat_backend.Credits.Ledger.{IsLedger, IsSound}
use boat_backend.Credits.Commands.{is_duplicate_grant}
use boat_backend.Credits.Commands.Account.{begin, IsLedger-IsSound}
use boat_backend.Credits.Commands.GrantRepeat.{stored_result}
use boat_backend.Database.{Tables, Write, find_user_credit}
use boat_backend.Database.Laws.{find-append}
use boat_backend.Database.Session.{UnitOfWork}
use boat_backend.Promotions.Commands.{create_promotion_redemption_execute, ensure_open}
use boat_backend.Promotions.Domain.{Promotion, record_redemption, create_granted}
use boat_backend.Promotions.Keys.{promotion_key}
use boat_backend.Promotions.Limits.{
  redeemed-IsLedger, redeemed-promotion_redemptions, redeemed-stored,
}
use boat_backend.Promotions.Redeemed.{redemption, redeem_grant, MayRedeem, redeemed, redeem_alone}
use boat_backend.Promotions.Redemption.{redemption_result}
use boat_backend.Promotions.Replay.{execute-redeem, execute-Replays}
use boat_backend.Promotions.Repository.{redemption_to_record}

module _ (str : ℕ → String) (p : Promotion) (user_id now : ℕ) (client_key : Option String)
    (t : Tables) (fresh today : ℕ)
    (may : MayRedeem p user_id now (promotion_key str p.id user_id client_key) t)
    (is_open : ensure_open p ≡ ok tt) where
  abbrev key : String
  key = promotion_key str p.id user_id client_key

  abbrev after : Tables
  after = redeemed p user_id now key t may fresh today

  first_time :
      IsLedger t
      → is_duplicate_grant (redeem_grant p user_id now key fresh) t ≡ false
      → (create_promotion_redemption_execute str UnitOfWork.sql_alchemy now user_id p.id client_key
          (begin t [] fresh today)).1.committed
        ≡ after
  first_time h new =
      rw
        (execute-redeem p t [] fresh today may.stored may.positive str UnitOfWork.sql_alchemy now
          user_id client_key is_open may.unused)
        (rw (redeem_alone p user_id now key t may fresh today (IsLedger-IsSound user_id h) new)
          refl)

  recorded :
      find (λ r. text_eq r.idempotency_key key) after.promotion_redemptions
      ≡ some (redemption_to_record (redemption p user_id now key fresh))
  unfolding create_granted
  recorded =
      rw
        (
          redeemed-promotion_redemptions p user_id now key t may fresh today,
          find-append (λ r. text_eq r.idempotency_key key) t.promotion_redemptions,
          may.unused,
          eq_refl,
        )
        refl

  -- A redemption by identifier that the user may make, made alone over tables that keep the ledger:
  -- then it is the stored redemption with its key, the promotion is counted, and the user's row is sound.
  -- The same request again, whatever was committed since, as long as that redemption is the one with its
  -- key, the promotion is there, open and of a positive benefit, and the user's row is sound: it answers
  -- the first redemption, says that it was redeemed before and that nothing is granted, and changes
  -- nothing.
  pub redeem_twice :
      (uow : UnitOfWork) (since : Tables) (q : Promotion) (arrivals : List (List Write))
      (later tomorrow then_now : ℕ)
      → IsLedger t
      → is_duplicate_grant (redeem_grant p user_id now key fresh) t ≡ false
      → find (λ r. text_eq r.idempotency_key key) since.promotion_redemptions
        ≡ some (redemption_to_record (redemption p user_id now key fresh))
      → find (λ x. x.id == p.id) since.promotions ≡ some q
      → ensure_open q ≡ ok tt
      → pos 1 ≤ℤ q.benefit_amount
      → IsSound (find_user_credit user_id ocr since)
      → let done =
          (create_promotion_redemption_execute str UnitOfWork.sql_alchemy now user_id p.id
            client_key
            (begin t [] fresh today)).1.committed in
        (find (λ r. text_eq r.idempotency_key key) done.promotion_redemptions
          ≡ some (redemption_to_record (redemption p user_id now key fresh)))
        × (find (λ x. x.id == p.id) done.promotions ≡ some (record_redemption p))
        × IsSound (find_user_credit user_id ocr done)
        × (create_promotion_redemption_execute str uow then_now user_id p.id client_key
              (begin since arrivals later tomorrow)
            ≡ (
              ok (
                  redemption_result
                    (redemption_to_record (redemption p user_id now key fresh))
                    q
                    (find (λ c. c.promotion_id == p.id) since.promotion_contents)
                    true
                    false
                    (stored_result (find_user_credit user_id ocr since) user_id)),
              begin since arrivals later tomorrow,
            ))
  unfolding create_granted
  redeem_twice uow since q arrivals later tomorrow then_now h new found there still positive sound =
      rw (first_time h new) (
        recorded,
        redeemed-stored p user_id now key t may fresh today,
        IsLedger-IsSound user_id (redeemed-IsLedger p user_id now key t may fresh today h),
        execute-Replays str uow then_now user_id client_key q _ since arrivals later tomorrow p.id
            there positive still found refl sound,
      )

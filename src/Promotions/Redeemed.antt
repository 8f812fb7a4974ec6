-- ===== src/Promotions/Redeemed.antt =====
-- `PromotionRedemptionExecutor.redeem` by a promotion's identifier, with no other session at work: the
-- checks, and what a redemption commits.
use boat_backend.Prelude.{
  ℕ, ◌+◌, ◌≡◌, ◌<◌, refl, String, true, false, List, [], ◌∷◌, ◌++◌, none, some, arith, find,
  text_eq, ◌==◌, count,
}
use boat_backend.Prelude.Int.{pos, ◌≤ℤ◌}
use boat_backend.Core.Errors.{ok}
use boat_backend.Credits.Values.{event_ocr_allowance, promotion_redemption}
use boat_backend.Credits.Domain.{credit_amount}
use boat_backend.Credits.Ledger.{IsSound}
use boat_backend.Credits.Repository.{
  exists_transaction_with_idempotency_key, exists_transaction_with_source,
}
use boat_backend.Credits.Commands.{GrantCreditCommand, grant_credit_command, is_duplicate_grant}
use boat_backend.Credits.Commands.Account.{begin}
use boat_backend.Credits.Commands.Grant.{IsValid, old_row, grant_writes, grant_result}
use boat_backend.Credits.Commands.GrantWithin.{
  grant_within, grant_written, grant_written-first_violation,
}
use boat_backend.Database.{
  Tables, Write, find_user_credit, insert_promotion_redemption, update_promotion,
  insert_outbox_event, apply, apply_all, violation, first_violation,
}
use boat_backend.Database.Session.{
  Session, uuid4, view, publish, UnitOfWork, flush, arrive, commit_of, commit_succeeds,
}
use boat_backend.Events.{promotion_redemption_granted}
use boat_backend.Promotions.Domain.{
  Promotion, PromotionRedemption, ensure_user_can_redeem, record_redemption, create_granted,
  pull_redemption_events,
}
use boat_backend.Promotions.Eligibility.{IsOpen, ensure_redeemable_iff}
use boat_backend.Promotions.Redemption.{
  check_redeem, write_redeem, redeem, redemption_result, grant_ocr_credit,
}
use boat_backend.Promotions.Repository.{
  create_redemption, save_promotion, count_user_redemptions, is_granted_to, redemption_to_record,
  find_content_by_promotion_id,
}

module _ (p : Promotion) (user_id now : ℕ) (key : String) where
  abbrev pub redemption : ℕ → PromotionRedemption
  redemption id = create_granted id p.id none user_id none key now p.benefit_amount

  -- The writes of a redemption before those of its grant.
  abbrev pub redeem_writes : ℕ → List Write
  redeem_writes id =
      insert_promotion_redemption (redemption_to_record (redemption id))
      ∷ update_promotion (record_redemption p)
      ∷ insert_outbox_event (promotion_redemption_granted id p.id user_id none p.benefit_amount key)
      ∷ []

  -- The command that the grant port sends.
  abbrev pub redeem_grant : ℕ → GrantCreditCommand
  redeem_grant id = record {
    user_id = user_id;
    amount = record { value = p.benefit_amount };
    reason = event_ocr_allowance;
    source_type = some promotion_redemption;
    source_id = some id;
    idempotency_key = some key;
  }

  -- A promotion that the user may redeem under this key.
  pub record MayRedeem (t : Tables) : Type 0 where
    pub runs : IsOpen p now
    pub below :
        count (is_granted_to user_id p.id) t.promotion_redemptions < p.max_redemptions_per_user
    pub stored : find (λ q. q.id == p.id) t.promotions ≡ some p
    pub positive : pos 1 ≤ℤ p.benefit_amount
    pub unused : find (λ q. text_eq q.idempotency_key key) t.promotion_redemptions ≡ none

  module _ (t : Tables) (may : MayRedeem t) (fresh today : ℕ) where
    check_redeem-begin :
        check_redeem now user_id p none (begin t [] fresh today) ≡ (ok tt, begin t [] fresh today)
    unfolding check_redeem count_user_redemptions ensure_user_can_redeem view apply_all
    check_redeem-begin = ground (arith, (ensure_redeemable_iff p now).1 may.runs, may.below)

    abbrev at : List Write → Session
    at ws = record { committed = t; pending = ws; arrivals = []; fresh = fresh + 1; now = today }

    redeem_writes-first_violation : first_violation (redeem_writes fresh) t ≡ none
    unfolding first_violation violation create_granted
    redeem_writes-first_violation = ground (arith, may.unused)

    created :
        create_redemption (redemption fresh) (at [])
        ≡ (ok tt, at (insert_promotion_redemption (redemption_to_record (redemption fresh)) ∷ []))
    unfolding create_redemption flush arrive first_violation violation create_granted
    created = ground (arith, may.unused)

    promotion_saved :
        save_promotion
          (record_redemption p)
          (at (insert_promotion_redemption (redemption_to_record (redemption fresh)) ∷ []))
        ≡ (
          ok tt,
          at (
              insert_promotion_redemption (redemption_to_record (redemption fresh))
              ∷ update_promotion (record_redemption p)
              ∷ []),
        )
    unfolding save_promotion flush arrive first_violation violation create_granted record_redemption
        view apply_all apply
    promotion_saved = ground (arith, may.unused, may.stored)

    published :
        publish (pull_redemption_events (redemption fresh)).0 (
          at (
            insert_promotion_redemption (redemption_to_record (redemption fresh))
            ∷ update_promotion (record_redemption p)
            ∷ []))
        ≡ (ok tt, at (redeem_writes fresh))
    unfolding publish pull_redemption_events create_granted
    published = refl

    written :
        write_redeem user_id (redemption fresh) p none key (at [])
        ≡ grant_ocr_credit user_id p.benefit_amount fresh key (at (redeem_writes fresh))
    unfolding write_redeem create_granted
    written = ground (arith, created, promotion_saved, published)

    pub grant-IsValid : IsValid (redeem_grant fresh)
    grant-IsValid = record { positive = may.positive; allowance = refl; paired = refl }

    -- What the grant reads are the credit tables as they were.
    still-IsSound :
        IsSound (old_row t (redeem_grant fresh))
        → IsSound (old_row (view (at (redeem_writes fresh))) (redeem_grant fresh))
    unfolding view apply_all apply find_user_credit
    still-IsSound h = h

    still_new :
        is_duplicate_grant (redeem_grant fresh) t ≡ false
        → is_duplicate_grant (redeem_grant fresh) (view (at (redeem_writes fresh))) ≡ false
    unfolding is_duplicate_grant exists_transaction_with_idempotency_key
        exists_transaction_with_source view apply_all apply
    still_new h = h

    granted_now :
        IsSound (old_row t (redeem_grant fresh))
        → is_duplicate_grant (redeem_grant fresh) t ≡ false
        → grant_ocr_credit user_id p.benefit_amount fresh key (at (redeem_writes fresh)) ≡ (
          ok (grant_result (view (at (redeem_writes fresh))) (redeem_grant fresh)),
          grant_written (redeem_grant fresh) (at (redeem_writes fresh)),
        )
    unfolding grant_ocr_credit credit_amount grant_credit_command
    granted_now h new =
        (let within =
            grant_within (redeem_grant fresh) (at (redeem_writes fresh)) grant-IsValid
              (still-IsSound h) (still_new new) refl redeem_writes-first_violation in
          ground (arith, within, may.positive))

    -- The tables after a redemption: its three writes, then those of its grant.
    abbrev pub redeemed : Tables
    redeemed =
        apply_all
          (redeem_writes fresh
            ++ grant_writes (apply_all (redeem_writes fresh) t) (redeem_grant fresh) (fresh + 1)
                today)
          t

    committed_now :
        is_duplicate_grant (redeem_grant fresh) t ≡ false
        → commit_of UnitOfWork.sql_alchemy
            (grant_written (redeem_grant fresh) (at (redeem_writes fresh)))
          ≡ (ok tt, begin redeemed [] (fresh + 1 + 1) today)
    unfolding commit_of view
    committed_now new =
        commit_succeeds (grant_written (redeem_grant fresh) (at (redeem_writes fresh))) (
          grant_written-first_violation (redeem_grant fresh) (at (redeem_writes fresh))
            grant-IsValid (still_new new) redeem_writes-first_violation)

    -- With no other session at work, a redemption by identifier that the user may make, whose grant is
    -- new and over a sound row, commits the redemption, the counted promotion, the event and the whole
    -- grant at once, and answers with the counts after it.
    pub redeem_alone :
        IsSound (old_row t (redeem_grant fresh))
        → is_duplicate_grant (redeem_grant fresh) t ≡ false
        → redeem UnitOfWork.sql_alchemy now user_id p none key (begin t [] fresh today) ≡ (
          ok (
              redemption_result
                (redemption fresh)
                (record_redemption p)
                (find (λ c. c.promotion_id == p.id) redeemed.promotion_contents)
                false
                true
                (grant_result (apply_all (redeem_writes fresh) t) (redeem_grant fresh))),
          begin redeemed [] (fresh + 1 + 1) today,
        )
    unfolding redeem uuid4 find_content_by_promotion_id view apply_all
    redeem_alone h new =
        ground (arith, check_redeem-begin, written, granted_now h new, committed_now new)

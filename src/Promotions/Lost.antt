-- ===== src/Promotions/Lost.antt =====
-- `PromotionRedemptionExecutor.redeem` when its grant meets a write conflict: another session inserts
-- the user's first row of credits between the grant's read and its flush.
use boat_backend.Prelude.{
  ◌∙◌, ℕ, ◌+◌, ◌≡◌, refl, String, true, false, List, [], ◌∷◌, none, some, arith, find, text_eq,
  ◌==◌,
}
use boat_backend.Core.Errors.{ok, pk_user_credits}
use boat_backend.Credits.Values.{ocr}
use boat_backend.Credits.Domain.{UserCredit, credit_amount, pull_events}
use boat_backend.Credits.Ledger.{IsSound}
use boat_backend.Credits.Repository.{
  is_idempotent_constraint, exists_transaction_with_idempotency_key, exists_transaction_with_source,
}
use boat_backend.Credits.Commands.{
  GrantCreditCommand, grant_credit_command, grant_credit_execute, is_duplicate_grant, settle_grant,
  finish_grant, on_conflict, has_idempotent_identity,
}
use boat_backend.Credits.Commands.Account.{begin, account, id-account, feature_key-account}
use boat_backend.Credits.Commands.Grant.{IsValid, old_row, granted_credit, grant_writes}
use boat_backend.Credits.Commands.GrantLedger.{finish_fails}
use boat_backend.Credits.Commands.GrantRepeat.{insert_clash, stored_result, stored_balance-begin}
use boat_backend.Credits.Commands.GrantWithin.{
  grant_execute-within, grant_written, first_violation-append,
}
use boat_backend.Database.{
  Tables, Write, UserCreditRow, find_user_credit, insert_promotion_redemption, update_promotion,
  apply, apply_all, violation, first_violation,
}
use boat_backend.Database.Session.{
  Session, uuid4, view, publish, UnitOfWork, flush, arrive, commit, commit_of, rollback,
  rollback_of, except_err,
}
use boat_backend.Promotions.Domain.{
  Promotion, ensure_user_can_redeem, record_redemption, create_granted, pull_redemption_events,
}
use boat_backend.Promotions.Eligibility.{ensure_redeemable_iff}
use boat_backend.Promotions.Redemption.{
  check_redeem, write_redeem, redeem, redemption_result, grant_ocr_credit,
}
use boat_backend.Promotions.Redeemed.{redemption, redeem_writes, redeem_grant, MayRedeem}
use boat_backend.Promotions.Repository.{
  create_redemption, save_promotion, count_user_redemptions, redemption_to_record,
  find_content_by_promotion_id,
}

module _ (p : Promotion) (user_id now : ℕ) (key : String) (t : Tables)
    (may : MayRedeem p user_id now key t) (fresh today : ℕ) (ws : List Write) where
  -- The session with what is still to arrive and what is written.
  abbrev stage : List (List Write) → List Write → Session
  stage arrivals pending = record {
    committed = t;
    pending = pending;
    arrivals = arrivals;
    fresh = fresh + 1;
    now = today;
  }

  abbrev first_write : Write
  first_write =
      insert_promotion_redemption (redemption_to_record (redemption p user_id now key fresh))

  abbrev second_write : Write
  second_write = update_promotion (record_redemption p)

  checked_in :
      check_redeem now user_id p none (begin t ([] ∷ [] ∷ ws ∷ []) fresh today)
      ≡ (ok tt, begin t ([] ∷ [] ∷ ws ∷ []) fresh today)
  unfolding check_redeem count_user_redemptions ensure_user_can_redeem view apply_all
  checked_in = ground (arith, (ensure_redeemable_iff p now).1 may.runs, may.below)

  created_in :
      create_redemption (redemption p user_id now key fresh) (stage ([] ∷ [] ∷ ws ∷ []) [])
      ≡ (ok tt, stage ([] ∷ ws ∷ []) (first_write ∷ []))
  unfolding create_redemption flush arrive first_violation violation create_granted apply_all
  created_in = ground (arith, may.unused)

  saved_in :
      save_promotion (record_redemption p) (stage ([] ∷ ws ∷ []) (first_write ∷ []))
      ≡ (ok tt, stage (ws ∷ []) (first_write ∷ second_write ∷ []))
  unfolding save_promotion flush arrive first_violation violation create_granted record_redemption
      view apply_all apply
  saved_in = ground (arith, may.unused, may.stored)

  published_in :
      publish
        (pull_redemption_events (redemption p user_id now key fresh)).0
        (stage (ws ∷ []) (first_write ∷ second_write ∷ []))
      ≡ (ok tt, stage (ws ∷ []) (redeem_writes p user_id now key fresh))
  unfolding publish pull_redemption_events create_granted
  published_in = refl

  written_in :
      write_redeem user_id
        (redemption p user_id now key fresh)
        p
        none
        key
        (stage ([] ∷ [] ∷ ws ∷ []) [])
      ≡ grant_ocr_credit user_id p.benefit_amount fresh key
          (stage (ws ∷ []) (redeem_writes p user_id now key fresh))
  unfolding write_redeem create_granted
  written_in = ground (arith, created_in, saved_in, published_in)

  abbrev command : GrantCreditCommand
  command = redeem_grant p user_id now key fresh

  abbrev before_grant : Session
  before_grant = stage (ws ∷ []) (redeem_writes p user_id now key fresh)

  command-IsValid : IsValid command
  command-IsValid = record { positive = may.positive; allowance = refl; paired = refl }

  still_missing : old_row t command ≡ none → old_row (view before_grant) command ≡ none
  unfolding view apply_all apply find_user_credit
  still_missing h = h

  still_new :
      is_duplicate_grant command t ≡ false → is_duplicate_grant command (view before_grant) ≡ false
  unfolding is_duplicate_grant exists_transaction_with_idempotency_key
      exists_transaction_with_source view apply_all apply
  still_new h = h

  module _ (row : UserCreditRow) (missing : old_row t command ≡ none)
      (there : find_user_credit user_id ocr (apply_all ws t) ≡ some row)
      (unused : find (λ r. text_eq r.idempotency_key key) (apply_all ws t).promotion_redemptions
        ≡ none) where
    redemption_fits :
        first_violation (redeem_writes p user_id now key fresh) (apply_all ws t) ≡ none
    unfolding first_violation violation create_granted
    redemption_fits = ground (arith, unused)

    still_there :
        find_user_credit user_id ocr
          (apply_all (redeem_writes p user_id now key fresh) (apply_all ws t))
        ≡ some row
    unfolding apply_all apply find_user_credit
    still_there = there

    grant_clashes :
        first_violation
          (grant_writes (view before_grant) command (fresh + 1) today)
          (apply_all (redeem_writes p user_id now key fresh) (apply_all ws t))
        ≡ some pk_user_credits
    grant_clashes =
        let reader : UserCredit = account (old_row (view before_grant) command) user_id in
        let id : reader.id ≡ user_id =
          id-account user_id (view before_grant) (old_row (view before_grant) command) refl in
        let k : reader.feature_key ≡ ocr =
          feature_key-account (old_row (view before_grant) command) user_id in
        insert_clash _ _ row _ _ (rw (k, id) (still_missing missing)) (rw (k, id) still_there)

    conflict :
        first_violation
          (grant_written command before_grant).pending
          (arrive (grant_written command before_grant)).committed
        ≡ some pk_user_credits
    unfolding arrive
    conflict =
        rw (first_violation-append (redeem_writes p user_id now key fresh), redemption_fits)
          grant_clashes

    rolled_back :
        IsSound (some row)
        → is_duplicate_grant command t ≡ false
        → grant_credit_execute UnitOfWork.deferred_commit command before_grant
          ≡ (ok (stored_result (some row) user_id), begin (apply_all ws t) [] (fresh + 1 + 1) today)
    unfolding settle_grant is_idempotent_constraint has_idempotent_identity arrive rollback_of
        rollback
    rolled_back sound new =
        grant_execute-within UnitOfWork.deferred_commit command before_grant command-IsValid
          (rw (still_missing missing) tt) (still_new new)
        ∙ except_err
            (finish_grant UnitOfWork.deferred_commit
              (pull_events (granted_credit (view before_grant) command)).1)
            (on_conflict UnitOfWork.deferred_commit command) (grant_written command before_grant)
            (finish_fails UnitOfWork.deferred_commit
              (pull_events (granted_credit (view before_grant) command)).1
              (grant_written command before_grant) conflict)
        ∙ (stored_balance-begin (apply_all ws t) [] (fresh + 1 + 1) today user_id (rw there sound)
            ∙ rw there refl)

    granted_in :
        IsSound (some row)
        → is_duplicate_grant command t ≡ false
        → grant_ocr_credit user_id p.benefit_amount fresh key before_grant
          ≡ (ok (stored_result (some row) user_id), begin (apply_all ws t) [] (fresh + 1 + 1) today)
    unfolding grant_ocr_credit credit_amount grant_credit_command
    granted_in sound new =
        (let rolled = rolled_back sound new in ground (arith, rolled, may.positive))

    -- A redemption by identifier that the user may make, whose user has no row of credits, and whose
    -- row another session inserts before the grant is flushed: the answer is a new redemption with its
    -- credits granted, but neither the redemption nor the grant is in the tables, which hold what the
    -- other session committed.
    pub redeem_lost :
        IsSound (some row)
        → is_duplicate_grant command t ≡ false
        → redeem UnitOfWork.sql_alchemy now user_id p none key
            (begin t ([] ∷ [] ∷ ws ∷ []) fresh today)
          ≡ (
            ok (
                redemption_result
                  (redemption p user_id now key fresh)
                  (record_redemption p)
                  (find (λ c. c.promotion_id == p.id) (apply_all ws t).promotion_contents)
                  false
                  true
                  (stored_result (some row) user_id)),
            begin (apply_all ws t) [] (fresh + 1 + 1) today,
          )
    unfolding redeem uuid4 find_content_by_promotion_id view apply_all commit_of commit
        first_violation
    redeem_lost sound new = ground (arith, checked_in, written_in, granted_in sound new)

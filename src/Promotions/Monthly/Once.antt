-- ===== src/Promotions/Monthly/Once.antt =====
-- The monthly job creates the promotion of a month once, also when two runs meet.
use boat_backend.Prelude.{
  ℕ, ◌+◌, ◌≡◌, Bool, true, false, ◌&&◌, List, [], ◌∷◌, none, some, arith, find, ◌==◌,
}
use boat_backend.Prelude.Int.{pos, ◌≤ℤ◌}
use boat_backend.Core.Errors.{ok}
use boat_backend.Credits.Values.{ocr, feature_key_eq}
use boat_backend.Credits.Commands.Account.{begin}
use boat_backend.Database.{
  Tables, Write, insert_promotion, update_promotion, apply, apply_all, violation, first_violation,
  holds_context,
}
use boat_backend.Database.Session.{
  UnitOfWork, view, uuid4, flush, arrive, commit, commit_of, rollback, rollback_of,
}
use boat_backend.Promotions.Domain.{Promotion, recharge, restore_promotion}
use boat_backend.Promotions.Monthly.{
  Spec, new_promotion, apply_spec, ensure_monthly_recharge_promotion, create_or_load,
}
use boat_backend.Promotions.Repository.{
  find_promotion_by_benefit_context_start_for_update, create_promotion, save_promotion,
}

-- The promotion of the month.
abbrev pub of_month : Spec → Promotion → Bool
of_month spec q =
    feature_key_eq q.benefit_feature_key ocr
    && (holds_context q.context recharge && q.starts_at == spec.starts_at)

module _ (spec : Spec) (fresh today : ℕ) where
  -- Where the month has no promotion and no other session is at work, one is created and committed.
  pub ensure_monthly-new :
      (t : Tables)
      → find (of_month spec) t.promotions ≡ none
      → ensure_monthly_recharge_promotion UnitOfWork.sql_alchemy spec (begin t [] fresh today) ≡ (
        ok (fresh, true),
        begin (apply (insert_promotion (new_promotion spec fresh)) t) [] (fresh + 1) today,
      )
  unfolding ensure_monthly_recharge_promotion create_or_load
      find_promotion_by_benefit_context_start_for_update create_promotion uuid4 flush arrive commit
      commit_of view apply_all first_violation violation restore_promotion
  ensure_monthly-new t missing = ground (arith, missing)

  -- Where another session creates the month's promotion, a valid one, between the lookup and the
  -- insert, the job takes that one with the month's specification instead of its own, which is not
  -- created.
  pub ensure_monthly-raced :
      (t : Tables) (ws : List Write) (p : Promotion)
      → find (of_month spec) t.promotions ≡ none
      → find (of_month spec) (apply_all ws t).promotions ≡ some p
      → find (λ q. q.id == p.id) (apply_all ws t).promotions ≡ some p
      → pos 1 ≤ℤ p.benefit_amount
      → ensure_monthly_recharge_promotion UnitOfWork.sql_alchemy spec
          (begin t (ws ∷ []) fresh today)
        ≡ (
          ok (p.id, false),
          begin
              (apply (update_promotion (apply_spec spec p)) (apply_all ws t))
              []
              (fresh + 1)
              today,
        )
  unfolding ensure_monthly_recharge_promotion create_or_load
      find_promotion_by_benefit_context_start_for_update create_promotion save_promotion uuid4 flush
      arrive commit commit_of rollback rollback_of view apply_all first_violation violation
      restore_promotion apply_spec
  ensure_monthly-raced t ws p missing found stored positive =
      ground (arith, missing, found, stored, positive)

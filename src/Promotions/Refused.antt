-- ===== src/Promotions/Refused.antt =====
-- Redemptions that `PromotionRedemptionExecutor.redeem` refuses, in whatever session.
use boat_backend.Prelude.{
  ℕ, ◌≡◌, ◌⊎◌, ◌≤◌, refl, String, none, arith, count, Bool-cases, inl, inr, ltb, not,
}
use boat_backend.Core.Errors.{
  Refusal, inactive, not_started, expired, exhausted, already_used, ok, err,
  promotion_redemption_conflict,
}
use boat_backend.Database.Session.{Session, UnitOfWork, view}
use boat_backend.Promotions.Domain.{
  Promotion, ensure_redeemable, ensure_user_can_redeem, is_over, is_used_up,
}
use boat_backend.Promotions.Eligibility.{IsOpen, ensure_redeemable_iff}
use boat_backend.Promotions.Redemption.{redeem, check_redeem}
use boat_backend.Promotions.Repository.{is_granted_to, count_user_redemptions}

module _ (p : Promotion) (now : ℕ) where
  ensure_redeemable_cases :
      (ensure_redeemable p now ≡ ok tt)
      ⊎ ((e : Refusal) × (ensure_redeemable p now ≡ err (promotion_redemption_conflict e)))
  unfolding ensure_redeemable
  ensure_redeemable_cases = elim (Bool-cases (not p.active)) [
    | inl t ↦ inr (inactive, rw t refl)
    | inr a ↦ elim (Bool-cases (ltb now p.starts_at)) [
      | inl t ↦ inr (not_started, ground arith)
      | inr b ↦ elim (Bool-cases (is_over p.expires_at now)) [
        | inl t ↦ inr (expired, ground arith)
        | inr c ↦ elim (Bool-cases (is_used_up p.max_redemptions p.times_redeemed)) [
          | inl t ↦ inr (exhausted, ground arith)
          | inr d ↦ inl (ground arith)
        ]
      ]
    ]
  ]

  -- A redemption by identifier of a promotion that is not open, or that the user has redeemed as often
  -- as it allows, is refused as a conflict and leaves the session as it was.
  pub redeem_refused :
      (uow : UnitOfWork) (user_id : ℕ) (key : String) (s : Session)
      → (IsOpen p now → ⊥)
        ⊎ (p.max_redemptions_per_user
            ≤ count (is_granted_to user_id p.id) (view s).promotion_redemptions)
      → (e : Refusal) × (redeem uow now user_id p none key s
          ≡ (err (promotion_redemption_conflict e), s))
  unfolding redeem check_redeem count_user_redemptions ensure_user_can_redeem
  redeem_refused uow user_id key s h = elim ensure_redeemable_cases [
    | inr (e, refused) ↦ (e, rw refused refl)
    | inl passes ↦ elim h [
      | inl shut ↦ absurd (shut ((ensure_redeemable_iff p now).0 passes))
      | inr full ↦ (already_used, ground (arith, passes, full))
    ]
  ]

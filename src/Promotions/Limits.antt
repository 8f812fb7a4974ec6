-- ===== src/Promotions/Limits.antt =====
-- What a redemption through app/modules/promotions/application/commands/redemption_executor.py keeps:
-- the limits of the promotion and of the user, and the credit ledger; and what a refusal leaves.
use boat_backend.Prelude.{
  ◌∙◌, ℕ, ◌+◌, ◌≡◌, ◌≤◌, refl, ap, String, false, List, [], ◌∷◌, ◌++◌, Option, none, some, arith,
  find, ◌==◌, count, count-append,
}
use boat_backend.Credits.Ledger.{IsLedger, eq_self}
use boat_backend.Credits.Commands.{is_duplicate_grant}
use boat_backend.Credits.Commands.Account.{begin, IsLedger-IsSound}
use boat_backend.Credits.Commands.Grant.{grant_writes}
use boat_backend.Credits.Commands.GrantLedger.{grant_writes-IsLedger}
use boat_backend.Credits.Commands.GrantWithin.{apply_all-append}
use boat_backend.Database.{Tables, Write, apply, apply_all, find_user_credit, replace_where}
use boat_backend.Database.Laws.{find-replace_self}
use boat_backend.Database.Session.{UnitOfWork}
use boat_backend.Promotions.Domain.{Promotion, record_redemption, create_granted}
use boat_backend.Promotions.Eligibility.{Before}
use boat_backend.Promotions.Redemption.{redeem}
use boat_backend.Promotions.Redeemed.{
  redemption, redeem_writes, redeem_grant, MayRedeem, redeemed, redeem_alone, grant-IsValid,
}
use boat_backend.Promotions.Repository.{redemption_to_record, is_granted_to}

abbrev pub Upto : ℕ → Option ℕ → Type 0
Upto n none = Unit
Upto n (some limit) = n ≤ limit

module _ (p : Promotion) (user_id now : ℕ) (key : String) (t : Tables)
    (may : MayRedeem p user_id now key t) (fresh today : ℕ) where
  -- The writes of the grant.
  abbrev following : List Write
  following =
      grant_writes (apply_all (redeem_writes p user_id now key fresh) t)
        (redeem_grant p user_id now key fresh) (fresh + 1) today

  after_writes-IsLedger :
      IsLedger t → IsLedger (apply_all (redeem_writes p user_id now key fresh) t)
  unfolding apply_all apply find_user_credit
  after_writes-IsLedger h = record { at = h.at }

  pub redeemed-IsLedger : IsLedger t → IsLedger (redeemed p user_id now key t may fresh today)
  redeemed-IsLedger h = rw apply_all-append (
      grant_writes-IsLedger (apply_all (redeem_writes p user_id now key fresh) t)
        (redeem_grant p user_id now key fresh) (grant-IsValid p user_id now key t may fresh today)
        (fresh + 1) today _ (after_writes-IsLedger h) refl)

  grant_writes-promotions :
      (t' : Tables)
      → let after =
          apply_all (grant_writes t' (redeem_grant p user_id now key fresh) (fresh + 1) today) t' in
        (after.promotion_redemptions ≡ t'.promotion_redemptions)
        × (after.promotions ≡ t'.promotions)
  unfolding apply_all apply
  grant_writes-promotions t' = (ground arith, ground arith)

  pub redeemed-promotion_redemptions :
      (redeemed p user_id now key t may fresh today).promotion_redemptions
      ≡ t.promotion_redemptions ++ redemption_to_record (redemption p user_id now key fresh) ∷ []
  unfolding apply_all apply
  redeemed-promotion_redemptions =
      ap (λ (z : Tables). z.promotion_redemptions)
        (apply_all-append (redeem_writes p user_id now key fresh) following t)
      ∙ (grant_writes-promotions (apply_all (redeem_writes p user_id now key fresh) t)).0

  redeemed-promotions :
      (redeemed p user_id now key t may fresh today).promotions
      ≡ replace_where (λ q. q.id == p.id) (record_redemption p) t.promotions
  unfolding apply_all apply record_redemption
  redeemed-promotions =
      ap (λ (z : Tables). z.promotions)
        (apply_all-append (redeem_writes p user_id now key fresh) following t)
      ∙ (grant_writes-promotions (apply_all (redeem_writes p user_id now key fresh) t)).1

  -- The promotion as it is stored after the redemption.
  pub redeemed-stored :
      find (λ q. q.id == p.id) (redeemed p user_id now key t may fresh today).promotions
      ≡ some (record_redemption p)
  unfolding record_redemption
  redeemed-stored = rw redeemed-promotions (
      find-replace_self (λ q. q.id == p.id) (record_redemption p) t.promotions (eq_self p.id)
      ∙ rw may.stored refl)

  redeemed-count :
      count
        (is_granted_to user_id p.id)
        (redeemed p user_id now key t may fresh today).promotion_redemptions
      ≡ count (is_granted_to user_id p.id) t.promotion_redemptions + 1
  unfolding create_granted
  redeemed-count =
      rw
        (
          redeemed-promotion_redemptions,
          count-append (is_granted_to user_id p.id) t.promotion_redemptions,
        )
        (rw (eq_self user_id, eq_self p.id) refl)

  counted_once : record_redemption p ≡ record p { times_redeemed = p.times_redeemed + 1 }
  unfolding record_redemption
  counted_once = refl

  -- The limits that hold after a redemption.
  pub record Kept (after : Tables) : Type 0 where
    pub ledger : IsLedger after
    pub counted :
        find (λ q. q.id == p.id) after.promotions
        ≡ some (record p { times_redeemed = p.times_redeemed + 1 })
    pub within : Upto (p.times_redeemed + 1) p.max_redemptions
    pub once_more :
        count (is_granted_to user_id p.id) after.promotion_redemptions
        ≡ count (is_granted_to user_id p.id) t.promotion_redemptions + 1
    pub per_user :
        count (is_granted_to user_id p.id) after.promotion_redemptions ≤ p.max_redemptions_per_user

  upto : (o : Option ℕ) → Before p.times_redeemed o → Upto (p.times_redeemed + 1) o
  upto none h = tt
  upto (some m) h = omega (arith, h)

  -- With no other session at work, over tables that keep the ledger, a redemption by identifier that
  -- the user may make, whose grant is new, counts once against the promotion and the user, exceeds
  -- neither limit, and keeps the ledger.
  pub redeem-Kept :
      IsLedger t
      → is_duplicate_grant (redeem_grant p user_id now key fresh) t ≡ false
      → Kept
          (redeem UnitOfWork.sql_alchemy now user_id p none key
            (begin t [] fresh today)).1.committed
  redeem-Kept h new =
      rw (redeem_alone p user_id now key t may fresh today (IsLedger-IsSound user_id h) new)
        (record {
          ledger = redeemed-IsLedger h;
          counted = redeemed-stored ∙ ap some counted_once;
          within = upto p.max_redemptions may.runs.left;
          once_more = redeemed-count;
          per_user = rw redeemed-count (omega (arith, may.below));
        })

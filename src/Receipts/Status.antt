-- ===== src/Receipts/Status.antt =====
-- The warranty status that a receipt shows, against the one that the listing filters by.
use boat_backend.Prelude.{ℕ, ◌≡◌, refl, ◌↔◌, ◌⊎◌, inl, inr, true, arith}
use boat_backend.Prelude.Int.{◌-ℤ◌}
use boat_backend.Receipts.Warranty.{
  ReceiptStatusFilter, all, active, expiring, expired, warranty_d_day, warranty_status,
  status_condition,
}

-- A listing by a status holds exactly the receipts that show that status, for each status that a
-- receipt can show, and the listing of all holds every receipt.
pub status_condition_iff :
    (status : ReceiptStatusFilter) (today expires_on : ℕ)
    → (status_condition status today expires_on ≡ true)
      ↔ ((status ≡ all) ⊎ (warranty_status expires_on today ≡ status))
unfolding status_condition warranty_status warranty_d_day ◌-ℤ◌
status_condition_iff all today expires_on = (λ h. inl refl, λ h. refl)
status_condition_iff active today expires_on = (λ h. inr (ground arith), λ h. ground arith)
status_condition_iff expiring today expires_on = (λ h. inr (ground arith), λ h. ground arith)
status_condition_iff expired today expires_on = (λ h. inr (ground arith), λ h. ground arith)

-- ===== src/Tests/Pages.antt =====
-- The loop over pages of app/modules/notifications at three receipts, two to a page.
use boat_backend.Prelude.{ℕ, ◌≡◌, refl, Bool, List, [], ◌∷◌, none, arith, select, ◌==◌}
use boat_backend.Core.Errors.{ok}
use boat_backend.Receipts.AllPages.{iter_due_receipts_returns_all}
use boat_backend.Receipts.Expiring.{
  ReceiptRow, ListReceiptsExpiringOnQuery, is_candidate, iter_due_receipts,
}

abbrev row : ℕ → ℕ → ReceiptRow
row id user_id = record {
  id = id;
  user_id = user_id;
  item_name = "TV";
  sub_category = none;
  expires_on = 40;
  created_at = 5;
}

abbrev table : List ReceiptRow
table = row 1 7 ∷ row 2 8 ∷ row 3 7 ∷ []

abbrev query : ListReceiptsExpiringOnQuery
query = record { target_date = 30; offset_days = 10; observed_before = 9; limit = 2 }

abbrev exists : ℕ → Bool
exists user_id = user_id == 7

iter_due_receipts_returns_all_example :
    iter_due_receipts 4 exists query table none
    ≡ ok (select (λ r. exists r.user_id) (select (is_candidate query) table))
iter_due_receipts_returns_all_example =
    iter_due_receipts_returns_all exists query 1 refl table 4
      ((omega arith, (omega arith, tt)), ((omega arith, tt), (tt, tt))) (omega arith)

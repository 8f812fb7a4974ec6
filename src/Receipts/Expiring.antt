-- ===== src/Receipts/Expiring.antt =====
-- The receipts whose warranty ends on a day, page by page: `list_receipts_expiring_on`
-- (app/modules/receipts/infrastructure/persistence/notification_candidates.py) and the loop of
-- `WarrantyExpiryNotifications.iter_due_notifications`
-- (app/modules/notifications/application/warranty_expiry_notifications.py). The table is listed in the
-- order of its primary key, and a date is its day number. `exists` tells the users that exist.
use boat_backend.Prelude.{
  ℕ, zero, suc, ◌+◌, String, Bool, true, ◌&&◌, List, [], ◌∷◌, ◌++◌, length, take, select, Option,
  none, some, ltb, ◌==◌, if◌then◌else◌,
}
use boat_backend.Core.Errors.{Result, ok, err, ◌>>=◌, runtime_error}

pub record ReceiptRow : Type 0 where
  pub id : ℕ
  pub user_id : ℕ
  pub item_name : String
  pub sub_category : Option String
  pub expires_on : ℕ
  pub created_at : ℕ

pub record ListReceiptsExpiringOnQuery : Type 0 where
  pub target_date : ℕ
  pub offset_days : ℕ
  pub observed_before : ℕ
  pub limit : ℕ

pub record ExpiringReceiptsPage : Type 0 where
  pub receipts : List ReceiptRow
  pub next_cursor_receipt_id : Option ℕ
  pub has_next : Bool

abbrev pub is_candidate : ListReceiptsExpiringOnQuery → ReceiptRow → Bool
is_candidate q r =
    r.expires_on == q.target_date + q.offset_days && ltb r.created_at q.observed_before

abbrev pub is_after : Option ℕ → ReceiptRow → Bool
is_after none r = true
is_after (some cursor) r = ltb cursor r.id

-- `page_records[-1].id`, if there is one
abbrev pub last_id : List ReceiptRow → Option ℕ
last_id [] = none
last_id (r ∷ []) = some r.id
last_id (r ∷ s ∷ rs) = last_id (s ∷ rs)

-- `list_receipts_expiring_on`, over the rows of the table
unfoldable pub list_receipts_expiring_on :
    ListReceiptsExpiringOnQuery → Option ℕ → List ReceiptRow → ExpiringReceiptsPage
list_receipts_expiring_on q cursor table =
    let records = take (suc q.limit) (select (is_after cursor) (select (is_candidate q) table)) in
    let page_records = take q.limit records in
    let has_next = ltb q.limit (length records) in
    record {
      receipts = page_records;
      next_cursor_receipt_id = if has_next then last_id page_records else none;
      has_next = has_next;
    }

-- The receipts that `iter_due_notifications` yields a notification for, on fuel.
unfoldable pub iter_due_receipts :
    ℕ
    → (ℕ → Bool)
    → ListReceiptsExpiringOnQuery
    → List ReceiptRow
    → Option ℕ
    → Result (List ReceiptRow)
unfolding list_receipts_expiring_on
iter_due_receipts zero exists q table cursor = err runtime_error
iter_due_receipts (suc fuel) exists q table cursor =
    let page = list_receipts_expiring_on q cursor table in
    let due = select (λ r. exists r.user_id) page.receipts in
    if page.has_next
    then (elim page.next_cursor_receipt_id [
      | none ↦ err runtime_error
      | some next ↦ iter_due_receipts fuel exists q table (some next) >>= λ rest. ok (due ++ rest)
    ])
    else ok due

-- ===== src/Credits/Ledger.antt =====
-- What the two credit tables promise together: each user's stored counts are the sums of the grants
-- and uses in the transaction log.
use boat_backend.Prelude.{
  ℕ, ◌≡◌, refl, true, false, ◌&&◌, List, [], ◌∷◌, ◌++◌, Option, none, some, arith, ◌==◌,
  if◌then◌else◌, subst, Bool-cases, inl, inr,
}
use boat_backend.Prelude.Int.{ℤ, pos, ◌+ℤ◌, int_laws}
use boat_backend.Credits.Values.{CreditAction, grant_action, use_action, ocr, action_eq}
use boat_backend.Credits.Laws.{Balances}
use boat_backend.Credits.Repository.{save_write}
use boat_backend.Events.{Event}
use boat_backend.Database.{
  insert_credit_transaction, insert_outbox_event, Tables, UserCreditRow, CreditTransactionRow,
  find_user_credit, apply,
}
use boat_backend.Database.Laws.{find_user_credit-insert, find_user_credit-update}

-- The amount of a transaction, where it is of this action and this user.
abbrev pub moved : CreditAction → ℕ → CreditTransactionRow → ℤ
moved action user_id row =
    if row.user_id == user_id && action_eq row.action action then row.amount else pos 0

unfoldable pub total_of : CreditAction → ℕ → List CreditTransactionRow → ℤ
total_of action user_id [] = pos 0
total_of action user_id (row ∷ rows) = total_of action user_id rows +ℤ moved action user_id row

abbrev pub IsSound : Option UserCreditRow → Type 0
IsSound none = Unit
IsSound (some row) = Balances row.total_granted_count row.used_count row.remaining_count

-- A user with no row has no transactions; a row holds the sums, and is a valid balance.
abbrev pub Entry : Option UserCreditRow → ℤ → ℤ → Type 0
Entry none granted used = (granted ≡ pos 0) × (used ≡ pos 0)
Entry (some row) granted used =
    Balances row.total_granted_count row.used_count row.remaining_count
    × (row.total_granted_count ≡ granted)
    × (row.used_count ≡ used)

pub record IsLedger (t : Tables) : Type 0 where
  pub at :
      (j : ℕ)
      → Entry
          (find_user_credit j ocr t)
          (total_of grant_action j t.credit_transactions)
          (total_of use_action j t.credit_transactions)

pub total_of-append :
    (action : CreditAction) (j : ℕ) (rows : List CreditTransactionRow) (row : CreditTransactionRow)
    → total_of action j (rows ++ row ∷ []) ≡ total_of action j rows +ℤ moved action j row
unfolding total_of
total_of-append action j [] row = refl
total_of-append action j (x ∷ rows) row = rw (total_of-append action j rows row) (omega int_laws)

pub Entry-IsSound : (o : Option UserCreditRow) (g u : ℤ) → Entry o g u → IsSound o
Entry-IsSound none g u e = tt
Entry-IsSound (some row) g u e = e.0

pub saved :
    (j : ℕ) (row : UserCreditRow) (t : Tables) (o : Option UserCreditRow)
    → o ≡ find_user_credit row.user_id ocr t
    → find_user_credit j ocr (apply (save_write o row) t)
      ≡ (if row.user_id == j then some row else find_user_credit j ocr t)
saved j row t none h = ground (arith, find_user_credit-insert j row t)
saved j row t (some old) h = ground (arith, find_user_credit-update j row t)

pub find_user_credit-save :
    (j : ℕ) (row : UserCreditRow) (t : Tables)
    → find_user_credit j ocr (apply (save_write (find_user_credit row.user_id ocr t) row) t)
      ≡ (if row.user_id == j then some row else find_user_credit j ocr t)
find_user_credit-save j row t = saved j row t _ refl

pub eq_self : (a : ℕ) → (a == a) ≡ true
eq_self a = ground arith

unmoved :
    (action : CreditAction) (j : ℕ) (x : CreditTransactionRow) (total : ℤ)
    → (x.user_id == j) ≡ false
    → total +ℤ moved action j x ≡ total
unmoved action j x total h = rw h (omega int_laws)

-- Storing a row and logging the transaction that leads to it keeps the ledger.
pub IsLedger-record :
    (t t' : Tables) (row : UserCreditRow) (transaction : CreditTransactionRow)
    → IsLedger t
    → ((j : ℕ)
        → find_user_credit j ocr t'
          ≡ (if row.user_id == j then some row else find_user_credit j ocr t))
    → t'.credit_transactions ≡ t.credit_transactions ++ transaction ∷ []
    → transaction.user_id ≡ row.user_id
    → Entry
        (some row)
        (total_of grant_action row.user_id t.credit_transactions
          +ℤ moved grant_action row.user_id transaction)
        (total_of use_action row.user_id t.credit_transactions
          +ℤ moved use_action row.user_id transaction)
    → IsLedger t'
IsLedger-record t t' row x h found logged same e = record {
  at = λ j. elim (Bool-cases (row.user_id == j)) [
    | inl self ↦
        (let q : row.user_id ≡ j = ground arith in
          subst
            (λ k.
              Entry (find_user_credit k ocr t') (total_of grant_action k t'.credit_transactions)
                (total_of use_action k t'.credit_transactions))
            q
            (rw
              (
                found row.user_id,
                logged,
                total_of-append grant_action,
                total_of-append use_action,
                eq_self row.user_id,
              )
              e))
    | inr other ↦
        rw
          (
            found j,
            logged,
            total_of-append grant_action,
            total_of-append use_action,
            other,
            unmoved grant_action j x _ (rw same other),
            unmoved use_action j x _ (rw same other),
          )
          (h.at j)
  ];
}

pub save_transactions :
    (o : Option UserCreditRow) (row : UserCreditRow) (t : Tables)
    → (apply (save_write o row) t).credit_transactions ≡ t.credit_transactions
unfolding apply
save_transactions none row t = refl
save_transactions (some old) row t = refl

-- The three writes of a grant or a use: the row, the transaction and the event.
unfoldable pub post :
    Option UserCreditRow → UserCreditRow → CreditTransactionRow → Event → Tables → Tables
post o row x e t =
    apply (insert_outbox_event e) (apply (insert_credit_transaction x) (apply (save_write o row) t))

pub post-IsLedger :
    (t : Tables) (o : Option UserCreditRow) (row : UserCreditRow) (x : CreditTransactionRow)
    (e : Event)
    → IsLedger t
    → o ≡ find_user_credit row.user_id ocr t
    → x.user_id ≡ row.user_id
    → Entry
        (some row)
        (total_of grant_action row.user_id t.credit_transactions
          +ℤ moved grant_action row.user_id x)
        (total_of use_action row.user_id t.credit_transactions +ℤ moved use_action row.user_id x)
    → IsLedger (post o row x e t)
unfolding post apply find_user_credit
post-IsLedger t o row x e h read same entry =
    IsLedger-record t (post o row x e t) row x h (λ j. saved j row t o read)
      (rw (save_transactions o row t)) same entry

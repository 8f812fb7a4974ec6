-- ===== src/Credits/Commands/Account.antt =====
-- A session that has just begun, and the account that it reads for a user.
use boat_backend.Prelude.{find-passes, sym, ℕ, ◌≡◌, refl, List, [], Option, none, some, arith}
use boat_backend.Prelude.Int.{ℤ, pos, int_laws}
use boat_backend.Core.Errors.{ok}
use boat_backend.Credits.Values.{FeatureKey, ocr}
use boat_backend.Credits.Domain.{UserCredit, restore}
use boat_backend.Credits.Laws.{IsBalanced, balance, credit_balance-Balances}
use boat_backend.Credits.Ledger.{IsSound, IsLedger, Entry, Entry-IsSound}
use boat_backend.Credits.Repository.{user_credit_to_domain, get_balance, get_user_credit_for_update}
use boat_backend.Database.{Tables, Write, UserCreditRow, find_user_credit, is_credit_of, apply_all}
use boat_backend.Database.Session.{Session, view}

-- `get_async_session`: nothing is written yet.
abbrev pub begin : Tables → List (List Write) → ℕ → ℕ → Session
begin t arrivals fresh now = record {
  committed = t;
  pending = [];
  arrivals = arrivals;
  fresh = fresh;
  now = now;
}

-- The credits that a row stands for; a user with no row has none.
abbrev pub account : Option UserCreditRow → ℕ → UserCredit
account none user_id = record {
  id = user_id;
  feature_key = ocr;
  balance = balance (pos 0) (pos 0) (pos 0);
  domain_events = [];
}
account (some row) user_id = record {
  id = row.user_id;
  feature_key = row.feature_key;
  balance = balance row.total_granted_count row.used_count row.remaining_count;
  domain_events = [];
}

only_ocr : (k : FeatureKey) → k ≡ ocr
only_ocr ocr = refl

pub id-account :
    (user_id : ℕ) (t : Tables) (o : Option UserCreditRow)
    → find_user_credit user_id ocr t ≡ o
    → (account o user_id).id ≡ user_id
unfolding find_user_credit
id-account user_id t none h = refl
id-account user_id t (some row) h =
    ground (arith, find-passes (is_credit_of user_id ocr) t.user_credits row h)

pub feature_key-account :
    (o : Option UserCreditRow) (user_id : ℕ) → (account o user_id).feature_key ≡ ocr
feature_key-account none user_id = refl
feature_key-account (some row) user_id = only_ocr row.feature_key

pub account-IsBalanced :
    (o : Option UserCreditRow) (user_id : ℕ) → IsSound o → IsBalanced (account o user_id).balance
account-IsBalanced none user_id h = omega int_laws
account-IsBalanced (some row) user_id h = h

pub user_credit_to_domain_lem :
    (o : Option UserCreditRow) (user_id : ℕ)
    → IsSound o
    → user_credit_to_domain o user_id ≡ ok (account o user_id)
unfolding user_credit_to_domain restore
user_credit_to_domain_lem none user_id h =
    rw (credit_balance-Balances _ _ _ (account-IsBalanced none user_id tt)) refl
user_credit_to_domain_lem (some row) user_id h = rw (credit_balance-Balances _ _ _ h) refl

pub IsLedger-IsSound : {t : Tables} (j : ℕ) → IsLedger t → IsSound (find_user_credit j ocr t)
IsLedger-IsSound {t} j h = Entry-IsSound _ _ _ (h.at j)

-- The counts of an account are those that its entry in the ledger gives.
pub account-Entry :
    (o : Option UserCreditRow) (user_id : ℕ) (g u : ℤ)
    → Entry o g u
    → ((account o user_id).balance.total_granted.value ≡ g)
      × ((account o user_id).balance.used.value ≡ u)
account-Entry none user_id g u e = (sym e.0, sym e.1)
account-Entry (some row) user_id g u e = (e.1, e.2)

module _ (t : Tables) (arrivals : List (List Write)) (fresh now user_id : ℕ)
    (h : IsSound (find_user_credit user_id ocr t)) where
  pub get_balance-begin :
      get_balance user_id (begin t arrivals fresh now)
      ≡ (ok (account (find_user_credit user_id ocr t) user_id).balance, begin t arrivals fresh now)
  unfolding get_balance view apply_all
  get_balance-begin = rw (user_credit_to_domain_lem _ user_id h) refl

  pub get_user_credit-begin :
      get_user_credit_for_update user_id (begin t arrivals fresh now)
      ≡ (ok (account (find_user_credit user_id ocr t) user_id), begin t arrivals fresh now)
  unfolding get_user_credit_for_update view apply_all
  get_user_credit-begin = rw (user_credit_to_domain_lem _ user_id h) refl

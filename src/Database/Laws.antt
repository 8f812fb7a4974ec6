-- ===== src/Database/Laws.antt =====
-- How the lookups of the tables answer after each write.
use boat_backend.Prelude.{
  ℕ, ◌≡◌, refl, Bool, true, false, List, [], ◌∷◌, ◌++◌, Option, none, some, arith, ◌==◌, find,
  if◌then◌else◌,
}
use boat_backend.Credits.Values.{ocr}
use boat_backend.Database.{
  Tables, Write, UserCreditRow, is_credit_of, find_user_credit, insert_user_credit,
  update_user_credit, replace_where, apply, apply_all,
}

-- The first that is there.
abbrev pub or_found {ℓ} : {A : Type ℓ} → Option A → Option A → Option A
or_found none b = b
or_found (some a) b = some a

module _ {ℓ} {A : Type ℓ} where
  pub find-append :
      (p : A → Bool) (xs ys : List A) → find p (xs ++ ys) ≡ or_found (find p xs) (find p ys)
  find-append p [] ys = refl
  find-append p (x ∷ xs) ys = ground (arith, find-append p xs ys)

  abbrev pub replaced : Option A → A → Option A
  replaced none a = none
  replaced (some _) a = some a

  -- Where the new element passes the tests that the old ones passed.
  pub find-replace_self :
      (p : A → Bool) (a : A) (xs : List A)
      → p a ≡ true
      → find p (replace_where p a xs) ≡ replaced (find p xs) a
  find-replace_self p a [] h = refl
  find-replace_self p a (x ∷ xs) h = ground (arith, find-replace_self p a xs h)

  -- A lookup that neither the new element nor the replaced ones pass is as before.
  pub find-replace_other :
      (p q : A → Bool) (a : A) (xs : List A)
      → p a ≡ false
      → ((x : A) → q x ≡ true → p x ≡ false)
      → find p (replace_where q a xs) ≡ find p xs
  find-replace_other p q a [] h k = refl
  find-replace_other p q a (x ∷ xs) h k = ground (arith, find-replace_other p q a xs h k, k x)

replace-credit :
    (j : ℕ) (row : UserCreditRow) (rows : List UserCreditRow)
    → find (is_credit_of j ocr) (replace_where (is_credit_of row.user_id row.feature_key) row rows)
      ≡ (if row.user_id == j
          then replaced (find (is_credit_of j ocr) rows) row
          else find (is_credit_of j ocr) rows)
replace-credit j row [] = ground arith
replace-credit j row (x ∷ rows) = ground (arith, replace-credit j row rows)

module _ (j : ℕ) (row : UserCreditRow) (t : Tables) where
  pub find_user_credit-insert :
      find_user_credit j ocr (apply (insert_user_credit row) t)
      ≡ or_found (find_user_credit j ocr t) (if row.user_id == j then some row else none)
  unfolding find_user_credit apply
  find_user_credit-insert =
      ground (arith, find-append (is_credit_of j ocr) t.user_credits (row ∷ []))

  pub find_user_credit-update : find_user_credit j ocr (apply (update_user_credit row) t) ≡ (
      if row.user_id == j
      then replaced (find_user_credit j ocr t) row
      else find_user_credit j ocr t)
  unfolding find_user_credit apply
  find_user_credit-update = replace-credit j row t.user_credits

pub apply_all-append :
    (ws vs : List Write) (t : Tables) → apply_all (ws ++ vs) t ≡ apply_all vs (apply_all ws t)
unfolding apply_all
apply_all-append [] vs t = refl
apply_all-append (w ∷ ws) vs t = apply_all-append ws vs (apply w t)

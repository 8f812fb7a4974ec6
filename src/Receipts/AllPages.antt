-- ===== src/Receipts/AllPages.antt =====
-- The loop over the pages of expiring receipts ends, with all of them.
use boat_backend.Prelude.{
  ℕ, zero, suc, ◌≤◌, ◌<◌, ◌≡◌, refl, sym, ap, ◌∙◌, inl, inr, Bool, true, false, List, [], ◌∷◌, ◌++◌,
  length, take, select, Option, none, some, arith, All-map, ltb, Bool-cases,
}
use boat_backend.Core.Errors.{ok}
use boat_backend.Receipts.Expiring.{
  ReceiptRow, ListReceiptsExpiringOnQuery, is_candidate, is_after, last_id,
  list_receipts_expiring_on, iter_due_receipts,
}
use boat_backend.Receipts.Pages.{
  IsOrdered, IsCursor, drop, take-take, more-take, take-short, take-All, last_id-above, after-take,
  select-IsOrdered, select-passes, select-take-drop, select-select, drop-shorter,
}

select-any : (xs : List ReceiptRow) → select (is_after none) xs ≡ xs
select-any [] = refl
select-any (x ∷ xs) = ap (λ ys. x ∷ ys) (select-any xs)

select-fewer : (p : ReceiptRow → Bool) (xs : List ReceiptRow) → length (select p xs) ≤ length xs
select-fewer p [] = omega arith
select-fewer p (x ∷ xs) = ground (arith, select-fewer p xs)

module _ (exists : ℕ → Bool) (q : ListReceiptsExpiringOnQuery) (n : ℕ) (limited : q.limit ≡ suc n)
    (table : List ReceiptRow) where
  abbrev candidates : List ReceiptRow
  candidates = select (is_candidate q) table

  abbrev remaining : Option ℕ → List ReceiptRow
  remaining cursor = select (is_after cursor) candidates

  abbrev due : List ReceiptRow → List ReceiptRow
  due rs = select (λ r. exists r.user_id) rs

  last_page :
      (fuel : ℕ) (cursor : Option ℕ)
      → ltb q.limit (length (remaining cursor)) ≡ false
      → iter_due_receipts (suc fuel) exists q table cursor ≡ ok (due (remaining cursor))
  unfolding iter_due_receipts list_receipts_expiring_on
  last_page fuel cursor done =
      rw
        (
          more-take q.limit (remaining cursor),
          done,
          take-take q.limit (remaining cursor),
          take-short q.limit (remaining cursor) (ground (arith, done)),
        )
        refl

  next_page :
      (fuel c : ℕ) (cursor : Option ℕ) (rest : List ReceiptRow)
      → ltb q.limit (length (remaining cursor)) ≡ true
      → last_id (take q.limit (remaining cursor)) ≡ some c
      → iter_due_receipts fuel exists q table (some c) ≡ ok rest
      → iter_due_receipts (suc fuel) exists q table cursor
        ≡ ok (due (take q.limit (remaining cursor)) ++ rest)
  unfolding iter_due_receipts list_receipts_expiring_on
  next_page fuel c cursor rest more found later =
      rw
        (
          more-take q.limit (remaining cursor),
          more,
          take-take q.limit (remaining cursor),
          found,
          later,
        )
        (ap (λ rs. ok (due rs ++ rest)) (take-take q.limit (remaining cursor)))

  -- The cursor at the end of a page selects what comes after the page.
  advanced :
      (c : ℕ) (cursor : Option ℕ)
      → last_id (take (suc n) (remaining cursor)) ≡ some c
      → select (is_after (some c)) (remaining cursor) ≡ drop (suc n) (remaining cursor)
      → remaining (some c) ≡ drop (suc n) (remaining cursor)
  advanced c none found rest =
      sym (select-select (is_after none) (is_after (some c)) candidates (λ x h. refl)) ∙ rest
  advanced c (some b) found rest =
      sym (
        select-select (is_after (some b)) (is_after (some c)) candidates
          (λ x h. ground (arith, h, beyond)))
      ∙ rest
    where
      beyond : b < c
      beyond = last_id-above b c (take (suc n) (remaining (some b))) found (
          take-All (λ s. b < s.id) (suc n) (remaining (some b))
            (All-map (λ s h. ground (arith, h)) (remaining (some b))
              (select-passes (is_after (some b)) candidates)))

  turned :
      (fuel : ℕ) (cursor : Option ℕ)
      → ltb q.limit (length (remaining cursor)) ≡ true
      → length (remaining cursor) < suc fuel
      → (c : ℕ) × IsCursor n (remaining cursor) c
      → ((c : ℕ)
          → length (remaining (some c)) < fuel
          → iter_due_receipts fuel exists q table (some c) ≡ ok (due (remaining (some c))))
      → iter_due_receipts (suc fuel) exists q table cursor ≡ ok (due (remaining cursor))
  turned fuel cursor more enough (c, (found, rest)) again =
      next_page fuel c cursor (due (remaining (some c))) more (rw limited found)
        (again c (rw on (ground (arith, shorter, enough))))
      ∙ ap ok
          (rw (limited, on) (select-take-drop (λ r. exists r.user_id) (suc n) (remaining cursor)))
    where
      on : remaining (some c) ≡ drop (suc n) (remaining cursor)
      on = advanced c cursor found rest

      shorter : length (drop (suc n) (remaining cursor)) < length (remaining cursor)
      shorter = drop-shorter n (remaining cursor) (ground (arith, more, limited))

  all_from :
      (fuel : ℕ) (cursor : Option ℕ)
      → IsOrdered candidates
      → length (remaining cursor) < fuel
      → iter_due_receipts fuel exists q table cursor ≡ ok (due (remaining cursor))
  all_from zero cursor ordered enough = absurd (ground (arith, enough))
  all_from (suc fuel) cursor ordered enough =
      elim (Bool-cases (ltb q.limit (length (remaining cursor)))) [
        | inr done ↦ last_page fuel cursor done
        | inl more ↦
            turned fuel cursor more enough
              (after-take n (remaining cursor)
                (select-IsOrdered (is_after cursor) candidates ordered)
                (ground (arith, more, limited)))
              (λ c k. all_from fuel (some c) ordered k)
      ]

  -- The loop returns, on any fuel above the number of rows, with the candidates of the users that exist,
  -- in order and each once, whatever the size of a page, if it is not 0. The table is listed in the order
  -- of its key.
  pub iter_due_receipts_returns_all :
      (fuel : ℕ)
      → IsOrdered table
      → length table < fuel
      → iter_due_receipts fuel exists q table none
        ≡ ok (select (λ r. exists r.user_id) (select (is_candidate q) table))
  iter_due_receipts_returns_all fuel ordered enough = rw (sym everything) (
      all_from fuel none (select-IsOrdered (is_candidate q) table ordered) (
        rw everything
          (let fewer = select-fewer (is_candidate q) table in ground (arith, fewer, enough))))
    where
      everything : remaining none ≡ candidates
      everything = select-any candidates

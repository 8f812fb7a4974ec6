-- ===== src/Receipts/Pages.antt =====
-- The pages of app/modules/receipts/infrastructure/persistence/notification_candidates.py, put together.
use boat_backend.Prelude.{
  ℕ, zero, suc, ◌≤◌, ◌<◌, ◌≡◌, refl, ap, inl, inr, Bool, true, false, List, [], ◌∷◌, ◌++◌, length,
  take, select, some, arith, All, All-map, ltb, Bool-cases,
}
use boat_backend.Receipts.Expiring.{ReceiptRow, is_after, last_id}

-- Listed in the order of the identifiers.
abbrev pub IsOrdered : List ReceiptRow → Type 0
IsOrdered [] = Unit
IsOrdered (r ∷ rs) = All (λ s. r.id < s.id) rs × IsOrdered rs

-- The rest after the first n.
abbrev pub drop : ℕ → List ReceiptRow → List ReceiptRow
drop zero xs = xs
drop (suc n) [] = []
drop (suc n) (x ∷ xs) = drop n xs

select-All :
    (P : ReceiptRow → Type 0) (p : ReceiptRow → Bool) (xs : List ReceiptRow)
    → All P xs
    → All P (select p xs)
select-All P p [] h = tt
select-All P p (x ∷ xs) h = elim (Bool-cases (p x)) [
  | inl e ↦ rw e (h.0, select-All P p xs h.1)
  | inr e ↦ rw e (select-All P p xs h.1)
]

pub select-IsOrdered :
    (p : ReceiptRow → Bool) (xs : List ReceiptRow) → IsOrdered xs → IsOrdered (select p xs)
select-IsOrdered p [] h = tt
select-IsOrdered p (x ∷ xs) h = elim (Bool-cases (p x)) [
  | inl e ↦ rw e (select-All (λ s. x.id < s.id) p xs h.0, select-IsOrdered p xs h.1)
  | inr e ↦ rw e (select-IsOrdered p xs h.1)
]

select-all :
    (p : ReceiptRow → Bool) (xs : List ReceiptRow) → All (λ x. p x ≡ true) xs → select p xs ≡ xs
select-all p [] h = refl
select-all p (x ∷ xs) h = rw (h.0, select-all p xs h.1) refl

pub take-All :
    (P : ReceiptRow → Type 0) (n : ℕ) (xs : List ReceiptRow) → All P xs → All P (take n xs)
take-All P zero xs h = tt
take-All P (suc n) [] h = tt
take-All P (suc n) (x ∷ xs) h = (h.0, take-All P n xs h.1)

pub last_id-above :
    (m c : ℕ) (xs : List ReceiptRow) → last_id xs ≡ some c → All (λ s. m < s.id) xs → m < c
last_id-above m c [] e h = absurd (ground (arith, e))
last_id-above m c (x ∷ []) e h = ground (arith, e, h.0)
last_id-above m c (x ∷ y ∷ ys) e h = last_id-above m c (y ∷ ys) e h.1

-- The last of the first n + 1 rows, as a cursor, selects the rest.
abbrev pub IsCursor : ℕ → List ReceiptRow → ℕ → Type 0
IsCursor n xs c =
    (last_id (take (suc n) xs) ≡ some c) × (select (is_after (some c)) xs ≡ drop (suc n) xs)

select-above :
    (m : ℕ) (xs : List ReceiptRow) → All (λ s. m < s.id) xs → select (is_after (some m)) xs ≡ xs
select-above m xs h = select-all (is_after (some m)) xs (All-map (λ s l. ground (arith, l)) xs h)

pub after-take :
    (n : ℕ) (xs : List ReceiptRow) → IsOrdered xs → n < length xs → (c : ℕ) × IsCursor n xs c
after-take n [] h l = absurd (ground (arith, l))
after-take zero (x ∷ xs) h l = (x.id, (refl, ground (arith, select-above x.id xs h.0)))
after-take (suc n) (x ∷ []) h l = absurd (ground (arith, l))
after-take (suc n) (x ∷ y ∷ ys) h l = next (after-take n (y ∷ ys) h.1 (ground (arith, l)))
  where
    next : (c : ℕ) × IsCursor n (y ∷ ys) c → (c : ℕ) × IsCursor (suc n) (x ∷ y ∷ ys) c
    next (c, (found, rest)) =
        (let above : x.id < c =
            last_id-above x.id c (take (suc n) (y ∷ ys)) found
              (take-All (λ s. x.id < s.id) (suc n) (y ∷ ys) h.0) in
          let passed : is_after (some c) x ≡ false = ground (arith, above) in
          (c, (found, rw passed rest)))

pub take-take : (n : ℕ) (xs : List ReceiptRow) → take n (take (suc n) xs) ≡ take n xs
take-take zero xs = refl
take-take (suc n) [] = refl
take-take (suc n) (x ∷ xs) = ap (λ ys. x ∷ ys) (take-take n xs)

pub more-take :
    (n : ℕ) (xs : List ReceiptRow) → ltb n (length (take (suc n) xs)) ≡ ltb n (length xs)
more-take n [] = refl
more-take zero (x ∷ xs) = ground arith
more-take (suc n) (x ∷ xs) = ground (arith, more-take n xs)

pub take-short : (n : ℕ) (xs : List ReceiptRow) → length xs ≤ n → take n xs ≡ xs
take-short zero [] l = refl
take-short zero (x ∷ xs) l = absurd (ground (arith, l))
take-short (suc n) [] l = refl
take-short (suc n) (x ∷ xs) l = ap (λ ys. x ∷ ys) (take-short n xs (ground (arith, l)))

module _ (p : ReceiptRow → Bool) where
  pub select-passes : (xs : List ReceiptRow) → All (λ r. p r ≡ true) (select p xs)
  select-passes [] = tt
  select-passes (x ∷ xs) = elim (Bool-cases (p x)) [
    | inl e ↦ rw e (e, select-passes xs)
    | inr e ↦ rw e (select-passes xs)
  ]

  pub select-take-drop :
      (n : ℕ) (xs : List ReceiptRow) → select p (take n xs) ++ select p (drop n xs) ≡ select p xs
  select-take-drop zero xs = refl
  select-take-drop (suc n) [] = refl
  select-take-drop (suc n) (x ∷ xs) = elim (Bool-cases (p x)) [
    | inl e ↦ rw e (ap (λ ys. x ∷ ys) (select-take-drop n xs))
    | inr e ↦ rw e (select-take-drop n xs)
  ]

  -- A second test that implies the first one makes it needless.
  pub select-select :
      (r : ReceiptRow → Bool) (xs : List ReceiptRow)
      → ((x : ReceiptRow) → r x ≡ true → p x ≡ true)
      → select r (select p xs) ≡ select r xs
  select-select r [] h = refl
  select-select r (x ∷ xs) h = elim (Bool-cases (p x)) [
    | inl e ↦ rw e (elim (Bool-cases (r x)) [
      | inl f ↦ rw f (ap (λ ys. x ∷ ys) (select-select r xs h))
      | inr f ↦ rw f (select-select r xs h)
    ])
    | inr e ↦ (let f : r x ≡ false = ground (arith, e, h x) in rw (e, f) (select-select r xs h))
  ]

pub drop-shorter :
    (n : ℕ) (xs : List ReceiptRow) → n < length xs → length (drop (suc n) xs) < length xs
drop-shorter n [] l = absurd (ground (arith, l))
drop-shorter zero (x ∷ xs) l = ground arith
drop-shorter (suc n) (x ∷ xs) l =
    (let k = drop-shorter n xs (ground (arith, l)) in ground (arith, k))

pub drop-IsOrdered : (n : ℕ) (xs : List ReceiptRow) → IsOrdered xs → IsOrdered (drop n xs)
drop-IsOrdered zero xs h = h
drop-IsOrdered (suc n) [] h = tt
drop-IsOrdered (suc n) (x ∷ xs) h = drop-IsOrdered n xs h.1

-- ===== src/Core/Outbox/Due.antt =====
-- The rows of app/core/db/outbox that are due for a worker that meets no locks, and those that stay when
-- one of them is taken.
use mathlib.Core.List.{Perm}
use mathlib.Core.List.Perm
use boat_backend.Prelude.{
  IsIn, arith, ℕ, suc, ◌≡◌, inl, inr, ap, sym, subst, refl, Bool, true, false, not, List, [], ◌∷◌,
  none, ◌==◌, All, All-map, count, select, Bool-cases,
}
use boat_backend.Core.Outbox.{OutboxEvent, Relay, is_due, first_due}
use boat_backend.Core.Outbox.Claims.{Differs, IsKeyed, IsIn-All, Differs-sym}

abbrev pub due : {P : Type 0} → Relay → ℕ → OutboxEvent P → Bool
due r now = is_due r now (λ _. false)

abbrev pub not_due : {P : Type 0} → Relay → ℕ → OutboxEvent P → Bool
not_due r now row = not (due r now row)

abbrev pub other_than : {P : Type 0} → OutboxEvent P → OutboxEvent P → Bool
other_than row x = not (x.id == row.id)

module _ {P : Type 0} (r : Relay) (now : ℕ) where
  pub none-due :
      (rows : List (OutboxEvent P))
      → first_due r now (λ _. false) rows ≡ none
      → (count (due r now) rows ≡ 0) × (select (not_due r now) rows ≡ rows)
  unfolding first_due
  none-due [] h = (refl, refl)
  none-due (x ∷ xs) h = elim (Bool-cases (due r now x)) [
    | inl t ↦ absurd (ground arith)
    | inr f ↦
        (let rest = none-due xs (ground arith) in (ground (arith, rest), ground (arith, rest)))
  ]

  others_of :
      (row : OutboxEvent P) (rows : List (OutboxEvent P))
      → All (λ x. Differs x row) rows
      → select (other_than row) rows ≡ rows
  others_of row [] a = refl
  others_of row (x ∷ xs) a = ground (arith, a.0, others_of row xs a.1)

  pub others_due :
      (row : OutboxEvent P) (rows : List (OutboxEvent P))
      → IsIn row rows
      → IsKeyed rows
      → due r now row ≡ true
      → (count (due r now) rows ≡ suc (count (due r now) (select (other_than row) rows)))
        × (select (not_due r now) (select (other_than row) rows) ≡ select (not_due r now) rows)
  others_due row [] m k d = absurd m
  others_due row (x ∷ xs) (inl p) k d = here
    where
      rest : select (other_than row) xs ≡ xs
      rest = others_of row xs (All-map (Differs-sym row) xs (subst (λ z. All (Differs z) xs) p k.0))

      dx : due r now x ≡ true
      dx = subst (λ z. due r now z ≡ true) (sym p) d

      same : x.id ≡ row.id
      same = ap (λ z. z.id) p

      here :
          (count (due r now) (x ∷ xs) ≡ suc (count (due r now) (select (other_than row) (x ∷ xs))))
          × (select (not_due r now) (select (other_than row) (x ∷ xs))
              ≡ select (not_due r now) (x ∷ xs))
      here = (ground (arith, rest, dx, same), ground (arith, rest, dx, same))
  others_due row (x ∷ xs) (inr m) k d =
      let rest = others_due row xs m k.1 d in
      let differs : (x.id == row.id) ≡ false = (IsIn-All (Differs x) row xs m k.0).0 in
      (ground (arith, rest, differs), ground (arith, rest, differs))

  pub few_due :
      (rows : List (OutboxEvent P))
      → count (due r now) rows ≡ 0
      → select (not_due r now) rows ≡ rows
  few_due [] h = refl
  few_due (x ∷ xs) h = elim (Bool-cases (due r now x)) [
    | inl t ↦ absurd (ground arith)
    | inr f ↦ (let rest = few_due xs (ground arith) in ground (arith, rest))
  ]

  -- Where nothing is due, nothing is taken.
  pub none_selected :
      (rows : List (OutboxEvent P)) → count (due r now) rows ≡ 0 → select (due r now) rows ≡ []
  none_selected [] h = refl
  none_selected (x ∷ xs) h = elim (Bool-cases (due r now x)) [
    | inl t ↦ absurd (ground arith)
    | inr f ↦ (let rest = none_selected xs (ground arith) in ground (arith, rest))
  ]

  pub others_selected :
      (row : OutboxEvent P) (rows : List (OutboxEvent P))
      → IsIn row rows
      → IsKeyed rows
      → due r now row ≡ true
      → Perm (row ∷ select (due r now) (select (other_than row) rows)) (select (due r now) rows)
  others_selected row [] m k d = absurd m
  others_selected row (x ∷ xs) (inl p) k d =
      (let rest =
          others_of row xs (All-map (Differs-sym row) xs (subst (λ z. All (Differs z) xs) p k.0)) in
        let dx : due r now x ≡ true = subst (λ z. due r now z ≡ true) (sym p) d in
        let same : x.id ≡ row.id = ap (λ z. z.id) p in
        let selected : select (due r now) (x ∷ xs) ≡ row ∷ select (due r now) xs =
          rw dx (ap (λ z. z ∷ select (due r now) xs) p) in
        let left : select (other_than row) (x ∷ xs) ≡ xs = ground (arith, rest, same) in
        rw (selected, left) Perm.rfl)
  others_selected row (x ∷ xs) (inr m) k d =
      (let rest = others_selected row xs m k.1 d in
        let differs : (x.id == row.id) ≡ false = (IsIn-All (Differs x) row xs m k.0).0 in
        elim (Bool-cases (due r now x)) [
          | inl t ↦ rw (differs, t) (Perm.trans (Perm.swap x row _) (Perm.cons x rest))
          | inr f ↦ rw (differs, f) rest
        ])

-- ===== src/Promotions/Eligibility.antt =====
-- Who may redeem: `ensure_redeemable` against the dates and limits, and the query for the current
-- promotion against both.
use boat_backend.Prelude.{
  ℕ, ◌≡◌, ◌≤◌, ◌<◌, ◌↔◌, ◌⊎◌, inl, inr, true, false, List, [], ◌∷◌, Option, none, some, arith, All,
  All-map, Bool-cases,
}
use boat_backend.Core.Errors.{ok}
use boat_backend.Promotions.Domain.{Promotion, PromotionContext, ensure_redeemable}
use boat_backend.Promotions.Repository.{is_current, precedes, first_of_two, first_current}

-- An instant before the end, where there is an end.
abbrev pub Before : ℕ → Option ℕ → Type 0
Before at none = Unit
Before at (some e) = at < e

-- A promotion that runs at an instant and has redemptions left.
pub record IsOpen (p : Promotion) (at : ℕ) : Type 0 where
  pub active : p.active ≡ true
  pub started : p.starts_at ≤ at
  pub running : Before at p.expires_at
  pub left : Before p.times_redeemed p.max_redemptions

-- `ensure_redeemable` passes exactly the promotions that are open, and raises for all others.
pub ensure_redeemable_iff :
    (p : Promotion) (at : ℕ) → (ensure_redeemable p at ≡ ok tt) ↔ IsOpen p at
unfolding ensure_redeemable
ensure_redeemable_iff p at = (λ h. ground arith, λ h. ground arith)

pub is_current-IsOpen :
    (at : ℕ) (context : Option PromotionContext) (p : Promotion)
    → is_current at context p ≡ true
    → IsOpen p at
is_current-IsOpen at context p h = ground arith

-- `p` stands before `q` in the order of the query, or they are the same in it.
abbrev pub Leads : Promotion → Promotion → Type 0
Leads p q = (q.starts_at < p.starts_at) ⊎ ((q.starts_at ≡ p.starts_at) × (q.id ≤ p.id))

abbrev pub Found : ℕ → Option PromotionContext → List Promotion → Option Promotion → Type 0
Found at context ps none = All (λ q. is_current at context q ≡ false) ps
Found at context ps (some p) =
    (is_current at context p ≡ true) × All (λ q. (is_current at context q ≡ false) ⊎ Leads p q) ps

first_of_two-Leads :
    (p q : Promotion) → Leads (first_of_two p (some q)) p × Leads (first_of_two p (some q)) q
first_of_two-Leads p q = ground arith

first_of_two_current :
    (at : ℕ) (context : Option PromotionContext) (p q : Promotion)
    → is_current at context p ≡ true
    → is_current at context q ≡ true
    → is_current at context (first_of_two p (some q)) ≡ true
first_of_two_current at context p q hp hq = elim (Bool-cases (precedes q p)) [
  | inl before ↦ rw before hq
  | inr after ↦ rw after hp
]

Leads-trans : (p q r : Promotion) → Leads p q → Leads q r → Leads p r
Leads-trans p q r h k = omega arith

-- `p` stands in front of the promotions after it.
module _ (at : ℕ) (context : Option PromotionContext) (p : Promotion) (ps : List Promotion)
    (open_now : is_current at context p ≡ true) where
  Found-cons :
      (rest : Option Promotion)
      → Found at context ps rest
      → Found at context (p ∷ ps) (some (first_of_two p rest))
  Found-cons none found = (open_now, (inr (omega arith), All-map (λ q closed. inl closed) ps found))
  Found-cons (some r) found = (
    first_of_two_current at context p r open_now found.0,
    (
      inr (first_of_two-Leads p r).0,
      All-map
          (λ q h. elim h [
            | inl closed ↦ inl closed
            | inr leads ↦
                inr (Leads-trans (first_of_two p (some r)) r q (first_of_two-Leads p r).1 leads)
          ])
          ps found.1,
    ),
  )

Found-skip :
    (at : ℕ) (context : Option PromotionContext) (p : Promotion) (ps : List Promotion)
    (rest : Option Promotion)
    → is_current at context p ≡ false
    → Found at context ps rest
    → Found at context (p ∷ ps) rest
Found-skip at context p ps none closed found = (closed, found)
Found-skip at context p ps (some q) closed found = (found.0, (inl closed, found.1))

-- The query for the current promotion answers none only if no promotion is open in the context, and
-- else the one that starts last, the greater identifier deciding between equal starts.
pub first_current_lem :
    (at : ℕ) (context : Option PromotionContext) (ps : List Promotion)
    → Found at context ps (first_current at context ps)
unfolding first_current
first_current_lem at context [] = tt
first_current_lem at context (p ∷ ps) = elim (Bool-cases (is_current at context p)) [
  | inl open_now ↦
      rw open_now (Found-cons at context p ps open_now _ (first_current_lem at context ps))
  | inr closed ↦ rw closed (Found-skip at context p ps _ closed (first_current_lem at context ps))
]

-- What the query finds passes `ensure_redeemable` at the same instant.
pub first_current-redeemable :
    (at : ℕ) (context : Option PromotionContext) (ps : List Promotion) (p : Promotion)
    → first_current at context ps ≡ some p
    → ensure_redeemable p at ≡ ok tt
first_current-redeemable at context ps p h =
    (ensure_redeemable_iff p at).1
      (is_current-IsOpen at context p (rw h at (first_current_lem at context ps)).0)

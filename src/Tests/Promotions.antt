-- ===== src/Tests/Promotions.antt =====
-- The theorems on app/modules/promotions at two recharge promotions, one of which has ended.
use Prim.Native.String.{count}
use boat_backend.Prelude.{
  ℕ, ◌<◌, ◌≡◌, ◌↔◌, ◌≢◌, inl, inr, ap, sym, text_eq, Bool-cases, refl, true, false, String, List,
  [], ◌∷◌, Option, none, some, arith, ◌==◌, if◌then◌else◌,
}
use boat_backend.Prelude.Int.{pos}
use boat_backend.Core.Errors.{ok}
use boat_backend.Credits.Values.{ocr}
use boat_backend.Promotions.Domain.{Promotion, recharge, ensure_redeemable}
use boat_backend.Promotions.Repository.{first_current}
use boat_backend.Promotions.Eligibility.{IsOpen, ensure_redeemable_iff, first_current-redeemable}
use boat_backend.Promotions.Keys.{promotion_key, code_key}
use boat_backend.Promotions.KeyLaws.{IsUuidText, promotion_key_inj}

abbrev july : Promotion
july = record {
  id = 7;
  name = "july";
  active = true;
  starts_at = 10;
  expires_at = some 20;
  max_redemptions = some 100;
  times_redeemed = 40;
  max_redemptions_per_user = 1;
  benefit_feature_key = ocr;
  context = some recharge;
  benefit_amount = pos 5;
}

abbrev june : Promotion
june = record july { id = 6; name = "june"; starts_at = 0; expires_at = some 10 }

abbrev on_offer : List Promotion
on_offer = june ∷ july ∷ []

ensure_redeemable_iff_example : (ensure_redeemable july 12 ≡ ok tt) ↔ IsOpen july 12
ensure_redeemable_iff_example = ensure_redeemable_iff july 12

july_found : first_current 12 (some recharge) on_offer ≡ some july
unfolding first_current
july_found = refl

first_current-redeemable_example : ensure_redeemable july 12 ≡ ok tt
first_current-redeemable_example =
    first_current-redeemable 12 (some recharge) on_offer july july_found

-- Two identifiers and their texts.
abbrev digit : ℕ → String
digit a = if a == 0 then "0" else "1"

digit-count : (a : ℕ) → count (digit a) ≡ 1
digit-count a = elim (Bool-cases (a == 0)) [ inl t ↦ rw t refl | inr t ↦ rw t refl ]

zero_is_not_one : ◌≢◌ {A = String} "0" "1"
zero_is_not_one e = (let q : true ≡ false = ap (λ s. text_eq "0" s) e in ground arith)

digit_inj : (a b : ℕ) → a < 2 → b < 2 → digit a ≡ digit b → a ≡ b
digit_inj a b h k e = elim (Bool-cases (a == 0)) [
  | inl za ↦ elim (Bool-cases (b == 0)) [
    | inl zb ↦ ground arith
    | inr zb ↦ absurd (zero_is_not_one (rw (za, zb) at e))
  ]
  | inr za ↦ elim (Bool-cases (b == 0)) [
    | inl zb ↦ absurd (zero_is_not_one (sym (rw (za, zb) at e)))
    | inr zb ↦ ground arith
  ]
]

digit-IsUuidText : IsUuidText digit
digit-IsUuidText = record {
  bound = 2;
  width = 1;
  fixed = λ a h. digit-count a;
  injective = digit_inj;
}

same_key : promotion_key digit 1 0 (some "k") ≡ promotion_key digit 1 0 (some "k")
same_key = refl

promotion_key_inj_example :
    (◌≡◌ {A = ℕ} 1 1) × (◌≡◌ {A = ℕ} 0 0) × (◌≡◌ {A = Option String} (some "k") (some "k"))
unfolding digit-IsUuidText
promotion_key_inj_example =
    promotion_key_inj digit digit-IsUuidText 1 1 0 0 (some "k") (some "k") (omega arith)
      (omega arith) (omega arith) (omega arith) same_key

same_code_key : code_key digit 0 1 none ≡ code_key digit 0 1 none
same_code_key = refl

-- ===== src/Notifications/Rendering.antt =====
-- The text of a warranty notification: `render_notification_text`,
-- app/modules/notifications/domain/due_notification.py, with the `str` methods it calls.
use Prim.Native.Char.{code}
use Prim.Native.String.{[], ◌∷◌, ◌++◌, count}
use native.Mathlib.Nat.{mul-div-le, le-div_iff_mul-le}
use text.Mathlib.TextLemmas.{length-nil, length-cons, length-append}
use boat_backend.Prelude.{
  ap, ℕ, zero, suc, ◌+◌, ◌-◌, ◌*◌, ◌/◌, ◌≤◌, ◌≡◌, refl, String, Bool, true, false, ◌&&◌, arith, inl,
  inr, ◌==◌, Bool-cases, if◌then◌else◌,
}

-- `_ITEM_NAME_MARKER`
abbrev pub item_name_marker : String
item_name_marker = "[기기명]"

unfoldable pub starts_with : String → String → Bool
starts_with [] s = true
starts_with (c ∷ p) [] = false
starts_with (c ∷ p) (d ∷ s) = code c == code d && starts_with p s

-- After an occurrence of `old` its other characters are skipped.
abbrev skipped : String → Bool → ℕ
skipped old found = if found then count old - 1 else 0

-- `str.count` and `str.replace` from the left, past the characters to skip
unfoldable pub occurrences : String → ℕ → String → ℕ
occurrences old k [] = 0
occurrences old (suc k) (c ∷ s) = occurrences old k s
occurrences old zero (c ∷ s) =
    let found = starts_with old (c ∷ s) in
    let rest = occurrences old (skipped old found) s in if found then suc rest else rest

unfoldable pub replace : String → String → ℕ → String → String
replace old new k [] = []
replace old new (suc k) (c ∷ s) = replace old new k s
replace old new zero (c ∷ s) =
    let found = starts_with old (c ∷ s) in
    let rest = replace old new (skipped old found) s in if found then new ++ rest else c ∷ rest

-- `text[:n]`
unfoldable pub first : ℕ → String → String
first zero s = []
first (suc n) [] = []
first (suc n) (c ∷ s) = c ∷ first n s

-- The subtraction stops at 0, as `max(..., 0)` does after the division.
unfoldable pub render_notification_text : String → String → ℕ → String
render_notification_text template item_name max_length =
    let markers = occurrences item_name_marker 0 template in
    let fixed = count (replace item_name_marker [] 0 template) in
    if markers == 0
    then template
    else replace item_name_marker (first ((max_length - fixed) / markers) item_name) 0 template

count-first : (n : ℕ) (s : String) → count (first n s) ≤ n
unfolding first
count-first zero s = omega (arith, length-nil)
count-first (suc n) [] = omega (arith, length-nil)
count-first (suc n) (c ∷ s) = omega (arith, length-cons c (first n s), count-first n s)

mul_le : (n a b : ℕ) → a ≤ b → n * a ≤ n * b
mul_le zero a b h = omega arith
mul_le (suc n) a b h = omega (arith, mul_le n a b h, h)

count-replace :
    (old new : String) (k : ℕ) (s : String)
    → count (replace old new k s) ≡ count (replace old [] k s) + occurrences old k s * count new
unfolding replace occurrences
count-replace old new k [] = omega (arith, length-nil)
count-replace old new (suc k) (c ∷ s) = count-replace old new k s
count-replace old new zero (c ∷ s) = elim (Bool-cases (starts_with old (c ∷ s))) [
  | inl met ↦ rw met (
      (omega (
        arith,
        length-append new (replace old new (skipped old true) s),
        length-append [] (replace old [] (skipped old true) s),
        length-nil,
        count-replace old new (skipped old true) s,
      )))
  | inr unmet ↦ rw unmet (
      omega (
        arith,
        length-cons c (replace old new (skipped old false) s),
        length-cons c (replace old [] (skipped old false) s),
        count-replace old new (skipped old false) s,
      ))
]

count-replace_nothing : (old : String) (k : ℕ) (s : String) → count (replace old [] k s) ≤ count s
unfolding replace
count-replace_nothing old k [] = omega (arith, length-nil)
count-replace_nothing old (suc k) (c ∷ s) =
    ground (arith, length-cons c s, count-replace_nothing old k s)
count-replace_nothing old zero (c ∷ s) = elim (Bool-cases (starts_with old (c ∷ s))) [
  | inl met ↦ rw met (
      omega (
        arith,
        length-cons c s,
        length-nil,
        length-append [] (replace old [] (skipped old true) s),
        count-replace_nothing old (skipped old true) s,
      ))
  | inr unmet ↦ rw unmet (
      omega (
        arith,
        length-cons c s,
        length-cons c (replace old [] (skipped old false) s),
        count-replace_nothing old (skipped old false) s,
      ))
]

-- A template of at most max_length characters is rendered within max_length characters, whatever the
-- name and however many markers.
pub render_notification_text-bounded :
    (template item_name : String) (max_length : ℕ)
    → count template ≤ max_length
    → count (render_notification_text template item_name max_length) ≤ max_length
unfolding render_notification_text
render_notification_text-bounded template item_name max_length h =
    let markers = occurrences item_name_marker 0 template in
    let fixed = count (replace item_name_marker [] 0 template) in
    let share = (max_length - fixed) / markers in
    elim (Bool-cases (markers == 0)) [
      | inl none ↦ rw none h
      | inr some ↦ rw some (
          omega (
            arith,
            h,
            count-replace item_name_marker (first share item_name) 0 template,
            count-replace_nothing item_name_marker 0 template,
            mul_le markers (count (first share item_name)) share (count-first share item_name),
            mul-div-le (max_length - fixed) markers,
          ))
    ]

first_all : (n : ℕ) (s : String) → count s ≤ n → first n s ≡ s
unfolding first
first_all zero [] h = refl
first_all zero (c ∷ s) h = absurd (omega (arith, length-cons c s, h))
first_all (suc n) [] h = refl
first_all (suc n) (c ∷ s) h = ap (λ t. c ∷ t) (first_all n s (omega (arith, length-cons c s, h)))

-- Where the template has the marker and fits with the whole name for each marker, the name is not cut.
pub render_notification_text-whole :
    (template item_name : String) (max_length : ℕ)
    → occurrences item_name_marker 0 template == 0 ≡ false
    → count (replace item_name_marker item_name 0 template) ≤ max_length
    → render_notification_text template item_name max_length
      ≡ replace item_name_marker item_name 0 template
unfolding render_notification_text
render_notification_text-whole template item_name max_length some h =
    let markers = occurrences item_name_marker 0 template in
    let fixed = count (replace item_name_marker [] 0 template) in
    let fits : count item_name ≤ (max_length - fixed) / markers =
      (le-div_iff_mul-le (ground (arith, some))).1
        (omega (arith, h, count-replace item_name_marker item_name 0 template)) in
    rw some (rw (first_all ((max_length - fixed) / markers) item_name fits) refl)

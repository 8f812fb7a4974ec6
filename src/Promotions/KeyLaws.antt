-- ===== src/Promotions/KeyLaws.antt =====
-- Two requests share an idempotency key only if they are the same request.
use Prim.Native.String.{◌++◌, count}
use text.Mathlib.TextLemmas.{append_inj, append_cancel_left, append-nil, length-append}
use boat_backend.Prelude.{ℕ, ◌<◌, String, ◌≡◌, refl, sym, ap, ◌∙◌, Option, none, some, arith}
use boat_backend.Promotions.Keys.{keyed, promotion_key, code_key}

abbrev tail : Option String → String
tail none = ""
tail (some key) = ":" ++ key

tail_inj : (k k' : Option String) → tail k ≡ tail k' → k ≡ k'
tail_inj none none h = refl
tail_inj none (some k) h = absurd (omega (arith, ap count h, length-append ":" k))
tail_inj (some k) none h = absurd (omega (arith, ap count h, length-append ":" k))
tail_inj (some k) (some k') h = ap some (append_cancel_left ":" k k' h)

-- What is relied on of `str(uuid)`: below the bound (2 ^ 128 for a UUID) it is a text of one length
-- that tells identifiers apart.
pub record IsUuidText (str : ℕ → String) : Type 0 where
  pub bound : ℕ
  pub width : ℕ
  pub fixed : (a : ℕ) → a < bound → count (str a) ≡ width
  pub injective : (a b : ℕ) → a < bound → b < bound → str a ≡ str b → a ≡ b

module _ (str : ℕ → String) (text : IsUuidText str) where
  keyed_lem :
      (prefix : String) (a b : ℕ) (k : Option String)
      → keyed str prefix a b k ≡ prefix ++ (str a ++ (":" ++ (str b ++ tail k)))
  keyed_lem prefix a b none = rw append-nil refl
  keyed_lem prefix a b (some k) = refl

  keyed_inj :
      (prefix : String) (a a' b b' : ℕ) (k k' : Option String)
      → a < text.bound
      → a' < text.bound
      → b < text.bound
      → b' < text.bound
      → keyed str prefix a b k ≡ keyed str prefix a' b' k'
      → (a ≡ a') × (b ≡ b') × (k ≡ k')
  keyed_inj prefix a a' b b' k k' ha ha' hb hb' h =
      let whole =
        append_cancel_left prefix _ _
          (sym (keyed_lem prefix a b k) ∙ h ∙ keyed_lem prefix a' b' k') in
      let (first, rest) = append_inj whole (text.fixed a ha ∙ sym (text.fixed a' ha')) in
      let (second, last) =
        append_inj (append_cancel_left ":" _ _ rest) (text.fixed b hb ∙ sym (text.fixed b' hb')) in
      (text.injective a a' ha ha' first, text.injective b b' hb hb' second, tail_inj k k' last)

  module _ (a a' u u' : ℕ) (k k' : Option String) (ha : a < text.bound) (ha' : a' < text.bound)
      (hu : u < text.bound) (hu' : u' < text.bound) where
    -- Where the text of an identifier has one length and tells identifiers apart, redemptions by
    -- promotion share an idempotency key only for the same promotion, user and client key, the absent
    -- client key included, whatever text the client sends.
    pub promotion_key_inj :
        promotion_key str a u k ≡ promotion_key str a' u' k' → (a ≡ a') × (u ≡ u') × (k ≡ k')
    unfolding promotion_key
    promotion_key_inj h = keyed_inj "promotionRedemption:" a a' u u' k k' ha ha' hu hu' h

    -- Where the text of an identifier has one length and tells identifiers apart, redemptions by code
    -- share an idempotency key only for the same code, user and client key, the absent client key
    -- included.
    pub code_key_inj : code_key str a u k ≡ code_key str a' u' k' → (a ≡ a') × (u ≡ u') × (k ≡ k')
    unfolding code_key
    code_key_inj h = keyed_inj "promotionCodeRedemption:" a a' u u' k k' ha ha' hu hu' h

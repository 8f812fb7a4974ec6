-- ===== src/Auth/Domain.antt =====
-- app/modules/auth/domain: value objects by the text they keep, and the entities. A row of a table and
-- the entity that the mapper makes of it have the same fields. Instants are counted from an epoch.
use Prim.Native.String.{count}
use boat_backend.Prelude.{ℕ, String, Bool, not, ◌||◌, Option, [], ◌∷◌, ltb, text_eq, if◌then◌else◌}
use boat_backend.Prelude.Text.{strip, is_empty, has_code}
use boat_backend.Core.Errors.{Result, ok, err, validation_error}
use boat_backend.Core.Validation.{
  ◌>>=◌, ◌>>◌, pure, collect, collect_some, raise_if_any, value, notified,
}

pub record UserCredential : Type 0 where
  pub id : ℕ
  pub user_id : ℕ
  pub role : String
  pub last_login_at : Option ℕ

pub record ExternalIdentity : Type 0 where
  pub id : ℕ
  pub issuer : String
  pub subject : String
  pub provider : String
  pub email : Option String
  pub email_verified : Bool
  pub name : Option String

pub record AuthSession : Type 0 where
  pub id : ℕ
  pub credentials_id : ℕ
  pub revoked_at : Option ℕ

pub record RefreshToken : Type 0 where
  pub id : ℕ
  pub credentials_id : ℕ
  pub token_hash : String
  pub expires_at : ℕ
  pub session_id : Option ℕ

abbrev invalid : {A : Type 0} → String → Result A
invalid field = err (validation_error (field ∷ []))

-- `not self.value or len(self.value) > self.MAX_LENGTH`
abbrev pub is_out : ℕ → String → Bool
is_out max_length v = is_empty v || ltb max_length (count v)

-- `Issuer`
unfoldable pub issuer : String → Result String
issuer v = if is_out 50 v then invalid "issuer" else ok v

-- `Subject`
unfoldable pub subject : String → Result String
subject v = if is_out 255 v then invalid "subject" else ok v

-- `Provider`
unfoldable pub provider : String → Result String
provider v = if is_out 50 v then invalid "provider" else ok v

-- `Email`; 64 is the code of "@"
unfoldable pub email : String → Result String
email v =
    if is_empty v || (not (text_eq (strip v) v) || (not (has_code 64 v) || ltb 255 (count v)))
    then invalid "email"
    else ok v

-- `Role`
unfoldable pub role : String → Result String
role v = if text_eq v "user" || text_eq v "admin" then ok v else invalid "role"

-- `TokenHash`
unfoldable pub token_hash : String → Result String
token_hash v = if is_out 255 v then invalid "tokenHash" else ok v

-- `PromotionBeneficiaryHmacSecret`
unfoldable pub promotion_beneficiary_hmac_secret : String → Result String
promotion_beneficiary_hmac_secret v =
    if is_empty v || not (text_eq (strip v) v)
    then invalid "promotionBeneficiaryHmacSecret"
    else ok v

-- `UserCredential._assemble`, which `create` and `restore` call
unfoldable pub assemble_user_credential : ℕ → String → ℕ → Option ℕ → Result UserCredential
assemble_user_credential user_id given_role id last_login_at = elim (role given_role) [
  | ok new_role ↦
      ok (record { id = id; user_id = user_id; role = new_role; last_login_at = last_login_at })
  | err e ↦ err e
]

-- `ExternalIdentity.create`
unfoldable pub create_external_identity :
    ℕ → String → String → String → Option String → Option String → Bool → Result ExternalIdentity
create_external_identity id given_issuer given_subject given_provider given_email name verified =
    notified (do
      new_issuer ← collect (issuer given_issuer)
      new_subject ← collect (subject given_subject)
      new_provider ← collect (provider given_provider)
      new_email ← collect_some email given_email
      raise_if_any
      i ← value new_issuer
      s ← value new_subject
      p ← value new_provider
      pure (record {
        id = id;
        issuer = i;
        subject = s;
        provider = p;
        email = new_email;
        email_verified = verified;
        name = name;
      }))

-- `RefreshToken.create`
unfoldable pub create_refresh_token : ℕ → ℕ → String → ℕ → Option ℕ → Result RefreshToken
create_refresh_token id credentials_id hash expires_at session_id = elim (token_hash hash) [
  | ok new_hash ↦ ok (record {
    id = id;
    credentials_id = credentials_id;
    token_hash = new_hash;
    expires_at = expires_at;
    session_id = session_id;
  })
  | err e ↦ err e
]

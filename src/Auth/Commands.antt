-- ===== src/Auth/Commands.antt =====
-- app/modules/auth/application: refresh, logout, login, withdraw, signup, and the query for the current
-- principal. What a request gets from elsewhere is a parameter: the verifier of provider tokens, the
-- issuers, the hasher, and what the other modules (users, notifications, promotions, credits) do in the
-- same transaction, which answers or raises and writes none of these tables. The synchronizer only takes
-- advisory locks; events go to the outbox.
use Prim.Native.String.{count}
use boat_backend.Prelude.{
  ℕ, String, Bool, List, [], ◌∷◌, ◌++◌, Option, none, some, ⊤, ltb, text_eq, if◌then◌else◌,
}
use boat_backend.Prelude.Text.{strip, is_empty}
use boat_backend.Core.Errors.{
  Result, ok, err, validation_error, authentication_error, authorization_error, user_not_registered,
  user_already_exists,
}
use boat_backend.Auth.Domain.{UserCredential, ExternalIdentity}
use boat_backend.Auth.Store.{
  Action, ◌>>=◌, ◌>>◌, pure, raise, lift, query, commit, rollback, try_except,
}
use boat_backend.Auth.Repository.{
  canonical_email, find_by_external_identity, find_by_verified_email, attach_external_identity,
  create_for_external_identity, record_login, create_session, save_refresh_token,
}
use boat_backend.Auth.Tokens.{
  rotate_refresh_token, revoke_session_by_refresh_token, exists_active_session,
  delete_account_auth_state,
}

pub record IssuedAccessToken : Type 0 where
  pub token : String
  pub expires_in : ℕ

pub record IssuedRefreshToken : Type 0 where
  pub token : String
  pub token_hash : String
  pub expires_at : ℕ

-- `RefreshTokenResult`, `LoginResult` and `SignupResult` have the same fields.
pub record Tokens : Type 0 where
  pub access_token : String
  pub refresh_token : String
  pub expires_in : ℕ

-- user_id, credentials_id, session_id and role
abbrev pub AccessTokenIssuer : Type 0
AccessTokenIssuer = ℕ → ℕ → ℕ → String → IssuedAccessToken

abbrev pub tokens : IssuedAccessToken → IssuedRefreshToken → Tokens
tokens access refresh = record {
  access_token = access.token;
  refresh_token = refresh.token;
  expires_in = access.expires_in;
}

-- `RefreshTokenCommandUseCase.execute`
unfoldable pub refresh_execute :
    AccessTokenIssuer → (String → String) → ℕ → IssuedRefreshToken → String → Action Tokens
refresh_execute issue hash now rotated refresh_token = do
  session_credential ←
      rotate_refresh_token now (hash refresh_token) rotated.token_hash rotated.expires_at
  commit
  pure (
      tokens
        (issue session_credential.credentials.user_id session_credential.credentials.id
          session_credential.session_id session_credential.credentials.role)
        rotated)

-- `LogoutCommandUseCase.execute`
unfoldable pub logout_execute : (String → String) → ℕ → String → Action ⊤
logout_execute hash now refresh_token =
    revoke_session_by_refresh_token now (hash refresh_token) >> commit

-- The session, the refresh token and the access token of a credential.
unfoldable pub open_session :
    AccessTokenIssuer → IssuedRefreshToken → UserCredential → Action Tokens
open_session issue refresh credentials = do
  session_id ← create_session credentials.id
  save_refresh_token credentials.id session_id refresh.token_hash refresh.expires_at
  commit
  pure (tokens (issue credentials.user_id credentials.id session_id credentials.role) refresh)

-- The canonical email, where the identity has one and it is verified.
abbrev pub verified_email : (String → String) → ExternalIdentity → Option String
verified_email lower identity =
    if identity.email_verified then canonical_email lower identity else none

-- The login of an identity that is not known, by the credential that its email belongs to.
unfoldable pub email_login :
    (String → String) → ℕ → ExternalIdentity → Option UserCredential → Action UserCredential
email_login lower now identity none = raise user_not_registered
email_login lower now identity (some credentials) = do
  attach_external_identity lower credentials.id identity
  record_login credentials.id now

unfoldable pub login_by_email :
    (String → String) → ℕ → ExternalIdentity → Option String → Action UserCredential
login_by_email lower now identity none = raise authentication_error
login_by_email lower now identity (some email) = do
  found ← find_by_verified_email email
  email_login lower now identity found

unfoldable pub login_known :
    (String → String) → ℕ → ExternalIdentity → Option UserCredential → Action UserCredential
login_known lower now identity none =
    login_by_email lower now identity (verified_email lower identity)
login_known lower now identity (some credentials) = record_login credentials.id now

-- The credential of a login.
unfoldable pub login_credentials : (String → String) → ℕ → ExternalIdentity → Action UserCredential
login_credentials lower now identity = do
  found ← find_by_external_identity identity
  login_known lower now identity found

-- `LoginCommandUseCase.execute`
unfoldable pub login_execute :
    (String → String)
    → (String → Result ExternalIdentity)
    → AccessTokenIssuer
    → ℕ
    → IssuedRefreshToken
    → String
    → Action Tokens
login_execute lower verify issue now refresh provider_token = do
  identity ← lift (verify provider_token)
  credentials ← login_credentials lower now identity
  open_session issue refresh credentials

-- `WithdrawAccountCommandUseCase.execute`; the cleaning of the other modules comes before the commit.
unfoldable pub withdraw_execute : (ℕ → Result ⊤) → ℕ → ℕ → Action ⊤
withdraw_execute clean user_id credentials_id = do
  delete_account_auth_state user_id credentials_id
  lift (clean user_id)
  commit

pub record SignupCommand : Type 0 where
  pub provider_token : String
  pub terms_accepted : Bool
  pub privacy_accepted : Bool
  pub terms_version : Option String
  pub privacy_version : Option String
  pub marketing_consent : Bool

-- `_normalized_consent_version`
unfoldable pub normalized_consent_version : Option String → Option String
normalized_consent_version none = none
normalized_consent_version (some v) = if is_empty (strip v) then none else some (strip v)

abbrev version_details : String → Option String → List String
version_details field none = field ∷ []
version_details field (some v) = if ltb 50 (count v) then field ∷ [] else []

abbrev consent_details : String → String → Bool → Option String → List String
consent_details accepted_field version_field accepted version =
    if accepted then version_details version_field version else accepted_field ∷ []

-- The validation of a signup.
unfoldable pub signup_details : SignupCommand → List String
signup_details c =
    consent_details "termsAccepted" "termsVersion" c.terms_accepted
      (normalized_consent_version c.terms_version)
    ++ consent_details "privacyAccepted" "privacyVersion" c.privacy_accepted
        (normalized_consent_version c.privacy_version)

abbrev pub raise_details : List String → Action ⊤
raise_details [] = pure tt
raise_details (d ∷ ds) = raise (validation_error (d ∷ ds))

abbrev pub reject_existing : Option UserCredential → Action ⊤
reject_existing none = pure tt
reject_existing (some c) = raise user_already_exists

unfoldable pub reject_email : Option String → Action ⊤
reject_email none = pure tt
reject_email (some email) = do by_email ← find_by_verified_email email; reject_existing by_email

-- `_ensure_new_user`
unfoldable pub ensure_new_user : (String → String) → ExternalIdentity → Action ⊤
ensure_new_user lower identity = do
  by_identity ← find_by_external_identity identity
  reject_existing by_identity
  reject_email (verified_email lower identity)

-- The `try` block of a signup; `provision` makes the user, its notification settings and its promotion,
-- and answers the user's identifier.
unfoldable pub create_account :
    (String → String)
    → (ExternalIdentity → Result ℕ)
    → AccessTokenIssuer
    → ℕ
    → IssuedRefreshToken
    → ExternalIdentity
    → Action Tokens
create_account lower provision issue now refresh identity = do
  ensure_new_user lower identity
  user_id ← lift (provision identity)
  credentials ← create_for_external_identity lower identity user_id now
  open_session issue refresh credentials

-- `SignupCommandUseCase.execute`
unfoldable pub signup_execute :
    (String → String)
    → (String → Result ExternalIdentity)
    → (ExternalIdentity → Result ℕ)
    → AccessTokenIssuer
    → ℕ
    → IssuedRefreshToken
    → SignupCommand
    → Action Tokens
signup_execute lower verify provision issue now refresh c = do
  raise_details (signup_details c)
  identity ← lift (verify c.provider_token)
  try_except (create_account lower provision issue now refresh identity) (λ e. rollback >> raise e)

-- `AuthenticatedPrincipal`
pub record AuthenticatedPrincipal : Type 0 where
  pub user_id : ℕ
  pub credentials_id : ℕ
  pub session_id : ℕ
  pub role : String

-- `CurrentPrincipalQueryUseCase.execute`
unfoldable pub current_principal_execute :
    (String → Result AuthenticatedPrincipal) → String → Action AuthenticatedPrincipal
current_principal_execute verify token = do
  principal ← lift (verify token)
  exists ←
      query (exists_active_session principal.user_id principal.credentials_id principal.session_id)
  if exists then pure principal else raise authentication_error

-- `RoleAuthorizationPolicy.require_roles`
unfoldable pub require_roles : AuthenticatedPrincipal → List String → Result ⊤
require_roles principal [] = err authorization_error
require_roles principal (role ∷ roles) =
    let rest = require_roles principal roles in if text_eq principal.role role then ok tt else rest

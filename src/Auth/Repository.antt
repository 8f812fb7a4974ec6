-- ===== src/Auth/Repository.antt =====
-- `SqlAlchemyCredentialRepository`, app/modules/auth/infrastructure/persistence/credential_repository.py.
-- `lower` is Python's `str.lower`.
use boat_backend.Prelude.{
  ℕ, String, Bool, ◌&&◌, [], ◌∷◌, ◌++◌, Option, none, some, ⊤, ◌==◌, text_eq, find,
}
use boat_backend.Core.Errors.{authentication_error}
use boat_backend.Database.{replace_where, holds_text}
use boat_backend.Auth.Domain.{
  UserCredential, ExternalIdentity, AuthSession, RefreshToken, assemble_user_credential,
  create_refresh_token,
}
use boat_backend.Auth.Store.{
  AuthTables, ExternalIdentityRow, Action, ◌>>=◌, ◌>>◌, pure, raise, lift, query, modify, uuid4,
  any,
}

-- The writes of the repository.
abbrev pub has_id : ℕ → UserCredential → Bool
has_id id c = c.id == id

abbrev pub put_identity : ExternalIdentityRow → AuthTables → AuthTables
put_identity i t = record t { external_identities = t.external_identities ++ i ∷ [] }

abbrev pub put_credential : UserCredential → AuthTables → AuthTables
put_credential c t = record t { user_credentials = t.user_credentials ++ c ∷ [] }

abbrev pub replace_credential : ℕ → UserCredential → AuthTables → AuthTables
replace_credential id c t = record t {
  user_credentials = replace_where (has_id id) c t.user_credentials;
}

abbrev pub put_session : AuthSession → AuthTables → AuthTables
put_session s t = record t { auth_sessions = t.auth_sessions ++ s ∷ [] }

abbrev pub put_token : RefreshToken → AuthTables → AuthTables
put_token r t = record t { refresh_tokens = t.refresh_tokens ++ r ∷ [] }

-- The joined query: the first credential that one of the picked identities belongs to.
abbrev pub joined : (ExternalIdentityRow → Bool) → AuthTables → Option UserCredential
joined picks t =
    find (λ c. any (λ i. i.credentials_id == c.id && picks i) t.external_identities)
      t.user_credentials

-- `user_credential_to_domain`, where a row was found
unfoldable pub restored : Option UserCredential → Action (Option UserCredential)
restored none = pure none
restored (some r) = do
  c ← lift (assemble_user_credential r.user_id r.role r.id r.last_login_at)
  pure (some c)

-- `find_by_external_identity`
unfoldable pub find_by_external_identity : ExternalIdentity → Action (Option UserCredential)
find_by_external_identity identity = do
  found ←
      query (joined (λ i. text_eq i.issuer identity.issuer && text_eq i.subject identity.subject))
  restored found

-- `find_by_verified_email`
unfoldable pub find_by_verified_email : String → Action (Option UserCredential)
find_by_verified_email canonical_email = do
  found ← query (joined (λ i. holds_text i.normalized_email canonical_email && i.email_verified))
  restored found

-- `_canonical_email`
abbrev pub canonical_email : (String → String) → ExternalIdentity → Option String
canonical_email lower identity = elim identity.email [ none ↦ none | some e ↦ some (lower e) ]

-- `external_identity_to_record`
abbrev pub external_identity_to_record :
    (String → String) → ExternalIdentity → ℕ → ExternalIdentityRow
external_identity_to_record lower identity credentials_id = record {
  id = identity.id;
  credentials_id = credentials_id;
  issuer = identity.issuer;
  subject = identity.subject;
  provider = identity.provider;
  email = identity.email;
  normalized_email = canonical_email lower identity;
  email_verified = identity.email_verified;
}

-- `attach_external_identity`
unfoldable pub attach_external_identity : (String → String) → ℕ → ExternalIdentity → Action ⊤
attach_external_identity lower credentials_id identity =
    modify (put_identity (external_identity_to_record lower identity credentials_id))

-- `create_for_external_identity`
unfoldable pub create_for_external_identity :
    (String → String) → ExternalIdentity → ℕ → ℕ → Action UserCredential
unfolding attach_external_identity
create_for_external_identity lower identity user_id logged_in_at = do
  id ← uuid4
  credentials ← lift (assemble_user_credential user_id "user" id (some logged_in_at))
  modify (put_credential credentials)
  attach_external_identity lower credentials.id identity
  pure credentials

abbrev pub find_credential : ℕ → AuthTables → Option UserCredential
find_credential id t = find (has_id id) t.user_credentials

-- The login of the credential that was found.
unfoldable pub login_found : ℕ → ℕ → Option UserCredential → Action UserCredential
login_found credentials_id logged_in_at none = raise authentication_error
login_found credentials_id logged_in_at (some c) = do
  modify (replace_credential credentials_id (record c { last_login_at = some logged_in_at }))
  lift (assemble_user_credential c.user_id c.role c.id (some logged_in_at))

-- `record_login`
unfoldable pub record_login : ℕ → ℕ → Action UserCredential
record_login credentials_id logged_in_at = do
  found ← query (find_credential credentials_id)
  login_found credentials_id logged_in_at found

-- `create_session`
unfoldable pub create_session : ℕ → Action ℕ
create_session credentials_id = do
  id ← uuid4
  modify (put_session (record { id = id; credentials_id = credentials_id; revoked_at = none }))
  pure id

-- `save_refresh_token`
unfoldable pub save_refresh_token : ℕ → ℕ → String → ℕ → Action ⊤
save_refresh_token credentials_id session_id hash expires_at = do
  id ← uuid4
  token ← lift (create_refresh_token id credentials_id hash expires_at (some session_id))
  modify (put_token token)

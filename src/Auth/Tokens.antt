-- ===== src/Auth/Tokens.antt =====
-- The refresh tokens and sessions of `SqlAlchemyCredentialRepository`,
-- app/modules/auth/infrastructure/persistence/credential_repository.py. `now` is the time of the request.
use boat_backend.Prelude.{
  ℕ, String, Bool, not, ◌&&◌, List, [], ◌∷◌, Option, none, some, ⊤, ltb, leb, ◌==◌, text_eq,
  is_some, find, select, if◌then◌else◌,
}
use boat_backend.Core.Errors.{authentication_error}
use boat_backend.Database.{holds}
use boat_backend.Auth.Domain.{
  UserCredential, AuthSession, RefreshToken, assemble_user_credential, create_refresh_token,
}
use boat_backend.Auth.Store.{
  AuthTables, Action, ◌>>=◌, ◌>>◌, pure, raise, lift, query, modify, uuid4, any,
}
use boat_backend.Auth.Repository.{has_id, find_credential, put_token}

pub record SessionCredential : Type 0 where
  pub credentials : UserCredential
  pub session_id : ℕ

abbrev pub has_hash : String → RefreshToken → Bool
has_hash hash r = text_eq r.token_hash hash

abbrev pub find_token : String → AuthTables → Option RefreshToken
find_token hash t = find (has_hash hash) t.refresh_tokens

abbrev pub find_session : ℕ → AuthTables → Option AuthSession
find_session id t = find (λ s. s.id == id) t.auth_sessions

abbrev pub drop_tokens : (RefreshToken → Bool) → AuthTables → AuthTables
drop_tokens p t = record t { refresh_tokens = select (λ r. not (p r)) t.refresh_tokens }

-- `auth_session.revoked_at = now`, where there is such a session
abbrev pub revoked : ℕ → AuthSession → AuthSession
revoked now s = record s { revoked_at = some now }

abbrev pub revoke_where : (AuthSession → Bool) → ℕ → List AuthSession → List AuthSession
revoke_where p now [] = []
revoke_where p now (s ∷ ss) = (if p s then revoked now s else s) ∷ revoke_where p now ss

abbrev pub revoke_sessions : (AuthSession → Bool) → ℕ → AuthTables → AuthTables
revoke_sessions p now t = record t { auth_sessions = revoke_where p now t.auth_sessions }

-- `if test: raise AuthenticationError()`
abbrev pub reject_if : Bool → Action ⊤
reject_if test = if test then raise authentication_error else pure tt

-- `if found is None: raise AuthenticationError()`
unfoldable pub required : {A : Type 0} → Option A → Action A
required none = raise authentication_error
required (some a) = pure a

-- `DELETE ... WHERE token_hash = :hash RETURNING ...`
unfoldable pub take_token : String → Action (Option RefreshToken)
take_token hash = do
  found ← query (find_token hash)
  modify (drop_tokens (has_hash hash))
  pure found

-- The end of `rotate_refresh_token`: the new token and the answer.
unfoldable pub renew_token : UserCredential → ℕ → ℕ → String → ℕ → Action SessionCredential
renew_token credentials session_id id new_hash expires_at = do
  token ← lift (create_refresh_token id credentials.id new_hash expires_at (some session_id))
  modify (put_token token)
  restored ← lift (
      assemble_user_credential credentials.user_id credentials.role credentials.id
        credentials.last_login_at)
  pure (record { credentials = restored; session_id = session_id })

-- `rotate_refresh_token`
unfoldable pub rotate_refresh_token : ℕ → String → String → ℕ → Action SessionCredential
rotate_refresh_token now hash new_hash expires_at = do
  taken ← take_token hash
  row ← required taken
  session_id ← required row.session_id
  reject_if (leb row.expires_at now)
  session_row ← query (find_session session_id)
  auth_session ← required session_row
  reject_if (is_some auth_session.revoked_at)
  credential_row ← query (find_credential row.credentials_id)
  credentials ← required credential_row
  reject_if (not (credentials.id == auth_session.credentials_id))
  id ← uuid4
  renew_token credentials auth_session.id id new_hash expires_at

-- A token without a session is dropped, else its session is revoked and the session's tokens dropped.
unfoldable pub revoke_found : ℕ → Option RefreshToken → Action ⊤
revoke_found now none = pure tt
revoke_found now (some token) = elim token.session_id [
  | none ↦ modify (drop_tokens (λ r. r.id == token.id))
  | some session_id ↦ do
    modify (revoke_sessions (λ s. s.id == session_id) now)
    modify (drop_tokens (λ r. holds r.session_id session_id))
]

abbrev pub is_live_token : ℕ → String → RefreshToken → Bool
is_live_token now hash r = has_hash hash r && ltb now r.expires_at

-- `revoke_session_by_refresh_token`
unfoldable pub revoke_session_by_refresh_token : ℕ → String → Action ⊤
revoke_session_by_refresh_token now hash = do
  found ← query (λ t. find (is_live_token now hash) t.refresh_tokens)
  revoke_found now found

-- `exists_active_credential`
unfoldable pub exists_active_credential : ℕ → ℕ → AuthTables → Bool
exists_active_credential user_id credentials_id t =
    any (λ c. c.id == credentials_id && c.user_id == user_id) t.user_credentials

-- `exists_active_session`
unfoldable pub exists_active_session : ℕ → ℕ → ℕ → AuthTables → Bool
exists_active_session user_id credentials_id session_id t =
    any
      (λ s.
        s.id == session_id
        && not (is_some s.revoked_at)
        && any (λ c. c.id == s.credentials_id && (c.id == credentials_id && c.user_id == user_id))
            t.user_credentials)
      t.auth_sessions

-- The four DELETE statements
abbrev pub drop_account : ℕ → AuthTables → AuthTables
drop_account credentials_id t = record {
  refresh_tokens = select (λ r. not (r.credentials_id == credentials_id)) t.refresh_tokens;
  auth_sessions = select (λ s. not (s.credentials_id == credentials_id)) t.auth_sessions;
  external_identities =
      select (λ i. not (i.credentials_id == credentials_id)) t.external_identities;
  user_credentials = select (λ c. not (has_id credentials_id c)) t.user_credentials;
}

-- `delete_account_auth_state`
unfoldable pub delete_account_auth_state : ℕ → ℕ → Action ⊤
unfolding exists_active_credential
delete_account_auth_state user_id credentials_id = do
  owned ← query (exists_active_credential user_id credentials_id)
  if owned then modify (drop_account credentials_id) else pure tt

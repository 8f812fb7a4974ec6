-- ===== src/Auth/Renewed.antt =====
-- What a refresh of app/modules/auth answers and stores.
use boat_backend.Prelude.{ℕ, ◌+◌, ◌≡◌, String, true, none, some, arith, ltb}
use boat_backend.Core.Errors.{ok}
use boat_backend.Auth.Domain.{
  UserCredential, AuthSession, RefreshToken, role, create_refresh_token, assemble_user_credential,
}
use boat_backend.Auth.Store.{AuthTables, Store, lift, query, modify, uuid4, violated, commit, serve}
use boat_backend.Auth.Repository.{put_token, find_credential}
use boat_backend.Auth.Tokens.{
  has_hash, find_token, find_session, drop_tokens, required, take_token, renew_token,
  rotate_refresh_token,
}
use boat_backend.Auth.Commands.{AccessTokenIssuer, IssuedRefreshToken, tokens, refresh_execute}

-- The row of a token that may be exchanged at a time, with its session and its credential.
pub record IsExchangeable (t : AuthTables) (h : String) (now : ℕ) (row : RefreshToken)
    (session : AuthSession) (c : UserCredential) : Type 0 where
  pub stored : find_token h t ≡ some row
  pub of_session : row.session_id ≡ some session.id
  pub unexpired : ltb now row.expires_at ≡ true
  pub session_stored : find_session session.id t ≡ some session
  pub active : session.revoked_at ≡ none
  pub owner_stored : find_credential row.credentials_id t ≡ some c
  pub owner : c.id ≡ session.credentials_id

-- The tables after an exchange.
abbrev pub exchanged : AuthTables → String → RefreshToken → AuthTables
exchanged t h new = put_token new (drop_tokens (has_hash h) t)

module _ (issue : AccessTokenIssuer) (hash : String → String) (now : ℕ)
    (rotated : IssuedRefreshToken) (token : String) (s : Store) where
  -- An unexpired token of an active session is exchanged: the old one is dropped, one with the issued
  -- hash and the same session and credential is stored, and the answer holds an access token for them. The
  -- stored role and the issued hash are valid, and the new tables break no constraint.
  pub refresh_exchanges :
      (row new : RefreshToken) (session : AuthSession) (c : UserCredential)
      → IsExchangeable s.committed (hash token) now row session c
      → role c.role ≡ ok c.role
      → create_refresh_token s.fresh c.id rotated.token_hash rotated.expires_at (some session.id)
        ≡ ok new
      → violated (exchanged s.committed (hash token) new) ≡ none
      → serve (refresh_execute issue hash now rotated token) s ≡ (
        ok (tokens (issue c.user_id c.id session.id c.role) rotated),
        record {
          committed = exchanged s.committed (hash token) new;
          working = exchanged s.committed (hash token) new;
          fresh = s.fresh + 1;
        },
      )
  unfolding serve refresh_execute rotate_refresh_token take_token renew_token query modify required
      lift uuid4 commit assemble_user_credential
  refresh_exchanges row new session c k valid made fine = ground (
    arith, k.stored, k.of_session, k.unexpired, k.session_stored, k.active, k.owner_stored, k.owner,
    valid, made, fine,
  )

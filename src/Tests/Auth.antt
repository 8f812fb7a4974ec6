-- ===== src/Tests/Auth.antt =====
-- The theorems on app/modules/auth at one account with one session.
use boat_backend.Prelude.{ℕ, ◌≡◌, refl, String, true, [], ◌∷◌, none, some, arith, ⊤}
use boat_backend.Core.Errors.{Result, ok, err, authentication_error}
use boat_backend.Auth.Domain.{
  UserCredential, AuthSession, RefreshToken, role, token_hash, create_refresh_token,
}
use boat_backend.Auth.Store.{AuthTables, Store, serve, violated, commit, query, modify, lift}
use boat_backend.Auth.Tokens.{
  exists_active_credential, revoke_found, revoke_session_by_refresh_token,
  delete_account_auth_state,
}
use boat_backend.Auth.Commands.{
  AccessTokenIssuer, IssuedRefreshToken, tokens, AuthenticatedPrincipal, current_principal_execute,
  logout_execute, refresh_execute, withdraw_execute,
}
use boat_backend.Auth.Ended.{logged_out_for_good, withdrawn_for_good}
use boat_backend.Auth.Once.{refresh_token_works_once}
use boat_backend.Auth.Renewed.{IsExchangeable, exchanged, refresh_exchanges}
use boat_backend.Auth.Steps.{Reaches.stays, Reaches.steps, Step.logs_out, Step.refreshes}

abbrev account : UserCredential
account = record { id = 3; user_id = 7; role = "user"; last_login_at = none }

abbrev session : AuthSession
session = record { id = 4; credentials_id = 3; revoked_at = none }

abbrev first_token : RefreshToken
first_token = record {
  id = 5;
  credentials_id = 3;
  token_hash = "one";
  expires_at = 100;
  session_id = some 4;
}

abbrev one_account : AuthTables
one_account = record {
  user_credentials = account ∷ [];
  external_identities = [];
  auth_sessions = session ∷ [];
  refresh_tokens = first_token ∷ [];
}

abbrev store : Store
store = record { committed = one_account; working = one_account; fresh = 10 }

abbrev issue : AccessTokenIssuer
issue user_id credentials_id session_id role = record { token = "access"; expires_in = 900 }

-- A hasher that is a function of the token.
abbrev hash : String → String
hash token = token

abbrev rotated : IssuedRefreshToken
rotated = record { token = "two"; token_hash = "two"; expires_at = 200 }

abbrev second_token : RefreshToken
second_token = record {
  id = 10;
  credentials_id = 3;
  token_hash = "two";
  expires_at = 200;
  session_id = some 4;
}

abbrev principal : AuthenticatedPrincipal
principal = record { user_id = 7; credentials_id = 3; session_id = 4; role = "user" }

abbrev verify : String → Result AuthenticatedPrincipal
verify access = ok principal

user-role : role account.role ≡ ok account.role
unfolding role
user-role = refl

second_token-made :
    create_refresh_token store.fresh account.id rotated.token_hash rotated.expires_at
      (some session.id)
    ≡ ok second_token
unfolding create_refresh_token token_hash
second_token-made = refl

second_token-fine : violated (exchanged one_account "one" second_token) ≡ none
unfolding violated
second_token-fine = refl

first_token-IsExchangeable : IsExchangeable one_account "one" 50 first_token session account
first_token-IsExchangeable = record {
  stored = refl;
  of_session = refl;
  unexpired = refl;
  session_stored = refl;
  active = refl;
  owner_stored = refl;
  owner = refl;
}

refresh_exchanges_example : serve (refresh_execute issue hash 50 rotated "one") store ≡ (
  ok (tokens (issue 7 3 4 "user") rotated),
  record {
    committed = exchanged one_account "one" second_token;
    working = exchanged one_account "one" second_token;
    fresh = 11;
  },
)
refresh_exchanges_example =
    refresh_exchanges issue hash 50 rotated "one" store first_token second_token session account
      first_token-IsExchangeable user-role second_token-made second_token-fine

first_refresh :
    (serve (refresh_execute issue hash 50 rotated "one") store).0
    ≡ ok (tokens (issue 7 3 4 "user") rotated)
first_refresh = rw refresh_exchanges_example refl

refresh_token_works_once_example :
    (serve
      (refresh_execute issue hash 60 rotated "one")
      (serve
        (logout_execute hash 55 "two")
        (serve (refresh_execute issue hash 50 rotated "one") store).1).1).0
    ≡ err authentication_error
refresh_token_works_once_example =
    refresh_token_works_once issue hash 50 rotated "one" store
      (serve (logout_execute hash 55 "two")
        (serve (refresh_execute issue hash 50 rotated "one") store).1).1
      (tokens (issue 7 3 4 "user") rotated) issue 60 rotated refl first_refresh
      (steps stays (logs_out hash 55 "two"))

logout_done : (serve (logout_execute hash 50 "one") store).0 ≡ ok tt
unfolding serve logout_execute revoke_session_by_refresh_token revoke_found query modify commit
    violated
logout_done = refl

logged_out_for_good_example :
    (serve
      (current_principal_execute verify "access")
      (serve
        (refresh_execute issue hash 60 rotated "one")
        (serve (logout_execute hash 50 "one") store).1).1).0
    ≡ err authentication_error
logged_out_for_good_example =
    logged_out_for_good verify "access" principal refl hash 50 "one" first_token store
      (serve (refresh_execute issue hash 60 rotated "one")
        (serve (logout_execute hash 50 "one") store).1).1
      refl refl (omega arith) logout_done (steps stays (refreshes issue hash 60 rotated "one" tt))

abbrev clean : ℕ → Result ⊤
clean user_id = ok tt

owned : exists_active_credential 7 3 one_account ≡ true
unfolding exists_active_credential
owned = refl

withdraw_done : (serve (withdraw_execute clean 7 3) store).0 ≡ ok tt
unfolding serve withdraw_execute delete_account_auth_state exists_active_credential query modify
    lift commit violated
withdraw_done = refl

withdrawn_for_good_example :
    (serve
      (current_principal_execute verify "access")
      (serve (logout_execute hash 60 "one") (serve (withdraw_execute clean 7 3) store).1).1).0
    ≡ err authentication_error
withdrawn_for_good_example =
    withdrawn_for_good verify "access" principal refl clean 7 store
      (serve (logout_execute hash 60 "one") (serve (withdraw_execute clean 7 3) store).1).1 owned
      (omega arith) withdraw_done (steps stays (logs_out hash 60 "one"))

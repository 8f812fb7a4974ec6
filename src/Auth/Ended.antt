-- ===== src/Auth/Ended.antt =====
-- Sessions of app/modules/auth that were ended stay so: by a logout, and by the account's withdrawal.
use boat_backend.Prelude.{
  ℕ, suc, ◌<◌, ◌≡◌, ◌⊎◌, inl, inr, refl, String, Bool, true, false, not, List, [], ◌∷◌, some, arith,
  All, All-map, select, find, Bool-cases, ⊤, is_some, ◌==◌, ◌&&◌,
}
use boat_backend.Core.Errors.{Result, ok, err, authentication_error}
use boat_backend.Auth.Domain.{UserCredential, AuthSession, RefreshToken}
use boat_backend.Auth.Store.{AuthTables, Store, Action, serve, any, commit, modify, query, lift}
use boat_backend.Auth.Repository.{has_id}
use boat_backend.Auth.Tokens.{
  revoke_where, is_live_token, revoke_found, revoke_session_by_refresh_token, exists_active_session,
  exists_active_credential, delete_account_auth_state,
}
use boat_backend.Auth.Commands.{
  AuthenticatedPrincipal, current_principal_execute, logout_execute, withdraw_execute,
}
use boat_backend.Auth.Keeps.{Guard, IsGuarded, IsSafe}
use boat_backend.Auth.Steps.{Reaches, Reaches-IsSafe}

abbrev pub IsAnything : {A : Type 0} → A → Type 0
IsAnything a = ⊤

-- The session is revoked, wherever it is.
abbrev pub IsRevoked : ℕ → AuthSession → Type 0
IsRevoked id s = (s.id == id ≡ false) ⊎ (is_some s.revoked_at ≡ true)

abbrev pub session_guard : ℕ → Guard
session_guard id = record {
  issued_ok = IsAnything;
  token_ok = IsAnything;
  session_ok = IsRevoked id;
  credential_ok = IsAnything;
  from = suc id;
  token_new = λ r h. tt;
  session_new = λ s h. inl (ground (arith, h));
  session_revoked = λ now s h. inr refl;
  credential_new = λ c h. tt;
  credential_login = λ at c h. tt;
}

abbrev pub credential_guard : ℕ → Guard
credential_guard id = record {
  issued_ok = IsAnything;
  token_ok = IsAnything;
  session_ok = IsAnything;
  credential_ok = λ c. has_id id c ≡ false;
  from = suc id;
  token_new = λ r h. tt;
  session_new = λ s h. tt;
  session_revoked = λ now s h. tt;
  credential_new = λ c h. ground (arith, h);
  credential_login = λ at c h. h;
}

pub All-IsAnything : {A : Type 0} (xs : List A) → All IsAnything xs
All-IsAnything [] = tt
All-IsAnything (x ∷ xs) = (tt, All-IsAnything xs)

revoke_where-IsRevoked :
    (id now : ℕ) (xs : List AuthSession)
    → All (IsRevoked id) (revoke_where (λ s. s.id == id) now xs)
revoke_where-IsRevoked id now [] = tt
revoke_where-IsRevoked id now (x ∷ xs) = elim (Bool-cases (x.id == id)) [
  | inl e ↦ rw e (inr refl, revoke_where-IsRevoked id now xs)
  | inr e ↦ rw e (inl e, revoke_where-IsRevoked id now xs)
]

select-dropped :
    (id : ℕ) (xs : List UserCredential)
    → All (λ c. has_id id c ≡ false) (select (λ c. not (has_id id c)) xs)
select-dropped id [] = tt
select-dropped id (x ∷ xs) = elim (Bool-cases (has_id id x)) [
  | inl e ↦ rw e (select-dropped id xs)
  | inr e ↦ rw e (e, select-dropped id xs)
]

any-false : {A : Type 0} (p : A → Bool) (xs : List A) → All (λ x. p x ≡ false) xs → any p xs ≡ false
any-false p [] h = refl
any-false p (x ∷ xs) h = ground (arith, h.0, any-false p xs h.1)

module _ (user_id credentials_id id : ℕ) (t : AuthTables) where
  revoked_inactive :
      All (IsRevoked id) t.auth_sessions → exists_active_session user_id credentials_id id t ≡ false
  unfolding exists_active_session
  revoked_inactive h =
      any-false _ t.auth_sessions (All-map (λ s k. ground (arith, k)) t.auth_sessions h)

  ownerless_inactive :
      All (λ c. has_id credentials_id c ≡ false) t.user_credentials
      → exists_active_session user_id credentials_id id t ≡ false
  unfolding exists_active_session
  ownerless_inactive h = any-false _ t.auth_sessions (
      All-map (λ s k. ground (arith, none_owns s)) t.auth_sessions (All-IsAnything t.auth_sessions))
    where
      none_owns :
          (s : AuthSession)
          → any
              (λ c. c.id == s.credentials_id && (c.id == credentials_id && c.user_id == user_id))
              t.user_credentials
            ≡ false
      none_owns s =
          any-false _ t.user_credentials (All-map (λ c k. ground (arith, k)) t.user_credentials h)

principal_refused :
    (verify : String → Result AuthenticatedPrincipal) (access : String) (p : AuthenticatedPrincipal)
    (s : Store)
    → verify access ≡ ok p
    → exists_active_session p.user_id p.credentials_id p.session_id s.committed ≡ false
    → (serve (current_principal_execute verify access) s).0 ≡ err authentication_error
unfolding serve current_principal_execute lift query
principal_refused verify access p s v h = ground (arith, v, h)

-- A request that succeeds has committed what it worked on.
logout_committed :
    (hash : String → String) (now id : ℕ) (token : String) (r : RefreshToken) (s : Store)
    → find (is_live_token now (hash token)) s.committed.refresh_tokens ≡ some r
    → r.session_id ≡ some id
    → (serve (logout_execute hash now token) s).0 ≡ ok tt
    → (serve (logout_execute hash now token) s).1.committed.auth_sessions
      ≡ revoke_where (λ a. a.id == id) now s.committed.auth_sessions
unfolding serve logout_execute revoke_session_by_refresh_token revoke_found query modify commit
logout_committed hash now id token r s found session h = ground (arith, found, session, h)

withdraw_committed :
    (clean : ℕ → Result ⊤) (user_id id : ℕ) (s : Store)
    → exists_active_credential user_id id s.committed ≡ true
    → (serve (withdraw_execute clean user_id id) s).0 ≡ ok tt
    → (serve (withdraw_execute clean user_id id) s).1.committed.user_credentials
      ≡ select (λ c. not (has_id id c)) s.committed.user_credentials
unfolding serve withdraw_execute delete_account_auth_state query modify commit lift
withdraw_committed clean user_id id s owned h = ground (arith, owned, h)

logout_fresh :
    (hash : String → String) (now id : ℕ) (token : String) (r : RefreshToken) (s : Store)
    → find (is_live_token now (hash token)) s.committed.refresh_tokens ≡ some r
    → r.session_id ≡ some id
    → (serve (logout_execute hash now token) s).1.fresh ≡ s.fresh
unfolding serve logout_execute revoke_session_by_refresh_token revoke_found query modify commit
logout_fresh hash now id token r s found session = ground (arith, found, session)

withdraw_fresh :
    (clean : ℕ → Result ⊤) (user_id id : ℕ) (s : Store)
    → (serve (withdraw_execute clean user_id id) s).1.fresh ≡ s.fresh
unfolding serve withdraw_execute delete_account_auth_state query modify commit lift
withdraw_fresh clean user_id id s = ground arith

-- Between requests the working tables are the committed ones.
pub served-working :
    {A : Type 0} (m : Action A) (s : Store) (P : AuthTables → Type 0)
    → P (serve m s).1.committed
    → P (serve m s).1.working
unfolding serve
served-working m s P h = h

module _ (verify : String → Result AuthenticatedPrincipal) (access : String)
    (p : AuthenticatedPrincipal) (known : verify access ≡ ok p) where
  -- A logout with an unexpired refresh token of a session has succeeded: whatever requests follow it, an
  -- access token of that session is refused. The session's identifier has been drawn before.
  pub logged_out_for_good :
      (hash : String → String) (now : ℕ) (token : String) (r : RefreshToken) (s s' : Store)
      → find (is_live_token now (hash token)) s.committed.refresh_tokens ≡ some r
      → r.session_id ≡ some p.session_id
      → p.session_id < s.fresh
      → (serve (logout_execute hash now token) s).0 ≡ ok tt
      → Reaches (λ h. ⊤) (serve (logout_execute hash now token) s).1 s'
      → (serve (current_principal_execute verify access) s').0 ≡ err authentication_error
  logged_out_for_good hash now token r s s' found session drawn done reached =
      principal_refused verify access p s' known (
        revoked_inactive p.user_id p.credentials_id p.session_id s'.committed
          later.committed.sessions)
    where
      id : ℕ
      id = p.session_id

      guarded : IsGuarded (session_guard id) (serve (logout_execute hash now token) s).1.committed
      guarded = record {
        tokens = All-IsAnything _;
        sessions =
            rw (logout_committed hash now id token r s found session done)
              (revoke_where-IsRevoked id now s.committed.auth_sessions);
        credentials = All-IsAnything _;
      }

      later : IsSafe (session_guard id) s'
      later = Reaches-IsSafe (session_guard id) _ s' reached (record {
        committed = guarded;
        working =
            served-working (logout_execute hash now token) s (IsGuarded (session_guard id)) guarded;
        later = rw (logout_fresh hash now id token r s found session) (ground (arith, drawn));
      })

  -- The withdrawal of an account that is there has succeeded: whatever requests follow it, an access
  -- token of that account is refused. The account's identifier has been drawn before.
  pub withdrawn_for_good :
      (clean : ℕ → Result ⊤) (user_id : ℕ) (s s' : Store)
      → exists_active_credential user_id p.credentials_id s.committed ≡ true
      → p.credentials_id < s.fresh
      → (serve (withdraw_execute clean user_id p.credentials_id) s).0 ≡ ok tt
      → Reaches (λ h. ⊤) (serve (withdraw_execute clean user_id p.credentials_id) s).1 s'
      → (serve (current_principal_execute verify access) s').0 ≡ err authentication_error
  withdrawn_for_good clean user_id s s' owned drawn done reached =
      principal_refused verify access p s' known (
        ownerless_inactive p.user_id p.credentials_id p.session_id s'.committed
          later.committed.credentials)
    where
      id : ℕ
      id = p.credentials_id

      guarded :
          IsGuarded (credential_guard id) (serve (withdraw_execute clean user_id id) s).1.committed
      guarded = record {
        tokens = All-IsAnything _;
        sessions = All-IsAnything _;
        credentials =
            rw (withdraw_committed clean user_id id s owned done)
              (select-dropped id s.committed.user_credentials);
      }

      later : IsSafe (credential_guard id) s'
      later = Reaches-IsSafe (credential_guard id) _ s' reached (record {
        committed = guarded;
        working =
            served-working (withdraw_execute clean user_id id) s (IsGuarded (credential_guard id))
              guarded;
        later = rw (withdraw_fresh clean user_id id s) (ground (arith, drawn));
      })

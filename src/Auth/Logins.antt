-- ===== src/Auth/Logins.antt =====
-- Login, withdrawal and signup of app/modules/auth keep the guards.
use boat_backend.Prelude.{
  ℕ, ◌≤◌, ◌≡◌, String, Bool, true, false, not, List, [], ◌∷◌, Option, none, some, arith, All-append,
  ⊤, ◌==◌, if◌then◌else◌,
}
use boat_backend.Core.Errors.{
  Result, ok, authentication_error, user_not_registered, user_already_exists, validation_error,
}
use boat_backend.Auth.Domain.{UserCredential, ExternalIdentity, assemble_user_credential, role}
use boat_backend.Auth.Store.{ExternalIdentityRow, ◌>>=◌, ◌>>◌, pure, raise, query, modify, rollback}
use boat_backend.Auth.Repository.{
  joined, restored, put_identity, put_credential, replace_credential, external_identity_to_record,
  find_by_external_identity, find_by_verified_email, attach_external_identity,
  create_for_external_identity, has_id, find_credential, login_found, record_login,
}
use boat_backend.Auth.Tokens.{drop_account, delete_account_auth_state, exists_active_credential}
use boat_backend.Auth.Commands.{
  AccessTokenIssuer, IssuedRefreshToken, SignupCommand, login_by_email, login_credentials,
  login_execute, withdraw_execute, signup_execute, ensure_new_user, raise_details, signup_details,
  reject_existing, reject_email, verified_email, email_login, login_known, create_account,
}
use boat_backend.Auth.Keeps.{
  Guard, Keeps, bind-Keeps, pure-Keeps, raise-Keeps, lift-Keeps, query-Keeps, any-Keeps,
  try_except-Keeps, modify-Keeps, uuid4-Keeps, commit-Keeps, rollback-Keeps,
}
use boat_backend.Auth.Requests.{
  All-select, All-replace_where, OnSome, find-OnSome, any_query, open_session-Keeps,
}

module _ (g : Guard) where
  restored-Keeps : (o : Option UserCredential) → Keeps g (restored o) (λ a. ⊤)
  unfolding restored
  restored-Keeps none = any-Keeps g (pure-Keeps g none)
  restored-Keeps (some r) =
      bind-Keeps g (lift-Keeps g (assemble_user_credential r.user_id r.role r.id r.last_login_at))
        (λ c _. any-Keeps g (pure-Keeps g (some c)))

  joined-Keeps :
      (picks : ExternalIdentityRow → Bool) → Keeps g (query (joined picks) >>= restored) (λ a. ⊤)
  joined-Keeps picks = bind-Keeps g (any_query g (joined picks)) (λ o _. restored-Keeps o)

  find_by_external_identity-Keeps :
      (identity : ExternalIdentity) → Keeps g (find_by_external_identity identity) (λ a. ⊤)
  unfolding find_by_external_identity
  find_by_external_identity-Keeps identity = joined-Keeps _

  find_by_verified_email-Keeps : (e : String) → Keeps g (find_by_verified_email e) (λ a. ⊤)
  unfolding find_by_verified_email
  find_by_verified_email-Keeps e = joined-Keeps _

  put_identity-Keeps : (i : ExternalIdentityRow) → Keeps g (modify (put_identity i)) (λ a. ⊤)
  put_identity-Keeps i =
      modify-Keeps g (put_identity i)
        (λ t k. record { tokens = k.tokens; sessions = k.sessions; credentials = k.credentials })

  attach-Keeps :
      (lower : String → String) (id : ℕ) (identity : ExternalIdentity)
      → Keeps g (attach_external_identity lower id identity) (λ a. ⊤)
  unfolding attach_external_identity
  attach-Keeps lower id identity =
      put_identity-Keeps (external_identity_to_record lower identity id)

  found_login-Keeps :
      (id now : ℕ) (o : Option UserCredential)
      → OnSome g.credential_ok o
      → Keeps g (login_found id now o) (λ a. ⊤)
  unfolding login_found
  found_login-Keeps id now none h = raise-Keeps g authentication_error (λ a. ⊤)
  found_login-Keeps id now (some c) h =
      bind-Keeps g
        (modify-Keeps g (replace_credential id (record c { last_login_at = some now })) (λ t k.
          record {
            tokens = k.tokens;
            sessions = k.sessions;
            credentials =
                All-replace_where g.credential_ok (has_id id)
                  (record c { last_login_at = some now }) t.user_credentials
                  (g.credential_login (some now) c h) k.credentials;
          }))
        (λ _ _.
          any-Keeps g (lift-Keeps g (assemble_user_credential c.user_id c.role c.id (some now))))

  record_login-Keeps : (id now : ℕ) → Keeps g (record_login id now) (λ a. ⊤)
  unfolding record_login
  record_login-Keeps id now =
      bind-Keeps g
        (query-Keeps g (find_credential id) (OnSome g.credential_ok)
          (λ t k. find-OnSome g.credential_ok (has_id id) t.user_credentials k.credentials))
        (λ o h. found_login-Keeps id now o h)

  module _ (lower : String → String) (now : ℕ) where
    email_login-Keeps :
        (identity : ExternalIdentity) (o : Option UserCredential)
        → Keeps g (email_login lower now identity o) (λ a. ⊤)
    unfolding email_login
    email_login-Keeps identity none = raise-Keeps g user_not_registered (λ a. ⊤)
    email_login-Keeps identity (some c) =
        bind-Keeps g (attach-Keeps lower c.id identity) (λ _ _. record_login-Keeps c.id now)

    login_by_email-Keeps :
        (identity : ExternalIdentity) (e : Option String)
        → Keeps g (login_by_email lower now identity e) (λ a. ⊤)
    unfolding login_by_email
    login_by_email-Keeps identity none = raise-Keeps g authentication_error (λ a. ⊤)
    login_by_email-Keeps identity (some email) =
        bind-Keeps g (find_by_verified_email-Keeps email) (λ o _. email_login-Keeps identity o)

    login_known-Keeps :
        (identity : ExternalIdentity) (o : Option UserCredential)
        → Keeps g (login_known lower now identity o) (λ a. ⊤)
    unfolding login_known
    login_known-Keeps identity none = login_by_email-Keeps identity (verified_email lower identity)
    login_known-Keeps identity (some c) = record_login-Keeps c.id now

    login_credentials-Keeps :
        (identity : ExternalIdentity) → Keeps g (login_credentials lower now identity) (λ a. ⊤)
    unfolding login_credentials
    login_credentials-Keeps identity =
        bind-Keeps g (find_by_external_identity-Keeps identity)
          (λ o _. login_known-Keeps identity o)

    module _ (verify : String → Result ExternalIdentity) (issue : AccessTokenIssuer)
        (refresh : IssuedRefreshToken) (fine : g.issued_ok refresh.token_hash) where
      pub login-Keeps :
          (token : String) → Keeps g (login_execute lower verify issue now refresh token) (λ a. ⊤)
      unfolding login_execute
      login-Keeps token = bind-Keeps g (lift-Keeps g (verify token)) (λ identity _.
          bind-Keeps g (login_credentials-Keeps identity)
            (λ c _. open_session-Keeps g issue refresh c fine))

      reject_existing-Keeps : (o : Option UserCredential) → Keeps g (reject_existing o) (λ a. ⊤)
      reject_existing-Keeps none = any-Keeps g (pure-Keeps g tt)
      reject_existing-Keeps (some c) = raise-Keeps g user_already_exists (λ a. ⊤)

      reject_email-Keeps : (o : Option String) → Keeps g (reject_email o) (λ a. ⊤)
      unfolding reject_email
      reject_email-Keeps none = any-Keeps g (pure-Keeps g tt)
      reject_email-Keeps (some e) =
          bind-Keeps g (find_by_verified_email-Keeps e) (λ o _. reject_existing-Keeps o)

      ensure_new_user-Keeps :
          (identity : ExternalIdentity) → Keeps g (ensure_new_user lower identity) (λ a. ⊤)
      unfolding ensure_new_user
      ensure_new_user-Keeps identity =
          bind-Keeps g (find_by_external_identity-Keeps identity) (λ o _.
            bind-Keeps g (reject_existing-Keeps o)
              (λ _ _. reject_email-Keeps (verified_email lower identity)))

      created_id :
          (user_id id : ℕ) (at : Option ℕ) (c : UserCredential)
          → assemble_user_credential user_id "user" id at ≡ ok c
          → c.id ≡ id
      unfolding assemble_user_credential role
      created_id user_id id at c h = ground (arith, h)

      put_credential-Keeps :
          (c : UserCredential) → g.from ≤ c.id → Keeps g (modify (put_credential c)) (λ a. ⊤)
      put_credential-Keeps c later = modify-Keeps g (put_credential c) (λ t k. record {
        tokens = k.tokens;
        sessions = k.sessions;
        credentials =
            All-append g.credential_ok t.user_credentials (c ∷ []) k.credentials
              (g.credential_new c later, tt);
      })

      create_for_external_identity-Keeps :
          (identity : ExternalIdentity) (user_id : ℕ)
          → Keeps g (create_for_external_identity lower identity user_id now) (λ a. ⊤)
      unfolding create_for_external_identity
      create_for_external_identity-Keeps identity user_id =
          bind-Keeps g (uuid4-Keeps g) (λ id later.
            bind-Keeps g (lift-Keeps g (assemble_user_credential user_id "user" id (some now)))
              (λ c made.
                bind-Keeps g
                  (put_credential-Keeps c (rw (created_id user_id id (some now) c made) later))
                  (λ _ _.
                    bind-Keeps g (attach-Keeps lower c.id identity)
                      (λ _ _. any-Keeps g (pure-Keeps g c)))))

      raise_details-Keeps : (ds : List String) → Keeps g (raise_details ds) (λ a. ⊤)
      raise_details-Keeps [] = any-Keeps g (pure-Keeps g tt)
      raise_details-Keeps (d ∷ ds) = raise-Keeps g (validation_error (d ∷ ds)) (λ a. ⊤)

      pub signup-Keeps :
          (provision : ExternalIdentity → Result ℕ) (c : SignupCommand)
          → Keeps g (signup_execute lower verify provision issue now refresh c) (λ a. ⊤)
      unfolding signup_execute create_account
      signup-Keeps provision c = bind-Keeps g (raise_details-Keeps (signup_details c)) (λ _ _.
          bind-Keeps g (lift-Keeps g (verify c.provider_token)) (λ identity _.
            try_except-Keeps g {m = create_account lower provision issue now refresh identity}
              {handler = λ e. rollback >> raise e}
              (bind-Keeps g (ensure_new_user-Keeps identity) (λ _ _.
                bind-Keeps g (lift-Keeps g (provision identity)) (λ user_id _.
                  bind-Keeps g (create_for_external_identity-Keeps identity user_id)
                    (λ made _. open_session-Keeps g issue refresh made fine))))
              (λ e. bind-Keeps g (rollback-Keeps g) (λ _ _. raise-Keeps g e (λ a. ⊤)))))

  drop_account-Keeps : (id : ℕ) → Keeps g (modify (drop_account id)) (λ a. ⊤)
  drop_account-Keeps id = modify-Keeps g (drop_account id) (λ t k. record {
    tokens = All-select g.token_ok (λ r. not (r.credentials_id == id)) t.refresh_tokens k.tokens;
    sessions =
        All-select g.session_ok (λ s. not (s.credentials_id == id)) t.auth_sessions k.sessions;
    credentials =
        All-select g.credential_ok (λ c. not (has_id id c)) t.user_credentials k.credentials;
  })

  drop_if_owned-Keeps :
      (b : Bool) (id : ℕ) → Keeps g (if b then modify (drop_account id) else pure tt) (λ a. ⊤)
  drop_if_owned-Keeps true id = drop_account-Keeps id
  drop_if_owned-Keeps false id = any-Keeps g (pure-Keeps g tt)

  delete_account-Keeps : (user_id id : ℕ) → Keeps g (delete_account_auth_state user_id id) (λ a. ⊤)
  unfolding delete_account_auth_state
  delete_account-Keeps user_id id =
      bind-Keeps g (any_query g (exists_active_credential user_id id))
        (λ owned _. drop_if_owned-Keeps owned id)

  pub withdraw-Keeps :
      (clean : ℕ → Result ⊤) (user_id id : ℕ) → Keeps g (withdraw_execute clean user_id id) (λ a. ⊤)
  unfolding withdraw_execute
  withdraw-Keeps clean user_id id =
      bind-Keeps g (delete_account-Keeps user_id id)
        (λ _ _. bind-Keeps g (lift-Keeps g (clean user_id)) (λ _ _. commit-Keeps g))

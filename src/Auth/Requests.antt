-- ===== src/Auth/Requests.antt =====
-- The commands of app/modules/auth keep every guard under which the hashes that they issue are allowed.
use boat_backend.Prelude.{
  ℕ, ◌≤◌, ◌≡◌, String, Bool, true, false, not, List, [], ◌∷◌, Option, none, some, arith, All,
  All-append, find-All, select, find, Bool-cases, Option-cases, inl, inr, ⊤, subst, is_some, leb,
  ◌==◌,
}
use boat_backend.Core.Errors.{ok, authentication_error}
use boat_backend.Database.{replace_where, holds}
use boat_backend.Auth.Domain.{
  UserCredential, AuthSession, RefreshToken, create_refresh_token, assemble_user_credential,
  token_hash,
}
use boat_backend.Auth.Store.{AuthTables, ◌>>◌, query, modify}
use boat_backend.Auth.Repository.{
  put_token, put_session, find_credential, create_session, save_refresh_token,
}
use boat_backend.Auth.Tokens.{
  find_token, has_hash, drop_tokens, revoke_sessions, find_session, reject_if, required, take_token,
  renew_token, rotate_refresh_token, revoke_where, revoke_session_by_refresh_token, revoke_found,
  is_live_token,
}
use boat_backend.Auth.Commands.{
  AccessTokenIssuer, IssuedRefreshToken, tokens, refresh_execute, logout_execute, open_session,
}
use boat_backend.Auth.Keeps.{
  Guard, Keeps, bind-Keeps, pure-Keeps, raise-Keeps, lift-Keeps, query-Keeps, any-Keeps,
  modify-Keeps, uuid4-Keeps, commit-Keeps,
}

module _ {A : Type 0} (P : A → Type 0) where
  pub All-select : (p : A → Bool) (xs : List A) → All P xs → All P (select p xs)
  All-select p [] h = tt
  All-select p (x ∷ xs) h = elim (Bool-cases (p x)) [
    | inl e ↦ rw e (h.0, All-select p xs h.1)
    | inr e ↦ rw e (All-select p xs h.1)
  ]

  pub All-replace_where :
      (p : A → Bool) (a : A) (xs : List A) → P a → All P xs → All P (replace_where p a xs)
  All-replace_where p a [] h k = tt
  All-replace_where p a (x ∷ xs) h k = elim (Bool-cases (p x)) [
    | inl e ↦ rw e (h, All-replace_where p a xs h k.1)
    | inr e ↦ rw e (k.0, All-replace_where p a xs h k.1)
  ]

  -- A row that was found, if any.
  abbrev pub OnSome : Option A → Type 0
  OnSome none = ⊤
  OnSome (some a) = P a

  pub find-OnSome : (p : A → Bool) (xs : List A) → All P xs → OnSome (find p xs)
  find-OnSome p xs h = elim (Option-cases (find p xs)) [
    | inl e ↦ rw e tt
    | inr (a, e) ↦ rw e (find-All P p xs a h e)
  ]

pub created_hash :
    (id credentials_id : ℕ) (hash : String) (expires_at : ℕ) (session_id : Option ℕ)
    (r : RefreshToken)
    → create_refresh_token id credentials_id hash expires_at session_id ≡ ok r
    → hash ≡ r.token_hash
unfolding create_refresh_token token_hash
created_hash id credentials_id hash expires_at session_id r h = ground (arith, h)

module _ (g : Guard) where
  All-revoke_where :
      (p : AuthSession → Bool) (now : ℕ) (xs : List AuthSession)
      → All g.session_ok xs
      → All g.session_ok (revoke_where p now xs)
  All-revoke_where p now [] k = tt
  All-revoke_where p now (x ∷ xs) k = elim (Bool-cases (p x)) [
    | inl e ↦ rw e (g.session_revoked now x k.0, All-revoke_where p now xs k.1)
    | inr e ↦ rw e (k.0, All-revoke_where p now xs k.1)
  ]

  reject_if-Keeps : (b : Bool) → Keeps g (reject_if b) (λ a. ⊤)
  reject_if-Keeps true = raise-Keeps g authentication_error (λ a. ⊤)
  reject_if-Keeps false = any-Keeps g (pure-Keeps g tt)

  required-Keeps :
      {A : Type 0} (P : A → Type 0) (o : Option A) → OnSome P o → Keeps g (required o) P
  unfolding required
  required-Keeps P none h = raise-Keeps g authentication_error P
  required-Keeps P (some a) h = record {
    safe = λ s i. i;
    returns = λ s b i e. subst P (ground (arith, e)) h;
  }

  abbrev Any : {A : Type 0} → A → Type 0
  Any a = ⊤

  Any-OnSome : {A : Type 0} (o : Option A) → OnSome Any o
  Any-OnSome none = tt
  Any-OnSome (some a) = tt

  pub any_query : {A : Type 0} (f : AuthTables → A) → Keeps g (query f) (λ a. ⊤)
  any_query f = query-Keeps g f (λ a. ⊤) (λ t i. tt)

  put_token-Keeps :
      (hash : String) (r : RefreshToken)
      → g.issued_ok hash
      → hash ≡ r.token_hash
      → Keeps g (modify (put_token r)) (λ a. ⊤)
  put_token-Keeps hash r fine same = modify-Keeps g (put_token r) (λ t i. record {
    tokens =
        All-append g.token_ok t.refresh_tokens (r ∷ []) i.tokens
          (g.token_new r (subst g.issued_ok same fine), tt);
    sessions = i.sessions;
    credentials = i.credentials;
  })

  drop_tokens-Keeps : (p : RefreshToken → Bool) → Keeps g (modify (drop_tokens p)) (λ a. ⊤)
  drop_tokens-Keeps p = modify-Keeps g (drop_tokens p) (λ t i. record {
    tokens = All-select g.token_ok (λ r. not (p r)) t.refresh_tokens i.tokens;
    sessions = i.sessions;
    credentials = i.credentials;
  })

  take_token-Keeps : (hash : String) → Keeps g (take_token hash) (λ a. ⊤)
  unfolding take_token
  take_token-Keeps hash = bind-Keeps g (any_query (find_token hash)) (λ found _.
      bind-Keeps g (drop_tokens-Keeps (has_hash hash)) (λ _ _. any-Keeps g (pure-Keeps g found)))

  renew-Keeps :
      (new_hash : String) (expires_at : ℕ) (credentials : UserCredential) (session_id id : ℕ)
      → g.issued_ok new_hash
      → Keeps g (renew_token credentials session_id id new_hash expires_at) (λ a. ⊤)
  unfolding renew_token
  renew-Keeps new_hash expires_at credentials session_id id fine =
      bind-Keeps g
        (lift-Keeps g
          (create_refresh_token id credentials.id new_hash expires_at (some session_id)))
        (λ token made.
          bind-Keeps g
            (put_token-Keeps new_hash token fine
              (created_hash id credentials.id new_hash expires_at (some session_id) token made))
            (λ _ _.
              bind-Keeps g
                (lift-Keeps g (
                  assemble_user_credential credentials.user_id credentials.role credentials.id
                    credentials.last_login_at))
                (λ restored _.
                  any-Keeps g
                    (pure-Keeps g (record { credentials = restored; session_id = session_id })))))

  rotate-Keeps :
      (now : ℕ) (hash new_hash : String) (expires_at : ℕ)
      → g.issued_ok new_hash
      → Keeps g (rotate_refresh_token now hash new_hash expires_at) (λ a. ⊤)
  unfolding rotate_refresh_token
  rotate-Keeps now hash new_hash expires_at fine = bind-Keeps g (take_token-Keeps hash) (λ taken _.
      bind-Keeps g (required-Keeps Any taken (Any-OnSome taken)) (λ row _.
        bind-Keeps g (required-Keeps Any row.session_id (Any-OnSome row.session_id))
          (λ session_id _. bind-Keeps g (reject_if-Keeps (leb row.expires_at now)) (λ _ _.
            bind-Keeps g (any_query (find_session session_id)) (λ session_row _.
              bind-Keeps g (required-Keeps Any session_row (Any-OnSome session_row))
                (λ auth_session _.
                  bind-Keeps g (reject_if-Keeps (is_some auth_session.revoked_at)) (λ _ _.
                    bind-Keeps g (any_query (find_credential row.credentials_id))
                      (λ credential_row _.
                        bind-Keeps g (required-Keeps Any credential_row (Any-OnSome credential_row))
                          (λ credentials _.
                            bind-Keeps g
                              (reject_if-Keeps
                                (not (credentials.id == auth_session.credentials_id)))
                              (λ _ _. bind-Keeps g (uuid4-Keeps g) (λ id _.
                                renew-Keeps new_hash expires_at credentials auth_session.id id
                                  fine)))))))))))

  module _ (issue : AccessTokenIssuer) where
    pub refresh-Keeps :
        (hash : String → String) (now : ℕ) (rotated : IssuedRefreshToken) (token : String)
        → g.issued_ok rotated.token_hash
        → Keeps g (refresh_execute issue hash now rotated token) (λ a. ⊤)
    unfolding refresh_execute
    refresh-Keeps hash now rotated token fine =
        bind-Keeps g (rotate-Keeps now (hash token) rotated.token_hash rotated.expires_at fine)
          (λ sc _. bind-Keeps g (commit-Keeps g) (λ _ _. any-Keeps g (
            pure-Keeps g (
              tokens
                (issue sc.credentials.user_id sc.credentials.id sc.session_id sc.credentials.role)
                rotated))))

    save_refresh_token-Keeps :
        (credentials_id session_id : ℕ) (hash : String) (expires_at : ℕ)
        → g.issued_ok hash
        → Keeps g (save_refresh_token credentials_id session_id hash expires_at) (λ a. ⊤)
    unfolding save_refresh_token
    save_refresh_token-Keeps credentials_id session_id hash expires_at fine =
        bind-Keeps g (uuid4-Keeps g) (λ id _.
          bind-Keeps g
            (lift-Keeps g
              (create_refresh_token id credentials_id hash expires_at (some session_id)))
            (λ token made.
              put_token-Keeps hash token fine
                (created_hash id credentials_id hash expires_at (some session_id) token made)))

    create_session-Keeps : (credentials_id : ℕ) → Keeps g (create_session credentials_id) (λ a. ⊤)
    unfolding create_session
    create_session-Keeps credentials_id = bind-Keeps g (uuid4-Keeps g) (λ id later.
        bind-Keeps g
          (put_session-Keeps
            (record { id = id; credentials_id = credentials_id; revoked_at = none }) later)
          (λ _ _. any-Keeps g (pure-Keeps g id)))
      where
        put_session-Keeps :
            (s : AuthSession) → g.from ≤ s.id → Keeps g (modify (put_session s)) (λ a. ⊤)
        put_session-Keeps s later = modify-Keeps g (put_session s) (λ t i. record {
          tokens = i.tokens;
          sessions =
              All-append g.session_ok t.auth_sessions (s ∷ []) i.sessions
                (g.session_new s later, tt);
          credentials = i.credentials;
        })

    pub open_session-Keeps :
        (refresh : IssuedRefreshToken) (c : UserCredential)
        → g.issued_ok refresh.token_hash
        → Keeps g (open_session issue refresh c) (λ a. ⊤)
    unfolding open_session
    open_session-Keeps refresh c fine = bind-Keeps g (create_session-Keeps c.id) (λ session_id _.
        bind-Keeps g
          (save_refresh_token-Keeps c.id session_id refresh.token_hash refresh.expires_at fine)
          (λ _ _. bind-Keeps g (commit-Keeps g) (λ _ _.
            any-Keeps g (pure-Keeps g (tokens (issue c.user_id c.id session_id c.role) refresh)))))

  revoke_session-Keeps :
      (now id : ℕ)
      → Keeps g
          (modify (revoke_sessions (λ s. s.id == id) now)
            >> modify (drop_tokens (λ r. holds r.session_id id)))
          (λ a. ⊤)
  revoke_session-Keeps now id =
      bind-Keeps g
        (modify-Keeps g (revoke_sessions (λ s. s.id == id) now) (λ t i. record {
          tokens = i.tokens;
          sessions = All-revoke_where (λ s. s.id == id) now t.auth_sessions i.sessions;
          credentials = i.credentials;
        }))
        (λ _ _. drop_tokens-Keeps (λ r. holds r.session_id id))

  revoke_found-Keeps : (now : ℕ) (o : Option RefreshToken) → Keeps g (revoke_found now o) (λ a. ⊤)
  unfolding revoke_found
  revoke_found-Keeps now none = any-Keeps g (pure-Keeps g tt)
  revoke_found-Keeps now (some token) = elim (Option-cases token.session_id) [
    | inl e ↦ rw e (drop_tokens-Keeps (λ r. r.id == token.id))
    | inr (id, e) ↦ rw e (revoke_session-Keeps now id)
  ]

  revoke-Keeps :
      (now : ℕ) (hash : String) → Keeps g (revoke_session_by_refresh_token now hash) (λ a. ⊤)
  unfolding revoke_session_by_refresh_token
  revoke-Keeps now hash =
      bind-Keeps g (any_query (λ t. find (is_live_token now hash) t.refresh_tokens))
        (λ found _. revoke_found-Keeps now found)

  pub logout-Keeps :
      (hash : String → String) (now : ℕ) (token : String)
      → Keeps g (logout_execute hash now token) (λ a. ⊤)
  unfolding logout_execute
  logout-Keeps hash now token = bind-Keeps g (revoke-Keeps now (hash token)) (λ _ _. commit-Keeps g)

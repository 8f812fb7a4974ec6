-- ===== src/Auth/Rotation.antt =====
-- A refresh token of app/modules/auth works once.
use boat_backend.Prelude.{
  ℕ, ◌+◌, ◌≡◌, String, false, not, List, [], ◌∷◌, Option, none, some, arith, All, All-append,
  select, Bool-cases, Option-cases, inl, inr, ⊤, is_some, leb, ◌==◌, text_eq, subst,
}
use boat_backend.Core.Errors.{Result, ok, Constraint}
use boat_backend.Auth.Domain.{
  RefreshToken, UserCredential, create_refresh_token, assemble_user_credential,
}
use boat_backend.Auth.Store.{Store, query, modify, uuid4, commit, violated, commit_ok, commit_err}
use boat_backend.Auth.Repository.{put_token, find_credential}
use boat_backend.Auth.Tokens.{
  has_hash, find_session, drop_tokens, take_token, renew_token, rotate_refresh_token,
}
use boat_backend.Auth.Commands.{AccessTokenIssuer, IssuedRefreshToken, refresh_execute}
use boat_backend.Auth.Ensures.{
  Ensures, bind-Ensures, weaken-Ensures, pure-Ensures, lift-Ensures, query-Ensures,
  required-Ensures, reject_if-Ensures,
}
use boat_backend.Auth.Requests.{created_hash}

module _ (h : String) where
  abbrev pub NotSpent : RefreshToken → Type 0
  NotSpent r = has_hash h r ≡ false

  -- The token with the hash is gone, in the tables that the request works on.
  abbrev IsGone : Store → Type 0
  IsGone s = All NotSpent s.working.refresh_tokens

  select-NotSpent : (xs : List RefreshToken) → All NotSpent (select (λ r. not (has_hash h r)) xs)
  select-NotSpent [] = tt
  select-NotSpent (x ∷ xs) = elim (Bool-cases (has_hash h x)) [
    | inl e ↦ rw e (select-NotSpent xs)
    | inr e ↦ rw e (e, select-NotSpent xs)
  ]

  take_token-IsGone : Ensures (λ s. ⊤) (take_token h) (λ o s. IsGone s)
  unfolding take_token query modify
  take_token-IsGone = record {
    holds = λ s s' o i e. subst IsGone (taken s s' o e) (select-NotSpent s.working.refresh_tokens);
  }
    where
      taken :
          (s s' : Store) (o : Option RefreshToken)
          → take_token h s ≡ (ok o, s')
          → record s { working = drop_tokens (has_hash h) s.working } ≡ s'
      taken s s' o e = ground (arith, e)

  uuid4-IsGone : Ensures IsGone uuid4 (λ id s. IsGone s)
  unfolding uuid4
  uuid4-IsGone = record { holds = λ s s' id i e. subst IsGone (drawn s s' id e) i }
    where
      drawn :
          (s s' : Store) (id : ℕ) → uuid4 s ≡ (ok id, s') → record s { fresh = s.fresh + 1 } ≡ s'
      drawn s s' id e = ground (arith, e)

  put_token-IsGone :
      (made : Result RefreshToken) (r : RefreshToken)
      → (made ≡ ok r → NotSpent r)
      → Ensures (λ s. (made ≡ ok r) × IsGone s) (modify (put_token r)) (λ a s. IsGone s)
  unfolding modify
  put_token-IsGone made r other = record {
    holds = λ s s' a i e.
        subst IsGone (put s s' a e)
          (All-append NotSpent s.working.refresh_tokens (r ∷ []) i.1 (other i.0, tt));
  }
    where
      put :
          (s s' : Store) (a : ⊤)
          → modify (put_token r) s ≡ (ok a, s')
          → record s { working = put_token r s.working } ≡ s'
      put s s' a e = ground (arith, e)

  abbrev IsGoneForGood : Store → Type 0
  IsGoneForGood s = All NotSpent s.committed.refresh_tokens

  commit-IsGoneForGood : Ensures IsGone commit (λ a s. IsGoneForGood s)
  commit-IsGoneForGood = record {
    holds = λ s s' a i e. elim (Option-cases (violated s.working)) [
      | inl n ↦ subst IsGoneForGood (stored s s' a n e) i
      | inr (c, n) ↦ absurd (refused s s' a c n e)
    ];
  }
    where
      stored :
          (s s' : Store) (a : ⊤)
          → violated s.working ≡ none
          → commit s ≡ (ok a, s')
          → record s { committed = s.working } ≡ s'
      stored s s' a n e = ground (arith, commit_ok s n, e)

      refused :
          (s s' : Store) (a : ⊤) (c : Constraint)
          → violated s.working ≡ some c
          → commit s ≡ (ok a, s')
          → ⊥
      refused s s' a c n e = ground (arith, commit_err s c n, e)

  renewed :
      (new_hash : String) (expires_at : ℕ) (credentials : UserCredential) (session_id id : ℕ)
      → text_eq new_hash h ≡ false
      → Ensures IsGone (renew_token credentials session_id id new_hash expires_at) (λ a s. IsGone s)
  unfolding renew_token
  renewed new_hash expires_at credentials session_id id other =
      bind-Ensures
        (lift-Ensures IsGone
          (create_refresh_token id credentials.id new_hash expires_at (some session_id)))
        (λ token.
          bind-Ensures
            (put_token-IsGone
              (create_refresh_token id credentials.id new_hash expires_at (some session_id)) token
              (λ made.
                subst (λ x. text_eq x h ≡ false)
                  (created_hash id credentials.id new_hash expires_at (some session_id) token made)
                  other))
            (λ _.
              bind-Ensures
                (lift-Ensures IsGone (
                  assemble_user_credential credentials.user_id credentials.role credentials.id
                    credentials.last_login_at))
                (λ restored.
                  weaken-Ensures
                    (pure-Ensures _ (record { credentials = restored; session_id = session_id }))
                    (λ a s i. i.1))))

  rotate-IsGone :
      (now : ℕ) (new_hash : String) (expires_at : ℕ)
      → text_eq new_hash h ≡ false
      → Ensures (λ s. ⊤) (rotate_refresh_token now h new_hash expires_at) (λ a s. IsGone s)
  unfolding rotate_refresh_token
  rotate-IsGone now new_hash expires_at other = bind-Ensures take_token-IsGone (λ taken.
      bind-Ensures (required-Ensures IsGone taken) (λ row.
        bind-Ensures (required-Ensures IsGone row.session_id) (λ session_id.
          bind-Ensures (reject_if-Ensures IsGone (leb row.expires_at now)) (λ _.
            bind-Ensures (query-Ensures IsGone (find_session session_id)) (λ session_row.
              bind-Ensures (required-Ensures IsGone session_row) (λ auth_session.
                bind-Ensures (reject_if-Ensures IsGone (is_some auth_session.revoked_at)) (λ _.
                  bind-Ensures (query-Ensures IsGone (find_credential row.credentials_id))
                    (λ credential_row.
                      bind-Ensures (required-Ensures IsGone credential_row) (λ credentials.
                        bind-Ensures
                          (reject_if-Ensures IsGone
                            (not (credentials.id == auth_session.credentials_id)))
                          (λ _. bind-Ensures uuid4-IsGone (λ id.
                            renewed new_hash expires_at credentials auth_session.id id
                              other)))))))))))

  module _ (issue : AccessTokenIssuer) (hash : String → String) (token : String)
      (same : hash token ≡ h) where
    pub refresh-IsGoneForGood :
        (now : ℕ) (rotated : IssuedRefreshToken)
        → text_eq rotated.token_hash h ≡ false
        → Ensures (λ s. ⊤) (refresh_execute issue hash now rotated token) (λ a s. IsGoneForGood s)
    unfolding refresh_execute
    refresh-IsGoneForGood now rotated other =
        bind-Ensures (rw same (rotate-IsGone now rotated.token_hash rotated.expires_at other))
          (λ sc. bind-Ensures commit-IsGoneForGood (λ _. pure-Ensures IsGoneForGood _))

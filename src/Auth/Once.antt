-- ===== src/Auth/Once.antt =====
-- A refresh token of app/modules/auth works once.
use boat_backend.Prelude.{
  ℕ, ◌≡◌, refl, String, false, List, [], ◌∷◌, none, arith, All, find, text_eq,
}
use boat_backend.Core.Errors.{ok, err, authentication_error}
use boat_backend.Auth.Domain.{RefreshToken}
use boat_backend.Auth.Store.{Store, Action, query, modify, serve}
use boat_backend.Auth.Tokens.{has_hash, find_token, required, take_token, rotate_refresh_token}
use boat_backend.Auth.Commands.{AccessTokenIssuer, IssuedRefreshToken, Tokens, refresh_execute}
use boat_backend.Auth.Keeps.{Guard, IsGuarded, IsSafe}
use boat_backend.Auth.Rotation.{NotSpent, refresh-IsGoneForGood}
use boat_backend.Auth.Ended.{IsAnything, All-IsAnything, served-working}
use boat_backend.Auth.Steps.{Reaches, Reaches-IsSafe}

-- Hashes other than the one of the token
abbrev pub IsOther : String → String → Type 0
IsOther h issued = text_eq issued h ≡ false

abbrev pub hash_guard : String → Guard
hash_guard h = record {
  issued_ok = IsOther h;
  token_ok = NotSpent h;
  session_ok = IsAnything;
  credential_ok = IsAnything;
  from = 0;
  token_new = λ r k. k;
  session_new = λ s k. tt;
  session_revoked = λ now s k. tt;
  credential_new = λ c k. tt;
  credential_login = λ at c k. tt;
}

find-NotSpent :
    (h : String) (xs : List RefreshToken) → All (NotSpent h) xs → find (has_hash h) xs ≡ none
find-NotSpent h [] k = refl
find-NotSpent h (x ∷ xs) k = ground (arith, k.0, find-NotSpent h xs k.1)

served_ok :
    {A : Type 0} (m : Action A) (a : A) (s : Store)
    → (serve m s).0 ≡ ok a
    → m (record s { working = s.committed }) ≡ (ok a, (m (record s { working = s.committed })).1)
unfolding serve
served_ok m a s h = ground (arith, h)

served_committed :
    {A : Type 0} (m : Action A) (s : Store)
    → (serve m s).1.committed ≡ (m (record s { working = s.committed })).1.committed
unfolding serve
served_committed m s = refl

module _ (issue : AccessTokenIssuer) (hash : String → String) (now : ℕ)
    (rotated : IssuedRefreshToken) (token : String) where
  refresh_unknown :
      (s : Store)
      → find_token (hash token) s.committed ≡ none
      → (serve (refresh_execute issue hash now rotated token) s).0 ≡ err authentication_error
  unfolding serve refresh_execute rotate_refresh_token take_token query modify required
  refresh_unknown s h = ground (arith, h)

module _ (issue : AccessTokenIssuer) (hash : String → String) (now : ℕ)
    (rotated : IssuedRefreshToken) (token : String) where
  refreshed-IsSafe :
      (s : Store) (answer : Tokens)
      → text_eq rotated.token_hash (hash token) ≡ false
      → (serve (refresh_execute issue hash now rotated token) s).0 ≡ ok answer
      → IsSafe (hash_guard (hash token)) (serve (refresh_execute issue hash now rotated token) s).1
  refreshed-IsSafe s answer other done = record {
    committed = gone;
    working =
        served-working (refresh_execute issue hash now rotated token) s
          (IsGuarded (hash_guard (hash token))) gone;
    later = omega arith;
  }
    where
      gone :
          IsGuarded
            (hash_guard (hash token))
            (serve (refresh_execute issue hash now rotated token) s).1.committed
      gone = record {
        tokens = rw (served_committed (refresh_execute issue hash now rotated token) s) (
            (refresh-IsGoneForGood (hash token) issue hash token refl now rotated other).holds
              (record s { working = s.committed }) _ answer tt
              (served_ok (refresh_execute issue hash now rotated token) answer s done));
        sessions = All-IsAnything _;
        credentials = All-IsAnything _;
      }

  -- A refresh token that has been exchanged is refused from then on, whatever requests follow, as long as
  -- no refresh token with the same hash is issued.
  pub refresh_token_works_once :
      (s s' : Store) (answer : Tokens) (issue' : AccessTokenIssuer) (now' : ℕ)
      (rotated' : IssuedRefreshToken)
      → text_eq rotated.token_hash (hash token) ≡ false
      → (serve (refresh_execute issue hash now rotated token) s).0 ≡ ok answer
      → Reaches (IsOther (hash token)) (serve (refresh_execute issue hash now rotated token) s).1 s'
      → (serve (refresh_execute issue' hash now' rotated' token) s').0 ≡ err authentication_error
  refresh_token_works_once s s' answer issue' now' rotated' other done reached =
      refresh_unknown issue' hash now' rotated' token s'
        (find-NotSpent (hash token) s'.committed.refresh_tokens later.committed.tokens)
    where
      later : IsSafe (hash_guard (hash token)) s'
      later =
          Reaches-IsSafe (hash_guard (hash token)) _ s' reached
            (refreshed-IsSafe s answer other done)

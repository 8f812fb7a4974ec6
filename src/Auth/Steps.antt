-- ===== src/Auth/Steps.antt =====
-- What becomes of the store of app/modules/auth: requests of every kind, one after another, by anyone, at any
-- time, where the hashes of the refresh tokens that are issued satisfy a condition.
use boat_backend.Prelude.{ℕ, String, ⊤}
use boat_backend.Core.Errors.{Result}
use boat_backend.Auth.Domain.{ExternalIdentity}
use boat_backend.Auth.Store.{Store, serve}
use boat_backend.Auth.Commands.{
  AccessTokenIssuer, IssuedRefreshToken, SignupCommand, refresh_execute, logout_execute,
  login_execute, withdraw_execute, signup_execute,
}
use boat_backend.Auth.Keeps.{Guard, IsSafe, serve-IsSafe}
use boat_backend.Auth.Requests.{refresh-Keeps, logout-Keeps}
use boat_backend.Auth.Logins.{login-Keeps, signup-Keeps, withdraw-Keeps}

pub data Step (issued : String → Type 0) (s : Store) : Store → Type 0 where
  refreshes :
      (issue : AccessTokenIssuer) (hash : String → String) (now : ℕ) (rotated : IssuedRefreshToken)
      (token : String)
      → issued rotated.token_hash
      → Step issued s (serve (refresh_execute issue hash now rotated token) s).1
  logs_out :
      (hash : String → String) (now : ℕ) (token : String)
      → Step issued s (serve (logout_execute hash now token) s).1
  logs_in :
      (lower : String → String) (verify : String → Result ExternalIdentity)
      (issue : AccessTokenIssuer) (now : ℕ) (refresh : IssuedRefreshToken) (token : String)
      → issued refresh.token_hash
      → Step issued s (serve (login_execute lower verify issue now refresh token) s).1
  signs_up :
      (lower : String → String) (verify : String → Result ExternalIdentity)
      (provision : ExternalIdentity → Result ℕ) (issue : AccessTokenIssuer) (now : ℕ)
      (refresh : IssuedRefreshToken) (c : SignupCommand)
      → issued refresh.token_hash
      → Step issued s (serve (signup_execute lower verify provision issue now refresh c) s).1
  withdraws :
      (clean : ℕ → Result ⊤) (user_id credentials_id : ℕ)
      → Step issued s (serve (withdraw_execute clean user_id credentials_id) s).1

pub data Reaches (issued : String → Type 0) (s : Store) : Store → Type 0 where
  stays : Reaches issued s s
  steps : {s' s'' : Store} → Reaches issued s s' → Step issued s' s'' → Reaches issued s s''

module _ (g : Guard) where
  Step-IsSafe : (s s' : Store) → Step g.issued_ok s s' → IsSafe g s → IsSafe g s'
  Step-IsSafe s s' (refreshes issue hash now rotated token fine) i =
      serve-IsSafe g _ (λ a. ⊤) s (refresh-Keeps g issue hash now rotated token fine) i
  Step-IsSafe s s' (logs_out hash now token) i =
      serve-IsSafe g _ (λ a. ⊤) s (logout-Keeps g hash now token) i
  Step-IsSafe s s' (logs_in lower verify issue now refresh token fine) i =
      serve-IsSafe g _ (λ a. ⊤) s (login-Keeps g lower now verify issue refresh fine token) i
  Step-IsSafe s s' (signs_up lower verify provision issue now refresh c fine) i =
      serve-IsSafe g _ (λ a. ⊤) s (signup-Keeps g lower now verify issue refresh fine provision c) i
  Step-IsSafe s s' (withdraws clean user_id id) i =
      serve-IsSafe g _ (λ a. ⊤) s (withdraw-Keeps g clean user_id id) i

  pub Reaches-IsSafe : (s s' : Store) → Reaches g.issued_ok s s' → IsSafe g s → IsSafe g s'
  Reaches-IsSafe s s' stays i = i
  Reaches-IsSafe s s' (steps before step) i = Step-IsSafe _ _ step (Reaches-IsSafe s _ before i)

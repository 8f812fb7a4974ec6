-- ===== src/Auth/Store.antt =====
-- The tables of app/modules/auth/infrastructure/persistence/orm.py, and one request's session over them: it
-- works on a copy of the committed tables, which `commit` stores if the unique constraints hold. The
-- constraints are looked at there and not at each flush; either way a request that breaks one raises and
-- stores nothing. Requests are served one after another.
use boat_backend.Prelude.{
  arith, ◌≡◌, ℕ, ◌+◌, String, Bool, false, ◌&&◌, ◌||◌, List, [], ◌∷◌, Option, none, some, ◌==◌,
  text_eq, ⊤, if◌then◌else◌,
}
use boat_backend.Core.Errors.{
  Error, Result, ok, err, integrity_error, Constraint, uq_user_credentials_user_id,
  uq_external_identities_issuer_subject, uq_external_identities_credentials_issuer,
  uq_refresh_tokens_token_hash,
}
use boat_backend.Auth.Domain.{UserCredential, AuthSession, RefreshToken}

-- `orm.ExternalIdentity`
pub record ExternalIdentityRow : Type 0 where
  pub id : ℕ
  pub credentials_id : ℕ
  pub issuer : String
  pub subject : String
  pub provider : String
  pub email : Option String
  pub normalized_email : Option String
  pub email_verified : Bool

pub record AuthTables : Type 0 where
  pub user_credentials : List UserCredential
  pub external_identities : List ExternalIdentityRow
  pub auth_sessions : List AuthSession
  pub refresh_tokens : List RefreshToken

module _ {ℓ} {A : Type ℓ} where
  abbrev pub any : (A → Bool) → List A → Bool
  any p [] = false
  any p (x ∷ xs) = p x || any p xs

  -- Two elements that the test takes for the same.
  abbrev pub repeats : (A → A → Bool) → List A → Bool
  repeats same [] = false
  repeats same (x ∷ xs) = any (same x) xs || repeats same xs

-- The unique constraint that the four tables break, if they break one.
unfoldable pub violated : AuthTables → Option Constraint
violated t =
    if repeats (λ a b. a.user_id == b.user_id) t.user_credentials
    then some uq_user_credentials_user_id
    else if repeats (λ a b. text_eq a.issuer b.issuer && text_eq a.subject b.subject)
        t.external_identities
    then some uq_external_identities_issuer_subject
    else if repeats (λ a b. a.credentials_id == b.credentials_id && text_eq a.issuer b.issuer)
        t.external_identities
    then some uq_external_identities_credentials_issuer
    else if repeats (λ a b. text_eq a.token_hash b.token_hash) t.refresh_tokens
    then some uq_refresh_tokens_token_hash
    else none

pub record Store : Type 0 where
  pub committed : AuthTables
  pub working : AuthTables
  -- the next identifier that `uuid4` draws
  pub fresh : ℕ

abbrev pub Action : Type 0 → Type 0
Action A = Store → Result A × Store

module _ {A : Type 0} where
  abbrev pub pure : A → Action A
  pure a s = (ok a, s)

  abbrev pub raise : Error → Action A
  raise e s = (err e, s)

  unfoldable pub lift : Result A → Action A
  lift r s = (r, s)

infixl 5 ◌>>=◌ ◌>>◌
abbrev pub ◌>>=◌ : {A B : Type 0} → Action A → (A → Action B) → Action B
◌>>=◌ m f s = elim (m s).0 [ ok a ↦ f a (m s).1 | err e ↦ (err e, (m s).1) ]

abbrev pub ◌>>◌ : {A B : Type 0} → Action A → Action B → Action B
m >> k = m >>= λ _. k

unfoldable pub query : {A : Type 0} → (AuthTables → A) → Action A
query f s = (ok (f s.working), s)

unfoldable pub modify : (AuthTables → AuthTables) → Action ⊤
modify f s = (ok tt, record s { working = f s.working })

unfoldable pub uuid4 : Action ℕ
uuid4 s = (ok s.fresh, record s { fresh = s.fresh + 1 })

-- `UnitOfWork.commit`
unfoldable pub commit : Action ⊤
commit s = elim (violated s.working) [
  | none ↦ (ok tt, record s { committed = s.working })
  | some c ↦ (err (integrity_error c), s)
]

pub commit_ok :
    (s : Store) → violated s.working ≡ none → commit s ≡ (ok tt, record s { committed = s.working })
unfolding commit
commit_ok s h = ground (arith, h)

pub commit_err :
    (s : Store) (c : Constraint)
    → violated s.working ≡ some c
    → commit s ≡ (err (integrity_error c), s)
unfolding commit
commit_err s c h = ground (arith, h)

-- `UnitOfWork.rollback`
unfoldable pub rollback : Action ⊤
rollback s = (ok tt, record s { working = s.committed })

-- `try: m; except BaseException: handler`
abbrev pub try_except : {A : Type 0} → Action A → (Error → Action A) → Action A
try_except m handler s = elim (m s).0 [ ok a ↦ (ok a, (m s).1) | err e ↦ handler e (m s).1 ]

-- A request has a session of its own, and closing it drops what was not committed.
unfoldable pub serve : {A : Type 0} → Action A → Store → Result A × Store
serve m s =
    let (r, after) = m (record s { working = s.committed }) in
    (r, record after { working = after.committed })

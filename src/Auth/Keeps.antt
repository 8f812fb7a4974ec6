-- ===== src/Auth/Keeps.antt =====
-- Guards on the tables of app/modules/auth: conditions on each token, session and credential that new
-- identifiers satisfy. A command keeps a guard if it keeps it in the committed and in the working tables.
use boat_backend.Prelude.{
  ℕ, ◌≤◌, ◌≡◌, refl, String, Option, arith, All, Option-cases, inl, inr, ⊤, subst,
}
use boat_backend.Core.Errors.{Result, Error, ok, err}
use boat_backend.Auth.Domain.{UserCredential, AuthSession, RefreshToken}
use boat_backend.Auth.Store.{
  AuthTables, Store, Action, ◌>>=◌, pure, raise, lift, query, modify, uuid4, commit, rollback,
  violated, try_except, serve, commit_ok, commit_err,
}
use boat_backend.Auth.Tokens.{revoked}

pub record Guard : Type 1 where
  pub issued_ok : String → Type 0
  pub token_ok : RefreshToken → Type 0
  pub session_ok : AuthSession → Type 0
  pub credential_ok : UserCredential → Type 0
  pub from : ℕ
  pub token_new : (r : RefreshToken) → issued_ok r.token_hash → token_ok r
  pub session_new : (s : AuthSession) → from ≤ s.id → session_ok s
  pub session_revoked : (now : ℕ) (s : AuthSession) → session_ok s → session_ok (revoked now s)
  pub credential_new : (c : UserCredential) → from ≤ c.id → credential_ok c
  pub credential_login :
      (at : Option ℕ) (c : UserCredential)
      → credential_ok c
      → credential_ok (record c { last_login_at = at })

pub record IsGuarded (g : Guard) (t : AuthTables) : Type 0 where
  pub tokens : All g.token_ok t.refresh_tokens
  pub sessions : All g.session_ok t.auth_sessions
  pub credentials : All g.credential_ok t.user_credentials

pub record IsSafe (g : Guard) (s : Store) : Type 0 where
  pub committed : IsGuarded g s.committed
  pub working : IsGuarded g s.working
  pub later : g.from ≤ s.fresh

-- A command keeps the guard, and what it returns satisfies `Q`.
pub record Keeps (g : Guard) {A : Type 0} (m : Action A) (Q : A → Type 0) : Type 0 where
  pub safe : (s : Store) → IsSafe g s → IsSafe g (m s).1
  pub returns : (s : Store) (a : A) → IsSafe g s → (m s).0 ≡ ok a → Q a

module _ (g : Guard) where
  module _ {A B : Type 0} where
    pub bind-Keeps :
        {m : Action A} {f : A → Action B} {Q : A → Type 0} {R : B → Type 0}
        → Keeps g m Q
        → ((a : A) → Q a → Keeps g (f a) R)
        → Keeps g (m >>= f) R
    bind-Keeps {m} {f} {Q} {R} k l = record {
      safe = λ s i. after (m s) (k.safe s i) (λ a e. k.returns s a i e);
      returns = λ s b i e. answer (m s) (k.safe s i) (λ a h. k.returns s a i h) b e;
    }
      where
        after :
            (r : Result A × Store)
            → IsSafe g r.1
            → ((a : A) → r.0 ≡ ok a → Q a)
            → IsSafe g
                (elim r.0 as (λ x. Result B × Store) [ ok a ↦ f a r.1 | err e ↦ (err e, r.1) ]).1
        after (ok a, s) i q = (l a (q a refl)).safe s i
        after (err e, s) i q = i

        answer :
            (r : Result A × Store)
            → IsSafe g r.1
            → ((a : A) → r.0 ≡ ok a → Q a)
            → (b : B)
            → (elim r.0 as (λ x. Result B × Store) [ ok a ↦ f a r.1 | err e ↦ (err e, r.1) ]).0
              ≡ ok b
            → R b
        answer (ok a, s) i q b e = (l a (q a refl)).returns s b i e
        answer (err x, s) i q b e = absurd (ground (arith, e))

  module _ {A : Type 0} where
    pub pure-Keeps : (a : A) → Keeps g (pure a) (λ b. a ≡ b)
    pure-Keeps a = record { safe = λ s i. i; returns = λ s b i e. ground (arith, e) }

    pub raise-Keeps : (e : Error) (Q : A → Type 0) → Keeps g (raise e) Q
    raise-Keeps e Q = record { safe = λ s i. i; returns = λ s b i h. absurd (ground (arith, h)) }

    pub lift-Keeps : (r : Result A) → Keeps g (lift r) (λ a. r ≡ ok a)
    unfolding lift
    lift-Keeps r = record { safe = λ s i. i; returns = λ s b i e. e }

    -- What a query finds in guarded tables.
    pub query-Keeps :
        (f : AuthTables → A) (Q : A → Type 0)
        → ((t : AuthTables) → IsGuarded g t → Q (f t))
        → Keeps g (query f) Q
    unfolding query
    query-Keeps f Q q = record {
      safe = λ s i. i;
      returns = λ s b i e. subst Q (found s b e) (q s.working i.working);
    }
      where
        found : (s : Store) (b : A) → (query f s).0 ≡ ok b → f s.working ≡ b
        found s b e = ground (arith, e)

    pub any-Keeps : {m : Action A} {Q : A → Type 0} → Keeps g m Q → Keeps g m (λ a. ⊤)
    any-Keeps k = record { safe = k.safe; returns = λ s b i e. tt }

    pub try_except-Keeps :
        {m : Action A} {handler : Error → Action A}
        → Keeps g m (λ a. ⊤)
        → ((e : Error) → Keeps g (handler e) (λ a. ⊤))
        → Keeps g (try_except m handler) (λ a. ⊤)
    try_except-Keeps {m} {handler} k l = record {
      safe = λ s i. after (m s) (k.safe s i);
      returns = λ s b i e. tt;
    }
      where
        after :
            (r : Result A × Store)
            → IsSafe g r.1
            → IsSafe g
                (elim r.0 as (λ x. Result A × Store) [
                  | ok a ↦ (ok a, r.1)
                  | err e ↦ handler e r.1
                ]).1
        after (ok a, s) i = i
        after (err e, s) i = (l e).safe s i

    pub serve-IsSafe :
        (m : Action A) (Q : A → Type 0) (s : Store)
        → Keeps g m Q
        → IsSafe g s
        → IsSafe g (serve m s).1
    unfolding serve
    serve-IsSafe m Q s k i =
        let after =
          k.safe (record s { working = s.committed })
            (record { committed = i.committed; working = i.committed; later = i.later }) in
        record { committed = after.committed; working = after.committed; later = after.later }

  pub modify-Keeps :
      (f : AuthTables → AuthTables)
      → ((t : AuthTables) → IsGuarded g t → IsGuarded g (f t))
      → Keeps g (modify f) (λ a. ⊤)
  unfolding modify
  modify-Keeps f k = record {
    safe =
        λ s i. record { committed = i.committed; working = k s.working i.working; later = i.later };
    returns = λ s a i e. tt;
  }

  pub uuid4-Keeps : Keeps g uuid4 (λ id. g.from ≤ id)
  unfolding uuid4
  uuid4-Keeps = record {
    safe = λ s i. record {
      committed = i.committed;
      working = i.working;
      later = (let l = i.later in omega (arith, l));
    };
    returns = λ s id i e. (let l = i.later in ground (arith, l, e));
  }

  pub commit-Keeps : Keeps g commit (λ a. ⊤)
  commit-Keeps = record {
    safe = λ s i. elim (Option-cases (violated s.working)) [
      | inl n ↦
          rw (commit_ok s n)
            (record { committed = i.working; working = i.working; later = i.later })
      | inr (c, n) ↦ rw (commit_err s c n) i
    ];
    returns = λ s a i e. tt;
  }

  pub rollback-Keeps : Keeps g rollback (λ a. ⊤)
  unfolding rollback
  rollback-Keeps = record {
    safe = λ s i. record { committed = i.committed; working = i.committed; later = i.later };
    returns = λ s a i e. tt;
  }

-- ===== src/Auth/Ensures.antt =====
-- What a step over the tables of app/modules/auth ensures when it returns.
use boat_backend.Prelude.{◌≡◌, refl, Bool, true, false, Option, none, some, arith, subst}
use boat_backend.Core.Errors.{Result, ok, err}
use boat_backend.Auth.Store.{AuthTables, Store, Action, ◌>>=◌, pure, lift, query}
use boat_backend.Auth.Tokens.{reject_if, required}

-- What holds of the tables before holds of them after a step that returns.
pub record Ensures {A : Type 0} (I : Store → Type 0) (m : Action A) (O : A → Store → Type 0)
    : Type 0 where
  pub holds : (s s' : Store) (a : A) → I s → m s ≡ (ok a, s') → O a s'

module _ {A B : Type 0} where
  bind_result :
      (f : A → Action B) (r : Result A × Store) (b : B) (s' : Store)
      → elim r.0 as (λ x. Result B × Store) [ ok a ↦ f a r.1 | err e ↦ (err e, r.1) ] ≡ (ok b, s')
      → (a : A) × (mid : Store) × (r ≡ (ok a, mid)) × (f a mid ≡ (ok b, s'))
  bind_result f (ok a, mid) b s' h = (a, mid, refl, h)
  bind_result f (err e, mid) b s' h = absurd (ground (arith, h))

  pub bind-Ensures :
      {m : Action A} {f : A → Action B} {I : Store → Type 0} {J : A → Store → Type 0}
      {O : B → Store → Type 0}
      → Ensures I m J
      → ((a : A) → Ensures (J a) (f a) O)
      → Ensures I (m >>= f) O
  bind-Ensures {m} {f} k l = record {
    holds = λ s s' b i h.
        (let (a, mid, ran, rest) = bind_result f (m s) b s' h in
          (l a).holds mid s' b (k.holds s mid a i ran) rest);
  }

pub weaken-Ensures :
    {B : Type 0} {m : Action B} {I : Store → Type 0} {O P : B → Store → Type 0}
    → Ensures I m O
    → ((b : B) (s : Store) → O b s → P b s)
    → Ensures I m P
weaken-Ensures k w = record { holds = λ s s' b i h. w b s' (k.holds s s' b i h) }

module _ (I : Store → Type 0) where
  -- Steps that leave the store as it is.
  module _ {A : Type 0} where
    same_store-Ensures : (m : Action A) → ((s : Store) → (m s).1 ≡ s) → Ensures I m (λ a s. I s)
    same_store-Ensures m q = record { holds = λ s s' a i h. subst I (unmoved s s' a h) i }
      where
        unmoved : (s s' : Store) (a : A) → m s ≡ (ok a, s') → s ≡ s'
        unmoved s s' a h = ground (arith, q s, h)

    pub pure-Ensures : (a : A) → Ensures I (pure a) (λ b s. I s)
    pure-Ensures a = same_store-Ensures (pure a) (λ s. refl)

    pub lift-Ensures : (r : Result A) → Ensures I (lift r) (λ b s. (r ≡ ok b) × I s)
    unfolding lift
    lift-Ensures r = record {
      holds = λ s s' a i h. (ground (arith, h), subst I (ground (arith, h)) i);
    }

    pub query-Ensures : (f : AuthTables → A) → Ensures I (query f) (λ b s. I s)
    unfolding query
    query-Ensures f = same_store-Ensures (query f) (λ s. refl)

    pub required-Ensures : (o : Option A) → Ensures I (required o) (λ b s. I s)
    unfolding required
    required-Ensures none = same_store-Ensures (required none) (λ s. refl)
    required-Ensures (some a) = same_store-Ensures (required (some a)) (λ s. refl)

  pub reject_if-Ensures : (b : Bool) → Ensures I (reject_if b) (λ b s. I s)
  reject_if-Ensures true = same_store-Ensures (reject_if true) (λ s. refl)
  reject_if-Ensures false = same_store-Ensures (reject_if false) (λ s. refl)

-- ===== src/Core/Validation/Posts.antt =====
-- What holds of the values that a computation with a `Notification` (app/core/domain/validation.py) returns.
use boat_backend.Prelude.{◌≡◌, subst, refl, String, List, [], Option, none, some, arith}
use boat_backend.Core.Errors.{Result, ok, err}
use boat_backend.Core.Validation.{Notify, ◌>>=◌, pure, collect, collect_some, value, lift, notified}

pub record Post {A : Type 0} (m : Notify A) (P : A → Type 0) : Type 0 where
  pub holds :
      (details : List String) (a : A) (after : List String) → m details ≡ ok (a, after) → P a

-- A collected value, where there is one, is the one that was made.
abbrev pub Made : {A : Type 0} → Result A → Option A → Type 0
Made r none = Unit
Made r (some a) = r ≡ ok a

-- The same where nothing was to be made of None.
abbrev pub MadeSome : {A B : Type 0} → (A → Result B) → Option A → Option B → Type 0
MadeSome f x none = Unit
MadeSome {A} f x (some b) = (a : A) × (x ≡ some a) × (f a ≡ ok b)

module _ {A B : Type 0} where
  bind_result :
      (f : A → Notify B) (r : Result (A × List String)) (b : B) (after : List String)
      → elim r [ ok p ↦ f p.0 p.1 | err e ↦ err e ] ≡ ok (b, after)
      → (a : A) × (mid : List String) × (r ≡ ok (a, mid)) × (f a mid ≡ ok (b, after))
  bind_result f (ok p) b after h = (p.0, p.1, refl, h)
  bind_result f (err e) b after h = absurd (ground arith)

  pub bind-Post :
      {m : Notify A} {f : A → Notify B} {P : A → Type 0} {Q : B → Type 0}
      → Post m P
      → ((a : A) → P a → Post (f a) Q)
      → Post (m >>= f) Q
  bind-Post {m} {f} p k = record {
    holds = λ details b after h.
        (let (a, mid, ran, rest) = bind_result f (m details) b after h in
          (k a (p.holds details a mid ran)).holds mid b after rest);
  }

  pub collect_some-Post : (f : A → Result B) (x : Option A) → Post (collect_some f x) (MadeSome f x)
  unfolding collect_some collect
  collect_some-Post f x = record { holds = found x }
    where
      of_result :
          (a : A) (r : Result B)
          → f a ≡ r
          → (details : List String) (o : Option B) (after : List String)
          → collect r details ≡ ok (o, after)
          → MadeSome f (some a) o
      of_result a r made details none after h = tt
      of_result a (ok b) made details (some c) after h = (a, refl, ground (arith, made, h))
      of_result a (err e) made details (some c) after h = absurd (ground (arith, h))

      found :
          (x : Option A) (details : List String) (o : Option B) (after : List String)
          → collect_some f x details ≡ ok (o, after)
          → MadeSome f x o
      found none details none after h = tt
      found none details (some b) after h = absurd (ground (arith, h))
      found (some a) details o after h = of_result a (f a) refl details o after h

module _ {A : Type 0} where
  pub pure-Post : (a : A) (P : A → Type 0) → P a → Post (pure a) P
  pure-Post a P p = record { holds = λ details b after h. subst P (same details b after h) p }
    where
      same :
          (details : List String) (b : A) (after : List String)
          → pure a details ≡ ok (b, after)
          → a ≡ b
      same details b after h = ground (arith, h)

  pub collect-Post : (r : Result A) → Post (collect r) (Made r)
  unfolding collect
  collect-Post r = record { holds = found r }
    where
      found :
          (r : Result A) (details : List String) (o : Option A) (after : List String)
          → collect r details ≡ ok (o, after)
          → Made r o
      found r details none after h = tt
      found (ok b) details (some a) after h = ground (arith, h)
      found (err e) details (some a) after h = absurd (ground (arith, h))

  pub value-Post : (o : Option A) → Post (value o) (λ a. o ≡ some a)
  unfolding value
  value-Post o = record { holds = found o }
    where
      found :
          (o : Option A) (details : List String) (a : A) (after : List String)
          → value o details ≡ ok (a, after)
          → o ≡ some a
      found none details a after h = absurd (ground (arith, h))
      found (some b) details a after h = ground (arith, h)

  pub lift-Post : (r : Result A) → Post (lift r) (λ a. r ≡ ok a)
  unfolding lift
  lift-Post r = record { holds = found r }
    where
      found :
          (r : Result A) (details : List String) (a : A) (after : List String)
          → lift r details ≡ ok (a, after)
          → r ≡ ok a
      found (ok b) details a after h = ground (arith, h)
      found (err e) details a after h = absurd (ground (arith, h))

  pub any-Post : (m : Notify A) → Post m (λ a. Unit)
  any-Post m = record { holds = λ details a after h. tt }

  pub notified-Post : (m : Notify A) (P : A → Type 0) → Post m P → (a : A) → notified m ≡ ok a → P a
  notified-Post m P p a h = found (m []) refl h
    where
      found :
          (r : Result (A × List String))
          → m [] ≡ r
          → elim r as (λ x. Result A) [ ok q ↦ ok q.0 | err e ↦ err e ] ≡ ok a
          → P a
      found (ok q) ran k = p.holds [] a q.1 (ground (arith, ran, k))
      found (err e) ran k = absurd (ground (arith, k))

-- ===== src/Core/Validation.antt =====
-- app/core/domain/validation.py: `Notification`, which gathers the details of failed validations, as
-- the state of a computation that may raise.
pub mod Posts
use boat_backend.Prelude.{String, List, [], ◌∷◌, ◌++◌, Option, none, some, ⊤}
use boat_backend.Core.Errors.{Error, Result, ok, err, validation_error, runtime_error}

abbrev pub Notify : Type 0 → Type 0
Notify A = List String → Result (A × List String)

abbrev pub pure : {A : Type 0} → A → Notify A
pure a details = ok (a, details)

infixl 5 ◌>>=◌ ◌>>◌
abbrev pub ◌>>=◌ : {A B : Type 0} → Notify A → (A → Notify B) → Notify B
◌>>=◌ m f details = elim (m details) [ ok r ↦ f r.0 r.1 | err e ↦ err e ]

abbrev pub ◌>>◌ : {A B : Type 0} → Notify A → Notify B → Notify B
m >> k = m >>= λ _. k

-- `Notification.collect`: only a `ValidationError` is caught, and the value is then None.
unfoldable pub collect : {A : Type 0} → Result A → Notify (Option A)
collect (ok a) details = ok (some a, details)
collect (err (validation_error fields)) details = ok (none, details ++ fields)
collect (err e) details = err e

-- `collect` under `if value is not None`
unfoldable pub collect_some : {A B : Type 0} → (A → Result B) → Option A → Notify (Option B)
collect_some f none = pure none
collect_some f (some a) = collect (f a)

-- `Notification.raise_if_any`
unfoldable pub raise_if_any : Notify ⊤
raise_if_any [] = ok (tt, [])
raise_if_any (d ∷ ds) = err (validation_error (d ∷ ds))

-- The use of a collected value, which must not be None.
unfoldable pub value : {A : Type 0} → Option A → Notify A
value none details = err runtime_error
value (some a) details = ok (a, details)

-- A function that does not validate, and may raise.
unfoldable pub lift : {A : Type 0} → Result A → Notify A
lift (ok a) details = ok (a, details)
lift (err e) details = err e

-- The function that makes a `Notification` of its own.
abbrev pub notified : {A : Type 0} → Notify A → Result A
notified m = elim (m []) [ ok r ↦ ok r.0 | err e ↦ err e ]

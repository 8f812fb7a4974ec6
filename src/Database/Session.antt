-- ===== src/Database/Session.antt =====
-- An `AsyncSession` of SQLAlchemy over the tables (app/core/db/session.py, unit_of_work.py), as the
-- repositories use it: writes are collected, `flush` sends them to the database, `commit` makes them
-- visible to other sessions, `rollback` drops them, and a query sees the committed rows with the
-- session's own writes on top. Each flush is preceded by what other sessions have committed by then,
-- the next entry of `arrivals`; with an empty list the session runs alone.
use boat_backend.Prelude.{arith, ℕ, ◌+◌, ◌≡◌, ap, List, [], ◌∷◌, ◌++◌, Option, none, some, ⊤}
use boat_backend.Core.Errors.{Constraint, Error, Result, ok, err, integrity_error}
use boat_backend.Database.{Tables, Write, apply_all, first_violation}
use boat_backend.Events.{Event}

pub record Session : Type 0 where
  pub committed : Tables
  pub pending : List Write
  pub arrivals : List (List Write)
  -- the next identifier that `uuid4` draws, and the database's `now()`
  pub fresh : ℕ
  pub now : ℕ

-- A coroutine of the application: it may change the session and may raise. What it wrote before a
-- raise stays in the session.
abbrev pub Action : Type 0 → Type 0
Action A = Session → Result A × Session

module _ {A : Type 0} where
  abbrev pub pure : A → Action A
  pure a s = (ok a, s)

  abbrev pub raise : Error → Action A
  raise e s = (err e, s)

  abbrev pub lift : Result A → Action A
  lift r s = (r, s)

infixl 5 ◌>>=◌ ◌>>◌
abbrev pub ◌>>=◌ : {A B : Type 0} → Action A → (A → Action B) → Action B
◌>>=◌ m f s = elim (m s).0 [ ok a ↦ f a (m s).1 | err e ↦ (err e, (m s).1) ]

abbrev pub ◌>>◌ : {A B : Type 0} → Action A → Action B → Action B
m >> k = m >>= λ _. k

-- `try: m; except ...: handler`
abbrev pub try_except : {A : Type 0} → Action A → (Error → Action A) → Action A
try_except m handler s = elim (m s).0 [ ok a ↦ (ok a, (m s).1) | err e ↦ handler e (m s).1 ]

-- What a query of the session sees.
unfoldable pub view : Session → Tables
view s = apply_all s.pending s.committed

abbrev pub query : {A : Type 0} → (Tables → A) → Action A
query f s = (ok (f (view s)), s)

-- `session.add`, and the change of a loaded record.
abbrev pub add : Write → Action ⊤
add w s = (ok tt, record s { pending = s.pending ++ w ∷ [] })

unfoldable pub uuid4 : Action ℕ
uuid4 s = (ok s.fresh, record s { fresh = s.fresh + 1 })

-- The other sessions' commits come in.
unfoldable pub arrive : Session → Session
arrive s = elim s.arrivals [
  | [] ↦ s
  | ws ∷ rest ↦ record s { committed = apply_all ws s.committed; arrivals = rest }
]

abbrev pub checked : Session → Option Error
checked s = elim (first_violation s.pending s.committed) [
  | none ↦ none
  | some c ↦ some (integrity_error c)
]

-- `session.flush`
unfoldable pub flush : Action ⊤
unfolding arrive
flush s = elim (checked (arrive s)) [ none ↦ (ok tt, arrive s) | some e ↦ (err e, arrive s) ]

-- `SqlAlchemyUnitOfWork.commit`: what is still to be sent is sent first.
unfoldable pub commit : Action ⊤
unfolding view
commit s = elim (checked s) [
  | none ↦ (ok tt, record s { committed = view s; pending = [] })
  | some e ↦ (err e, s)
]

-- `SqlAlchemyUnitOfWork.rollback`
unfoldable pub rollback : Action ⊤
rollback s = (ok tt, record s { pending = [] })

-- `UnitOfWork`, and `DeferredCommitUnitOfWork` whose commit is left to its caller
pub data UnitOfWork : Type 0 where
  sql_alchemy deferred_commit : UnitOfWork

unfoldable pub commit_of : UnitOfWork → Action ⊤
commit_of sql_alchemy = commit
commit_of deferred_commit = pure tt

-- Both roll the session back: `build_deferred_grant_credit_command_use_case` passes `session.rollback`.
unfoldable pub rollback_of : UnitOfWork → Action ⊤
rollback_of _ = rollback

-- `OutboxEventPublisher.publish`: a row for each event, in the same session.
unfoldable pub publish : List Event → Action ⊤
publish [] = pure tt
publish (e ∷ es) = add (Write.insert_outbox_event e) >> publish es

-- What a step that has returned, or raised, leaves of the rest of the block.
module _ {A B : Type 0} (m : Action A) (f : A → Action B) (s : Session) {s' : Session} where
  pub bind_ok : {a : A} → m s ≡ (ok a, s') → (m >>= f) s ≡ f a s'
  bind_ok h = ap (λ r. elim r.0 [ ok a ↦ f a r.1 | err e ↦ (err e, r.1) ]) h

  pub bind_err : {e : Error} → m s ≡ (err e, s') → (m >>= f) s ≡ (err e, s')
  bind_err h = ap (λ r. elim r.0 [ ok a ↦ f a r.1 | err e ↦ (err e, r.1) ]) h

module _ {A : Type 0} (m : Action A) (handler : Error → Action A) (s : Session) {s' : Session} where
  pub except_ok : {a : A} → m s ≡ (ok a, s') → try_except m handler s ≡ (ok a, s')
  except_ok h = ap (λ r. elim r.0 [ ok a ↦ (ok a, r.1) | err e ↦ handler e r.1 ]) h

  pub except_err : {e : Error} → m s ≡ (err e, s') → try_except m handler s ≡ handler e s'
  except_err h = ap (λ r. elim r.0 [ ok a ↦ (ok a, r.1) | err e ↦ handler e r.1 ]) h

pub pending-arrive : (s : Session) → (arrive s).pending ≡ s.pending
unfolding arrive
pending-arrive s = ground arith

pub flush_fails :
    (s : Session) {k : Constraint}
    → first_violation s.pending (arrive s).committed ≡ some k
    → flush s ≡ (err (integrity_error k), arrive s)
unfolding flush arrive
flush_fails s h = ground arith

pub flush_succeeds :
    (s : Session)
    → first_violation s.pending (arrive s).committed ≡ none
    → flush s ≡ (ok tt, arrive s)
unfolding flush arrive
flush_succeeds s h = ground arith

pub commit_succeeds :
    (s : Session)
    → first_violation s.pending s.committed ≡ none
    → commit s ≡ (ok tt, record s { committed = view s; pending = [] })
unfolding commit
commit_succeeds s h = ground arith

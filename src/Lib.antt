-- ===== src/Lib.antt =====
-- The backend of Receipt Keeper: credits that pay for receipt recognition, promotions that grant them,
-- the outbox that delivers domain events, the recognition of receipts, authentication, and scheduled
-- notifications. The library models these, the database session they share, and the warranty periods and
-- the expiry of receipts. Paths are from the repository's root.
--
-- The parts and their files:
--
-- Prelude, Prelude/Tests, Prelude/Int, Prelude/Lists: Boolean tests, Python's integers and list searches
-- over the native numbers; Prelude/Text: `str.strip`. Events: the domain events of credits and promotions.
--
-- Core/Errors: app/core/domain/exceptions.py and the modules' exceptions, as values of a result type.
-- Core/Validation: app/core/domain/validation.py, the notification that gathers failed validations, as the
-- state of a computation; Posts is about what such a computation returns.
--
-- Database, Database/Laws, Database/Session: the tables of the `orm` modules as lists of rows, the writes
-- of the repositories, the unique constraints with the rows they forbid, and an SQLAlchemy session with
-- its pending writes (app/core/db/session.py, unit_of_work.py, outbox/publisher.py). A coroutine is a
-- function from a session to a result and a session. What other sessions commit comes in at a flush only,
-- from a list that is given; a query sees the committed rows with the session's own writes on top.
-- A deferred commit (app/core/application/unit_of_work.py) leaves the writes pending.
--
-- Credits: app/modules/credits. Values and Domain are domain/value_objects.py and domain/model.py;
-- Repository is infrastructure/persistence with the mapper; Commands is application/commands, each
-- `execute` as one function named for its use case (grant_credit_execute, reserve_credit_execute, ...).
-- Laws, Ledger and the modules below Commands prove things about them. The specification is the ledger of
-- Credits/Ledger: the counts stored for a user are the sums of the grants and of the uses in the
-- transaction log.
--
-- Promotions: app/modules/promotions. Domain, Repository and Keys are domain/model.py,
-- infrastructure/persistence and the idempotency keys of the use cases; Redemption is
-- application/commands/redemption_executor.py with the port to the credits module from dependencies.py;
-- Commands is the three redemption use cases. Eligibility, KeyLaws, Redeemed, Limits, Refused, Replay,
-- Twice and Lost prove things about them. Monthly is jobs/ensure_monthly_recharge_promotion.py from the
-- month's specification on, with proofs below it. The text of a UUID is a parameter `str`, of which
-- Promotions/KeyLaws states what is relied on; so is the lowercasing of a code.
--
-- Core/Outbox: app/core/db/outbox, relay.py and immediate_dispatch.py, over an abstract payload. Decoding
-- an event is a parameter. The table is a list of rows; a step is one committed change, so interleavings
-- of workers are sequences of steps (Claims, Steps, Contents, Fencing), and a batch says by a function what
-- other workers do between its transactions, and answers what it handed to the dispatcher (Due, Batch,
-- Retries). Immediate is about the delivery after the
-- response. The loop of a batch is bounded by `batch_size` in the source, and that is its measure here.
-- Core/Serialization: app/core/db/outbox/serialization.py, the registry and the payloads, with RoundTrip
-- and Merged about them.
--
-- Receipts: app/modules/receipts. Dates and Warranty are the dates and the warranty functions of
-- domain/model.py, with the status conditions of infrastructure/persistence/listing.py; Period and Status
-- prove things about them. Expiring is the paged query of
-- infrastructure/persistence/notification_candidates.py and the loop over its pages in
-- app/modules/notifications/application/warranty_expiry_notifications.py, the one function that runs on
-- fuel: each page but the last moves the cursor past at least one row, so more fuel than rows is enough.
-- Pages and AllPages prove this.
--
-- Ocr: app/modules/ocr. Domain is domain/model.py with the value objects, Policy the tests on what was
-- extracted with domain/exceptions.py, Commands the use case, which reserves and finalizes a credit by the
-- commands of Credits. The OCR provider is a parameter. Accepted is about receipts that are read, Charged
-- about the credit.
--
-- Auth: app/modules/auth. Domain is the domain; Store the tables with their unique constraints and the
-- session of one request; Repository and Tokens are infrastructure/persistence/credential_repository.py;
-- Commands is application. Requests are served one after another (the advisory locks and row locks of
-- the source see to that); Steps is the relation of a store to the store after requests of any kind. Keeps,
-- Requests and Logins are about conditions that all requests keep, Ensures and Rotation about what a refresh
-- ensures, Ended, Once and Renewed about sessions and tokens.
--
-- Notifications: app/modules/notifications. Rules and Valid are domain/schedule_rule.py and the checks of its
-- table, Due, Cadence and Rendering domain/due_notification.py, Job the job of
-- application/commands/create_due_notifications with the creator and the repository of occurrences;
-- Bound, Reserved, Tally and Twice are about the job.
--
-- Tests: concrete inputs.
--
-- Identifiers, instants and durations are natural numbers: a UUID is drawn from a counter, which makes it
-- new, and instants count microseconds. Not modelled: the other modules
-- of app/modules (example, files, usage, users); of receipts the commands and listings; of notifications
-- the settings, push tokens and deliveries; of OCR the provider's client; the token issuers and
-- identity providers; the HTTP layer and the settings, the listing of transactions, the events of the
-- authentication requests, and `OutboxRelay.run_forever`, which repeats
-- `run_once`. Display messages of errors and columns that no query reads are left out. Of the database's
-- constraints the unique ones are modelled, and of the check constraints the pairing of a transaction's
-- reason with its action; the other checks repeat what the domain objects enforce. The widths of columns
-- are not modelled: counts and amounts are unbounded integers, where the database has 32 bits, and texts
-- have any length, where an idempotency key has at most 255 characters and most texts a limit. A value that does
-- not fit its column is refused at the flush, which the model does not show: what is said of a grant or a
-- redemption that is committed is meant for values that fit.
pub mod Prelude
pub mod Core
pub mod Events
pub mod Credits
pub mod Auth
pub mod Notifications
pub mod Ocr
pub mod Promotions
pub mod Database
pub mod Tests
pub mod Receipts

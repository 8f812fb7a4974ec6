-- ===== src/Credits.antt =====
-- app/modules/credits: balances of a user's credits, and the commands that grant and spend them.
pub mod Values
pub mod Domain
pub mod Repository
pub mod Laws
pub mod Ledger
pub mod Commands

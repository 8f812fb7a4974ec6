-- ===== src/Auth.antt =====
-- app/modules/auth: credentials, sessions and refresh tokens.
pub mod Domain
pub mod Store
pub mod Repository
pub mod Tokens
pub mod Commands
pub mod Keeps
pub mod Requests
pub mod Logins
pub mod Steps
pub mod Ended
pub mod Ensures
pub mod Rotation
pub mod Once
pub mod Renewed

-- ===== src/Core.antt =====
-- app/core: exceptions, accumulated validation and the outbox.
pub mod Errors
pub mod Validation
pub mod Serialization
pub mod Outbox

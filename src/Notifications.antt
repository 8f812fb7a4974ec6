-- ===== src/Notifications.antt =====
-- app/modules/notifications: the rules of scheduled notifications, when they are due, and the job that
-- creates them.
pub mod Rules
pub mod Valid
pub mod Due
pub mod Cadence
pub mod Job
pub mod Bound
pub mod Reserved
pub mod Tally
pub mod Twice
pub mod Rendering

-- ===== src/Receipts.antt =====
-- app/modules/receipts: warranty periods, their status, and the receipts that expire on a day.
pub mod Dates
pub mod Warranty
pub mod Period
pub mod Status
pub mod Expiring
pub mod Pages
pub mod AllPages

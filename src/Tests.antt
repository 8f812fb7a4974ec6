-- ===== src/Tests.antt =====
-- Concrete inputs at which the theorems are applied.
mod Credits
mod Promotions
mod Redemptions
mod Receipts
mod Monthly
mod Outbox
mod Serialization
mod Pages
mod Auth
mod Ocr
mod Notifications

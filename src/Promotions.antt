-- ===== src/Promotions.antt =====
-- app/modules/promotions: promotions, their codes, and redemptions that grant credits.
pub mod Domain
pub mod Repository
pub mod Eligibility
pub mod Keys
pub mod KeyLaws
pub mod Redemption
pub mod Commands
pub mod Redeemed
pub mod Limits
pub mod Refused
pub mod Replay
pub mod Twice
pub mod Lost
pub mod Monthly

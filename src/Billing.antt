-- ===== src/Billing.antt =====
-- modules/billing: the payment review and the subscriptions.
mod Db
pub mod Payments
pub mod Subscriptions
pub mod Developer
pub mod Plans
pub mod Cron
pub mod Overrides
pub mod Users
pub mod Examples
pub use Db.*

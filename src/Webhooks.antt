-- ===== src/Webhooks.antt =====
-- modules/webhooks: how a delivery is attempted and retried.
mod Delivery
unfoldable pub use Delivery.*
mod Service
unfoldable pub use Service.*
pub mod Attempts
mod Subscribed
pub mod Dispatch
mod Tests

-- ===== src/Signing.antt =====
-- common/utils/webhook-signing.util.ts: the signature header of a webhook delivery.
mod Header
unfoldable pub use Header.*
pub mod Verified
mod Tests

-- ===== src/RateLimit.antt =====
-- common/rate-limit and common/guards/tier-throttler.guard.ts: hourly request limits by tier.
mod Check
unfoldable pub use Check.*
pub mod Bounds
pub mod Window
pub mod Auth
mod Tests

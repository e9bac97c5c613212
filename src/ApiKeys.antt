-- ===== src/ApiKeys.antt =====
-- modules/auth/api-key.service.ts and the key branch of common/guards/api-key.guard.ts: the life of
-- developer API keys.
mod Service
unfoldable pub use Service.*
pub mod Retired
pub mod LastUse
pub mod Created
pub mod Defaults
mod Tests

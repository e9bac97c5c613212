-- ===== src/Profiles.antt =====
-- modules/me/me.service.ts: what a member does with its own account.
mod Service
unfoldable pub use Service.*
pub mod Emails
mod Tests

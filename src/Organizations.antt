-- ===== src/Organizations.antt =====
-- modules/organizations/organization.service.ts: organizations and their members.
mod Service
unfoldable pub use Service.*
pub mod Owners
pub mod Members
mod Tests

-- ===== src/Registration.antt =====
-- modules/auth/auth.service.ts: the registration of an organization with its first member.
mod Register
unfoldable pub use Register.*
pub mod Registered
pub mod SignIn
mod Signing
mod Tests

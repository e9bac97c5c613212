-- ===== src/Sessions.antt =====
-- modules/auth/auth.service.ts: logging in, refreshing and logging out.
mod Tokens
unfoldable pub use Tokens.*
pub mod Once
pub mod Session
pub mod Examples
mod Tests

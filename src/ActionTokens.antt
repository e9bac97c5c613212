-- ===== src/ActionTokens.antt =====
-- modules/auth/auth.service.ts: the tokens that reset a password or verify an e-mail address.
mod Tokens
unfoldable pub use Tokens.*
pub mod Spent
pub mod Verified
pub mod Resent
mod Tests

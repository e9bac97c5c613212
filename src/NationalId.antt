-- ===== src/NationalId.antt =====
-- National IDs: the mock NIDA lookup of modules/kyc/kyc.controller.ts, the pattern that
-- modules/auth/master-core-snapshot.controller.ts publishes, and the generated citizens of
-- modules/utilities/test-data.service.ts.
mod Defs
unfoldable pub use Defs.*
pub mod Laws
mod Tests

-- ===== src/Sandbox.antt =====
-- modules/sandbox: simulated payments.
mod Charge
unfoldable pub use Charge.*
pub mod Balanced
pub mod Settled
mod Tests

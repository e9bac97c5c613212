-- ===== src/Payroll.antt =====
-- modules/kyc/rra-payroll.service.ts, the tax endpoint of modules/kyc/kyc.controller.ts and the
-- published bracket table of modules/auth/master-core-snapshot.controller.ts.
-- A salary is a whole number of francs here; the routes also take fractions. A product with a
-- decimal rate is an exact fraction, which `Math.round` takes to the nearest whole number, halves
-- upwards.
mod Brackets
mod Deductions
pub use Brackets.*
pub use Deductions.*
pub mod Tax
pub mod Net
mod Tests
